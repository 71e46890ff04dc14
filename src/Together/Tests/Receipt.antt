-- ===== src/Together/Tests/Receipt.antt =====
-- Amy has written to Joe, who has a client of the first version.
use me2u.Base.{◌≡◌, refl, true, [], ◌∷◌, arith}
use me2u.CString.{lit, strcmp_eq}
use me2u.System.{Machine, wrote, got, ok, waiting, traced}
use me2u.Cli.Conversation.{Event, delivered, event_bytes}
use me2u.Cli.Conversation.View.{observed, View}
use me2u.First.Strings.{First}
use me2u.First.Chat.{on_buf}
use me2u.Server.{on_data}
use me2u.Together.{inbox, Ready, client_run}
use me2u.Together.Receipts.{receipt_together}
use me2u.Together.Tests.{amy, joe, server, client, talk, client-View, client-IsValid}

abbrev old_client : Machine First
old_client = record {
  os = record { reads = []; spawns = []; trace = [] };
  globals = record { current_user_name = lit "joe"; rset = []; buf = [] };
}

abbrev confirmed : Event
confirmed = delivered (lit "joe")

amy_hears :
    Ready 3 (client (lit "joe") (got (event_bytes confirmed) ∷ [])) (talk (lit "joe")) confirmed
amy_hears = record {
  view = client-View (lit "joe") (got (event_bytes confirmed) ∷ []);
  valid = client-IsValid (lit "joe") (got (event_bytes confirmed) ∷ []) (omega arith);
  reads = refl;
  fits = (omega arith, omega arith, tt);
  other = λ e. cc;
}

receipt_together_example :
    let told =
      client_run 3
        (talk (lit "joe"))
        confirmed
        (client (lit "joe") (got (lit "OT joe\r\n\r\n") ∷ [])) in
    ((on_buf 6 (lit "FROM amy hi\r\n\r\n") old_client).1 ≡ ok true)
    × (inbox 6 (on_buf 6 (lit "FROM amy hi\r\n\r\n") old_client).0.os.trace
        ≡ lit "MORF amy\r\n\r\n" ∷ [])
    × (on_data 8 2 (lit "MORF amy\r\n\r\n") server
        ≡ (traced server (wrote 7 (lit "OT joe\r\n\r\n") ∷ []), ok true))
    × (told.1 ≡ waiting)
    × View 3 told.0 (talk (lit "joe"))
    × (observed told.0.os.trace ≡ [])
unfolding strcmp_eq
receipt_together_example =
    receipt_together server amy joe 3 6 5 (client (lit "joe") (got (event_bytes confirmed) ∷ []))
      old_client (talk (lit "joe")) (lit "hi")
      (((((omega arith), (omega arith)), tt), (tt, tt)), (refl, (refl, tt))) (1, refl) refl
      ((λ e. cc), omega arith, omega arith) (omega arith) (omega arith) (omega arith) amy_hears refl
