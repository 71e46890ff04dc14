-- ===== src/Together/Tests.antt =====
-- Amy and Joe, with the server between them.
mod Visit
mod Receipt
use me2u.Base.{ℕ, Bool, ◌≡◌, refl, true, false, List, [], ◌∷◌, ◌++◌, some, arith}
use me2u.CString.{Bytes, lit, NoZero, strcmp_eq}
use me2u.System.{Machine, Effect, wrote, Read, got, ok, woke, traced}
use me2u.Protocol.{maxline}
use me2u.Cli.State.{Client}
use me2u.Cli.Invariant.{IsValid}
use me2u.Cli.Main.{initial}
use me2u.Cli.Conversation.{Talk, Event, said, gone, chats, listed, event_bytes, lines_of}
use me2u.Cli.Conversation.View.{observed, View}
use me2u.Server.{User, Server, on_data}
use me2u.Server.Promise.{leaves, served}
use me2u.Window.{Window, recv_msg_c, window_loop}
use me2u.Window.Screen.{shown}
use me2u.Together.{inbox, Ready, client_run}
use me2u.Together.Chats.{Linked, chat_together}
use me2u.Together.Answers.{list_together}
use me2u.Together.Leaving.{leave_together}

abbrev amy : User
amy = record { name = lit "amy"; conn = 7; addr = 1 }

abbrev joe : User
joe = record { name = lit "joe"; conn = 8; addr = 2 }

abbrev server : Machine Server
server = record {
  os = record { reads = []; spawns = []; trace = [] };
  globals = record { users = amy ∷ joe ∷ []; closed_conns = [] };
}

-- A client that has a window for the other one.
abbrev client : Bytes → List Read → Machine Client
client other reads = record {
  os = record { reads = reads; spawns = []; trace = [] };
  globals = record initial {
    full_buf = some [];
    max_size_of_full_buf = maxline;
    maxfdpl = 4;
    users =
        record {
          username = other;
          to_cnt = 0;
          ot_cnt = 0;
          rd = 4;
          wrt = 5;
          active = true;
          pid = 77;
        }
        ∷ [];
  };
}

abbrev talk : Bytes → Talk
talk other = record { windows = (other, 5) ∷ []; spawns = []; input = true }

abbrev window : List Read → Machine Window
window reads = record {
  os = record { reads = reads; spawns = []; trace = [] };
  globals = record { rd = 4; wrt = 5; rset = []; buf = [] };
}

client-View : (other : Bytes) (reads : List Read) → View 3 (client other reads) (talk other)
client-View other reads = record {
  windows = refl;
  spawns = refl;
  holds = record { text_is = refl; no_zero = tt; has_room = omega arith; size_ge = omega arith };
  below = omega arith;
}

client-IsValid : (other : Bytes) (reads : List Read) → NoZero other → IsValid 3 (client other reads)
client-IsValid other reads nz = record {
  text = [];
  holds = record { text_is = refl; no_zero = tt; has_room = omega arith; size_ge = omega arith };
  fits = omega arith;
  registry = record { named = (nz, tt); distinct = (tt, tt); apart = ((λ e. omega arith), tt) };
  asked = λ fd e. cc;
  fresh = tt;
}

server-Linked : Linked server amy joe
server-Linked = record {
  a_at = refl;
  b_at = refl;
  others = [];
  b_first = refl;
  words = ((omega arith, omega arith), ((omega arith, omega arith), tt));
  a_word = (omega arith, omega arith);
  b_word = (omega arith, omega arith);
  all_open = (refl, (refl, tt));
  a_open = refl;
  b_open = refl;
}

abbrev typed : Event
typed = chats (lit "joe") (lit "hi\n")

abbrev came : Event
came = said (lit "amy") (lit "hi\n")

amy_types : Ready 3 (client (lit "joe") (got (lit "/chat joe hi\n") ∷ [])) (talk (lit "joe")) typed
amy_types = record {
  view = client-View (lit "joe") (got (lit "/chat joe hi\n") ∷ []);
  valid = client-IsValid (lit "joe") (got (lit "/chat joe hi\n") ∷ []) (omega arith);
  reads = refl;
  fits = (omega arith, omega arith, (refl, (refl, (refl, tt))));
  other = λ e. cc;
}

joe_hears : Ready 3 (client (lit "amy") (got (event_bytes came) ∷ [])) (talk (lit "amy")) came
joe_hears = record {
  view = client-View (lit "amy") (got (event_bytes came) ∷ []);
  valid = client-IsValid (lit "amy") (got (event_bytes came) ∷ []) (omega arith);
  reads = refl;
  fits = (omega arith, omega arith, (refl, (refl, (refl, tt))));
  other = λ e. cc;
}

abbrev after_hi : Machine Server
after_hi = traced server (wrote 8 (lit "FROM amy hi\n\r\n\r\n") ∷ [])

-- The window has the read end of a pipe.
abbrev read_only : ℕ → Bool
read_only fd = false

chat_together_example :
    (observed
        (client_run 3
          (talk (lit "joe"))
          typed
          (client (lit "joe") (got (lit "/chat joe hi\n") ∷ []))).0.os.trace
      ≡ wrote 5 (lit "hi\n") ∷ wrote 3 (lit "TO joe hi\n\r\n\r\n") ∷ [])
    × (on_data 7 1 (lit "TO joe hi\n\r\n\r\n") server ≡ (after_hi, ok true))
    × (observed
          (client_run 3
            (talk (lit "amy"))
            came
            (client (lit "amy") (got (lit "FROM amy hi\n\r\n\r\n") ∷ []))).0.os.trace
        ≡ wrote 5 (lit "hi\n") ∷ wrote 3 (lit "MORF amy hi\n\r\n\r\n") ∷ [])
    × ((window_loop read_only (woke (4 ∷ []) ∷ []) (window (got (lit "hi\n") ∷ []))).0.os.trace
        ≡ shown recv_msg_c (lit "> ") (lit "hi\n"))
    × (on_data 8 2 (lit "MORF amy hi\n\r\n\r\n") after_hi ≡ (after_hi, ok true))
unfolding strcmp_eq
chat_together_example =
    chat_together server amy joe 3 3 5 5 (client (lit "joe") (got (lit "/chat joe hi\n") ∷ []))
      (client (lit "amy") (got (event_bytes came) ∷ [])) (talk (lit "joe")) (talk (lit "amy"))
      (window (got (lit "hi\n") ∷ [])) read_only (lit "hi\n") server-Linked amy_types refl refl
      joe_hears refl refl (omega arith, (λ e. cc), omega arith) (λ e. cc) (omega arith, omega arith)
      (omega arith)

abbrev roster : Event
roster = listed (lit " amy joe")

amy_lists : Ready 3 (client (lit "joe") (got (event_bytes roster) ∷ [])) (talk (lit "joe")) roster
amy_lists = record {
  view = client-View (lit "joe") (got (event_bytes roster) ∷ []);
  valid = client-IsValid (lit "joe") (got (event_bytes roster) ∷ []) (omega arith);
  reads = refl;
  fits = (omega arith, omega arith, tt);
  other = λ e. cc;
}

list_together_example :
    (on_data 7 1 (lit "LISTU\r\n\r\n") server
      ≡ (traced server (wrote 7 (lit "UTSIL  amy joe\r\n\r\n") ∷ []), ok true))
    × (observed
          (client_run 3
            (talk (lit "joe"))
            roster
            (client (lit "joe") (got (lit "UTSIL  amy joe\r\n\r\n") ∷ []))).0.os.trace
        ≡ lines_of (lit "amy" ∷ lit "joe" ∷ []))
list_together_example =
    list_together server amy 3 (client (lit "joe") (got (event_bytes roster) ∷ []))
      (talk (lit "joe"))
      (((λ e. cc), omega arith, omega arith), (((λ e. cc), omega arith, omega arith), tt))
      (refl, (refl, tt)) refl amy_lists

-- Joe leaves.
abbrev farewell : Event
farewell = gone (lit "joe")

amy_sees :
    Ready 3 (client (lit "joe") (got (event_bytes farewell) ∷ [])) (talk (lit "joe")) farewell
amy_sees = record {
  view = client-View (lit "joe") (got (event_bytes farewell) ∷ []);
  valid = client-IsValid (lit "joe") (got (event_bytes farewell) ∷ []) (omega arith);
  reads = refl;
  fits = (omega arith, omega arith, tt);
  other = λ e. cc;
}

leave_together_example :
    let left =
      client_run 3
        (talk (lit "joe"))
        farewell
        (client (lit "joe") (got (lit "UOFF joe\r\n\r\n") ∷ [])) in
    (on_data 8 2 (lit "BYE\r\n\r\n") server ≡ (served joe leaves server, ok true))
    × (inbox 7 (served joe leaves server).os.trace ≡ lit "UOFF joe\r\n\r\n" ∷ [])
    × View 3 left.0 (talk (lit "joe"))
    × (observed left.0.os.trace
        ≡ wrote 1 (lit "Client closed with the name of = ") ∷ wrote 1 (lit "joe") ∷ [])
leave_together_example =
    leave_together server joe amy 3 (client (lit "joe") (got (event_bytes farewell) ∷ []))
      (talk (lit "joe")) (((((omega arith), (omega arith)), tt), (tt, tt)), (refl, (refl, tt)))
      (1, refl) (0, refl) ((omega arith), (omega arith)) amy_sees
