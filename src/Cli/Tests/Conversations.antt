-- ===== src/Cli/Tests/Conversations.antt =====
-- Conversations: with a user who has a window and one who gets one, and a whole session.
use me2u.Base.{◌≡◌, refl, true, false, List, [], ◌∷◌, ◌++◌, some, arith, ap, All}
use me2u.CString.{Bytes, lit}
use me2u.System.{
  Machine, Effect, wrote, spawned, shut_wr, closed, Read, got, woke, waiting, ok, exited,
}
use me2u.Cli.State.{Client}
use me2u.Cli.Invariant.{IsValid}
use me2u.Cli.Text.{help_string}
use me2u.Cli.Users.{sigchild_handler}
use me2u.Cli.Users.Signals.{sigchild_handler_known}
use me2u.Cli.Chat.{chat_round, chat_loop}
use me2u.Cli.Conversation.{
  Talk, Event, said, chats, quits, quiet, asks_help, respond, play, reads_of, IsEvent,
}
use me2u.Cli.Invariant.{ApartSpawn}
use me2u.Cli.Conversation.Arrivals.{Arrival, AreArrivals, events_of, all_reads, all_selects}
use me2u.Cli.Conversation.View.{observed, View}
use me2u.Cli.Conversation.Events.{chat_round-respond}
use me2u.Cli.Conversation.Parting.{says_bye, hangs_up, farewell_read}
use me2u.Cli.Conversation.Refinement.{chat_loop-play, chat_loop_farewell}
use me2u.Cli.Conversation.Failures.{Failure, unknown_receipt, failure_bytes, FailsIn, Fails}
use me2u.Cli.Conversation.Exits.{chat_loop-Fails}
use me2u.Cli.Schedule.{Runs, done, round, signal}
use me2u.Cli.Schedule.Interleaving.{Reached, Runs-IsValid, Runs-play}
use me2u.Cli.Main.{main, initial}
use me2u.Cli.Main.Session.{
  Session, IsSession, arguments, session_reads, session_selects, first_talk, greetings,
  main_session,
}
use me2u.Cli.Tests.Data.{net, window, eve, client, client-Holds, client-IsValid}

abbrev talking : List Read → Machine Client
talking reads =
    let m = client (eve ∷ []) reads in record m { globals = record m.globals { maxfdpl = 4 } }

abbrev with_eve : Talk
with_eve = record { windows = (lit "eve", 5) ∷ []; spawns = window ∷ []; input = true }

talking-View : (reads : List Read) → View 3 (talking reads) with_eve
talking-View reads = record {
  windows = refl;
  spawns = refl;
  holds = client-Holds (eve ∷ []) reads;
  below = omega arith;
}

abbrev at_once : Event → Arrival
at_once e = record { event = e; parts = [] }

-- Eve's message comes in two reads.
abbrev talk : List Arrival
talk =
    record { event = said (lit "eve") (lit "yo"); parts = lit "FROM e" ∷ [] }
    ∷ at_once quiet
    ∷ at_once (chats (lit "amy") (lit "hi"))
    ∷ at_once quits
    ∷ []

abbrev after_talk : Talk
after_talk = record { windows = (lit "eve", 5) ∷ (lit "amy", 5) ∷ []; spawns = []; input = false }

abbrev talk_effects : List Effect
talk_effects =
    wrote 5 (lit "yo")
    ∷ wrote 3 (lit "MORF eve yo\r\n\r\n")
    ∷ spawned (lit "amy") 4 5
    ∷ wrote 5 (lit "hi")
    ∷ wrote 3 (lit "TO amy hi\r\n\r\n")
    ∷ wrote 3 (lit "BYE\r\n\r\n")
    ∷ shut_wr 3
    ∷ []

talk_plays : play 3 (events_of talk) with_eve ≡ some (after_talk, talk_effects)
unfolding me2u.CString.strcmp_eq
talk_plays = refl

talk-AreArrivals : AreArrivals talk
talk-AreArrivals = (
  record {
    sent = tt;
    name = (refl, (refl, (refl, tt)));
    no_zero = omega arith;
    msg = lit "FROM eve yo";
    line = omega arith;
    message = refl;
    chunks = ((omega arith, (λ e. cc), omega arith), tt);
    enough = omega arith;
    last = (omega arith, (λ e. cc), omega arith);
    whole = refl;
  },
  (
    (tt, omega arith, tt),
    ((omega arith, omega arith, (refl, (refl, (refl, tt)))), ((omega arith, omega arith, tt), tt)),
  ),
)

chat_loop-play_example :
    let after = chat_loop 3 false (all_selects 3 talk) (talking (all_reads talk)) in
    (after.1 ≡ waiting) × View 3 after.0 after_talk × (observed after.0.os.trace ≡ talk_effects)
chat_loop-play_example =
    chat_loop-play 3 talk (talking (all_reads talk)) with_eve after_talk talk_effects
      (talking-View (all_reads talk)) (client-IsValid (all_reads talk)) refl talk-AreArrivals
      (λ e. cc) talk_plays

abbrev talk_cut_off : List Read
talk_cut_off = all_reads talk ++ farewell_read hangs_up ∷ []

chat_loop_farewell_example :
    let after =
      chat_loop 3 false (all_selects 3 talk ++ woke (3 ∷ []) ∷ []) (talking talk_cut_off) in
    (after.1 ≡ ok tt) × (observed after.0.os.trace ≡ talk_effects)
chat_loop_farewell_example =
    chat_loop_farewell 3 talk hangs_up [] [] (talking talk_cut_off) with_eve after_talk talk_effects
      (talking-View talk_cut_off) (client-IsValid talk_cut_off) refl talk-AreArrivals (λ e. cc)
      talk_plays

-- Eve's window is closed, and then she writes.
abbrev told : Event
told = said (lit "eve") (lit "yo")

abbrev told_talking : Machine Client
told_talking = talking (reads_of (told ∷ []))

abbrev closed_window : Machine Client
closed_window = (sigchild_handler (77 ∷ []) told_talking).0

window_closes : (sigchild_handler (77 ∷ []) told_talking).1 ≡ ok tt
window_closes = ap (λ r. r.1) (sigchild_handler_known (77 ∷ []) told_talking (refl, tt))

closed_window-View : View 3 closed_window with_eve
unfolding sigchild_handler me2u.Cli.Users.deactivate_at me2u.Cli.Users.find_user_pid
closed_window-View = record {
  windows = refl;
  spawns = refl;
  holds = record { text_is = refl; no_zero = tt; has_room = omega arith; size_ge = omega arith };
  below = omega arith;
}

closed_window_reads : closed_window.os.reads ≡ reads_of (told ∷ [])
unfolding sigchild_handler me2u.Cli.Users.deactivate_at me2u.Cli.Users.find_user_pid
closed_window_reads = refl

abbrev told_effects : List Effect
told_effects = wrote 5 (lit "yo") ∷ wrote 3 (lit "MORF eve yo\r\n\r\n") ∷ []

told_plays : play 3 (told ∷ []) with_eve ≡ some (with_eve, told_effects)
unfolding me2u.CString.strcmp_eq
told_plays = refl

told_responds : respond 3 told with_eve ≡ some (with_eve, told_effects)
unfolding me2u.CString.strcmp_eq
told_responds = refl

told-IsEvent : IsEvent told
told-IsEvent = (omega arith, omega arith, (refl, (refl, (refl, tt))))

abbrev told_machine : Machine Client
told_machine = (chat_round 3 false (woke (3 ∷ [])) closed_window).0

told_run : Runs 3 told_talking false (woke (3 ∷ []) ∷ []) told_machine false
told_run = signal (77 ∷ []) window_closes (
    round (woke (3 ∷ [])) false
      (chat_round-respond closed_window-View [] told with_eve told_effects closed_window_reads
        told-IsEvent (λ e. cc) told_responds).result
      done)

Runs-IsValid_example : IsValid 3 told_machine
Runs-IsValid_example = Runs-IsValid told_run (client-IsValid (reads_of (told ∷ [])))

Runs-play_example : Reached told_talking told_machine with_eve told_effects 3 false
Runs-play_example =
    Runs-play told_run (told ∷ []) with_eve with_eve told_effects refl refl
      (talking-View (reads_of (told ∷ []))) refl (told-IsEvent, tt) (λ e. cc) told_plays

-- The user asks for help, gets a message of a new user, logs out, and the server says goodbye.
abbrev bob : Session
bob = record {
  sockfd = 3;
  name = lit "bob";
  hostaddr = lit "127.0.0.1";
  port = lit "5555";
  text = lit "hello";
  arrivals = at_once asks_help ∷ at_once (said (lit "amy") (lit "hi")) ∷ at_once quits ∷ [];
  farewell = says_bye;
}

bob-IsSession : IsSession net bob
bob-IsSession = record {
  socket = refl;
  other = λ e. cc;
  address = refl;
  accepted = refl;
  no_option = λ e. cc;
  named = omega arith;
  short = omega arith;
  no_zero = omega arith;
  fits = omega arith;
  fit = (
    (omega arith, omega arith, tt),
    ((omega arith, omega arith, (refl, (refl, (refl, tt)))), ((omega arith, omega arith, tt), tt)),
  );
}

abbrev bob_machine : Machine Client
bob_machine = record {
  os = record { reads = session_reads bob []; spawns = window ∷ []; trace = [] };
  globals = initial;
}

abbrev bob_talk : Talk
bob_talk = record { windows = (lit "amy", 5) ∷ []; spawns = []; input = false }

abbrev bob_effects : List Effect
bob_effects =
    wrote 1 help_string
    ∷ spawned (lit "amy") 4 5
    ∷ wrote 5 (lit "hi")
    ∷ wrote 3 (lit "MORF amy hi\r\n\r\n")
    ∷ wrote 3 (lit "BYE\r\n\r\n")
    ∷ shut_wr 3
    ∷ []

bob_plays :
    play 3 (events_of bob.arrivals) (first_talk (window ∷ [])) ≡ some (bob_talk, bob_effects)
unfolding me2u.CString.strcmp_eq
bob_plays = refl

window-Apart : All (ApartSpawn 3) (window ∷ [])
window-Apart = (omega arith, tt)

main_session_example :
    let after = main net (arguments (lit "client") bob) (session_selects bob []) bob_machine in
    (after.1 ≡ exited 0)
    × (observed after.0.os.trace ≡ greetings bob ++ bob_effects ++ closed 3 ∷ [])
main_session_example =
    main_session net bob (lit "client") [] [] bob_machine bob_talk bob_effects refl refl
      window-Apart bob-IsSession bob_plays

-- A receipt for a user who has no window.
abbrev astray : Failure
astray = unknown_receipt (lit "amy")

abbrev astray_machine : Machine Client
astray_machine = talking (all_reads (at_once told ∷ []) ++ got (failure_bytes astray) ∷ [])

astray-FailsIn : FailsIn with_eve astray
unfolding me2u.CString.strcmp_eq
astray-FailsIn = refl

chat_loop-Fails_example :
    Fails astray_machine told_effects
      (chat_loop 3 false (all_selects 3 (at_once told ∷ []) ++ woke (3 ∷ []) ∷ []) astray_machine)
chat_loop-Fails_example =
    chat_loop-Fails 3 (at_once told ∷ []) astray [] [] astray_machine with_eve with_eve told_effects
      (talking-View (all_reads (at_once told ∷ []) ++ got (failure_bytes astray) ∷ []))
      (client-IsValid (all_reads (at_once told ∷ []) ++ got (failure_bytes astray) ∷ [])) refl
      (told-IsEvent, tt) (λ e. cc) told_plays astray-FailsIn (omega arith) (omega arith)
