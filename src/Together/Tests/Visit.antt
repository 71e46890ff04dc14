-- ===== src/Together/Tests/Visit.antt =====
-- Joe visits the server on which Amy is, and asks for the users, writes to her and to nobody, and leaves.
use me2u.Base.{◌≡◌, ◌≢◌, ℕ, ap, refl, true, false, List, [], ◌∷◌, some, arith}
use me2u.CString.{Bytes, lit, strcmp_eq}
use me2u.System.{Machine, Effect, wrote, spawned, shut_wr, Spawn, exited, crashed}
use me2u.Cli.State.{Client}
use me2u.Cli.Text.{help_string}
use me2u.Cli.Conversation.{Talk, play}
use me2u.Cli.Conversation.View.{observed}
use me2u.Cli.Main.{Network, main, initial}
use me2u.Cli.Main.Session.{
  Session, IsSession, arguments, session_reads, session_selects, first_talk,
}
use me2u.Server.{User, Server, handle_user}
use me2u.Server.Threads.{served_all, AreProper}
use me2u.Together.{inbox, arrive}
use me2u.Together.Visits.{Line, help, list, writes, visit_session, visit_events, visit_requests}
use me2u.Together.Session.{written, visit_together}

abbrev net : Network
net = record { socket = some 3; inet_pton = λ _. true; connect = λ _ _. true }

abbrev amy : User
amy = record { name = lit "amy"; conn = 7; addr = 1 }

abbrev joe : User
joe = record { name = lit "joe"; conn = 8; addr = 2 }

abbrev server : Machine Server
server = record {
  os = record { reads = []; spawns = []; trace = [] };
  globals = record { users = amy ∷ []; closed_conns = [] };
}

abbrev lines : List Line
lines = help ∷ list ∷ writes (lit "amy") (lit "hi\n") ∷ writes (lit "bob") (lit "hi\n") ∷ []

abbrev session : Session
session = visit_session 3 (lit "127.0.0.1") (lit "5555") joe (amy ∷ joe ∷ []) lines

abbrev pipes : List Spawn
pipes = record { rd = 4; wrt = 5; pid = some 77 } ∷ record { rd = 6; wrt = 7; pid = some 78 } ∷ []

abbrev client : Machine Client
client = record {
  os = record { reads = session_reads session []; spawns = pipes; trace = [] };
  globals = initial;
}

abbrev effects : List Effect
effects =
    wrote 1 help_string
    ∷ wrote 3 (lit "LISTU\r\n\r\n")
    ∷ wrote 1 (lit "amy")
    ∷ wrote 1 (lit "\n")
    ∷ wrote 1 (lit "joe")
    ∷ wrote 1 (lit "\n")
    ∷ spawned (lit "amy") 4 5
    ∷ wrote 5 (lit "hi\n")
    ∷ wrote 3 (lit "TO amy hi\n\r\n\r\n")
    ∷ spawned (lit "bob") 6 7
    ∷ wrote 7 (lit "hi\n")
    ∷ wrote 3 (lit "TO bob hi\n\r\n\r\n")
    ∷ wrote 1 (lit "No, user = ")
    ∷ wrote 1 (lit "bob")
    ∷ wrote 1 (lit " exists.\n")
    ∷ wrote 3 (lit "BYE\r\n\r\n")
    ∷ shut_wr 3
    ∷ []

abbrev end : Talk
end = record { windows = (lit "amy", 5) ∷ (lit "bob", 7) ∷ []; spawns = []; input = false }

plays : play 3 (visit_events (amy ∷ joe ∷ []) lines) (first_talk pipes) ≡ some (end, effects)
unfolding strcmp_eq me2u.CString.strtok_spaces me2u.CString.split_spaces me2u.CString.cstr
plays = refl

session-IsSession : IsSession net session
session-IsSession = record {
  socket = refl;
  other = λ e. cc;
  address = refl;
  accepted = refl;
  no_option = omega arith;
  named = omega arith;
  short = omega arith;
  no_zero = omega arith;
  fits = omega arith;
  fit = (
    (omega arith, omega arith, tt),
    (
      (omega arith, omega arith, tt),
      (
        (omega arith, omega arith, tt),
        (
          (omega arith, omega arith, (refl, (refl, (refl, tt)))),
          (
            (omega arith, omega arith, (refl, (refl, (refl, tt)))),
            ((omega arith, omega arith, tt), ((omega arith, omega arith, tt), tt)),
          ),
        ),
      ),
    ),
  );
}

not_joe : amy.name ≢ lit "joe"
not_joe e = absurd (omega (arith, ap first_byte e))
  where
    first_byte : Bytes → ℕ
    first_byte [] = 0
    first_byte (c ∷ s) = c

lines-AreProper : AreProper joe (visit_requests (lit "joe") lines) server
lines-AreProper = (
  tt,
  omega arith,
  refl,
  (refl, tt),
  (
    (refl, omega arith, (not_joe, tt)),
    omega arith,
    refl,
    (refl, tt),
    (
      tt,
      omega arith,
      refl,
      (refl, (refl, tt)),
      (
        (omega arith, omega arith, omega arith, refl),
        omega arith,
        refl,
        (refl, (refl, tt)),
        (
          (omega arith, omega arith, omega arith, refl),
          omega arith,
          refl,
          (refl, (refl, tt)),
          ((refl, ((omega arith), tt)), omega arith, refl, (refl, (refl, tt)), tt),
        ),
      ),
    ),
  ),
)

visit_together_example :
    let m = main net (arguments (lit "client") session) (session_selects session []) client in
    let thread = handle_user 8 2 (arrive (inbox 3 (written session effects))) server in
    (m.1 ≡ exited 0)
    × (observed m.0.os.trace ≡ written session effects)
    × (thread ≡ (served_all joe (visit_requests (lit "joe") lines) server, crashed))
    × (inbox 8 thread.0.os.trace
        ≡ lit "U2EM\r\n\r\n"
          ∷ lit "MAI\r\n\r\n"
          ∷ lit "MOTD Hello Human \r\n\r\n"
          ∷ lit "UTSIL  amy joe\r\n\r\n"
          ∷ lit "EDNE bob\r\n\r\n"
          ∷ lit "EYB\r\n\r\n"
          ∷ [])
visit_together_example =
    visit_together net (lit "127.0.0.1") (lit "5555") (lit "client") 3 client server joe lines end
      effects refl refl (omega arith) (omega arith) session-IsSession lines-AreProper
      (tt, (tt, ((omega arith), (tt, tt)))) plays
