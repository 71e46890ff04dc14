-- ===== src/Cli/Schedule.antt =====
-- The rounds of `regular_chat` in hw1_cli/client.c, with the signals that come between them: a run of
-- the loop as a sequence of steps.
pub mod Interleaving
use me2u.Base.{ℕ, ◌≡◌, Bool, List, [], ◌∷◌}
use me2u.System.{Machine, Selected, ok}
use me2u.Cli.State.{Client}
use me2u.Cli.Users.{sigchild_handler}
use me2u.Cli.Chat.{next, chat_round}

-- A run from one machine and value of `stdineof` to another, on these outcomes of `select`: a round
-- that goes on takes the next of them, and the handler of SIGCHLD, for the children that have ended,
-- takes none.
pub data Runs (sockfd : ℕ)
    : Machine Client → Bool → List Selected → Machine Client → Bool → Type 0 where
  done : {m : Machine Client} {eof : Bool} → Runs sockfd m eof [] m eof
  round :
      {m m' : Machine Client} {eof eof' : Bool} {ss : List Selected} (s : Selected) (later : Bool)
      → (chat_round sockfd eof s m).1 ≡ ok (next, later)
      → Runs sockfd (chat_round sockfd eof s m).0 later ss m' eof'
      → Runs sockfd m eof (s ∷ ss) m' eof'
  signal :
      {m m' : Machine Client} {eof eof' : Bool} {ss : List Selected} (pids : List ℕ)
      → (sigchild_handler pids m).1 ≡ ok tt
      → Runs sockfd (sigchild_handler pids m).0 eof ss m' eof'
      → Runs sockfd m eof ss m' eof'
