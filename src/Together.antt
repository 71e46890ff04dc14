-- ===== src/Together.antt =====
-- The programs of hw1_cli, client.c and chat.c, with the server of hw1_server/server.py.
--
-- What one program writes on a connection is what the other reads from it, each message in one read.
pub mod Chats
pub mod Answers
pub mod Leaving
pub mod Receipts
pub mod Visits
pub mod Wires
pub mod Sent
pub mod Replies
pub mod Session
mod Tests
use me2u.Base.{ℕ, ◌≡◌, ◌≢◌, List, [], ◌∷◌, ◌++◌, some, map, All, not, if◌then◌else◌, ◌==◌}
use me2u.CString.{Bytes, lit}
use me2u.System.{
  Machine, Result, Effect, wrote, overrun, underrun, shut_wr, closed, reported, spawned, Read, got,
  Selected,
}
use me2u.Protocol.{ending, stdin_fd}
use me2u.Cli.State.{Client}
use me2u.Cli.Chat.{chat_loop}
use me2u.Cli.Conversation.{Talk, Event, event_reads, event_select, window_of, IsEvent}
use me2u.Cli.Conversation.View.{View}
use me2u.Cli.Invariant.{IsValid}

-- What is written to a descriptor, in order.
abbrev pub inbox : ℕ → List Effect → List Bytes
inbox conn [] = []
inbox conn (wrote fd b ∷ es) = let rest = inbox conn es in if fd == conn then b ∷ rest else rest
inbox conn (overrun a b ∷ es) = inbox conn es
inbox conn (underrun a ∷ es) = inbox conn es
inbox conn (shut_wr fd ∷ es) = inbox conn es
inbox conn (closed fd ∷ es) = inbox conn es
inbox conn (reported b ∷ es) = inbox conn es
inbox conn (spawned b r w ∷ es) = inbox conn es

-- The same at the other end.
abbrev pub arrive : List Bytes → List Read
arrive [] = []
arrive (b ∷ bs) = got b ∷ arrive bs

-- A client in its main loop, at an event.
pub record Ready (sockfd : ℕ) (m : Machine Client) (t : Talk) (e : Event) : Type 0 where
  pub view : View sockfd m t
  pub valid : IsValid sockfd m
  pub reads : m.os.reads ≡ event_reads e
  pub fits : IsEvent e
  pub other : sockfd ≢ stdin_fd

-- Its main loop on the event.
abbrev pub client_run : ℕ → Talk → Event → Machine Client → Machine Client × Result (Unit {0})
client_run sockfd t e m = chat_loop sockfd (not t.input) (event_select sockfd e ∷ []) m
