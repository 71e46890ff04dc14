-- ===== src/Cli/Conversation.antt =====
-- What the main loop promises, without its buffers, descriptor sets and lists: how a conversation goes
-- on, from the messages of the server and the lines of the user.
pub mod View
pub mod Names
pub mod Answers
pub mod Server
pub mod Lines
pub mod Rounds
pub mod Messages
pub mod Events
pub mod Parting
pub mod Chunks
pub mod Arrivals
pub mod Refinement
pub mod Failures
pub mod Exits
use me2u.Base.{
  ℕ, ◌+◌, ◌<◌, Bool, true, false, List, [], ◌∷◌, ◌++◌, Option, none, some, length, All, ◌≡◌,
  if◌then◌else◌,
}
use me2u.CString.{Bytes, lit, strcmp_eq, strtok_spaces, NoZero}
use me2u.System.{Effect, wrote, spawned, shut_wr, Read, got, Selected, woke, timed_out, Spawn}
use me2u.Protocol.{maxline, stdin_fd, ending}
use me2u.Cli.Text.{ends_word, help_string}

-- The windows by the names of their users, with the descriptors that are written to; the windows that
-- can still be opened; and whether the user's input is open.
pub record Talk : Type 0 where
  pub windows : List (Bytes × ℕ)
  pub spawns : List Spawn
  pub input : Bool

-- The messages of the server, the lines of the user, and the time that passes without either.
pub data Event : Type 0 where
  listed : Bytes → Event
  delivered : Bytes → Event
  nobody : Bytes → Event
  said : Bytes → Bytes → Event
  gone : Bytes → Event
  asks_help asks_list : Event
  chats : Bytes → Bytes → Event
  quits : Event
  quiet : Event

abbrev pub window_of : Bytes → List (Bytes × ℕ) → Option ℕ
window_of name [] = none
window_of name ((other, fd) ∷ ws) =
    let rest = window_of name ws in if strcmp_eq other name then some fd else rest

abbrev pub Outcome : Type 0
Outcome = Option (Talk × List Effect)

-- A new window, if one can be opened: `fork` has given the child's pid.
abbrev pub forked_window : Bytes → Bytes → Talk → Spawn → List Spawn → Option ℕ → Outcome
forked_window name text t p ps none = none
forked_window name text t p ps (some child) = some (
  record t { windows = t.windows ++ (name, p.wrt) ∷ []; spawns = ps },
  spawned name p.rd p.wrt ∷ wrote p.wrt text ∷ [],
)

abbrev pub open_window : Bytes → Bytes → Talk → List Spawn → Outcome
open_window name text t [] = none
open_window name text t (p ∷ ps) = forked_window name text t p ps p.pid

-- A text goes to the window of that name, or to a new one.
abbrev pub deliver_to : Bytes → Bytes → Talk → Option ℕ → Outcome
deliver_to name text t none = open_window name text t t.spawns
deliver_to name text t (some fd) = some (t, wrote fd text ∷ [])

abbrev pub deliver : Bytes → Bytes → Talk → Outcome
deliver name text t = deliver_to name text t (window_of name t.windows)

-- A receipt for a name with a window.
abbrev pub receipt : Talk → Option ℕ → Outcome
receipt t none = none
receipt t (some fd) = some (t, [])

abbrev pub and_then : Outcome → List Effect → Outcome
and_then none fx = none
and_then (some (t, before)) fx = some (t, before ++ fx)

abbrev pub prepend : List Effect → Outcome → Outcome
prepend fx none = none
prepend fx (some (t, more)) = some (t, fx ++ more)

-- A user's line is read only while the input is open.
abbrev pub if_open : Talk → Outcome → Outcome
if_open t r = if t.input then r else none

abbrev pub lines_of : List Bytes → List Effect
lines_of [] = []
lines_of (word ∷ words) = wrote 1 word ∷ wrote 1 (b'\n' ∷ []) ∷ lines_of words

-- What an event does; `none` where the client gives up: a receipt for a user that it does not know,
-- or no window to open.
abbrev pub respond : ℕ → Event → Talk → Outcome
respond sockfd (listed names) t = some (t, lines_of (strtok_spaces names))
respond sockfd (delivered name) t = receipt t (window_of name t.windows)
respond sockfd (nobody name) t =
    some (t, wrote 1 (lit "No, user = ") ∷ wrote 1 name ∷ wrote 1 (lit " exists.\n") ∷ [])
respond sockfd (said name text) t =
    and_then (deliver name text t)
      (wrote sockfd (lit "MORF " ++ (name ++ b' ' ∷ text) ++ ending) ∷ [])
respond sockfd (gone name) t =
    some (t, wrote 1 (lit "Client closed with the name of = ") ∷ wrote 1 name ∷ [])
respond sockfd asks_help t = if_open t (some (t, wrote 1 help_string ∷ []))
respond sockfd asks_list t = if_open t (some (t, wrote sockfd (lit "LISTU\r\n\r\n") ∷ []))
respond sockfd (chats name text) t = if_open t (
    and_then (deliver name text t)
      (wrote sockfd (lit "TO " ++ (name ++ b' ' ∷ text) ++ ending) ∷ []))
respond sockfd quits t =
    if_open t
      (some (record t { input = false }, wrote sockfd (lit "BYE\r\n\r\n") ∷ shut_wr sockfd ∷ []))
respond sockfd quiet t = some (t, [])

-- One event after the other.
abbrev pub play_on : Outcome → (Talk → Outcome) → Outcome
play_on none f = none
play_on (some (t, fx)) f = prepend fx (f t)

abbrev pub play : ℕ → List Event → Talk → Outcome
play sockfd [] t = some (t, [])
play sockfd (e ∷ es) t = play_on (respond sockfd e t) (play sockfd es)

-- The bytes in which an event comes.
abbrev pub event_bytes : Event → Bytes
event_bytes (listed names) = (lit "UTSIL " ++ names) ++ ending
event_bytes (delivered name) = (lit "OT " ++ name) ++ ending
event_bytes (nobody name) = (lit "EDNE " ++ name) ++ ending
event_bytes (said name text) = (lit "FROM " ++ (name ++ b' ' ∷ text)) ++ ending
event_bytes (gone name) = (lit "UOFF " ++ name) ++ ending
event_bytes asks_help = lit "/help\n"
event_bytes asks_list = lit "/listu\n"
event_bytes (chats name text) = lit "/chat " ++ (name ++ b' ' ∷ text)
event_bytes quits = lit "/logout\n"
event_bytes quiet = []

-- What `read` gives, and what `select` has reported.
abbrev pub event_reads : Event → List Read
event_reads quiet = []
event_reads e = got (event_bytes e) ∷ []

abbrev pub event_select : ℕ → Event → Selected
event_select sockfd asks_help = woke (stdin_fd ∷ [])
event_select sockfd asks_list = woke (stdin_fd ∷ [])
event_select sockfd (chats name text) = woke (stdin_fd ∷ [])
event_select sockfd quits = woke (stdin_fd ∷ [])
event_select sockfd quiet = timed_out
event_select sockfd _ = woke (sockfd ∷ [])

abbrev pub reads_of : List Event → List Read
reads_of [] = []
reads_of (e ∷ es) = event_reads e ++ reads_of es

abbrev pub selects_of : ℕ → List Event → List Selected
selects_of sockfd [] = []
selects_of sockfd (e ∷ es) = event_select sockfd e ∷ selects_of sockfd es

abbrev pub IsWord : Bytes → Type 0
IsWord name = All (λ c. ends_word c ≡ false) name

-- The name of a text is a word.
abbrev pub NameIsWord : Event → Type 0
NameIsWord (said name text) = IsWord name
NameIsWord (chats name text) = IsWord name
NameIsWord _ = Unit

-- An event that fits the buffer, has no zero, and whose name is a word.
abbrev pub IsEvent : Event → Type 0
IsEvent e = NoZero (event_bytes e) × (length (event_bytes e) < maxline) × NameIsWord e
