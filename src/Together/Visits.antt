-- ===== src/Together/Visits.antt =====
-- A whole visit: the client of a user, from the command line to its end, and the thread of the server that
-- answers it, each on what the other writes.
use me2u.Base.{ℕ, ◌≢◌, List, [], ◌∷◌, ◌++◌, All}
use me2u.CString.{Bytes, lit}
use me2u.Protocol.{ending}
use me2u.Cli.Conversation.{
  Talk, Event, listed, delivered, nobody, said, gone, asks_help, asks_list, chats, quits, quiet,
  event_bytes,
}
use me2u.Cli.Conversation.Arrivals.{Arrival}
use me2u.Cli.Conversation.Parting.{says_bye}
use me2u.Cli.Main.Session.{Session}
use me2u.Server.{User}
use me2u.Server.Promise.{
  Request, hello, registers, lists, says, leaves, request_bytes, names_of, named,
}

-- What a user types, before the `/logout` at the end.
pub data Line : Type 0 where
  help : Line
  list : Line
  writes : Bytes → Bytes → Line

-- The answer to a text: nothing, or that nobody has the name.
abbrev pub reply_to : Bytes → List User → List Event
reply_to name [] = nobody name ∷ []
reply_to name (u ∷ us) = []

-- A line, and the server's answer to it, where these are the users.
abbrev pub line_events : List User → Line → List Event
line_events us help = asks_help ∷ []
line_events us list = asks_list ∷ listed (names_of us) ∷ []
line_events us (writes name text) = chats name text ∷ reply_to name (named name us)

abbrev pub visit_events : List User → List Line → List Event
visit_events us [] = quits ∷ []
visit_events us (l ∷ ls) = line_events us l ++ visit_events us ls

-- What a line sends to the server.
abbrev pub line_requests : Line → List Request
line_requests help = []
line_requests list = lists ∷ []
line_requests (writes name text) = says name text ∷ []

abbrev pub requests_of : List Line → List Request
requests_of [] = leaves ∷ []
requests_of (l ∷ ls) = line_requests l ++ requests_of ls

abbrev pub visit_requests : Bytes → List Line → List Request
visit_requests name ls = hello ∷ registers name ∷ requests_of ls

-- The events that come from the server, in their bytes.
abbrev pub from_server : List Event → List Bytes
from_server [] = []
from_server (listed names ∷ es) = event_bytes (listed names) ∷ from_server es
from_server (delivered name ∷ es) = event_bytes (delivered name) ∷ from_server es
from_server (nobody name ∷ es) = event_bytes (nobody name) ∷ from_server es
from_server (said name text ∷ es) = event_bytes (said name text) ∷ from_server es
from_server (gone name ∷ es) = event_bytes (gone name) ∷ from_server es
from_server (asks_help ∷ es) = from_server es
from_server (asks_list ∷ es) = from_server es
from_server (chats name text ∷ es) = from_server es
from_server (quits ∷ es) = from_server es
from_server (quiet ∷ es) = from_server es

abbrev pub at_once : List Event → List Arrival
at_once [] = []
at_once (e ∷ es) = record { event = e; parts = [] } ∷ at_once es

-- The visit as a session of the client.
abbrev pub visit_session : ℕ → Bytes → Bytes → User → List User → List Line → Session
visit_session sockfd hostaddr port me us ls = record {
  sockfd = sockfd;
  name = me.name;
  hostaddr = hostaddr;
  port = port;
  text = lit "Hello Human ";
  arrivals = at_once (visit_events us ls);
  farewell = says_bye;
}

-- A text is for somebody else.
abbrev pub IsForOthers : User → List User → Line → Type 0
IsForOthers me us help = Unit
IsForOthers me us list = Unit
IsForOthers me us (writes name text) = All (λ u. u.conn ≢ me.conn) (named name us)

-- No window, and none that may be opened, is written to on the socket.
abbrev pub IsApart : ℕ → Talk → Type 0
IsApart sockfd t = All (λ w. w.1 ≢ sockfd) t.windows × All (λ p. p.wrt ≢ sockfd) t.spawns

-- What a client sends on an event.
abbrev pub outbox : List Event → List Bytes
outbox [] = []
outbox (said name text ∷ es) = (lit "MORF " ++ (name ++ b' ' ∷ text) ++ ending) ∷ outbox es
outbox (asks_list ∷ es) = lit "LISTU\r\n\r\n" ∷ outbox es
outbox (chats name text ∷ es) = (lit "TO " ++ (name ++ b' ' ∷ text) ++ ending) ∷ outbox es
outbox (quits ∷ es) = lit "BYE\r\n\r\n" ∷ outbox es
outbox (listed names ∷ es) = outbox es
outbox (delivered name ∷ es) = outbox es
outbox (nobody name ∷ es) = outbox es
outbox (gone name ∷ es) = outbox es
outbox (asks_help ∷ es) = outbox es
outbox (quiet ∷ es) = outbox es

-- The bytes of requests.
abbrev pub request_texts : List Request → List Bytes
request_texts [] = []
request_texts (r ∷ rs) = (request_bytes r ++ ending) ∷ request_texts rs
