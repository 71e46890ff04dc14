-- ===== src/Server/Promise.antt =====
-- What the server promises on a message of the protocol: an independent description of what
-- hw1_server/server.py sends and of the users it then has.
use me2u.Base.{if◌then◌else◌, ℕ, ◌≡◌, ◌≢◌, false, List, [], ◌∷◌, ◌++◌, some, map, elem, All}
use me2u.CString.{Bytes, lit}
use me2u.System.{Machine, Effect, wrote, closed}
use me2u.Protocol.{ending}
use me2u.Server.{User, Server, eq_text, user_at, without}
use me2u.Server.Text.{NoReturn, NoBlank}

-- The messages of a client.
pub data Request : Type 0 where
  hello : Request
  registers : Bytes → Request
  lists : Request
  says : Bytes → Bytes → Request
  confirms : Bytes → Request
  leaves : Request

abbrev pub request_bytes : Request → Bytes
request_bytes hello = lit "ME2U"
request_bytes (registers name) = lit "IAM " ++ name
request_bytes lists = lit "LISTU"
request_bytes (says name text) = lit "TO " ++ name ++ b' ' ∷ text
request_bytes (confirms name) = lit "MORF " ++ name
request_bytes leaves = lit "BYE"

-- The users with a name, in the order in which they came.
abbrev pub named : Bytes → List User → List User
named name [] = []
named name (u ∷ us) = let rest = named name us in if eq_text u.name name then u ∷ rest else rest

abbrev pub post : User → Bytes → Effect
post u bytes = wrote u.conn (bytes ++ ending)

-- A text goes to the first of its receivers, and without one its sender is told.
abbrev pub said_to : User → Bytes → Bytes → List User → Effect
said_to me name text [] = post me (lit "EDNE " ++ name)
said_to me name text (u ∷ us) = post u (lit "FROM " ++ me.name ++ b' ' ∷ text)

abbrev pub names_of : List User → Bytes
names_of [] = []
names_of (u ∷ us) = (b' ' ∷ u.name) ++ names_of us

-- What is sent on a message of `me`, where the users are these, and in which order.
abbrev pub replies : List User → User → Request → List Effect
replies us me hello = post me (lit "U2EM") ∷ []
replies us me (registers name) = post me (lit "MAI") ∷ post me (lit "MOTD Hello Human ") ∷ []
replies us me lists = post me (lit "UTSIL " ++ names_of us) ∷ []
replies us me (says name text) = said_to me name text (named name us) ∷ []
replies us me (confirms name) = map (λ u. post u (lit "OT " ++ me.name)) (named name us)
replies us me leaves =
    post me (lit "EYB")
    ∷ closed me.conn
    ∷ map (λ u. post u (lit "UOFF " ++ me.name)) (without us me.addr)

abbrev pub users_after : List User → User → Request → List User
users_after us me hello = us
users_after us me (registers name) = us ++ me ∷ []
users_after us me lists = us
users_after us me (says name text) = us
users_after us me (confirms name) = us
users_after us me leaves = without us me.addr

abbrev pub closed_after : List ℕ → User → Request → List ℕ
closed_after cs me hello = cs
closed_after cs me (registers name) = cs
closed_after cs me lists = cs
closed_after cs me (says name text) = cs
closed_after cs me (confirms name) = cs
closed_after cs me leaves = me.conn ∷ cs

-- When a message of `me` is in order: a new name is free, the other requests that name users are those
-- of a user, and who leaves shares the connection with nobody.
abbrev pub IsProper : List User → User → Request → Type 0
IsProper us me hello = Unit
IsProper us me (registers name) = (me.name ≡ name) × NoReturn name × All (λ u. u.name ≢ name) us
IsProper us me lists = Unit
IsProper us me (says name text) =
    NoBlank name × NoReturn name × NoReturn text × (user_at us me.addr ≡ some me)
IsProper us me (confirms name) = NoReturn name × (user_at us me.addr ≡ some me)
IsProper us me leaves =
    (user_at us me.addr ≡ some me) × All (λ u. u.conn ≢ me.conn) (without us me.addr)

abbrev pub IsOpen : List ℕ → User → Type 0
IsOpen cs u = elem u.conn cs ≡ false

-- The server behind the message.
abbrev pub served : User → Request → Machine Server → Machine Server
served me r m = record {
  os = record m.os { trace = m.os.trace ++ replies m.globals.users me r };
  globals = record {
    users = users_after m.globals.users me r;
    closed_conns = closed_after m.globals.closed_conns me r;
  };
}
