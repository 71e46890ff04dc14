-- ===== src/Server.antt =====
-- The server, hw1_server/server.py.
--
-- Every connection has a thread that runs `handle_user`; they share the list of users. A text is taken
-- as its bytes, as it is where all of them are ASCII. A `send` is the effect `wrote`, and an exception,
-- which ends the thread, is the result `crashed`. What `print` shows is left out.
pub mod Text
pub mod Promise
pub mod Sends
pub mod Handlers
pub mod Distinct
pub mod Names
pub mod Threads
pub mod Failures
pub mod Race
pub mod Sound
mod Tests
use me2u.Base.{
  ℕ, zero, suc, Bool, true, false, ◌&&◌, ◌||◌, List, [], ◌∷◌, ◌++◌, Option, none, some, take, drop,
  elem, ◌==◌, if◌then◌else◌,
}
use me2u.CString.{Bytes, lit}
use me2u.System.{
  M, Read, got, failed, ◌>>=◌, ◌>>◌, pure, get, put, write, emit, crash, block, closed,
}
use me2u.Protocol.{ending}

pub record User : Type 0 where
  pub name : Bytes
  pub conn : ℕ
  pub addr : ℕ

-- The global `users`, and the connections on which `close` has been called.
pub record Server : Type 0 where
  pub users : List User
  pub closed_conns : List ℕ

-- `==` on strings.
abbrev pub eq_text : Bytes → Bytes → Bool
eq_text [] [] = true
eq_text [] (y ∷ t) = false
eq_text (x ∷ s) [] = false
eq_text (x ∷ s) (y ∷ t) = x == y && eq_text s t

-- `ending(string)`
abbrev pub add_ending : Bytes → Bytes
add_ending string = string ++ ending

-- `string.replace(ending, "")`, with so many bytes still to be left out.
abbrev pub replace_from : ℕ → Bytes → Bytes
replace_from skip [] = []
replace_from (suc skip) (c ∷ s) = replace_from skip s
replace_from zero (c ∷ s) =
    let found = replace_from 3 s in
    let other = replace_from 0 s in if eq_text (take 4 (c ∷ s)) ending then found else c ∷ other

-- `ending(string, "remove")`
unfoldable pub remove_ending : Bytes → Bytes
remove_ending string = replace_from 0 string

-- `conn.send`, which raises an exception on a connection that has been closed.
unfoldable pub send : ℕ → Bytes → M Server (Unit {0})
send conn bytes = do g ← get; if elem conn g.closed_conns then crash else write conn bytes

-- `conn.close()`
unfoldable pub close : ℕ → M Server (Unit {0})
close conn = do emit (closed conn); g ← get; put (record g { closed_conns = conn ∷ g.closed_conns })

unfoldable pub check_user_exists : List User → Bytes → Bool
check_user_exists [] name = false
check_user_exists (x ∷ users) name = eq_text x.name name || check_user_exists users name

abbrev pub user_at : List User → ℕ → Option User
user_at [] addr = none
user_at (i ∷ users) addr = let rest = user_at users addr in if i.addr == addr then some i else rest

abbrev pub name_of : Option User → Option Bytes
name_of none = none
name_of (some u) = some u.name

unfoldable pub get_name_from_addr : List User → ℕ → Option Bytes
get_name_from_addr users addr = name_of (user_at users addr)

unfoldable pub get_users : List User → Bytes
get_users [] = []
get_users (usr ∷ users) = b' ' ∷ usr.name ++ get_users users

-- A string that is put together with another must not be `None`.
abbrev pub not_none : {A : Type 0} → Option A → M Server A
not_none none = crash
not_none (some a) = pure a

-- `FROM` to the user that was found.
unfoldable pub send_from : User → Bytes → Option Bytes → M Server Bool
send_from i msg from_name = do
  sender ← not_none from_name
  send i.conn (add_ending (lit "FROM " ++ sender ++ b' ' ∷ msg))
  pure true

unfoldable pub find_user_to_send_msg_to : List User → Bytes → Bytes → Option Bytes → M Server Bool
find_user_to_send_msg_to [] name msg from_name = pure false
find_user_to_send_msg_to (i ∷ users) name msg from_name =
    let later = find_user_to_send_msg_to users name msg from_name in
    if eq_text i.name name then send_from i msg from_name else later

-- `OT` to one user.
unfoldable pub send_ot : User → Option Bytes → M Server (Unit {0})
send_ot i from_name = do sender ← not_none from_name; send i.conn (add_ending (lit "OT " ++ sender))

unfoldable pub send_ot_to_usr : List User → Bytes → Option Bytes → M Server (Unit {0})
send_ot_to_usr [] name from_name = pure tt
send_ot_to_usr (i ∷ users) name from_name = do
  if eq_text i.name name then send_ot i from_name else pure tt
  send_ot_to_usr users name from_name

-- `users.remove(to_rem)`, where `to_rem` is the first user with that address.
abbrev pub without : List User → ℕ → List User
without [] addr = []
without (i ∷ users) addr =
    let rest = without users addr in if i.addr == addr then users else i ∷ rest

-- `UOFF` to all users.
unfoldable pub broadcast_off : List User → Bytes → M Server (Unit {0})
broadcast_off [] name = pure tt
broadcast_off (i ∷ users) name = do
  send i.conn (add_ending (lit "UOFF " ++ name))
  broadcast_off users name

-- `remove_usr_by_addr`, from the user that its first loop has found.
unfoldable pub remove_user : ℕ → Option User → M Server (Unit {0})
unfolding send close broadcast_off
remove_user addr none = crash
remove_user addr (some to_rem) = do
  send to_rem.conn (add_ending (lit "EYB"))
  close to_rem.conn
  g ← get
  let rest = without g.users addr
  put (record g { users = rest })
  broadcast_off rest to_rem.name

unfoldable pub remove_usr_by_addr : ℕ → M Server (Unit {0})
unfolding remove_user
remove_usr_by_addr addr = do g ← get; remove_user addr (user_at g.users addr)

-- The last part of the branch on `IAM`: the approval, and the new user.
unfoldable pub approve : ℕ → ℕ → Bytes → M Server (Unit {0})
unfolding send
approve conn addr name = do
  send conn (add_ending (lit "MAI"))
  send conn (add_ending (lit "MOTD Hello Human "))
  g ← get
  put (record g { users = g.users ++ record { name = name; conn = conn; addr = addr } ∷ [] })

-- The branch on `IAM` with the list of users that the test has seen: whether the thread goes on.
unfoldable pub iam_seen : List User → ℕ → ℕ → Bytes → M Server Bool
unfolding approve
iam_seen seen conn addr name =
    if check_user_exists seen name then pure false else (approve conn addr name >> pure true)

-- The branch on `IAM`.
unfoldable pub on_iam : ℕ → ℕ → Bytes → M Server Bool
unfolding iam_seen
on_iam conn addr name = do g ← get; iam_seen g.users conn addr name

abbrev put_before : ℕ → Option (Bytes × Bytes) → Option (Bytes × Bytes)
put_before c none = none
put_before c (some (name, msg)) = some (c ∷ name, msg)

-- `split(' ', maxsplit=1)`, where it gives two strings.
abbrev pub split_name : Bytes → Option (Bytes × Bytes)
split_name [] = none
split_name (c ∷ s) =
    let later = put_before c (split_name s) in if c == b' ' then some ([], s) else later

-- The branch on `TO`, where nobody has the name.
unfoldable pub answer_to : ℕ → Bytes → Bool → M Server Bool
answer_to conn name true = pure true
answer_to conn name false = send conn (add_ending (lit "EDNE " ++ name)) >> pure true

unfoldable pub on_to : ℕ → ℕ → Option (Bytes × Bytes) → M Server Bool
unfolding answer_to
on_to conn addr none = crash
on_to conn addr (some (name, msg)) = do
  g ← get
  found ← find_user_to_send_msg_to g.users name msg (get_name_from_addr g.users addr)
  answer_to conn name found

-- The branches of `handle_user` on `new_str`: whether the thread goes on.
unfoldable pub on_text : ℕ → ℕ → Bytes → M Server Bool
unfolding on_iam on_to
on_text conn addr new_str = do
  g ← get
  if eq_text new_str (lit "ME2U")
      then (send conn (add_ending (lit "U2EM")) >> pure true)
      else if eq_text (take 3 new_str) (lit "IAM")
      then on_iam conn addr (drop 4 new_str)
      else if eq_text new_str (lit "LISTU")
      then (send conn (add_ending (lit "UTSIL " ++ get_users g.users)) >> pure true)
      else if eq_text (take 2 new_str) (lit "TO")
      then on_to conn addr (split_name (drop 3 new_str))
      else if eq_text (take 4 new_str) (lit "MORF")
      then (send_ot_to_usr g.users (drop 5 new_str) (get_name_from_addr g.users addr) >> pure true)
      else if eq_text new_str (lit "BYE")
      then (remove_usr_by_addr addr >> pure true)
      else (close conn >> pure true)

-- One round of the loop of `handle_user`, behind the `recv`.
unfoldable pub on_data : ℕ → ℕ → Bytes → M Server Bool
unfolding on_text
on_data conn addr bytes = on_text conn addr (remove_ending bytes)

-- What `recv(4096)` gives: an exception on a closed connection.
unfoldable pub received : ℕ → Read → M Server Bytes
received conn failed = crash
received conn (got bytes) = do
  g ← get
  if elem conn g.closed_conns then crash else pure (take 4096 bytes)

-- A `recv` for which nothing has come yet: it waits, and on a closed connection it raises an exception.
unfoldable pub recv_more : ℕ → M Server (Unit {0})
recv_more conn = do g ← get; if elem conn g.closed_conns then crash else block

-- The loop, on what comes from the connection.
unfoldable pub handle_user : ℕ → ℕ → List Read → M Server (Unit {0})
unfolding received recv_more
handle_user conn addr [] = recv_more conn
handle_user conn addr (r ∷ rest) = do
  bytes ← received conn r
  if eq_text bytes []
      then pure tt
      else (on_data conn addr bytes >>= λ on. if on then handle_user conn addr rest else pure tt)
