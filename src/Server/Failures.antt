-- ===== src/Server/Failures.antt =====
-- Where hw1_server/server.py does not answer, or ends with an exception: names that are taken,
-- messages that arrive together, connections that are closed.
use me2u.Base.{
  ℕ, ◌≡◌, refl, sym, ap, ◌∙◌, true, List, [], ◌∷◌, ◌++◌, some, elem, All, Bool-cases, inl, inr,
  append_assoc, arith,
}
use me2u.CString.{Bytes, lit}
use me2u.System.{Machine, Read, got, failed, ok, crashed, continue_with, pure}
use me2u.Protocol.{ending}
use me2u.Server.{
  User, Server, eq_text, add_ending, send, find_user_to_send_msg_to, send_from, get_name_from_addr,
  user_at, on_to, answer_to, on_text, on_data, received, handle_user, name_of,
}
use me2u.Server.Text.{
  NoReturn, NoReturn-append, remove_ending-append, remove_ending-end, split_name-append,
}
use me2u.Server.Promise.{Request, says, leaves, request_bytes, named, IsProper, IsOpen, served}
use me2u.Server.Sends.{named-same, named-other}
use me2u.Server.Handlers.{request_bytes-NoReturn, on_text-served}
use me2u.Server.Threads.{handle_user-served}

handle_user-closed :
    (conn addr : ℕ) (next : Read) (rest : List Read) (m : Machine Server)
    → elem conn m.globals.closed_conns ≡ true
    → handle_user conn addr (next ∷ rest) m ≡ (m, crashed)
unfolding handle_user received
handle_user-closed conn addr failed rest m h = refl
handle_user-closed conn addr (got bytes) rest m h = rw h refl

-- `BYE` is answered, but the loop goes on with the closed connection: the next `recv` raises an
-- exception, and that is how the thread ends. The user is on the list at its address, shares the connection
-- with nobody, and no connection of a user is closed.
pub handle_user-leaves :
    (me : User) (next : Read) (rest : List Read) (m : Machine Server)
    → IsProper m.globals.users me leaves
    → IsOpen m.globals.closed_conns me
    → All (IsOpen m.globals.closed_conns) m.globals.users
    → handle_user me.conn me.addr (got (request_bytes leaves ++ ending) ∷ next ∷ rest) m
      ≡ (served me leaves m, crashed)
handle_user-leaves me next rest m p mine all =
    handle_user-served me leaves (next ∷ rest) m p (omega arith) mine all
    ∙ handle_user-closed me.conn me.addr next rest (served me leaves m) (ground arith)

-- Two messages that come in one `recv` are run together: the second is taken for the end of the text of the
-- first, is delivered with it, and is not answered. The first is a proper text, there is no carriage return
-- in the second, and no connection of a user is closed.
pub on_data-joined :
    (me : User) (name text : Bytes) (second : Request) (m : Machine Server)
    → IsProper m.globals.users me (says name text)
    → NoReturn (request_bytes second)
    → IsOpen m.globals.closed_conns me
    → All (IsOpen m.globals.closed_conns) m.globals.users
    → on_data me.conn me.addr
        ((request_bytes (says name text) ++ ending) ++ (request_bytes second ++ ending))
        m
      ≡ (served me (says name (text ++ request_bytes second)) m, ok true)
unfolding on_data
on_data-joined me name text second m (word, whole, one, at_addr) clean mine all =
    let said = request_bytes (says name text) in
    let next = request_bytes second in
    ap (λ s. on_text me.conn me.addr s m)
      (remove_ending-append said (next ++ ending)
          (request_bytes-NoReturn m.globals.users me (says name text) (word, whole, one, at_addr))
        ∙ ap (said ++◌) (remove_ending-end next clean)
        ∙ ap (lit "TO " ++◌) (append_assoc name (b' ' ∷ text) next))
    ∙ on_text-served m me all mine (says name (text ++ next))
        (word, whole, NoReturn-append text next one clean, at_addr)

send-gone :
    (m : Machine Server) (conn : ℕ) (bytes : Bytes)
    → elem conn m.globals.closed_conns ≡ true
    → send conn bytes m ≡ (m, crashed)
unfolding send
send-gone m conn bytes h = rw h refl

send_from-gone :
    (u : User) (text sender : Bytes) (m : Machine Server)
    → elem u.conn m.globals.closed_conns ≡ true
    → send_from u text (some sender) m ≡ (m, crashed)
unfolding send_from
send_from-gone u text sender m gone =
    ap (λ r. continue_with r (λ _. pure true))
      (send-gone m u.conn (add_ending (lit "FROM " ++ sender ++ b' ' ∷ text)) gone)

find_user-gone :
    (users us : List User) (u : User) (name text sender : Bytes) (m : Machine Server)
    → named name users ≡ u ∷ us
    → elem u.conn m.globals.closed_conns ≡ true
    → find_user_to_send_msg_to users name text (some sender) m ≡ (m, crashed)
unfolding find_user_to_send_msg_to
find_user-gone [] us u name text sender m first gone = cc
find_user-gone (v ∷ users) us u name text sender m first gone =
    elim (Bool-cases (eq_text v.name name)) [
      | inl same ↦
          let it : v ≡ u = cc (first, named-same v users name same) in
          let shut : elem v.conn m.globals.closed_conns ≡ true = rw it gone in
          rw same (send_from-gone v text sender m shut)
      | inr other ↦ rw other (
          find_user-gone users us u name text sender m
            (sym (named-other v users name other) ∙ first) gone)
    ]

on_to-gone :
    (me u : User) (us : List User) (name text : Bytes) (m : Machine Server)
    → user_at m.globals.users me.addr ≡ some me
    → named name m.globals.users ≡ u ∷ us
    → elem u.conn m.globals.closed_conns ≡ true
    → on_to me.conn me.addr (some (name, text)) m ≡ (m, crashed)
unfolding on_to get_name_from_addr
on_to-gone me u us name text m at_addr first gone =
    ap
      (λ o.
        continue_with (find_user_to_send_msg_to m.globals.users name text (name_of o) m)
          (answer_to me.conn name))
      at_addr
    ∙ ap (λ r. continue_with r (answer_to me.conn name))
        (find_user-gone m.globals.users us u name text me.name m first gone)

-- A text for a user whose connection the server has closed, without taking the user off the list: the
-- exception ends the thread of the sender, to whom nothing is said. The text is proper, and that user is the
-- first of the name.
pub on_data-gone :
    (me u : User) (us : List User) (name text : Bytes) (m : Machine Server)
    → IsProper m.globals.users me (says name text)
    → named name m.globals.users ≡ u ∷ us
    → elem u.conn m.globals.closed_conns ≡ true
    → on_data me.conn me.addr (request_bytes (says name text) ++ ending) m ≡ (m, crashed)
unfolding on_data on_text
on_data-gone me u us name text m (word, clean, one, at_addr) first gone =
    ap (λ s. on_text me.conn me.addr s m)
      (remove_ending-end (request_bytes (says name text))
        (request_bytes-NoReturn m.globals.users me (says name text) (word, clean, one, at_addr)))
    ∙ ap (λ o. on_to me.conn me.addr o m) (split_name-append name text word)
    ∙ on_to-gone me u us name text m at_addr first gone
