-- ===== src/Server/Sends.antt =====
-- The messages that the server sends to several users: `find_user_to_send_msg_to`,
-- `send_ot_to_usr`, the broadcast of `UOFF`, and the list of the names.
use me2u.Base.{
  ℕ, ◌≡◌, ◌≢◌, refl, sym, ap, ◌∙◌, true, false, List, [], ◌∷◌, ◌++◌, some, map, elem, All,
  Bool-cases, inl, inr, append_assoc, append-nil,
}
use me2u.CString.{Bytes, lit}
use me2u.System.{Machine, Effect, wrote, ok, continue_with, traced}
use me2u.Server.{
  User, Server, eq_text, add_ending, send, check_user_exists, get_users, find_user_to_send_msg_to,
  send_from, send_ot, send_ot_to_usr, broadcast_off, answer_to,
}
use me2u.Server.Text.{eq_text→eq}
use me2u.Server.Promise.{named, post, said_to, names_of, IsOpen}

pub traced_twice :
    (m : Machine Server) (es fs : List Effect) → traced (traced m es) fs ≡ traced m (es ++ fs)
traced_twice m es fs =
    ap (λ t. record m { os = record m.os { trace = t } }) (append_assoc m.os.trace es fs)

pub traced_nil : (m : Machine Server) → traced m [] ≡ m
traced_nil m = ap (λ t. record m { os = record m.os { trace = t } }) (append-nil m.os.trace)

pub send-IsOpen :
    (m : Machine Server) (conn : ℕ) (bytes : Bytes)
    → elem conn m.globals.closed_conns ≡ false
    → send conn bytes m ≡ (traced m (wrote conn bytes ∷ []), ok tt)
unfolding send
send-IsOpen m conn bytes h = rw h refl

pub get_users-names_of : (us : List User) → get_users us ≡ names_of us
unfolding get_users
get_users-names_of [] = refl
get_users-names_of (u ∷ us) = ap (λ r. (b' ' ∷ u.name) ++ r) (get_users-names_of us)

-- Nobody has a name that is free.
pub check_user_exists-free :
    (us : List User) (name : Bytes)
    → All (λ u. u.name ≢ name) us
    → check_user_exists us name ≡ false
unfolding check_user_exists
check_user_exists-free [] name h = refl
check_user_exists-free (u ∷ us) name (ne, h) = elim (Bool-cases (eq_text u.name name)) [
  | inl same ↦ absurd (ne (eq_text→eq u.name name same))
  | inr other ↦ rw other (check_user_exists-free us name h)
]

-- One message to each of these users, in order.
pub broadcast_off-posts :
    (m : Machine Server) (us : List User) (name : Bytes)
    → All (IsOpen m.globals.closed_conns) us
    → broadcast_off us name m ≡ (traced m (map (λ u. post u (lit "UOFF " ++ name)) us), ok tt)
unfolding broadcast_off
broadcast_off-posts m [] name h = ap (λ n. (n, ok tt)) (sym (traced_nil m))
broadcast_off-posts m (u ∷ us) name (o, h) =
    let first = post u (lit "UOFF " ++ name) ∷ [] in
    ap (λ r. continue_with r (λ _. broadcast_off us name))
      (send-IsOpen m u.conn (add_ending (lit "UOFF " ++ name)) o)
    ∙ broadcast_off-posts (traced m first) us name h
    ∙ ap (λ n. (n, ok tt)) (traced_twice m first (map (λ v. post v (lit "UOFF " ++ name)) us))

pub named-same :
    (u : User) (us : List User) (name : Bytes)
    → eq_text u.name name ≡ true
    → named name (u ∷ us) ≡ u ∷ named name us
named-same u us name h = rw h refl

pub named-other :
    (u : User) (us : List User) (name : Bytes)
    → eq_text u.name name ≡ false
    → named name (u ∷ us) ≡ named name us
named-other u us name h = rw h refl

-- `OT` to each user of that name, in order.
pub send_ot_to_usr-named :
    (m : Machine Server) (us : List User) (name sender : Bytes)
    → All (IsOpen m.globals.closed_conns) us
    → send_ot_to_usr us name (some sender) m
      ≡ (traced m (map (λ u. post u (lit "OT " ++ sender)) (named name us)), ok tt)
unfolding send_ot_to_usr send_ot
send_ot_to_usr-named m [] name sender h = ap (λ n. (n, ok tt)) (sym (traced_nil m))
send_ot_to_usr-named m (u ∷ us) name sender (o, h) = elim (Bool-cases (eq_text u.name name)) [
  | inl same ↦
      let first = post u (lit "OT " ++ sender) ∷ [] in
      rw (named-same u us name same) (
        rw same (
          ap (λ r. continue_with r (λ _. send_ot_to_usr us name (some sender)))
            (send-IsOpen m u.conn (add_ending (lit "OT " ++ sender)) o)
          ∙ send_ot_to_usr-named (traced m first) us name sender h
          ∙ ap (λ n. (n, ok tt))
              (traced_twice m first (map (λ v. post v (lit "OT " ++ sender)) (named name us)))))
  | inr other ↦
      rw (named-other u us name other) (rw other (send_ot_to_usr-named m us name sender h))
]

-- `TO` by somebody with a name: the first user of that name gets the text, and if there is none the
-- sender is told.
pub on_to-said_to :
    (m : Machine Server) (us : List User) (me : User) (name text : Bytes)
    → All (IsOpen m.globals.closed_conns) us
    → IsOpen m.globals.closed_conns me
    → continue_with
        (find_user_to_send_msg_to us name text (some me.name) m)
        (answer_to me.conn name)
      ≡ (traced m (said_to me name text (named name us) ∷ []), ok true)
unfolding find_user_to_send_msg_to send_from answer_to
on_to-said_to m [] me name text h o =
    ap (λ r. continue_with r (λ _ n. (n, ok true)))
      (send-IsOpen m me.conn (add_ending (lit "EDNE " ++ name)) o)
on_to-said_to m (u ∷ us) me name text (o, h) mine = elim (Bool-cases (eq_text u.name name)) [
  | inl same ↦ rw (named-same u us name same) (
      rw same (
        ap (λ r. continue_with (continue_with r (λ _ n. (n, ok true))) (answer_to me.conn name))
          (send-IsOpen m u.conn (add_ending (lit "FROM " ++ me.name ++ b' ' ∷ text)) o)))
  | inr other ↦ rw (named-other u us name other) (rw other (on_to-said_to m us me name text h mine))
]
