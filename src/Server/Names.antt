-- ===== src/Server/Names.antt =====
-- The names of the users: whatever the threads of hw1_server/server.py receive, no two users have the
-- same, if each round of a thread runs undisturbed.
use me2u.Base.{
  ℕ, ◌≢◌, Bool, true, false, List, [], ◌∷◌, ◌++◌, Option, none, some, elem, All, Bool-cases, inl,
  inr, take, drop,
}
use me2u.CString.{Bytes, lit}
use me2u.System.{M, Machine, get, put, pure, crash, ◌>>=◌, ◌>>◌}
use me2u.System.Keeps.{Keeps, continue_with-keeps, >>=-Keeps, >>-Keeps, if-Keeps}
use me2u.Server.{
  iam_seen, User, Server, eq_text, add_ending, not_none, send, close, check_user_exists,
  find_user_to_send_msg_to, send_from, send_ot, send_ot_to_usr, broadcast_off, get_name_from_addr,
  get_users, user_at, without, split_name, remove_ending, remove_user, remove_usr_by_addr, approve,
  on_iam, answer_to, on_to, on_text, on_data,
}
use me2u.Server.Handlers.{approve-served}
use me2u.Server.Distinct.{
  AreDistinct, HasDistinct, AreDistinct-append, without-AreDistinct, free-check_user_exists,
}

send-Keeps : (conn : ℕ) (bytes : Bytes) → Keeps HasDistinct (send conn bytes)
unfolding send
send-Keeps conn bytes = record {
  apply = λ m i. elim (Bool-cases (elem conn m.globals.closed_conns)) [
    | inl gone ↦ rw gone i
    | inr open_still ↦ rw open_still i
  ];
}

close-Keeps : (conn : ℕ) → Keeps HasDistinct (close conn)
unfolding close
close-Keeps conn = record { apply = λ m i. i }

pure-Keeps : {A : Type 0} (a : A) → Keeps HasDistinct (pure a)
pure-Keeps a = record { apply = λ m i. i }

crash-Keeps : {A : Type 0} → Keeps HasDistinct (crash {A = A})
crash-Keeps = record { apply = λ m i. i }

not_none-Keeps : {A : Type 0} (o : Option A) → Keeps HasDistinct (not_none o)
not_none-Keeps none = crash-Keeps
not_none-Keeps (some a) = pure-Keeps a

find_user-Keeps :
    (us : List User) (name text : Bytes) (sender : Option Bytes)
    → Keeps HasDistinct (find_user_to_send_msg_to us name text sender)
unfolding find_user_to_send_msg_to send_from
find_user-Keeps [] name text sender = pure-Keeps false
find_user-Keeps (u ∷ us) name text sender =
    if-Keeps (eq_text u.name name)
      (λ _. >>=-Keeps (not_none-Keeps sender) (λ from_name.
        >>-Keeps (send-Keeps u.conn (add_ending (lit "FROM " ++ from_name ++ b' ' ∷ text)))
          (pure-Keeps true)))
      (λ _. find_user-Keeps us name text sender)

send_ot_to_usr-Keeps :
    (us : List User) (name : Bytes) (sender : Option Bytes)
    → Keeps HasDistinct (send_ot_to_usr us name sender)
unfolding send_ot_to_usr send_ot
send_ot_to_usr-Keeps [] name sender = pure-Keeps tt
send_ot_to_usr-Keeps (u ∷ us) name sender =
    >>-Keeps
      (if-Keeps (eq_text u.name name)
        (λ _.
          >>=-Keeps (not_none-Keeps sender)
            (λ from_name. send-Keeps u.conn (add_ending (lit "OT " ++ from_name))))
        (λ _. pure-Keeps tt))
      (send_ot_to_usr-Keeps us name sender)

broadcast_off-Keeps : (us : List User) (name : Bytes) → Keeps HasDistinct (broadcast_off us name)
unfolding broadcast_off
broadcast_off-Keeps [] name = pure-Keeps tt
broadcast_off-Keeps (u ∷ us) name =
    >>-Keeps (send-Keeps u.conn (add_ending (lit "UOFF " ++ name))) (broadcast_off-Keeps us name)

-- What `remove_usr_by_addr` does behind the farewell.
abbrev take_off : ℕ → Bytes → M Server (Unit {0})
take_off addr name = get >>= λ g.
    put (record g { users = without g.users addr }) >> broadcast_off (without g.users addr) name

take_off-Keeps : (addr : ℕ) (name : Bytes) → Keeps HasDistinct (take_off addr name)
take_off-Keeps addr name = record {
  apply = λ m i.
      (broadcast_off-Keeps (without m.globals.users addr) name).apply
        (record m { globals = record m.globals { users = without m.globals.users addr } })
        (without-AreDistinct m.globals.users addr i);
}

remove_user-Keeps : (addr : ℕ) (o : Option User) → Keeps HasDistinct (remove_user addr o)
unfolding remove_user
remove_user-Keeps addr none = crash-Keeps
remove_user-Keeps addr (some u) =
    >>-Keeps (send-Keeps u.conn (add_ending (lit "EYB")))
      (>>-Keeps (close-Keeps u.conn) (take_off-Keeps addr u.name))

remove_usr_by_addr-Keeps : (addr : ℕ) → Keeps HasDistinct (remove_usr_by_addr addr)
unfolding remove_usr_by_addr
remove_usr_by_addr-Keeps addr = record {
  apply = λ m. (remove_user-Keeps addr (user_at m.globals.users addr)).apply m;
}

-- The approval of a name that is free.
approve-HasDistinct :
    (conn addr : ℕ) (name : Bytes) (m : Machine Server)
    → HasDistinct m
    → All (λ u. u.name ≢ name) m.globals.users
    → HasDistinct (approve conn addr name m).0
unfolding approve send
approve-HasDistinct conn addr name m d free = elim (Bool-cases (elem conn m.globals.closed_conns)) [
  | inl gone ↦ rw gone d
  | inr stands ↦
      rw (approve-served m conn addr name stands) (
        AreDistinct-append m.globals.users (record { name = name; conn = conn; addr = addr }) d
          free)
]

on_iam-Keeps : (conn addr : ℕ) (name : Bytes) → Keeps HasDistinct (on_iam conn addr name)
unfolding on_iam iam_seen
on_iam-Keeps conn addr name = record {
  apply = λ m i. elim (Bool-cases (check_user_exists m.globals.users name)) [
    | inl taken ↦ rw taken i
    | inr free ↦ rw free (
        continue_with-keeps (approve conn addr name m) (λ _. pure true)
          (approve-HasDistinct conn addr name m i
            (free-check_user_exists m.globals.users name free))
          (λ _. pure-Keeps true))
  ];
}

on_to-Keeps : (conn addr : ℕ) (o : Option (Bytes × Bytes)) → Keeps HasDistinct (on_to conn addr o)
unfolding on_to
on_to-Keeps conn addr none = crash-Keeps
on_to-Keeps conn addr (some (name, text)) = record {
  apply = λ m i.
      (>>=-Keeps
          (find_user-Keeps m.globals.users name text (get_name_from_addr m.globals.users addr))
          (answer_to-Keeps conn name)).apply
        m i;
}
  where
    answer_to-Keeps :
        (conn : ℕ) (name : Bytes) (found : Bool) → Keeps HasDistinct (answer_to conn name found)
    answer_to-Keeps conn name true = pure-Keeps true
    answer_to-Keeps conn name false =
        >>-Keeps (send-Keeps conn (add_ending (lit "EDNE " ++ name))) (pure-Keeps true)

pub on_text-Keeps : (conn addr : ℕ) (s : Bytes) → Keeps HasDistinct (on_text conn addr s)
unfolding on_text
on_text-Keeps conn addr s =
    >>=-Keeps {a = get} (record { apply = λ m i. i })
      (λ g.
        if-Keeps (eq_text s (lit "ME2U")) (λ _. replied (send-Keeps conn (add_ending (lit "U2EM"))))
          (λ _.
            if-Keeps (eq_text (take 3 s) (lit "IAM")) (λ _. on_iam-Keeps conn addr (drop 4 s))
              (λ _.
                if-Keeps (eq_text s (lit "LISTU"))
                  (λ _. replied (send-Keeps conn (add_ending (lit "UTSIL " ++ get_users g.users))))
                  (λ _.
                    if-Keeps (eq_text (take 2 s) (lit "TO"))
                      (λ _. on_to-Keeps conn addr (split_name (drop 3 s)))
                      (λ _.
                        if-Keeps (eq_text (take 4 s) (lit "MORF"))
                          (λ _. replied (
                            send_ot_to_usr-Keeps g.users (drop 5 s)
                              (get_name_from_addr g.users addr)))
                          (λ _.
                            if-Keeps (eq_text s (lit "BYE"))
                              (λ _. replied (remove_usr_by_addr-Keeps addr))
                              (λ _. replied (close-Keeps conn))))))))
  where
    replied : {a : M Server (Unit {0})} → Keeps HasDistinct a → Keeps HasDistinct (a >> pure true)
    replied h = >>-Keeps h (pure-Keeps true)

-- A run of the threads: each step is one round of one of them, on whatever it received.
pub data Runs : Machine Server → Machine Server → Type 0 where
  rests : {m : Machine Server} → Runs m m
  round :
      (conn addr : ℕ) (bytes : Bytes) {m m' : Machine Server}
      → Runs (on_data conn addr bytes m).0 m'
      → Runs m m'

-- Whatever the threads receive, in whatever order: no two users have the same name, if none had before.
-- Each round of a thread runs undisturbed by the others.
pub Runs-AreDistinct :
    (m m' : Machine Server) → Runs m m' → AreDistinct m.globals.users → AreDistinct m'.globals.users
unfolding on_data
Runs-AreDistinct m m' rests d = d
Runs-AreDistinct m m' (round conn addr bytes run) d =
    Runs-AreDistinct (on_data conn addr bytes m).0 m' run
      ((on_text-Keeps conn addr (remove_ending bytes)).apply m d)
