-- ===== src/Server/Handlers.antt =====
-- One round of `handle_user` of hw1_server/server.py on a message of the protocol.
use me2u.Base.{
  ℕ, ◌≡◌, ◌≢◌, sym, ap, ◌∙◌, true, false, List, [], ◌∷◌, ◌++◌, some, map, elem, All, Bool-cases,
  inl, inr, append_assoc, arith, ne→==, ◌==◌,
}
use me2u.CString.{Bytes, lit}
use me2u.System.{M, Machine, Effect, wrote, closed, ok, continue_with, traced}
use me2u.Protocol.{ending}
use me2u.Server.{
  iam_seen, User, Server, add_ending, send, close, get_name_from_addr, get_users, without,
  remove_user, remove_usr_by_addr, approve, on_iam, on_to, on_text, on_data,
}
use me2u.Server.Text.{NoReturn, NoReturn-append, remove_ending-end, split_name-append}
use me2u.Server.Promise.{
  Request, hello, registers, lists, says, confirms, leaves, request_bytes, IsProper, IsOpen, served,
  post,
}
use me2u.Server.Sends.{
  send-IsOpen, get_users-names_of, check_user_exists-free, broadcast_off-posts,
  send_ot_to_usr-named, on_to-said_to,
}

pub request_bytes-NoReturn :
    (us : List User) (me : User) (r : Request) → IsProper us me r → NoReturn (request_bytes r)
request_bytes-NoReturn us me hello p =
    ((omega arith), ((omega arith), ((omega arith), ((omega arith), tt))))
request_bytes-NoReturn us me (registers name) (same, clean, free) =
    ((omega arith), ((omega arith), ((omega arith), ((omega arith), clean))))
request_bytes-NoReturn us me lists p =
    ((omega arith), ((omega arith), ((omega arith), ((omega arith), ((omega arith), tt)))))
request_bytes-NoReturn us me (says name text) (word, clean, one, mine) = (
  (omega arith),
  ((omega arith), ((omega arith), NoReturn-append name (b' ' ∷ text) clean ((omega arith), one))),
)
request_bytes-NoReturn us me (confirms name) (clean, mine) =
    ((omega arith), ((omega arith), ((omega arith), ((omega arith), ((omega arith), clean)))))
request_bytes-NoReturn us me leaves p = ((omega arith), ((omega arith), ((omega arith), tt)))

pub without-All :
    (P : User → Type 0) (us : List User) (addr : ℕ) → All P us → All P (without us addr)
without-All P [] addr h = tt
without-All P (u ∷ us) addr (p, h) = elim (Bool-cases (u.addr == addr)) [
  | inl same ↦ rw same h
  | inr other ↦ rw other (p, without-All P us addr h)
]

pub IsOpen-close :
    (cs : List ℕ) (conn : ℕ) (us : List User)
    → All (λ u. u.conn ≢ conn) us
    → All (IsOpen cs) us
    → All (IsOpen (conn ∷ cs)) us
IsOpen-close cs conn [] ne h = tt
IsOpen-close cs conn (u ∷ us) (ne, nes) (o, h) =
    (rw (ne→== u.conn conn ne) o, IsOpen-close cs conn us nes h)

-- Behind a message that is sent comes the rest.
sent :
    {A : Type 0} (f : Unit {0} → M Server A) (m : Machine Server) (conn : ℕ) (bytes : Bytes)
    → elem conn m.globals.closed_conns ≡ false
    → continue_with (send conn bytes m) f ≡ f tt (traced m (wrote conn bytes ∷ []))
sent f m conn bytes h = ap (λ r. continue_with r f) (send-IsOpen m conn bytes h)

-- The server that has sent these and has these variables.
abbrev became : Machine Server → List Effect → Server → Machine Server
became m es g = record { os = record m.os { trace = m.os.trace ++ es }; globals = g }

became_twice :
    (m : Machine Server) (es fs : List Effect) (g h : Server)
    → became (became m es g) fs h ≡ became m (es ++ fs) h
became_twice m es fs g h =
    ap (λ t. record { os = record m.os { trace = t }; globals = h }) (append_assoc m.os.trace es fs)

pub approve-served :
    (m : Machine Server) (conn addr : ℕ) (name : Bytes)
    → elem conn m.globals.closed_conns ≡ false
    → approve conn addr name m ≡ (
      became m
          (wrote conn (add_ending (lit "MAI"))
            ∷ wrote conn (add_ending (lit "MOTD Hello Human "))
            ∷ [])
          (record m.globals {
            users = m.globals.users ++ record { name = name; conn = conn; addr = addr } ∷ [];
          }),
      ok tt,
    )
unfolding approve
approve-served m conn addr name h =
    let first = wrote conn (add_ending (lit "MAI")) ∷ [] in
    let second = wrote conn (add_ending (lit "MOTD Hello Human ")) ∷ [] in
    let g = record m.globals {
      users = m.globals.users ++ record { name = name; conn = conn; addr = addr } ∷ [];
    } in
    sent _ m conn (add_ending (lit "MAI")) h
    ∙ sent _ (traced m first) conn (add_ending (lit "MOTD Hello Human ")) h
    ∙ ap (λ n. (n, ok tt)) (became_twice m first second m.globals g)

remove_user-served :
    (m : Machine Server) (me : User)
    → All (IsOpen m.globals.closed_conns) m.globals.users
    → IsOpen m.globals.closed_conns me
    → All (λ u. u.conn ≢ me.conn) (without m.globals.users me.addr)
    → remove_user me.addr (some me) m ≡ (served me leaves m, ok tt)
unfolding remove_user close
remove_user-served m me all mine apart =
    let rest = without m.globals.users me.addr in
    let cs = me.conn ∷ m.globals.closed_conns in
    let offs = map (λ u. post u (lit "UOFF " ++ me.name)) rest in
    let eyb = post me (lit "EYB") ∷ [] in
    let bye = closed me.conn ∷ [] in
    let g : Server = record { users = rest; closed_conns = cs } in
    let two = became (traced m eyb) bye g in
    sent _ m me.conn (add_ending (lit "EYB")) mine
    ∙ broadcast_off-posts two rest me.name (
        IsOpen-close m.globals.closed_conns me.conn rest apart
          (without-All (IsOpen m.globals.closed_conns) m.globals.users me.addr all))
    ∙ ap (λ n. (n, ok tt))
        (became_twice (traced m eyb) bye offs g g ∙ became_twice m eyb (bye ++ offs) m.globals g)

module _ (m : Machine Server) (me : User)
    (all : All (IsOpen m.globals.closed_conns) m.globals.users)
    (mine : IsOpen m.globals.closed_conns me) where
  on_iam-served :
      (name : Bytes)
      → me.name ≡ name
      → All (λ u. u.name ≢ name) m.globals.users
      → on_iam me.conn me.addr name m ≡ (served me (registers name) m, ok true)
  unfolding on_iam iam_seen
  on_iam-served name same free = rw (check_user_exists-free m.globals.users name free) (
      ap (λ r. continue_with r (λ _ n. (n, ok true))) (approve-served m me.conn me.addr name mine)
      ∙ ap
          (λ n. (
            became m (post me (lit "MAI") ∷ post me (lit "MOTD Hello Human ") ∷ [])
                (record m.globals { users = m.globals.users ++ record me { name = n } ∷ [] }),
            ok true,
          ))
          (sym same))

  pub on_text-served :
      (r : Request)
      → IsProper m.globals.users me r
      → on_text me.conn me.addr (request_bytes r) m ≡ (served me r m, ok true)
  unfolding on_text on_to remove_usr_by_addr get_name_from_addr
  on_text-served hello p = sent _ m me.conn (add_ending (lit "U2EM")) mine
  on_text-served (registers name) (same, clean, free) = on_iam-served name same free
  on_text-served lists p =
      sent _ m me.conn (add_ending (lit "UTSIL " ++ get_users m.globals.users)) mine
      ∙ ap (λ n. (traced m (post me (lit "UTSIL " ++ n) ∷ []), ok true))
          (get_users-names_of m.globals.users)
  on_text-served (says name text) (word, clean, one, at_addr) =
      rw (split_name-append name text word, at_addr)
        (on_to-said_to m m.globals.users me name text all mine)
  on_text-served (confirms name) (clean, at_addr) = rw at_addr (
      ap (λ r. continue_with r (λ _ n. (n, ok true)))
        (send_ot_to_usr-named m m.globals.users name me.name all))
  on_text-served leaves (at_addr, apart) =
      ap (λ o. continue_with (remove_user me.addr o m) (λ _ n. (n, ok true))) at_addr
      ∙ ap (λ r. continue_with r (λ _ n. (n, ok true))) (remove_user-served m me all mine apart)

  -- On a message of the protocol that comes in one `recv`: the server sends what it promises, to these
  -- connections and in this order, has the users that it promises, and waits for the next. The message
  -- is proper, and no connection of a user, nor the sender's, has been closed.
  pub on_data-served :
      (r : Request)
      → IsProper m.globals.users me r
      → on_data me.conn me.addr (request_bytes r ++ ending) m ≡ (served me r m, ok true)
  unfolding on_data
  on_data-served r p =
      rw (remove_ending-end (request_bytes r) (request_bytes-NoReturn m.globals.users me r p))
        (on_text-served r p)
