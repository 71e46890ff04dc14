-- ===== src/Server/Sound.antt =====
-- A server whose clients keep to the protocol: what then holds of its users, whichever threads run.
use me2u.Base.{
  ℕ, zero, suc, ◌≡◌, ◌≢◌, refl, sym, subst, ap, true, List, [], ◌∷◌, ◌++◌, some, get_elem?, All,
  All-map, All-append, ne→==, ==_refl, Bool-cases, inl, inr, ◌==◌,
}
use me2u.System.{Machine, ok}
use me2u.Protocol.{ending}
use me2u.Server.{User, Server, user_at, without, on_data}
use me2u.Server.Text.{NoReturn, NoBlank}
use me2u.Server.Promise.{
  Request, hello, registers, lists, says, confirms, leaves, request_bytes, IsProper, IsOpen, served,
}
use me2u.Server.Handlers.{without-All, IsOpen-close, on_data-served}

-- Two users have different connections and addresses.
abbrev pub IsOther : User → User → Type 0
IsOther u v = (v.addr ≢ u.addr) × (v.conn ≢ u.conn)

abbrev pub AreOthers : List User → Type 0
AreOthers [] = Unit
AreOthers (u ∷ us) = All (IsOther u) us × AreOthers us

-- The users' connections and addresses are different, and no connection of theirs is closed.
abbrev pub IsSound : Machine Server → Type 0
IsSound m = AreOthers m.globals.users × All (IsOpen m.globals.closed_conns) m.globals.users

-- Some user on the list.
abbrev pub IsUser : List User → User → Type 0
IsUser us me = (k : ℕ) × (get_elem? us k ≡ some me)

-- What a client may send: anybody may greet and ask for the names; who is not a user may register under a
-- free name; and a user may write, confirm and leave.
abbrev pub IsAllowed : List User → List ℕ → User → Request → Type 0
IsAllowed us cs me hello = IsOpen cs me
IsAllowed us cs me (registers name) =
    IsOpen cs me
    × (me.name ≡ name)
    × NoReturn name
    × All (λ u. u.name ≢ name) us
    × All (λ u. IsOther u me) us
IsAllowed us cs me lists = IsOpen cs me
IsAllowed us cs me (says name text) = IsUser us me × NoBlank name × NoReturn name × NoReturn text
IsAllowed us cs me (confirms name) = IsUser us me × NoReturn name
IsAllowed us cs me leaves = IsUser us me

pub All-get :
    (P : User → Type 0) (us : List User) (k : ℕ) (me : User)
    → All P us
    → get_elem? us k ≡ some me
    → P me
All-get P [] k me h e = absurd (cc e)
All-get P (u ∷ us) zero me (p, h) e = let same : u ≡ me = cc e in subst P same p
All-get P (u ∷ us) (suc k) me (p, h) e = All-get P us k me h e

-- A user is the first at the address.
user_at-IsUser :
    (us : List User) (k : ℕ) (me : User)
    → AreOthers us
    → get_elem? us k ≡ some me
    → user_at us me.addr ≡ some me
user_at-IsUser [] k me h e = absurd (cc e)
user_at-IsUser (u ∷ us) zero me h e =
    let same : u ≡ me = cc e in rw same (rw (==_refl me.addr) refl)
user_at-IsUser (u ∷ us) (suc k) me (apart, h) e =
    let (ne, ne_conn) = All-get (IsOther u) us k me apart e in
    rw (ne→== u.addr me.addr (λ same. ne (sym same))) (user_at-IsUser us k me h e)

-- The others have other connections.
without-apart :
    (us : List User) (k : ℕ) (me : User)
    → AreOthers us
    → get_elem? us k ≡ some me
    → All (λ u. u.conn ≢ me.conn) (without us me.addr)
without-apart [] k me h e = absurd (cc e)
without-apart (u ∷ us) zero me (apart, h) e =
    let same : u ≡ me = cc e in
    let others : All (λ v. v.conn ≢ u.conn) us = All-map us (λ v o. o.1) apart in
    rw (ap (λ v. v.addr) same, ==_refl me.addr)
      (subst (λ v. All (λ w. w.conn ≢ v.conn) us) same others)
without-apart (u ∷ us) (suc k) me (apart, h) e =
    let (ne, ne_conn) = All-get (IsOther u) us k me apart e in
    rw (ne→== u.addr me.addr (λ same. ne (sym same)))
      ((λ same. ne_conn (sym same)), without-apart us k me h e)

pub without-AreOthers : (us : List User) (addr : ℕ) → AreOthers us → AreOthers (without us addr)
without-AreOthers [] addr h = tt
without-AreOthers (u ∷ us) addr (apart, h) = elim (Bool-cases (u.addr == addr)) [
  | inl same ↦ rw same h
  | inr other ↦ rw other (without-All (IsOther u) us addr apart, without-AreOthers us addr h)
]

AreOthers-append :
    (us : List User) (me : User)
    → AreOthers us
    → All (λ u. IsOther u me) us
    → AreOthers (us ++ me ∷ [])
AreOthers-append [] me h new = (tt, tt)
AreOthers-append (u ∷ us) me (apart, h) (other, new) =
    (All-append (IsOther u) us (me ∷ []) apart (other, tt), AreOthers-append us me h new)

module _ (m : Machine Server) (sound : IsSound m) (me : User) where
  allowed-IsProper :
      (r : Request)
      → IsAllowed m.globals.users m.globals.closed_conns me r
      → IsProper m.globals.users me r × IsOpen m.globals.closed_conns me
  allowed-IsProper hello a = (tt, a)
  allowed-IsProper (registers name) (mine, same, clean, free, new) = ((same, clean, free), mine)
  allowed-IsProper lists a = (tt, a)
  allowed-IsProper (says name text) ((k, e), word, clean, one) = (
    (word, clean, one, user_at-IsUser m.globals.users k me sound.0 e),
    All-get (IsOpen m.globals.closed_conns) m.globals.users k me sound.1 e,
  )
  allowed-IsProper (confirms name) ((k, e), clean) = (
    (clean, user_at-IsUser m.globals.users k me sound.0 e),
    All-get (IsOpen m.globals.closed_conns) m.globals.users k me sound.1 e,
  )
  allowed-IsProper leaves (k, e) = (
    (user_at-IsUser m.globals.users k me sound.0 e, without-apart m.globals.users k me sound.0 e),
    All-get (IsOpen m.globals.closed_conns) m.globals.users k me sound.1 e,
  )

  pub on_data-allowed :
      (r : Request)
      → IsAllowed m.globals.users m.globals.closed_conns me r
      → on_data me.conn me.addr (request_bytes r ++ ending) m ≡ (served me r m, ok true)
  on_data-allowed r a =
      let (proper, mine) = allowed-IsProper r a in on_data-served m me sound.1 mine r proper

  served-IsSound :
      (r : Request)
      → IsAllowed m.globals.users m.globals.closed_conns me r
      → IsSound (served me r m)
  served-IsSound hello a = sound
  served-IsSound (registers name) (mine, same, clean, free, new) = (
    AreOthers-append m.globals.users me sound.0 new,
    All-append (IsOpen m.globals.closed_conns) m.globals.users (me ∷ []) sound.1 (mine, tt),
  )
  served-IsSound lists a = sound
  served-IsSound (says name text) a = sound
  served-IsSound (confirms name) a = sound
  served-IsSound leaves (k, e) = (
    without-AreOthers m.globals.users me.addr sound.0,
    IsOpen-close m.globals.closed_conns me.conn (without m.globals.users me.addr)
        (without-apart m.globals.users k me sound.0 e)
        (without-All (IsOpen m.globals.closed_conns) m.globals.users me.addr sound.1),
  )

-- A run of the threads in which each message is allowed when it comes.
pub data Orderly : Machine Server → Machine Server → Type 0 where
  rests : {m : Machine Server} → Orderly m m
  request :
      (me : User) (r : Request) {m m' : Machine Server}
      → IsAllowed m.globals.users m.globals.closed_conns me r
      → Orderly (on_data me.conn me.addr (request_bytes r ++ ending) m).0 m'
      → Orderly m m'

Orderly-IsSound : (m m' : Machine Server) → Orderly m m' → IsSound m → IsSound m'
Orderly-IsSound m m' rests sound = sound
Orderly-IsSound m m' (request me r a run) sound =
    Orderly-IsSound (on_data me.conn me.addr (request_bytes r ++ ending) m).0 m' run (
      subst (λ res. IsSound res.0) (sym (on_data-allowed m sound me r a))
        (served-IsSound m sound me r a))

-- However the threads have run, as long as each message that came was allowed then: the next one that is
-- allowed is served as promised, without an exception, and its thread goes on. Anybody may greet and ask for
-- the names; a name, connection and address that are new may register; and a user on the list may write,
-- confirm and leave. The run begins with open connections and addresses of which no two are the same; the
-- round of a thread runs undisturbed, and each message comes in one `recv`.
pub Orderly-served :
    (m m' : Machine Server) (me : User) (r : Request)
    → Orderly m m'
    → IsSound m
    → IsAllowed m'.globals.users m'.globals.closed_conns me r
    → on_data me.conn me.addr (request_bytes r ++ ending) m' ≡ (served me r m', ok true)
Orderly-served m m' me r run sound a = on_data-allowed m' (Orderly-IsSound m m' run sound) me r a
