-- ===== src/Together/Wires.antt =====
-- What is written to one descriptor among others.
use me2u.Base.{
  ℕ, ◌≡◌, ◌≢◌, refl, ap, List, [], ◌∷◌, ◌++◌, All, map, ne→==, ==_refl, Bool-cases, inl, inr, ◌==◌,
}
use me2u.CString.{Bytes}
use me2u.System.{Effect, wrote, overrun, underrun, shut_wr, closed, reported, spawned}
use me2u.Server.{User}
use me2u.Server.Promise.{post}
use me2u.Together.{inbox}

pub inbox_self :
    (conn : ℕ) (b : Bytes) (es : List Effect) → inbox conn (wrote conn b ∷ es) ≡ b ∷ inbox conn es
inbox_self conn b es = rw (==_refl conn) refl

pub inbox-other :
    (conn fd : ℕ) (b : Bytes) (es : List Effect)
    → fd ≢ conn
    → inbox conn (wrote fd b ∷ es) ≡ inbox conn es
inbox-other conn fd b es ne = rw (ne→== fd conn ne) refl

pub inbox-append :
    (conn : ℕ) (es fs : List Effect) → inbox conn (es ++ fs) ≡ inbox conn es ++ inbox conn fs
inbox-append conn [] fs = refl
inbox-append conn (wrote fd b ∷ es) fs = elim (Bool-cases (fd == conn)) [
  | inl same ↦ rw same (ap (◌∷◌ b) (inbox-append conn es fs))
  | inr other ↦ rw other (inbox-append conn es fs)
]
inbox-append conn (overrun a b ∷ es) fs = inbox-append conn es fs
inbox-append conn (underrun a ∷ es) fs = inbox-append conn es fs
inbox-append conn (shut_wr fd ∷ es) fs = inbox-append conn es fs
inbox-append conn (closed fd ∷ es) fs = inbox-append conn es fs
inbox-append conn (reported b ∷ es) fs = inbox-append conn es fs
inbox-append conn (spawned b r w ∷ es) fs = inbox-append conn es fs

-- A message to other users.
pub inbox-others :
    (conn : ℕ) (bytes : Bytes) (us : List User)
    → All (λ u. u.conn ≢ conn) us
    → inbox conn (map (λ u. post u bytes) us) ≡ []
inbox-others conn bytes [] h = refl
inbox-others conn bytes (u ∷ us) (ne, h) = rw (ne→== u.conn conn ne) (inbox-others conn bytes us h)
