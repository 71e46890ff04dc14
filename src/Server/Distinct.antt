-- ===== src/Server/Distinct.antt =====
-- Lists of users whose names are distinct, in hw1_server/server.py.
use me2u.Base.{
  ℕ, ◌≡◌, ◌≢◌, sym, true, false, List, [], ◌∷◌, ◌++◌, All, All-append, Bool-cases, inl, inr, ◌==◌,
}
use me2u.CString.{Bytes}
use me2u.System.{Machine}
use me2u.Server.{User, Server, eq_text, check_user_exists, without}
use me2u.Server.Text.{eq_text_refl}
use me2u.Server.Handlers.{without-All}

-- No two users have the same name.
abbrev pub AreDistinct : List User → Type 0
AreDistinct [] = Unit
AreDistinct (u ∷ us) = All (λ v. v.name ≢ u.name) us × AreDistinct us

abbrev pub HasDistinct : Machine Server → Type 0
HasDistinct m = AreDistinct m.globals.users

pub AreDistinct-append :
    (us : List User) (u : User)
    → AreDistinct us
    → All (λ v. v.name ≢ u.name) us
    → AreDistinct (us ++ u ∷ [])
AreDistinct-append [] u d free = (tt, tt)
AreDistinct-append (v ∷ us) u (apart, d) (ne, free) = (
  All-append (λ w. w.name ≢ v.name) us (u ∷ []) apart ((λ e. ne (sym e)), tt),
  AreDistinct-append us u d free,
)

pub without-AreDistinct :
    (us : List User) (addr : ℕ) → AreDistinct us → AreDistinct (without us addr)
without-AreDistinct [] addr d = tt
without-AreDistinct (u ∷ us) addr (apart, d) = elim (Bool-cases (u.addr == addr)) [
  | inl same ↦ rw same d
  | inr other ↦
      rw other (without-All (λ v. v.name ≢ u.name) us addr apart, without-AreDistinct us addr d)
]

pub free-check_user_exists :
    (us : List User) (name : Bytes)
    → check_user_exists us name ≡ false
    → All (λ u. u.name ≢ name) us
unfolding check_user_exists
free-check_user_exists [] name h = tt
free-check_user_exists (u ∷ us) name h = elim (Bool-cases (eq_text u.name name)) [
  | inl same ↦ absurd (true≢false (rw same at h))
  | inr other ↦ (differs other, free-check_user_exists us name (rw other at h))
]
  where
    true≢false : true ≢ false
    true≢false e = cc e

    differs : eq_text u.name name ≡ false → u.name ≢ name
    differs other same = true≢false (cc (eq_text_refl name, other, same))
