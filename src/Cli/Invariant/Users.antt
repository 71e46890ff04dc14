-- ===== src/Cli/Invariant/Users.antt =====
-- How the list of users changes.
use me2u.Base.{
  ℕ, zero, suc, ◌≡◌, sym, ◌∙◌, ◌≢◌, false, List, [], ◌∷◌, ◌++◌, arith, modify, All, All-append,
  All-modify, All-map, Bool-cases, inl, inr,
}
use me2u.CString.{Bytes, strcmp_eq, NoZero}
use me2u.CString.Laws.{strcmp_eq_refl}
use me2u.Cli.State.{User}
use me2u.Cli.Text.{word_length, ends_word}
use me2u.Cli.Text.Verbs.{first_word}
use me2u.Cli.Invariant.{ApartUser, Distinct, Registry}

-- A word has no zero in it.
pub NoZero-first_word : (s : Bytes) → NoZero (first_word s)
unfolding word_length
NoZero-first_word [] = tt
NoZero-first_word (c ∷ s) = elim (Bool-cases (ends_word c)) [
  | inl blank ↦ rw blank tt
  | inr more ↦ rw more (ground arith, NoZero-first_word s)
]

Distinct-append :
    (us : List User) (u : User)
    → Distinct us
    → All (λ v. v.username ≢ u.username) us
    → Distinct (us ++ u ∷ [])
Distinct-append [] u d a = (tt, tt)
Distinct-append (v ∷ us) u (d, ds) (a, rest) =
    (All-append (λ w. v.username ≢ w.username) us (u ∷ []) d (a, tt), Distinct-append us u ds rest)

-- A new user whose name no listed user has.
pub Registry-append :
    (sockfd : ℕ) (us : List User) (u : User)
    → Registry sockfd us
    → NoZero u.username
    → ApartUser sockfd u
    → All (λ v. strcmp_eq v.username u.username ≡ false) us
    → Registry sockfd (us ++ u ∷ [])
Registry-append sockfd us u r nz ap absent = record {
  named = All-append (λ v. NoZero v.username) us (u ∷ []) r.named (nz, tt);
  distinct =
      Distinct-append us u r.distinct
        (All-map us (λ v h e. cc (strcmp_eq_refl u.username, rw e at h)) absent);
  apart = All-append (ApartUser sockfd) us (u ∷ []) r.apart (ap, tt);
}

Distinct-modify :
    (us : List User) (i : ℕ) (f : User → User)
    → ((u : User) → (f u).username ≡ u.username)
    → Distinct us
    → Distinct (modify us i f)
Distinct-modify [] i f h d = d
Distinct-modify (u ∷ us) zero f h (d, ds) = (All-map us (λ v n. λ e. n (sym (h u) ∙ e)) d, ds)
Distinct-modify (u ∷ us) (suc i) f h (d, ds) = (
  All-modify (λ v. u.username ≢ v.username) us i f (λ v n e. n (e ∙ h v)) d,
  Distinct-modify us i f h ds,
)

-- A change of one user that keeps the name.
pub Registry-modify :
    (sockfd : ℕ) (us : List User) (i : ℕ) (f : User → User)
    → ((u : User) → (f u).username ≡ u.username)
    → ((u : User) → ApartUser sockfd u → ApartUser sockfd (f u))
    → Registry sockfd us
    → Registry sockfd (modify us i f)
Registry-modify sockfd us i f name ap r = record {
  named = All-modify (λ v. NoZero v.username) us i f (λ v nz. rw (name v) nz) r.named;
  distinct = Distinct-modify us i f name r.distinct;
  apart = All-modify (ApartUser sockfd) us i f ap r.apart;
}
