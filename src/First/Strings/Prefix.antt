-- ===== src/First/Strings/Prefix.antt =====
-- What `startsWith` and `valid_username` decide.
use me2u.Base.{
  ap, ℕ, zero, suc, ◌≤◌, ◌≡◌, ◌≢◌, ◌↔◌, refl, true, false, Bool-cases, inl, inr, [], ◌∷◌, ◌++◌,
  none, arith, length, ltb, le→ltb, length-append, ◌==◌,
}
use me2u.CString.{Bytes, strlen, strncmp_eq, NoZero}
use me2u.CString.Laws.{strlen-NoZero}
use me2u.First.Strings.{starts_with, check_from, valid_username}

strncmp_eq-prefix : (pre rest : Bytes) → strncmp_eq (length pre) (pre ++ rest) pre ≡ true
unfolding strncmp_eq
strncmp_eq-prefix [] rest = refl
strncmp_eq-prefix (x ∷ pre) rest = ground (arith, strncmp_eq-prefix pre rest)

prefix_of_strncmp_eq :
    (str pre : Bytes)
    → NoZero pre
    → strncmp_eq (length pre) str pre ≡ true
    → (rest : Bytes) × (str ≡ pre ++ rest)
unfolding strncmp_eq
prefix_of_strncmp_eq str [] nz e = (str, refl)
prefix_of_strncmp_eq [] (x ∷ pre) nz e = absurd (ground arith)
prefix_of_strncmp_eq (c ∷ str) (x ∷ pre) nz e =
    let (rest, same) = prefix_of_strncmp_eq str pre nz.1 (ground arith) in (rest, ground arith)

-- `startsWith` says whether the second string is the beginning of the first, or all of it.
pub starts_with_lem :
    (str pre : Bytes)
    → NoZero str
    → NoZero pre
    → (starts_with str pre ≡ true) ↔ ((rest : Bytes) × (str ≡ pre ++ rest))
unfolding starts_with
starts_with_lem str pre nzs nzp = (forth, back)
  where
    forth : starts_with str pre ≡ true → (rest : Bytes) × (str ≡ pre ++ rest)
    forth e = elim (Bool-cases (ltb (strlen str) (strlen pre))) [
      | inl short ↦ cc (rw short at e)
      | inr long ↦ prefix_of_strncmp_eq str pre nzp (rw (strlen-NoZero pre nzp) at rw long at e)
    ]

    back : (rest : Bytes) × (str ≡ pre ++ rest) → starts_with str pre ≡ true
    back (rest, e) =
        let long : ltb (strlen str) (strlen pre) ≡ false = le→ltb (strlen str) (strlen pre) (
          omega (
            arith,
            strlen-NoZero str nzs,
            strlen-NoZero pre nzp,
            length-append pre rest,
            ap length e,
          )) in
        rw (long, strlen-NoZero pre nzp, e) (strncmp_eq-prefix pre rest)

pub starts_with-append :
    (pre rest : Bytes) → NoZero (pre ++ rest) → NoZero pre → starts_with (pre ++ rest) pre ≡ true
starts_with-append pre rest nzs nzp = (starts_with_lem (pre ++ rest) pre nzs nzp).1 (rest, refl)

-- A difference within the length of the second string.
pub starts_with-other :
    (str pre : Bytes)
    → NoZero pre
    → strncmp_eq (length pre) str pre ≡ false
    → starts_with str pre ≡ false
unfolding starts_with
starts_with-other str pre nz e = elim (Bool-cases (ltb (strlen str) (strlen pre))) [
  | inl short ↦ rw short
  | inr long ↦ rw (long, strlen-NoZero pre nz) e
]

pub strlen-filled : (c : ℕ) (s : Bytes) → NoZero (c ∷ s) → (strlen (c ∷ s) == 0) ≡ false
strlen-filled c s nz = ground (arith, strlen-NoZero (c ∷ s) nz)

check_from-none :
    (rounds : ℕ) (c : ℕ) (s : Bytes)
    → c ≢ 0
    → c ≢ b' '
    → c ≢ b'\n'
    → check_from rounds (c ∷ s) ≡ none
unfolding check_from
check_from-none zero c s z b n = refl
check_from-none (suc rounds) c s z b n = ground (arith, check_from-none rounds c s)

-- For a name of at most ten bytes that begins with neither a blank nor a line end, `valid_username`
-- never returns: after any number of rounds of its loop it is still in it.
pub valid_username-none :
    (rounds c : ℕ) (s : Bytes)
    → strlen (c ∷ s) ≤ 10
    → c ≢ 0
    → c ≢ b' '
    → c ≢ b'\n'
    → valid_username rounds (c ∷ s) ≡ none
unfolding valid_username
valid_username-none rounds c s short z b n =
    rw (le→ltb 10 (strlen (c ∷ s)) short) (check_from-none rounds c s z b n)
