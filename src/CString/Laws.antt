-- ===== src/CString/Laws.antt =====
-- Laws of the string functions.
use me2u.Base.{
  ℕ, zero, suc, ◌≤◌, ◌≡◌, refl, ap, ◌↔◌, true, [], ◌∷◌, ◌++◌, arith, length, take, drop, drop_all,
  append-nil, length-append, length-drop,
}
use me2u.CString.{Bytes, cstr, strlen, strcmp_eq, strncmp_eq, NoZero, overlay}

pub NoZero-append : (a b : Bytes) → NoZero a → NoZero b → NoZero (a ++ b)
NoZero-append [] b p q = q
NoZero-append (x ∷ a) b p q = (p.0, NoZero-append a b p.1 q)

pub NoZero-append_inv : (a b : Bytes) → NoZero (a ++ b) → NoZero a × NoZero b
NoZero-append_inv [] b p = (tt, p)
NoZero-append_inv (x ∷ a) b p = let (q, r) = NoZero-append_inv a b p.1 in ((p.0, q), r)

pub NoZero-drop : (n : ℕ) (a : Bytes) → NoZero a → NoZero (drop n a)
NoZero-drop zero a p = p
NoZero-drop (suc n) [] p = p
NoZero-drop (suc n) (x ∷ a) p = NoZero-drop n a p.1

-- The string behind a pointer to a string is that string, whatever zeros follow.
pub cstr-NoZero : (s : Bytes) → NoZero s → cstr s ≡ s
unfolding cstr
cstr-NoZero [] p = refl
cstr-NoZero (x ∷ s) p = ground (arith, cstr-NoZero s p.1)

pub NoZero-cstr : (m : Bytes) → NoZero (cstr m)
unfolding cstr
NoZero-cstr [] = tt
NoZero-cstr (x ∷ m) = ground (arith, NoZero-cstr m)

pub strlen-NoZero : (s : Bytes) → NoZero s → strlen s ≡ length s
unfolding strlen
strlen-NoZero s p = ap length (cstr-NoZero s p)

pub length-cstr-le : (m : Bytes) → length (cstr m) ≤ length m
unfolding cstr
length-cstr-le [] = omega arith
length-cstr-le (x ∷ m) = ground (arith, length-cstr-le m)

-- `strcmp` on strings decides their equality.
pub strcmp_eq_iff : (a b : Bytes) → NoZero a → NoZero b → (strcmp_eq a b ≡ true) ↔ (a ≡ b)
unfolding strcmp_eq
strcmp_eq_iff [] [] p q = ground arith
strcmp_eq_iff [] (y ∷ b) p q = ground arith
strcmp_eq_iff (x ∷ a) [] p q = ground arith
strcmp_eq_iff (x ∷ a) (y ∷ b) p q = ground (arith, strcmp_eq_iff a b p.1 q.1)

pub strcmp_eq_refl : (a : Bytes) → strcmp_eq a a ≡ true
unfolding strcmp_eq
strcmp_eq_refl [] = refl
strcmp_eq_refl (x ∷ a) = ground (arith, strcmp_eq_refl a)

-- `strncmp` of `length t` bytes, where at least so many stand on the left: a prefix test.
pub strncmp_eq_iff :
    (s t : Bytes)
    → NoZero t
    → length t ≤ length s
    → (strncmp_eq (length t) s t ≡ true) ↔ (take (length t) s ≡ t)
unfolding strncmp_eq
strncmp_eq_iff s [] q h = (λ _. refl, λ _. refl)
strncmp_eq_iff [] (y ∷ t) q h = absurd (omega arith)
strncmp_eq_iff (x ∷ s) (y ∷ t) q h = ground (arith, strncmp_eq_iff s t q.1)

pub strncmp_eq_self : (s t : Bytes) → strncmp_eq (length t) (t ++ s) t ≡ true
unfolding strncmp_eq
strncmp_eq_self s [] = refl
strncmp_eq_self s (x ∷ t) = ground (arith, strncmp_eq_self s t)

-- What is read into a buffer of `n` bytes leaves at most `n` bytes in it.
pub length-overlay-le :
    (n : ℕ) (new old : Bytes) → length new ≤ n → length old ≤ n → length (overlay new old) ≤ n
length-overlay-le n new old p q =
    omega (arith, length-append new (drop (length new) old), length-drop (length new) old)

-- What is at least as long as the old contents covers them.
pub overlay_all : (new old : Bytes) → length old ≤ length new → overlay new old ≡ new
overlay_all new old h = rw (drop_all (length new) old h) (append-nil new)
