-- ===== src/System/Keeps.antt =====
-- Invariants of programs in the monad: what every call keeps, however it ends.
use me2u.Base.{◌≡◌, refl, Bool, true, false, if◌then◌else◌}
use me2u.System.{M, Machine, Result, ok, exited, crashed, waiting, continue_with, ◌>>=◌, ◌>>◌, when}

-- Every run of `a` from a machine with `I` ends in one with `I`.
pub record Keeps {G A : Type 0} (I : Machine G → Type 0) (a : M G A) : Type 0 where
  pub apply : (m : Machine G) → I m → I (a m).0

module _ {G : Type 0} {I : Machine G → Type 0} where
  pub continue_with-keeps :
      {A B : Type 0} (r : Machine G × Result A) (f : A → M G B)
      → I r.0
      → ((a : A) → Keeps I (f a))
      → I (continue_with r f).0
  continue_with-keeps (m, ok a) f i k = (k a).apply m i
  continue_with-keeps (m, exited c) f i k = i
  continue_with-keeps (m, crashed) f i k = i
  continue_with-keeps (m, waiting) f i k = i

  pub >>=-Keeps :
      {A B : Type 0} {a : M G A} {f : A → M G B}
      → Keeps I a
      → ((x : A) → Keeps I (f x))
      → Keeps I (a >>= f)
  >>=-Keeps {a} {f} h k = record { apply = λ m i. continue_with-keeps (a m) f (h.apply m i) k }

  pub >>-Keeps :
      {B : Type 0} {a : M G (Unit {0})} {b : M G B} → Keeps I a → Keeps I b → Keeps I (a >> b)
  >>-Keeps {a} {b} h k = record {
    apply = λ m i. continue_with-keeps (a m) (λ _. b) (h.apply m i) (λ _. k);
  }

  pub if-Keeps :
      {A : Type 0} {x y : M G A} (b : Bool)
      → (b ≡ true → Keeps I x)
      → (b ≡ false → Keeps I y)
      → Keeps I (if b then x else y)
  if-Keeps true h k = h refl
  if-Keeps false h k = k refl

  pub when-Keeps : {a : M G (Unit {0})} (b : Bool) → Keeps I a → Keeps I (when b a)
  when-Keeps true h = h
  when-Keeps false h = record { apply = λ m i. i }
