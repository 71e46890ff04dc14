-- ===== src/Server/Text.antt =====
-- The strings of hw1_server/server.py: the ending of a message, its words, and the names.
use me2u.Base.{
  ℕ, ◌≡◌, ◌≢◌, refl, ap, ap₂, ◌∙◌, Bool, true, [], ◌∷◌, ◌++◌, some, arith, if◌then◌else◌, ne→==,
  All,
}
use me2u.CString.{Bytes}
use me2u.Protocol.{ending}
use me2u.Server.{eq_text, replace_from, remove_ending, split_name, put_before}

-- A text in which no ending can begin.
abbrev pub NoReturn : Bytes → Type 0
NoReturn s = All (λ c. c ≢ b'\r') s

-- A text without a blank.
abbrev pub NoBlank : Bytes → Type 0
NoBlank s = All (λ c. c ≢ b' ') s

pub NoReturn-append : (s t : Bytes) → NoReturn s → NoReturn t → NoReturn (s ++ t)
NoReturn-append [] t h k = k
NoReturn-append (c ∷ s) t (ne, h) k = (ne, NoReturn-append s t h k)

pub eq_text_refl : (s : Bytes) → eq_text s s ≡ true
eq_text_refl [] = refl
eq_text_refl (c ∷ s) = ground (arith, eq_text_refl s)

pub eq_text→eq : (s t : Bytes) → eq_text s t ≡ true → s ≡ t
eq_text→eq [] [] h = refl
eq_text→eq [] (y ∷ t) h = cc
eq_text→eq (x ∷ s) [] h = cc
eq_text→eq (x ∷ s) (y ∷ t) h = ground (arith, eq_text→eq s t)

replace_from-other : (c : ℕ) (s : Bytes) → c ≢ b'\r' → replace_from 0 (c ∷ s) ≡ c ∷ replace_from 0 s
replace_from-other c s ne = ground (arith, ne→== c b'\r')

-- The first ending is left out, and what stands behind it is joined to what stands before it.
pub remove_ending-append :
    (s t : Bytes) → NoReturn s → remove_ending (s ++ ending ++ t) ≡ s ++ remove_ending t
unfolding remove_ending
remove_ending-append [] t h = refl
remove_ending-append (c ∷ s) t (ne, h) =
    replace_from-other c (s ++ ending ++ t) ne ∙ ap (λ r. c ∷ r) (remove_ending-append s t h)

pub remove_ending-end : (s : Bytes) → NoReturn s → remove_ending (s ++ ending) ≡ s
unfolding remove_ending
remove_ending-end [] h = refl
remove_ending-end (c ∷ s) (ne, h) =
    replace_from-other c (s ++ ending) ne ∙ ap (λ r. c ∷ r) (remove_ending-end s h)

-- The name and the text of a `TO` are what stands before and behind its first blank.
pub split_name-append :
    (name text : Bytes) → NoBlank name → split_name (name ++ b' ' ∷ text) ≡ some (name, text)
split_name-append [] text h = refl
split_name-append (c ∷ name) text (ne, h) =
    let ih = split_name-append name text h in
    let step = ap (put_before c) ih in
    ap₂ (λ (b : Bool) later. if b then some ([], name ++ b' ' ∷ text) else later) (ne→== c b' ' ne)
      step
