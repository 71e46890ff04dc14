-- ===== src/Cli/Conversation/Names.antt =====
-- Names in texts, and users by their names.
use me2u.Base.{
  ℕ, suc, ◌+◌, ◌≡◌, refl, ap, ◌∙◌, List, [], ◌∷◌, ◌++◌, none, some, arith, length, drop, get_elem?,
  Bool-cases, inl, inr, take-append,
}
use me2u.CString.{Bytes, strcmp_eq, NoZero}
use me2u.CString.Laws.{cstr-NoZero}
use me2u.Cli.State.{User}
use me2u.Cli.Text.{word_length}
use me2u.Cli.Text.Verbs.{first_word}
use me2u.Cli.Users.Lookup.{position, search_trace}
use me2u.Cli.Users.Windows.{message_text}
use me2u.Cli.Conversation.{window_of, IsWord}
use me2u.Cli.Conversation.View.{observed, windows_of}

pub NoZero-IsWord : (name : Bytes) → IsWord name → NoZero name
NoZero-IsWord [] w = tt
NoZero-IsWord (c ∷ name) w = ((λ e. ground arith), NoZero-IsWord name w.1)

word_length_name :
    (name text : Bytes) → IsWord name → word_length (name ++ b' ' ∷ text) ≡ length name
unfolding word_length
word_length_name [] text w = refl
word_length_name (c ∷ name) text w = simp (w.0, word_length_name name text w.1)

-- The first word of a name with a text is the name.
pub first_word_name : (name text : Bytes) → IsWord name → first_word (name ++ b' ' ∷ text) ≡ name
first_word_name name text w = rw (word_length_name name text w) (take-append name (b' ' ∷ text))

drop_blank : (name text : Bytes) → drop (length name + 1) (name ++ b' ' ∷ text) ≡ text
drop_blank [] text = refl
drop_blank (c ∷ name) text = ground (arith, drop_blank name text)

-- The text is what stands behind the name and a blank.
pub message_text_name :
    (name text : Bytes) → IsWord name → NoZero text → message_text (name ++ b' ' ∷ text) ≡ text
message_text_name name text w nz =
    rw (word_length_name name text w, drop_blank name text) (cstr-NoZero text nz)

pub observed-search_trace : (name : Bytes) (us : List User) → observed (search_trace name us) ≡ []
observed-search_trace name [] = refl
observed-search_trace name (u ∷ us) = ground (arith, observed-search_trace name us)

-- A name without a window is no user's.
pub position_of_none :
    (us : List User) (i : ℕ) (name : Bytes)
    → window_of name (windows_of us) ≡ none
    → position i name us ≡ none
position_of_none [] i name e = refl
position_of_none (u ∷ us) i name e = elim (Bool-cases (strcmp_eq u.username name)) [
  | inl same ↦ cc (rw same at e)
  | inr other ↦ rw other (position_of_none us (suc i) name (rw other at e))
]

-- A name with a window is that of a user, whose window it is.
pub position_of_some :
    (us : List User) (i : ℕ) (name : Bytes) (fd : ℕ)
    → window_of name (windows_of us) ≡ some fd
    → (k : ℕ) × (u : User) × (position i name us ≡ some (i + k))
      × (get_elem? us k ≡ some u)
      × (u.wrt ≡ fd)
position_of_some [] i name fd e = cc
position_of_some (u ∷ us) i name fd e = elim (Bool-cases (strcmp_eq u.username name)) [
  | inl same ↦ (0, u, rw same (ap some (omega arith)), refl, cc (rw same at e))
  | inr other ↦
      let (k, v, found, at, wrt) = position_of_some us (suc i) name fd (rw other at e) in
      (suc k, v, rw other (found ∙ ap some (omega arith)), at, wrt)
]
