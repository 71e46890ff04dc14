-- ===== src/Cli/Text/Verbs.antt =====
-- What the chains of `strncmp` over the first word accept.
use me2u.Base.{
  ℕ, ◌≤◌, ◌≡◌, refl, ◌≢◌, ◌↔◌, inl, inr, ◌⊎◌, ap, ◌∙◌, take-append, subst, true, false, [], ◌∷◌,
  ◌++◌, arith, length, take, Bool-cases, ◌==◌,
}
use me2u.CString.{Bytes, strncmp_eq, NoZero}
use me2u.Protocol.{
  user_help, user_listu, user_chat, user_logout, server_list_user, confirm_msg_to, no_usr, msg_from,
  server_bye_brod, server_bye_ack,
}
use me2u.Cli.Text.{
  ends_word, word_length, ServerVerb, utsil, ot, edne, from, uoff, eyb, unknown_verb, server_verb,
  Command, help, listu, chat, logout, unknown_command, user_command,
}

-- The first word of a text.
abbrev pub first_word : Bytes → Bytes
first_word s = take (word_length s) s

-- `w` is the beginning of `v`.
abbrev pub Begins : Bytes → Bytes → Type 0
Begins w v = (rest : Bytes) × (v ≡ w ++ rest)

pub word_length-le : (s : Bytes) → word_length s ≤ length s
unfolding word_length
word_length-le [] = omega arith
word_length-le (c ∷ s) = ground (arith, word_length-le s)

zero_in_word : (c : ℕ) → ends_word c ≡ false → (c == 0) ≡ true → ⊥
zero_in_word c h e = ground arith

Begins-of_strncmp :
    (s verb : Bytes)
    → NoZero verb
    → strncmp_eq (word_length s) s verb ≡ true
    → Begins (first_word s) verb
unfolding word_length strncmp_eq
Begins-of_strncmp [] verb nz e = (verb, refl)
Begins-of_strncmp (c ∷ s) [] nz e = elim (Bool-cases (ends_word c)) [
  | inl blank ↦ rw blank ([], refl)
  | inr more ↦ absurd (zero_in_word c more (rw more at e))
]
Begins-of_strncmp (c ∷ s) (v ∷ verb) (nz, nzs) e = elim (Bool-cases (ends_word c)) [
  | inl blank ↦ rw blank (v ∷ verb, refl)
  | inr more ↦
      let same = rw more at e in
      let (rest, later) = Begins-of_strncmp s verb nzs (ground (arith, zero_in_word c more)) in
      rw more (rest, ground arith)
]

strncmp-Begins :
    (s verb rest : Bytes) → verb ≡ first_word s ++ rest → strncmp_eq (word_length s) s verb ≡ true
unfolding word_length strncmp_eq
strncmp-Begins [] verb rest e = refl
strncmp-Begins (c ∷ s) [] rest e = elim (Bool-cases (ends_word c)) [
  | inl blank ↦ rw blank
  | inr more ↦ cc (rw more at e)
]
strncmp-Begins (c ∷ s) (v ∷ verb) rest e = elim (Bool-cases (ends_word c)) [
  | inl blank ↦ rw blank
  | inr more ↦ let same = rw more at e in rw more (ground (arith, strncmp-Begins s verb rest))
]

strncmp_eq-word_length :
    (s verb : Bytes)
    → NoZero verb
    → (strncmp_eq (word_length s) s verb ≡ true) ↔ Begins (first_word s) verb
strncmp_eq-word_length s verb nz = (Begins-of_strncmp s verb nz, λ b. strncmp-Begins s verb b.0 b.1)

-- The text of a verb; no text is unknown.
abbrev pub spelling : ServerVerb → Bytes
spelling utsil = server_list_user
spelling ot = confirm_msg_to
spelling edne = no_usr
spelling from = msg_from
spelling uoff = server_bye_brod
spelling eyb = server_bye_ack
spelling unknown_verb = []

-- A message that begins with a verb and a space is taken for that verb, whatever follows.
pub server_verb-spelling :
    (v : ServerVerb) (rest : Bytes) → v ≢ unknown_verb → server_verb (spelling v ++ b' ' ∷ rest) ≡ v
unfolding server_verb word_length strncmp_eq
server_verb-spelling utsil rest h = refl
server_verb-spelling ot rest h = refl
server_verb-spelling edne rest h = refl
server_verb-spelling from rest h = refl
server_verb-spelling uoff rest h = refl
server_verb-spelling eyb rest h = refl
server_verb-spelling unknown_verb rest h = absurd (h refl)

-- A message is taken for a verb only if its first word is that verb or a beginning of it.
pub server_verb-Begins :
    (s : Bytes) (v : ServerVerb)
    → server_verb s ≡ v
    → v ≢ unknown_verb
    → Begins (first_word s) (spelling v)
unfolding server_verb
server_verb-Begins s utsil e h = Begins-of_strncmp s server_list_user (omega arith) (ground arith)
server_verb-Begins s ot e h = Begins-of_strncmp s confirm_msg_to (omega arith) (ground arith)
server_verb-Begins s edne e h = Begins-of_strncmp s no_usr (omega arith) (ground arith)
server_verb-Begins s from e h = Begins-of_strncmp s msg_from (omega arith) (ground arith)
server_verb-Begins s uoff e h = Begins-of_strncmp s server_bye_brod (omega arith) (ground arith)
server_verb-Begins s eyb e h = Begins-of_strncmp s server_bye_ack (omega arith) (ground arith)
server_verb-Begins s unknown_verb e h = absurd (h refl)

-- A word: no zero, tab, blank or newline in it.
abbrev pub IsWord : Bytes → Type 0
IsWord [] = Unit
IsWord (c ∷ w) = ((c ≢ 0) × (c ≢ b'\t') × (c ≢ b' ') × (c ≢ b'\n')) × IsWord w

-- What may stand behind it.
abbrev pub Ends : ℕ → Type 0
Ends c = (c ≡ 0) ⊎ ((c ≡ b'\t') ⊎ ((c ≡ b' ') ⊎ (c ≡ b'\n')))

word_length-word :
    (w rest : Bytes) (c : ℕ) → IsWord w → Ends c → word_length (w ++ c ∷ rest) ≡ length w
unfolding word_length
word_length-word [] rest c word end = ground arith
word_length-word (x ∷ w) rest c (ne, word) end = ground (arith, word_length-word w rest c word end)

first_word-word : (w rest : Bytes) (c : ℕ) → IsWord w → Ends c → first_word (w ++ c ∷ rest) ≡ w
first_word-word w rest c word end =
    ap (λ n. take n (w ++ c ∷ rest)) (word_length-word w rest c word end) ∙ take-append w (c ∷ rest)

-- For a text that is a word, then a zero, tab, blank or newline, and then anything: its first word has the
-- length of the word; the comparison on that length, with any verb that has no zero, succeeds exactly if the
-- word is the beginning of the verb, or the whole, whatever follows it; and only for such a word is the text
-- taken for a verb of the server's messages.
pub server_verb-word :
    (w rest verb : Bytes) (c : ℕ) (v : ServerVerb)
    → IsWord w
    → Ends c
    → NoZero verb
    → v ≢ unknown_verb
    → let s = w ++ c ∷ rest in
      (word_length s ≡ length w)
      × ((strncmp_eq (word_length s) s verb ≡ true) ↔ Begins w verb)
      × (server_verb s ≡ v → Begins w (spelling v))
server_verb-word w rest verb c v word end nz known =
    let s = w ++ c ∷ rest in
    let first = first_word-word w rest c word end in
    let compared = strncmp_eq-word_length s verb nz in
    let taken : server_verb s ≡ v → Begins (first_word s) (spelling v) =
      λ e. server_verb-Begins s v e known in
    (
      word_length-word w rest c word end,
      subst (λ f. (strncmp_eq (word_length s) s verb ≡ true) ↔ Begins f verb) first compared,
      subst (λ f. server_verb s ≡ v → Begins f (spelling v)) first taken,
    )

-- A message whose first word is empty, as one that begins with a blank, is taken for a list of
-- users.
pub server_verb-blank : (s : Bytes) → word_length s ≡ 0 → server_verb s ≡ utsil
unfolding server_verb strncmp_eq
server_verb-blank s e = rw e

-- The text of a command.
abbrev pub command_spelling : Command → Bytes
command_spelling help = user_help
command_spelling listu = user_listu
command_spelling chat = user_chat
command_spelling logout = user_logout
command_spelling unknown_command = []

-- A line that begins with a command and a blank is taken for that command, whatever follows.
pub user_command-spelling :
    (c : Command) (blank : ℕ) (rest : Bytes)
    → c ≢ unknown_command
    → ends_word blank ≡ true
    → user_command (command_spelling c ++ blank ∷ rest) ≡ c
unfolding user_command word_length strncmp_eq
user_command-spelling help blank rest h b = rw b
user_command-spelling listu blank rest h b = rw b
user_command-spelling chat blank rest h b = rw b
user_command-spelling logout blank rest h b = rw b
user_command-spelling unknown_command blank rest h b = absurd (h refl)

-- A line is taken for a command only if its first word is that command or a beginning of it.
pub user_command-Begins :
    (s : Bytes) (c : Command)
    → user_command s ≡ c
    → c ≢ unknown_command
    → Begins (first_word s) (command_spelling c)
unfolding user_command
user_command-Begins s help e h = Begins-of_strncmp s user_help (omega arith) (ground arith)
user_command-Begins s listu e h = Begins-of_strncmp s user_listu (omega arith) (ground arith)
user_command-Begins s chat e h = Begins-of_strncmp s user_chat (omega arith) (ground arith)
user_command-Begins s logout e h = Begins-of_strncmp s user_logout (omega arith) (ground arith)
user_command-Begins s unknown_command e h = absurd (h refl)
