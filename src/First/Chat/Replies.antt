-- ===== src/First/Chat/Replies.antt =====
-- What the first version answers to the server, and to its user.
use me2u.Base.{
  Bool-cases, inl, inr, if◌then◌else◌, take-append, ℕ, ◌+◌, ◌-◌, ◌^◌, ◌%◌, ◌<◌, ◌≤◌, ◌≡◌, refl,
  Bool, true, [], ◌∷◌, ◌++◌, arith, length, length-append, take, ltb, le→ltb, lt→ltb, append_assoc,
}
use me2u.CString.{Bytes, lit, strlen, strncmp_eq, NoZero}
use me2u.CString.Laws.{strlen-NoZero, NoZero-append}
use me2u.System.{Machine, ok, wrote, overrun, traced, ssize_max}
use me2u.First.Strings.Prefix.{starts_with-append, starts_with-other, strlen-filled}
use me2u.First.Protocol.{
  server_list_user, confirm_msg_to, msg_from, no_usr, user_help, user_listu, user_chat, maxline,
  ending,
}
use me2u.First.Strings.{First}
use me2u.First.Chat.{on_buf, write_but_ending, on_typed_line, write_chat}

-- `/chat`: what follows the command is sent behind `TO`, with its line end, and the zero behind the
-- message is read one byte behind its block.
pub on_typed_line-chat :
    (sockfd : ℕ) (stdineof : Bool) (rest : Bytes) (m : Machine First)
    → NoZero rest
    → on_typed_line sockfd stdineof (lit "/chat" ++ rest) m ≡ (
      traced m (
          overrun (length rest + 6) (length rest + 7)
          ∷ wrote sockfd (lit "TO" ++ rest ++ ending)
          ∷ []),
      ok stdineof,
    )
unfolding on_typed_line write_chat strncmp_eq
on_typed_line-chat sockfd stdineof rest m nz =
    let line = NoZero-append (lit "/chat") rest (omega arith) nz in
    let need : length (lit "TO" ++ rest ++ ending) + 1 ≡ length rest + 7 =
      omega (arith, length-append rest ending) in
    let block : strlen (lit "TO") + length rest + 4 ≡ length rest + 6 =
      omega (arith, strlen-NoZero (lit "TO") (omega arith)) in
    simp (
      strlen-filled b'/' (lit "chat" ++ rest) line,
      starts_with-other (lit "/chat" ++ rest) user_help (omega arith) refl,
      starts_with-other (lit "/chat" ++ rest) user_listu (omega arith) refl,
      starts_with-append user_chat rest line (omega arith),
      need,
      block,
      lt→ltb (length rest + 6) (length rest + 7) (omega arith),
      append_assoc,
    )

-- The branch on `EDNE` is the one that is taken, and `count` bytes are written of what follows.
no_user_lem :
    (sockfd count : ℕ) (rest : Bytes) (m : Machine First)
    → NoZero rest
    → (length rest + 2 ^ 64 - 4) % 2 ^ 64 ≡ count
    → count ≤ ssize_max
    → on_buf sockfd (lit "EDNE" ++ rest) m ≡ (
      traced m (
          wrote 1 (lit "No, user = ")
            ∷ (if ltb maxline (4 + count) then overrun maxline (4 + count) ∷ [] else [])
          ++ wrote 1 (take count rest) ∷ wrote 1 (lit " exists.\n") ∷ []),
      ok true,
    )
unfolding on_buf write_but_ending strncmp_eq
no_user_lem sockfd count rest m nz size small =
    let accepted = le→ltb ssize_max count small in
    let buf = lit "EDNE" ++ rest in
    let line = NoZero-append (lit "EDNE") rest (omega arith) nz in
    elim (Bool-cases (ltb maxline (4 + count))) [
      | inl over ↦ simp (
        accepted,
        over,
        strlen-filled b'E' (lit "DNE" ++ rest) line,
        starts_with-other buf (lit "\r\n") (omega arith) refl,
        starts_with-other buf (lit "\r\n\r\n") (omega arith) refl,
        starts_with-other buf server_list_user (omega arith) refl,
        starts_with-other buf confirm_msg_to (omega arith) refl,
        starts_with-other buf msg_from (omega arith) refl,
        starts_with-append no_usr rest line (omega arith),
        size,
        append_assoc,
      )
      | inr within ↦ simp (
        accepted,
        within,
        strlen-filled b'E' (lit "DNE" ++ rest) line,
        starts_with-other buf (lit "\r\n") (omega arith) refl,
        starts_with-other buf (lit "\r\n\r\n") (omega arith) refl,
        starts_with-other buf server_list_user (omega arith) refl,
        starts_with-other buf confirm_msg_to (omega arith) refl,
        starts_with-other buf msg_from (omega arith) refl,
        starts_with-append no_usr rest line (omega arith),
        size,
        append_assoc,
      )
    ]

-- `EDNE` with a name and the end of the message: the name is shown, with the blank in front of it.
pub on_buf-no_user :
    (sockfd : ℕ) (name : Bytes) (m : Machine First)
    → NoZero name
    → length name + 4 < maxline
    → on_buf sockfd (lit "EDNE" ++ name ++ ending) m ≡ (
      traced m (wrote 1 (lit "No, user = ") ∷ wrote 1 name ∷ wrote 1 (lit " exists.\n") ∷ []),
      ok true,
    )
on_buf-no_user sockfd name m nz lt =
    let count : (length (name ++ ending) + 2 ^ 64 - 4) % 2 ^ 64 ≡ length name =
      omega (arith, length-append name ending) in
    simp (
      no_user_lem sockfd (length name) (name ++ ending) m
          (NoZero-append name ending nz (omega arith)) count (omega arith),
      le→ltb maxline (4 + length name) (omega arith),
      take-append name ending,
    )

-- `EDNE` with fewer than four bytes behind it: the length that is to be written wraps around, `write`
-- refuses it, and the user is told that somebody does not exist, but not who.
pub on_buf-unnamed :
    (sockfd : ℕ) (rest : Bytes) (m : Machine First)
    → NoZero rest
    → length rest < 4
    → on_buf sockfd (lit "EDNE" ++ rest) m
      ≡ (traced m (wrote 1 (lit "No, user = ") ∷ wrote 1 (lit " exists.\n") ∷ []), ok true)
unfolding on_buf write_but_ending strncmp_eq
on_buf-unnamed sockfd rest m nz lt =
    let buf = lit "EDNE" ++ rest in
    let line = NoZero-append (lit "EDNE") rest (omega arith) nz in
    let count : (length rest + 2 ^ 64 - 4) % 2 ^ 64 ≡ 2 ^ 64 + length rest - 4 = omega arith in
    let refused = lt→ltb ssize_max (2 ^ 64 + length rest - 4) (omega arith) in
    simp (
      count,
      refused,
      strlen-filled b'E' (lit "DNE" ++ rest) line,
      starts_with-other buf (lit "\r\n") (omega arith) refl,
      starts_with-other buf (lit "\r\n\r\n") (omega arith) refl,
      starts_with-other buf server_list_user (omega arith) refl,
      starts_with-other buf confirm_msg_to (omega arith) refl,
      starts_with-other buf msg_from (omega arith) refl,
      starts_with-append no_usr rest line (omega arith),
      append_assoc,
    )
