-- ===== src/Cli/Login/Rounds.antt =====
-- The login procedure on the answers of the server.
use me2u.Base.{
  refl, ap, suc, ◌∙◌, ℕ, ◌+◌, ◌-◌, ◌^◌, ◌%◌, ◌≤◌, ◌<◌, ◌≡◌, List, [], ◌∷◌, ◌++◌, arith, length,
  length-append, append_assoc, if◌then◌else◌, Bool-cases, ltb, le→ltb, lt→ltb, inl, inr,
}
use me2u.CString.{Bytes, lit, NoZero, padded}
use me2u.CString.Laws.{cstr-NoZero}
use me2u.System.{Machine, Read, ok, wrote, overrun, traced, ssize_max}
use me2u.Protocol.{maxline, ending, client_set_user}
use me2u.Cli.State.{Client}
use me2u.Cli.Buffer.Framing.{with_text}
use me2u.Cli.Login.{send_username, write_motd}

-- The name is sent behind `IAM`. A name of twenty bytes, the most that `main` stores, has no zero
-- behind it in `CURRENT_USER_NAME`; nothing else is accessed out of bounds.
pub send_username_lem :
    (sockfd : ℕ) (m : Machine Client)
    → NoZero m.globals.current_user_name
    → length m.globals.current_user_name ≤ 20
    → send_username sockfd m ≡ (
      traced m (
          (if ltb 20 (length m.globals.current_user_name + 1)
            then overrun 20 (length m.globals.current_user_name + 1) ∷ []
            else [])
          ++ wrote sockfd (client_set_user ++ b' ' ∷ m.globals.current_user_name ++ ending) ∷ []),
      ok tt,
    )
unfolding send_username
send_username_lem sockfd m nz le =
    let name = m.globals.current_user_name in
    let fits = le→ltb 30 (4 + length name) (omega arith) in
    let room =
      le→ltb 30 (length (client_set_user ++ b' ' ∷ name ++ ending) + 1)
        (omega (arith, length-append name ending)) in
    elim (Bool-cases (ltb 20 (length name + 1))) [
      | inl over ↦ simp (cstr-NoZero name nz, over, fits, room, append_assoc)
      | inr within ↦ simp (cstr-NoZero name nz, within, fits, room)
    ]

-- The machine after a whole message, `b` with its end, has been read.
abbrev pub after_message : Machine Client → Bytes → List Read → Machine Client
after_message m b rs =
    with_text
      (record m { os = record m.os { reads = rs }; globals = record m.globals { read_buf = b } }) []
      maxline

padded-end : (text : Bytes) → padded (length text + 6) text ≡ text ++ 0 ∷ 0 ∷ 0 ∷ 0 ∷ 0 ∷ 0 ∷ []
padded-end [] = refl
padded-end (c ∷ text) =
    let shift : length (c ∷ text) + 6 ≡ suc (length text + 6) = omega arith in
    ap (λ n. padded n (c ∷ text)) shift ∙ ap (◌∷◌ c) (padded-end text)

-- `write_motd` on a message that came in one read and is shorter than the buffer: the text is
-- written, with the zeros of its block and the two bytes behind the block.
pub write_motd_lem :
    (text : Bytes) (m : Machine Client)
    → length text < maxline
    → write_motd (length (lit "MOTD " ++ text ++ ending)) (lit "MOTD " ++ text) m ≡ (
      traced m (
          overrun (length (lit "MOTD " ++ text) + 4) (length (lit "MOTD " ++ text) + 4 + 2)
          ∷ wrote 1 (text ++ 0 ∷ 0 ∷ 0 ∷ 0 ∷ 0 ∷ 0 ∷ [])
          ∷ []),
      ok tt,
    )
unfolding write_motd
write_motd_lem text m lt =
    let count : (length (lit "MOTD " ++ text ++ ending) + 2 ^ 64 - 4 + 1) % 2 ^ 64
        ≡ length text + 6 =
      omega (arith, length-append text ending) in
    let end : 5 + (length text + 6) ≡ length (lit "MOTD " ++ text) + 4 + 2 = omega arith in
    let over =
      lt→ltb (length (lit "MOTD " ++ text) + 4) (length (lit "MOTD " ++ text) + 4 + 2)
        (omega arith) in
    let accepted = le→ltb ssize_max (length text + 6) (omega arith) in
    simp (count, accepted, padded-end text, end, over, append_assoc)
