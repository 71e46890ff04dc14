-- ===== src/First/Talk.antt =====
-- What the first version's main loop does with the server's messages and the user's lines.
pub mod Loop
pub mod Run
use me2u.Base.{
  ℕ, ◌+◌, ◌-◌, ◌^◌, ◌%◌, ◌≤◌, ◌<◌, ◌≡◌, ◌≢◌, refl, ap, ◌∙◌, Bool, true, false, List, [], ◌∷◌, ◌++◌,
  arith, length, length-append, take_all, take-append, elem, ltb, le→ltb, append-nil, append_assoc,
  All, if◌then◌else◌,
}
use me2u.CString.{Bytes, lit, cstr, strlen, strncmp_eq, strtok_spaces, NoZero}
use me2u.CString.Laws.{cstr-NoZero, strlen-NoZero, NoZero-append, NoZero-append_inv}
use me2u.System.{
  M, Machine, Result, Effect, wrote, overrun, shut_wr, Read, got, Selected, woke, ok, waiting,
  traced, ssize_max, pure, fd_set, fd_clr, fd_ready, continue_with,
}
use me2u.System.Laws.{elem-fd_set_self, elem-fd_ready_self, elem-fd_ready_other}
use me2u.Protocol.{stdin_fd}
use me2u.First.Protocol.{
  maxline, max, ending, server_list_user, confirm_msg_to, msg_from, no_usr, server_bye_ack,
  server_bye_brod, user_help, user_listu, user_chat,
}
use me2u.First.Strings.{First, help_string}
use me2u.First.Strings.Prefix.{starts_with-append, starts_with-other, strlen-filled}
use me2u.First.Login.{store_buf}
use me2u.First.Chat.{
  write_words, write_but_ending, on_buf, from_server, end_input, write_ended, on_typed_line,
  from_user, react, ask, await_ready, talk_round, talk_loop,
}
use me2u.First.Chat.Replies.{on_typed_line-chat, on_buf-no_user}

-- The messages of the server, and the lines of the user. `FROM` is left out.
pub data Event : Type 0 where
  listed sent absent left : Bytes → Event
  asks_help asks_list : Event
  chats : Bytes → Event
  logs_out : Event

abbrev pub event_bytes : Event → Bytes
event_bytes (listed names) = lit "UTSIL" ++ names
event_bytes (sent rest) = lit "OT" ++ rest
event_bytes (absent name) = lit "EDNE" ++ name ++ ending
event_bytes (left name) = lit "UOFF" ++ name ++ ending
event_bytes asks_help = lit "/help\n"
event_bytes asks_list = lit "/listu\n"
event_bytes (chats rest) = lit "/chat" ++ rest
event_bytes logs_out = lit "/logout\n"

abbrev pub lines_of : List Bytes → List Effect
lines_of [] = []
lines_of (word ∷ words) = wrote 1 word ∷ wrote 1 (b'\n' ∷ []) ∷ lines_of words

-- All that is done on an event, the accesses out of bounds included.
abbrev pub event_effects : ℕ → Event → List Effect
event_effects sockfd (listed names) = lines_of (strtok_spaces names)
event_effects sockfd (sent rest) =
    wrote 1 (lit "\u{1b}[1;33m MSG sent successfully.\u{1b}[0m\n") ∷ []
event_effects sockfd (absent name) =
    wrote 1 (lit "No, user = ") ∷ wrote 1 name ∷ wrote 1 (lit " exists.\n") ∷ []
event_effects sockfd (left name) =
    wrote 1 (lit "Client closed with the name of = ") ∷ wrote 1 name ∷ []
event_effects sockfd asks_help = wrote 1 help_string ∷ []
event_effects sockfd asks_list = overrun 5 9 ∷ overrun 5 9 ∷ wrote sockfd (lit "LISTU\r\n\r\n") ∷ []
event_effects sockfd (chats rest) =
    overrun (length rest + 6) (length rest + 7) ∷ wrote sockfd (lit "TO" ++ rest ++ ending) ∷ []
event_effects sockfd logs_out =
    overrun 3 7 ∷ overrun 3 7 ∷ wrote sockfd (lit "BYE\r\n\r\n") ∷ shut_wr sockfd ∷ []

print_words_lem :
    (words : List Bytes) (m : Machine First)
    → write_words words m ≡ (traced m (lines_of words), ok tt)
unfolding write_words
print_words_lem [] m = rw append-nil
print_words_lem (word ∷ words) m =
    let shown = wrote 1 word ∷ wrote 1 (b'\n' ∷ []) ∷ [] in
    simp (append_assoc) (simp (print_words_lem words (traced m shown), append_assoc))

module _ (sockfd : ℕ) (m : Machine First) where
  pub on_buf-listed :
      (names : Bytes)
      → NoZero names
      → on_buf sockfd (lit "UTSIL" ++ names) m
        ≡ (traced m (event_effects sockfd (listed names)), ok true)
  unfolding on_buf strncmp_eq
  on_buf-listed names nz =
      let b = lit "UTSIL" ++ names in
      let string = NoZero-append (lit "UTSIL") names (omega arith) nz in
      simp (
        strlen-filled b'U' (lit "TSIL" ++ names) string,
        starts_with-other b (lit "\r\n") (omega arith) refl,
        starts_with-other b (lit "\r\n\r\n") (omega arith) refl,
        starts_with-append server_list_user names string (omega arith),
        print_words_lem (strtok_spaces names) m,
      )

  pub on_buf-sent :
      (rest : Bytes)
      → NoZero rest
      → on_buf sockfd (lit "OT" ++ rest) m ≡ (traced m (event_effects sockfd (sent rest)), ok true)
  unfolding on_buf strncmp_eq
  on_buf-sent rest nz =
      let b = lit "OT" ++ rest in
      let string = NoZero-append (lit "OT") rest (omega arith) nz in
      simp (
        strlen-filled b'O' (lit "T" ++ rest) string,
        starts_with-other b (lit "\r\n") (omega arith) refl,
        starts_with-other b (lit "\r\n\r\n") (omega arith) refl,
        starts_with-other b server_list_user (omega arith) refl,
        starts_with-append confirm_msg_to rest string (omega arith),
      )

  pub on_buf-left :
      (name : Bytes)
      → NoZero name
      → length name + 8 < maxline
      → on_buf sockfd (lit "UOFF" ++ name ++ ending) m
        ≡ (traced m (event_effects sockfd (left name)), ok true)
  unfolding on_buf write_but_ending strncmp_eq
  on_buf-left name nz lt =
      let rest = name ++ ending in
      let b = lit "UOFF" ++ rest in
      let string =
        NoZero-append (lit "UOFF") rest (omega arith)
          (NoZero-append name ending nz (omega arith)) in
      let count : (length (name ++ ending) + 2 ^ 64 - 4) % 2 ^ 64 ≡ length name =
        omega (arith, length-append name ending) in
      simp (
        strlen-filled b'U' (lit "OFF" ++ rest) string,
        starts_with-other b (lit "\r\n") (omega arith) refl,
        starts_with-other b (lit "\r\n\r\n") (omega arith) refl,
        starts_with-other b server_list_user (omega arith) refl,
        starts_with-other b confirm_msg_to (omega arith) refl,
        starts_with-other b msg_from (omega arith) refl,
        starts_with-other b no_usr (omega arith) refl,
        starts_with-other b server_bye_ack (omega arith) refl,
        starts_with-append server_bye_brod rest string (omega arith),
        count,
        le→ltb ssize_max (length name) (omega arith),
        le→ltb maxline (4 + length name) (omega arith),
        take-append name ending,
        append_assoc,
      )
