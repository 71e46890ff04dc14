-- ===== src/Cli/Chat/Actions.antt =====
-- What the main loop sends, and when it ends.
use me2u.Base.{
  ℕ, ◌+◌, ◌≤◌, ◌≡◌, ◌≢◌, Bool, true, false, List, [], ◌∷◌, ◌++◌, some, arith, length, elem,
  get_elem?, ltb, le→ltb, lt→ltb, length-append, append_assoc, if◌then◌else◌, Bool-cases, inl, inr,
}
use me2u.CString.{Bytes, lit, cstr, strlen, NoZero}
use me2u.CString.Laws.{cstr-NoZero, strlen-NoZero, NoZero-append}
use me2u.System.{Machine, Effect, Read, got, ok, exited, wrote, overrun, shut_wr, traced, fd_clr}
use me2u.System.Laws.{elem-fd_clr_self}
use me2u.Protocol.{maxline, ending, stdin_fd, confirm_msg_from, msg_to, client_bye, user_chat}
use me2u.Cli.State.{User, Client}
use me2u.Cli.Text.{word_length, from, unknown_verb, server_verb, set_string_ending, logout}
use me2u.Cli.Text.Verbs.{first_word, server_verb-spelling}
use me2u.Cli.Users.{set_fd_for_childs}
use me2u.Cli.Login.{clear_read_buf}
use me2u.Cli.Users.Lookup.{position, search_trace}
use me2u.Cli.Users.Windows.{process_msg_known, message_text}
use me2u.Cli.Chat.{
  proceed, next, leave, chat_prepare, ask_for, confirm_from, on_verb, on_message, on_command,
  send_ended, send_chat, close_input, server_ready, on_server_eof,
}

-- `set_string_ending` writes four bytes behind the block that it allocates, whatever the string.
pub set_string_ending_lem :
    (s : Bytes) (m : Machine Client)
    → set_string_ending s m
      ≡ (traced m (overrun (strlen s) (strlen s + 4) ∷ []), ok (cstr s ++ ending))
unfolding set_string_ending
set_string_ending_lem s m = simp (lt→ltb (strlen s) (strlen s + 4) (omega arith))

-- The answer to `FROM`: `MORF` with the whole rest of the message, the text too. It overruns the
-- array of 40 bytes exactly if that rest is longer than 30.
pub confirm_from_lem :
    (sockfd : ℕ) (rest : Bytes) (m : Machine Client)
    → NoZero rest
    → confirm_from sockfd rest m ≡ (
      traced m (
          (if ltb 30 (length rest) then overrun 40 (length rest + 10) ∷ [] else [])
          ++ wrote sockfd (lit "MORF " ++ rest ++ ending) ∷ []),
      ok tt,
    )
unfolding confirm_from
confirm_from_lem sockfd rest m nz =
    let n : length (confirm_msg_from ++ b' ' ∷ rest ++ ending) + 1 ≡ length rest + 10 =
      omega (arith, length-append rest ending) in
    let same : ltb 40 (length rest + 10) ≡ ltb 30 (length rest) = ground arith in
    elim (Bool-cases (ltb 30 (length rest))) [
      | inl long ↦ simp (cstr-NoZero rest nz, n, same, long, append_assoc)
      | inr short ↦ simp (cstr-NoZero rest nz, n, same, short)
    ]

-- A message of a known user, with no zero in it, is written to that user's window, and answered
-- with `MORF` and all of it, out of an array that is overrun exactly if the text is longer than 30
-- bytes.
pub on_message-from :
    (sockfd : ℕ) (rest : Bytes) (m : Machine Client) (k : ℕ) (u : User)
    → NoZero rest
    → position 0 (first_word rest) m.globals.users ≡ some k
    → get_elem? m.globals.users k ≡ some u
    → on_message sockfd (some (lit "FROM " ++ rest)) m ≡ (
      traced m (
          (search_trace (first_word rest) m.globals.users ++ wrote u.wrt (message_text rest) ∷ [])
          ++ (if ltb 30 (length rest) then overrun 40 (length rest + 10) ∷ [] else [])
          ++ wrote sockfd (lit "MORF " ++ rest ++ ending) ∷ []),
      ok next,
    )
unfolding on_message on_verb word_length
on_message-from sockfd rest m k u nz found at =
    let told =
      traced m
        (search_trace (first_word rest) m.globals.users ++ wrote u.wrt (message_text rest) ∷ []) in
    simp (
      server_verb-spelling from rest (λ e. cc),
      process_msg_known rest m k u found at,
      confirm_from_lem sockfd rest told nz,
      append_assoc,
    )

-- A message with a verb that the client does not know is dropped, and the loop goes on.
pub on_message-unknown :
    (sockfd : ℕ) (s : Bytes) (m : Machine Client)
    → server_verb s ≡ unknown_verb
    → on_message sockfd (some s) m ≡ (m, ok proceed)
unfolding on_message on_verb
on_message-unknown sockfd s m e = simp e

-- The effects of `/logout` or `/listu`: the verb is sent with its end, out of a block that has no
-- room for the end.
abbrev pub ended_trace : ℕ → Bytes → List Effect
ended_trace sockfd verb =
    overrun (length verb) (length verb + 4)
    ∷ overrun (length verb) (length verb + 5)
    ∷ wrote sockfd (verb ++ ending)
    ∷ []

pub send_ended_lem :
    (sockfd : ℕ) (verb : Bytes) (m : Machine Client)
    → NoZero verb
    → send_ended sockfd verb m ≡ (traced m (ended_trace sockfd verb), ok tt)
unfolding send_ended
send_ended_lem sockfd verb m nz =
    let n : strlen (verb ++ ending) + 1 ≡ length verb + 5 = omega (
      arith,
      strlen-NoZero (verb ++ ending) (NoZero-append verb ending nz (omega arith)),
      length-append verb ending,
    ) in
    simp (
      strlen-NoZero verb nz,
      cstr-NoZero verb nz,
      set_string_ending_lem verb m,
      n,
      lt→ltb (length verb) (length verb + 5) (omega arith),
      append_assoc,
    )

-- `/logout`: `BYE` is sent, then the sending side is shut, and the standard input is no longer
-- asked for.
pub on_command-logout :
    (sockfd : ℕ) (stdineof : Bool) (line : Bytes) (m : Machine Client)
    → on_command sockfd stdineof logout line m ≡ (
        let after = traced m (ended_trace sockfd client_bye ++ shut_wr sockfd ∷ []) in
        (
          record after { globals = record m.globals { rset = fd_clr stdin_fd m.globals.rset } },
          ok true,
        ))
unfolding on_command close_input
on_command-logout sockfd stdineof line m =
    simp (send_ended_lem sockfd client_bye m (omega arith), append_assoc)

-- After `/logout` no round of the loop asks for the standard input.
pub logout-elem :
    (sockfd : ℕ) (stdineof : Bool) (line : Bytes) (m : Machine Client)
    → sockfd ≢ stdin_fd
    → elem stdin_fd
        (chat_prepare sockfd true (on_command sockfd stdineof logout line m).0).0.globals.rset
      ≡ false
unfolding chat_prepare clear_read_buf ask_for set_fd_for_childs
logout-elem sockfd stdineof line m ne =
    rw (on_command-logout sockfd stdineof line m)
      (ground (arith, elem-fd_clr_self stdin_fd m.globals.rset))

-- At the end of the server's stream the loop ends in order if the input was closed before, by
-- `/logout` or at its own end, and with `EXIT_FAILURE` if not.
pub server_ready_eof :
    (sockfd : ℕ) (stdineof : Bool) (m : Machine Client) (rs : List Read)
    → m.os.reads ≡ got [] ∷ rs
    → (server_ready sockfd stdineof m).1 ≡ (if stdineof then ok leave else exited 1)
unfolding server_ready on_server_eof
server_ready_eof sockfd true m rs script = simp script
server_ready_eof sockfd false m rs script = simp script

-- `/chat` to a known user, on a line that fits the buffer and has no zero: the text goes to the
-- window and, with the line end that closes the input, to the server; the zero behind the message
-- is read one byte behind its block.
pub send_chat_known :
    (sockfd : ℕ) (rest : Bytes) (m : Machine Client) (k : ℕ) (u : User)
    → NoZero rest
    → length rest + 7 ≤ maxline
    → position 0 (first_word rest) m.globals.users ≡ some k
    → get_elem? m.globals.users k ≡ some u
    → send_chat sockfd (lit "/chat " ++ rest) m ≡ (
      traced m (
          (search_trace (first_word rest) m.globals.users ++ wrote u.wrt (message_text rest) ∷ [])
          ++ overrun (length rest + 7) (length rest + 8)
            ∷ wrote sockfd (lit "TO " ++ rest ++ ending)
            ∷ []),
      ok tt,
    )
unfolding send_chat
send_chat_known sockfd rest m k u nz le found at =
    let told =
      traced m
        (search_trace (first_word rest) m.globals.users ++ wrote u.wrt (message_text rest) ∷ []) in
    let line : NoZero (b' ' ∷ rest) = ((omega arith), nz) in
    let verb : strlen user_chat ≡ 5 = strlen-NoZero user_chat (omega arith) in
    let fits : ltb maxline (strlen (lit "/chat " ++ rest) + 1) ≡ false = le→ltb maxline _ (
      omega (
        arith,
        strlen-NoZero (lit "/chat " ++ rest) (NoZero-append (lit "/chat ") rest (omega arith) nz),
      )) in
    let size : strlen msg_to + strlen (b' ' ∷ rest) + 4 ≡ length rest + 7 =
      omega (arith, strlen-NoZero msg_to (omega arith), strlen-NoZero (b' ' ∷ rest) line) in
    let need : length (lit "TO " ++ rest ++ ending) + 1 ≡ length rest + 8 =
      omega (arith, length-append rest ending) in
    simp (
      fits,
      verb,
      process_msg_known rest m k u found at,
      cstr-NoZero (b' ' ∷ rest) line,
      size,
      need,
      lt→ltb (length rest + 7) (length rest + 8) (omega arith),
      append_assoc,
    )
