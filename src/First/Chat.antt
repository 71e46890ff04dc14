-- ===== src/First/Chat.antt =====
-- `regular_chat` of hw1_client/src/client.c.
pub mod Replies
use me2u.Base.{
  ℕ, ◌+◌, ◌-◌, ◌^◌, ◌%◌, Bool, true, false, not, List, [], ◌∷◌, ◌++◌, length, take, drop, elem, ltb,
  ◌==◌, if◌then◌else◌,
}
use me2u.CString.{Bytes, lit, cstr, strlen, strtok_spaces}
use me2u.System.{
  M, Selected, timed_out, woke, select_failed, block, ◌>>=◌, ◌>>◌, pure, get, put, emit, crash,
  access, write, ssize_max, read, shut_wr, fd_set, fd_clr, fd_ready,
}
use me2u.Protocol.{stdin_fd, stdout_fd}
use me2u.First.Protocol.{
  maxline, max, ending, server_list_user, confirm_msg_to, msg_from, confirm_msg_from, no_usr,
  server_bye_ack, server_bye_brod, msg_to, client_list_user, client_bye, user_help, user_listu,
  user_chat, user_logout,
}
use me2u.First.Strings.{
  First, first_error, printf_error, starts_with, first_byte, set_string_ending, print_client_help,
}
use me2u.First.Login.{at_end, store_buf}

-- Whether `strtok` with ' ' reads up to the end of the string: the first word is not followed by a
-- blank. The first argument says whether the word has begun.
abbrev pub word_is_last : Bool → Bytes → Bool
word_is_last begun [] = true
word_is_last begun (c ∷ s) =
    if c == b' ' then (if begun then false else word_is_last false s) else word_is_last true s

unfoldable pub write_words : List Bytes → M First (Unit {0})
write_words [] = pure tt
write_words (user_ptr ∷ rest) = do
  write stdout_fd user_ptr
  write stdout_fd (b'\n' ∷ [])
  write_words rest

-- `MORF` with the name, in a block that has no byte for the zero behind it.
unfoldable pub confirm_name : ℕ → List Bytes → M First (Unit {0})
confirm_name sockfd [] = crash
confirm_name sockfd (msg_user ∷ _) = do
  let msg_to_sent = confirm_msg_from ++ b' ' ∷ msg_user ++ ending
  access (strlen confirm_msg_from + length msg_user + 5) (length msg_to_sent + 1)
  write sockfd msg_to_sent

-- The branch on `FROM`: the name is looked for in a copy of `buf` with no zero behind it.
unfoldable pub show_from : ℕ → Bytes → M First (Unit {0})
show_from sockfd buf = do
  let rest = drop 5 buf
  access (length buf) (if word_is_last false rest then 5 + length rest + 1 else 0)
  write stdout_fd (drop 4 buf)
  confirm_name sockfd (strtok_spaces rest)

-- `write(fileno(stdout), buf + k, strlen(buf + k) - 4)`, with the length as a `size_t`: one that has
-- wrapped around is refused by `write`.
unfoldable pub write_but_ending : ℕ → Bytes → M First (Unit {0})
write_but_ending k buf = do
  let count = (length (drop k buf) + 2 ^ 64 - 4) % 2 ^ 64
  if ltb ssize_max count
      then pure tt
      else (access maxline (k + count) >> write stdout_fd (take count (drop k buf)))

-- The branches on a message `buf`, the string in the buffer: whether the loop goes on.
unfoldable pub on_buf : ℕ → Bytes → M First Bool
on_buf sockfd buf =
    if strlen buf == 0
    then pure true
    else if starts_with buf (lit "\r\n")
    then pure true
    else if starts_with buf (lit "\r\n\r\n")
    then pure true
    else if starts_with buf server_list_user
    then (write_words (strtok_spaces (drop 5 buf)) >> pure true)
    else if starts_with buf confirm_msg_to
    then (write stdout_fd (lit "\u{1b}[1;33m MSG sent successfully.\u{1b}[0m\n") >> pure true)
    else if starts_with buf msg_from
    then (show_from sockfd buf >> pure true)
    else if starts_with buf no_usr
    then (write stdout_fd (lit "No, user = ")
        >> write_but_ending 4 buf
        >> write stdout_fd (lit " exists.\n")
        >> pure true)
    else if starts_with buf server_bye_ack
    then pure false
    else if starts_with buf server_bye_brod
    then (write stdout_fd (lit "Client closed with the name of = ")
        >> write_but_ending 4 buf
        >> pure true)
    else (printf_error (lit "Server sent >>" ++ buf ++ lit "<<\n")
        >> first_error (lit "Server sent msg that cannot be understood"))

-- The socket is ready: whether the loop goes on.
unfoldable pub from_server : ℕ → Bool → M First Bool
from_server sockfd stdineof = do
  r ← read
  if at_end r
      then (if stdineof
          then pure false
          else first_error (lit "chat procedure: server terminated prematurely"))
      else (do store_buf r; g ← get; access maxline (strlen g.buf + 1); on_buf sockfd (cstr g.buf))

-- `shutdown(sockfd, SHUT_WR)` and `FD_CLR(fileno(fp), &rset)`
unfoldable pub end_input : ℕ → M First (Unit {0})
end_input sockfd = do
  emit (shut_wr sockfd)
  g ← get
  put (record g { rset = fd_clr stdin_fd g.rset })

-- `write(sockfd, set_string_ending(str), strlen(str) + 4)`
unfoldable pub write_ended : ℕ → Bytes → M First (Unit {0})
write_ended sockfd str = do
  temp ← set_string_ending str
  access (strlen str) (length temp)
  write sockfd temp

-- `/chat`: the block of `new_str` has no byte for the zero behind the message.
unfoldable pub write_chat : ℕ → Bytes → M First (Unit {0})
write_chat sockfd buf = do
  let new_buf = drop 5 buf
  let new_str = msg_to ++ new_buf ++ ending
  access (strlen msg_to + length new_buf + 4) (length new_str + 1)
  write sockfd new_str

-- The branches on a line `buf` that the user has typed: the value of `stdineof` behind them.
unfoldable pub on_typed_line : ℕ → Bool → Bytes → M First Bool
on_typed_line sockfd stdineof buf =
    if strlen buf == 0
    then pure stdineof
    else if not (first_byte buf == b'/')
    then (printf_error (lit "You did not use the right format! Type /help to see suggestions\n")
        >> pure stdineof)
    else if starts_with buf user_help
    then (print_client_help >> pure stdineof)
    else if starts_with buf user_listu
    then (write_ended sockfd client_list_user >> pure stdineof)
    else if starts_with buf user_chat
    then (write_chat sockfd buf >> pure stdineof)
    else if starts_with buf user_logout
    then (write_ended sockfd client_bye >> end_input sockfd >> pure true)
    else (end_input sockfd >> first_error (lit "Client sent msg that cannot be understood"))

-- The input is ready: the value of `stdineof` behind the branch.
unfoldable pub from_user : ℕ → Bool → M First Bool
from_user sockfd stdineof = do
  r ← read
  if at_end r then (end_input sockfd >> pure true) else (do
    store_buf r
    g ← get
    access maxline (strlen g.buf + 1)
    on_typed_line sockfd stdineof (cstr g.buf))

-- A round behind `select`: whether the loop goes on, and the value of `stdineof`.
unfoldable pub react : ℕ → Bool → M First (Bool × Bool)
react sockfd stdineof = do
  g ← get
  if elem sockfd g.rset
      then (from_server sockfd stdineof >>= λ more. pure (more, stdineof))
      else if elem stdin_fd g.rset
      then (from_user sockfd stdineof >>= λ eof. pure (true, eof))
      else pure (true, stdineof)

-- The part of a round before `select`.
unfoldable pub ask : ℕ → Bool → M First (Unit {0})
ask sockfd stdineof = do
  g ← get
  let with_input = (if stdineof then g.rset else fd_set stdin_fd g.rset)
  put (record g { buf = []; rset = fd_set sockfd with_input })

-- `select(maxfdpl, &rset, …)`
unfoldable pub await_ready : ℕ → Selected → M First (Unit {0})
await_ready sockfd timed_out = do g ← get; put (record g { rset = [] })
await_ready sockfd (woke ready) = do
  g ← get
  put (record g { rset = fd_ready (max stdin_fd sockfd + 1) ready g.rset })
await_ready sockfd select_failed = pure tt

unfoldable pub talk_round : ℕ → Bool → Selected → M First (Bool × Bool)
talk_round sockfd stdineof s = do ask sockfd stdineof; await_ready sockfd s; react sockfd stdineof

-- The loop, on the outcomes of `select`.
unfoldable pub talk_loop : ℕ → Bool → List Selected → M First (Unit {0})
talk_loop sockfd stdineof [] = ask sockfd stdineof >> block
talk_loop sockfd stdineof (s ∷ rest) =
    talk_round sockfd stdineof s >>= λ end. if end.0 then talk_loop sockfd end.1 rest else pure tt

-- `regular_chat(stdin, sockfd)`
unfoldable pub first_regular_chat : ℕ → List Selected → M First (Unit {0})
first_regular_chat sockfd selects = do
  g ← get
  put (record g { rset = [] })
  talk_loop sockfd false selects
