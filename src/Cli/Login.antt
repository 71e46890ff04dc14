-- ===== src/Cli/Login.antt =====
-- `login_proc` of hw1_cli/client.c, with the functions that only it calls.
pub mod Reads
pub mod Rounds
pub mod Outcomes
pub mod Failures
use me2u.Base.{
  ℕ, ◌+◌, ◌-◌, ◌^◌, ◌%◌, Bool, true, false, List, [], ◌∷◌, ◌++◌, Option, none, some, length, take,
  ltb, drop, elem, if◌then◌else◌,
}
use me2u.CString.{Bytes, lit, cstr, strlen, strcmp_eq, strncmp_eq, overlay, padded}
use me2u.System.{
  M, Read, got, failed, Selected, timed_out, woke, select_failed, block, ◌>>=◌, ◌>>◌, pure, get,
  put, exit, access, write, ssize_max, read, fd_set, fd_ready,
}
use me2u.Protocol.{
  maxline, exit_failure, stdin_fd, stdout_fd, max, client_set_user, server_login_init,
  server_user_taken, server_user_approve, server_motd, username_taken, ending,
}
use me2u.Cli.State.{Client, error}
use me2u.Cli.Buffer.{process_string}

unfoldable pub send_login_msg : ℕ → M Client (Unit {0})
send_login_msg sockfd = write sockfd (lit "ME2U\r\n\r\n")

unfoldable pub send_username : ℕ → M Client (Unit {0})
send_username sockfd = do
  g ← get
  let name = cstr g.current_user_name
  access 20 (length name + 1)
  access 30 (4 + length name)
  let temp_str = client_set_user ++ b' ' ∷ name ++ ending
  access 30 (length temp_str + 1)
  write sockfd temp_str

-- `memset(read_buf, 0, MAXLINE)`
unfoldable pub clear_read_buf : M Client (Unit {0})
clear_read_buf = do g ← get; put (record g { read_buf = [] })

-- What `read(fd, read_buf, MAXLINE)` leaves in `read_buf`: nothing is cleared behind the bytes that
-- came.
unfoldable pub store_read : Read → M Client (Unit {0})
store_read failed = pure tt
store_read (got b) = do g ← get; put (record g { read_buf = overlay (take maxline b) g.read_buf })

-- The result of `read` as the `size_t` to which the program converts it.
unfoldable pub read_count : Read → ℕ
read_count failed = 2 ^ 64 - 1
read_count (got b) = length (take maxline b)

abbrev pub is_eof : Read → Bool
is_eof (got []) = true
is_eof _ = false

-- `if((n = read(sockfd, read_buf, MAXLINE)) == 0) error(msg)`, and `process_string(read_buf)`: the
-- count `n` and the message.
unfoldable pub read_message : Bytes → M Client (ℕ × Option Bytes)
read_message msg = do
  r ← read
  if is_eof r then error msg else pure tt
  store_read r
  g ← get
  process_str ← process_string g.read_buf
  pure (read_count r, process_str)

-- The values 0, 1, 3, 4 and 10 of `login_state`; 2 is left in the round in which it is entered.
pub data LoginState : Type 0 where
  start hello_sent name_sent approved done : LoginState

-- `write(fileno(stdout), process_str + strlen(SERVER_MOTD) + 1, n - strlen(SERVER_MOTD) + 1)`: the
-- block has four bytes more than the message, all zero. What stands behind the block is taken to be
-- zeros too. A length that has wrapped around is refused by `write`.
unfoldable pub write_motd : ℕ → Bytes → M Client (Unit {0})
write_motd n process_str = do
  let count = (n + 2 ^ 64 - 4 + 1) % 2 ^ 64
  if ltb ssize_max count
      then pure tt
      else (access (length process_str + 4) (5 + count)
          >> write stdout_fd (padded count (drop 5 process_str)))

unfoldable pub on_motd : ℕ × Option Bytes → M Client LoginState
on_motd (n, none) = pure approved
on_motd (n, some process_str) =
    if strncmp_eq 4 process_str server_motd
    then (write_motd n process_str >> pure done)
    else error (lit "Invalid systex on MOTD")

-- `case 4`, with the socket ready
unfoldable pub await_motd : M Client LoginState
await_motd = do answer ← read_message (lit "Server exited prevaturely before MOTD"); on_motd answer

unfoldable pub on_approval : ℕ × Option Bytes → M Client LoginState
on_approval (n, none) = pure name_sent
on_approval (n, some process_str) =
    if strcmp_eq process_str server_user_taken
    then (write stdout_fd username_taken >> exit exit_failure)
    else if strcmp_eq process_str server_user_approve
    then await_motd
    else error (lit "Invalid syntex on username approval notice")

-- `case 3`, with the socket ready; it falls through to `case 4`.
unfoldable pub await_approval : M Client LoginState
await_approval = do
  answer ← read_message (lit "Server exited prematurely while username approval is in proces")
  on_approval answer

unfoldable pub on_hello : ℕ → ℕ × Option Bytes → M Client LoginState
on_hello sockfd (n, none) = pure hello_sent
on_hello sockfd (n, some process_str) =
    if strcmp_eq process_str server_login_init
    then (send_username sockfd >> pure name_sent)
    else error (lit "Expected Server Hello, got something else")

-- `case 1`, with the socket ready; it falls through to `case 2`.
unfoldable pub await_hello : ℕ → M Client LoginState
await_hello sockfd = do
  answer ← read_message (lit "Server exited prematurely while in hello process")
  on_hello sockfd answer

-- The `switch` of `login_proc`, with the socket ready.
unfoldable pub login_switch : ℕ → LoginState → M Client LoginState
login_switch sockfd hello_sent = await_hello sockfd
login_switch sockfd name_sent = await_approval
login_switch sockfd approved = await_motd
login_switch sockfd st = pure st

-- The state in which `select` is called: 0 is left by the first message.
unfoldable pub begin_login : ℕ → LoginState → M Client LoginState
begin_login sockfd start = send_login_msg sockfd >> pure hello_sent
begin_login sockfd st = pure st

-- What `select` leaves in the set.
abbrev pub selected_set : Selected → ℕ → List ℕ → List ℕ
selected_set timed_out nfds set = []
selected_set (woke ready) nfds set = fd_ready nfds ready set
selected_set select_failed nfds set = set

-- The part of a round of the loop before `select`: the state, and the set that is asked for.
unfoldable pub login_prepare : ℕ → LoginState → List ℕ → M Client (LoginState × List ℕ)
login_prepare sockfd login_state rset = do
  clear_read_buf
  st ← begin_login sockfd login_state
  pure (st, fd_set sockfd (fd_set stdin_fd rset))

-- The part of a round from `select` on. After a timeout the set is empty.
unfoldable pub login_answer : ℕ → Selected → LoginState × List ℕ → M Client (LoginState × List ℕ)
login_answer sockfd s (st, asked) = do
  let ready = selected_set s (max stdin_fd sockfd + 1) asked
  next ← (if elem sockfd ready then login_switch sockfd st else pure st)
  pure (next, ready)

-- One round of the loop.
unfoldable pub login_round : ℕ → Selected → LoginState × List ℕ → M Client (LoginState × List ℕ)
login_round sockfd s (login_state, rset) =
    login_prepare sockfd login_state rset >>= login_answer sockfd s

abbrev pub is_done : LoginState → Bool
is_done done = true
is_done _ = false

-- The loop of `login_proc`, on the outcomes of `select`.
unfoldable pub login_loop : ℕ → List Selected → LoginState × List ℕ → M Client (List Selected)
login_loop sockfd [] (st, rset) =
    if is_done st then pure [] else (login_prepare sockfd st rset >>= λ _. block)
login_loop sockfd (s ∷ rest) (st, rset) =
    if is_done st
    then pure (s ∷ rest)
    else (login_round sockfd s (st, rset) >>= login_loop sockfd rest)

-- `login_proc(stdin, sockfd)`: the outcomes of `select` that are left for the main loop.
unfoldable pub login_proc : ℕ → List Selected → M Client (List Selected)
login_proc sockfd selects = login_loop sockfd selects (start, [])
