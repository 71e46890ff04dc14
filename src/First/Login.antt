-- ===== src/First/Login.antt =====
-- `login_proc` of hw1_client/src/client.c.
pub mod Run
pub mod Rounds
pub mod Success
use me2u.Base.{
  ℕ, ◌+◌, ◌-◌, ◌^◌, ◌%◌, Bool, true, false, List, [], ◌∷◌, ◌++◌, length, take, drop, elem, ltb,
  ◌==◌, if◌then◌else◌,
}
use me2u.CString.{Bytes, lit, cstr, strlen, overlay}
use me2u.System.{
  M, Read, got, failed, Selected, timed_out, woke, select_failed, block, ◌>>=◌, ◌>>◌, pure, get,
  put, access, write, read, fd_set, fd_ready,
}
use me2u.Protocol.{stdin_fd, stdout_fd}
use me2u.First.Protocol.{
  maxline, max, ending, client_login_init, server_login_init, client_set_user, server_user_taken,
  server_user_approve, server_motd,
}
use me2u.First.Strings.{
  First, first_error, printf_error, starts_with, get_string_without_ending, full_block,
  set_string_ending,
}

-- The values 0, 1, 2, 3, 4 and 10 of `login_state`.
pub data FirstState : Type 0 where
  initiate hello username approval motd logged_in : FirstState

-- The result of `read` as the `size_t` to which the program converts it.
unfoldable pub first_count : Read → ℕ
first_count failed = 2 ^ 64 - 1
first_count (got b) = length (take maxline b)

abbrev pub at_end : Read → Bool
at_end (got []) = true
at_end _ = false

-- What `read(sockfd, buf, MAXLINE)` leaves in `buf`.
unfoldable pub store_buf : Read → M First (Unit {0})
store_buf failed = pure tt
store_buf (got b) = do g ← get; put (record g { buf = overlay (take maxline b) g.buf })

-- `if((n = read(sockfd, buf, MAXLINE)) == 0) error(msg)`, and `get_string_without_ending(buf)`.
unfoldable pub read_string : Bytes → M First (ℕ × Bytes)
read_string msg = do
  r ← read
  if at_end r then first_error msg else pure tt
  store_buf r
  g ← get
  access maxline (strlen g.buf + 1)
  let temp_str = get_string_without_ending g.buf
  full_block temp_str
  pure (first_count r, temp_str)

unfoldable pub on_hello_string : Bytes → M First FirstState
on_hello_string [] = printf_error (lit "\n==><<\n") >> pure hello
on_hello_string (c ∷ temp_str) =
    if starts_with (c ∷ temp_str) server_login_init
    then pure username
    else first_error (lit "Expected server hello, got something else")

-- `case 1`, with the socket ready
unfoldable pub case_hello : M First FirstState
case_hello = read_string (lit "Server exited prevaturely while in hello procedure") >>= λ answer.
    on_hello_string answer.1

-- `case 2`
unfoldable pub case_username : ℕ → M First FirstState
case_username sockfd = do
  g ← get
  access 20 (strlen g.current_user_name + 1)
  let temp_str = client_set_user ++ b' ' ∷ cstr g.current_user_name
  message ← set_string_ending temp_str
  access (length temp_str) (length message + 1)
  write sockfd message
  pure approval

unfoldable pub on_approval_string : Bytes → M First FirstState
on_approval_string temp_str =
    if starts_with temp_str server_user_taken
    then first_error (lit "User name is taken")
    else if starts_with temp_str server_user_approve
    then pure motd
    else if strlen temp_str == 0
    then pure approval
    else first_error (lit "Invalid systex on username approval notice")

-- `case 3`, with the socket ready
unfoldable pub case_approval : M First FirstState
case_approval =
    read_string (lit "Server exited prevaturely while in username approval procedure") >>= λ answer.
    on_approval_string answer.1

-- The text of the message is written: `n - strlen(SERVER_MOTD) + 1` bytes from the sixth on. What
-- is written is taken from the block only.
unfoldable pub write_text : ℕ → Bytes → M First (Unit {0})
write_text n temp_str = do
  let count = (n + 2 ^ 64 - 4 + 1) % 2 ^ 64
  access (length temp_str) (5 + count)
  write stdout_fd (take count (drop 5 temp_str))

unfoldable pub on_motd_string : ℕ → Bytes → M First FirstState
on_motd_string n [] = pure motd
on_motd_string n (c ∷ temp_str) =
    if starts_with (c ∷ temp_str) server_motd
    then (write_text n (c ∷ temp_str) >> pure logged_in)
    else first_error (lit "Invalid systex on MOTD")

-- `case 4`, with the socket ready
unfoldable pub case_motd : M First FirstState
case_motd = read_string (lit "Server exited prevaturely before MOTD") >>= λ answer.
    on_motd_string answer.0 answer.1

-- The `switch`, where `up` says whether the socket is ready.
unfoldable pub first_switch : ℕ → Bool → FirstState → M First FirstState
first_switch sockfd true hello = case_hello
first_switch sockfd up username = case_username sockfd
first_switch sockfd true approval = case_approval
first_switch sockfd true motd = case_motd
first_switch sockfd up st = pure st

-- State 0: the greeting is sent.
unfoldable pub first_begin : ℕ → FirstState → M First FirstState
first_begin sockfd initiate = do
  temp_str ← set_string_ending client_login_init
  access (length client_login_init) (length temp_str + 1)
  write sockfd temp_str
  pure hello
first_begin sockfd st = pure st

-- The part of a round before `select`.
unfoldable pub first_prepare : ℕ → FirstState → M First FirstState
first_prepare sockfd login_state = do
  g ← get
  put (record g { buf = []; rset = fd_set sockfd (fd_set stdin_fd g.rset) })
  first_begin sockfd login_state

-- `select(…) != 0`, and the `switch`. After a timeout the set is empty, and nothing is done.
unfoldable pub first_answer : ℕ → Selected → FirstState → M First FirstState
first_answer sockfd timed_out st = do g ← get; put (record g { rset = [] }); pure st
first_answer sockfd (woke ready) st = do
  g ← get
  let set = fd_ready (max stdin_fd sockfd + 1) ready g.rset
  put (record g { rset = set })
  first_switch sockfd (elem sockfd set) st
first_answer sockfd select_failed st = do g ← get; first_switch sockfd (elem sockfd g.rset) st

unfoldable pub first_round : ℕ → Selected → FirstState → M First FirstState
first_round sockfd s login_state = first_prepare sockfd login_state >>= first_answer sockfd s

-- The loop, on the outcomes of `select`; what is left of them is for the main loop.
unfoldable pub first_loop : ℕ → List Selected → FirstState → M First (List Selected)
first_loop sockfd selects logged_in = pure selects
first_loop sockfd [] st = first_prepare sockfd st >>= λ _. block
first_loop sockfd (s ∷ rest) st = first_round sockfd s st >>= first_loop sockfd rest

-- `login_proc(stdin, sockfd)`
unfoldable pub first_login_proc : ℕ → List Selected → M First (List Selected)
first_login_proc sockfd selects = do
  g ← get
  put (record g { rset = [] })
  first_loop sockfd selects initiate
