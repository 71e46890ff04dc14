-- ===== src/Cli/Chat.antt =====
-- `regular_chat` of hw1_cli/client.c: the main loop, the answers to the server's messages, the
-- user's commands, and the windows' replies.
pub mod Descriptors
pub mod Actions
use me2u.Base.{
  ℕ, suc, ◌+◌, Bool, true, false, not, ◌&&◌, ◌||◌, List, [], ◌∷◌, ◌++◌, Option, none, some, length,
  drop, elem, ◌==◌, if◌then◌else◌,
}
use me2u.CString.{Bytes, lit, cstr, strlen}
use me2u.System.{
  M, Read, Selected, timed_out, block, ◌>>=◌, ◌>>◌, pure, get, put, when, emit, access, write, read,
  fd_set, fd_clr, shut_wr,
}
use me2u.Protocol.{
  maxline, stdin_fd, stdout_fd, max, msg_to, confirm_msg_from, client_list_user, client_bye,
  user_chat, ending,
}
use me2u.Cli.State.{User, Client, error}
use me2u.Cli.Buffer.{process_string}
use me2u.Cli.Text.{
  word_length, ServerVerb, utsil, ot, edne, from, uoff, eyb, unknown_verb, server_verb, Command,
  help, listu, chat, logout, unknown_command, user_command, set_string_ending, list_users,
  no_user_exists, someone_exited, print_client_help,
}
use me2u.Cli.Users.{deactivate, set_fd_for_childs, process_msg, msg_confirmed}
use me2u.Cli.Login.{clear_read_buf, store_read, is_eof, selected_set}

-- How a part of the loop's body ends: by going on behind it, by `continue`, or by `return`.
pub data Flow : Type 0 where
  proceed next leave : Flow

-- The answer to a message: `MORF` with all that follows the verb of the message, put together in an
-- array of 40 bytes.
unfoldable pub confirm_from : ℕ → Bytes → M Client (Unit {0})
confirm_from sockfd rest = do
  let temp = confirm_msg_from ++ b' ' ∷ cstr rest ++ ending
  access 40 (length temp + 1)
  write sockfd temp

-- The branches of `regular_chat` on a message; `rest` is `process_str + first_wd_l + 1`.
unfoldable pub on_verb : ℕ → ServerVerb → Bytes → M Client Flow
unfolding confirm_from
on_verb sockfd utsil rest = list_users rest >> pure next
on_verb sockfd ot rest = msg_confirmed rest >> pure next
on_verb sockfd edne rest = no_user_exists rest >> pure next
on_verb sockfd from rest = process_msg rest >> confirm_from sockfd rest >> pure next
on_verb sockfd uoff rest = someone_exited rest >> pure next
on_verb sockfd eyb rest = pure leave
on_verb sockfd unknown_verb rest = pure proceed

unfoldable pub on_message : ℕ → Option Bytes → M Client Flow
unfolding on_verb
on_message sockfd none = pure proceed
on_message sockfd (some process_str) =
    on_verb sockfd (server_verb process_str) (drop (word_length process_str + 1) process_str)

-- The socket is at its end: in order only after the user's last input.
unfoldable pub on_server_eof : Bool → M Client Flow
on_server_eof true = pure leave
on_server_eof false = error (lit "chat procedure: server terminated prematurely")

unfoldable pub on_server_data : ℕ → Read → M Client Flow
unfolding store_read on_message
on_server_data sockfd r = do
  store_read r
  g ← get
  process_str ← process_string g.read_buf
  on_message sockfd process_str

-- The socket is ready.
unfoldable pub server_ready : ℕ → Bool → M Client Flow
unfolding on_server_eof on_server_data
server_ready sockfd stdineof = do
  r ← read
  if is_eof r then on_server_eof stdineof else on_server_data sockfd r

-- `/listu`: the string is longer than its block, and `strlen` reads one byte more.
unfoldable pub send_ended : ℕ → Bytes → M Client (Unit {0})
send_ended sockfd str = do
  temp ← set_string_ending str
  access (strlen str) (strlen temp + 1)
  write sockfd temp

-- `shutdown(sockfd, SHUT_WR)` and `FD_CLR(fileno(fp), &rset)`
unfoldable pub close_input : ℕ → M Client (Unit {0})
close_input sockfd = do
  emit (shut_wr sockfd)
  g ← get
  put (record g { rset = fd_clr stdin_fd g.rset })

-- `/chat`: the block of `new_str` has no byte for the zero at which `strlen` stops.
unfoldable pub send_chat : ℕ → Bytes → M Client (Unit {0})
send_chat sockfd read_buf = do
  access maxline (strlen read_buf + 1)
  let new_buf = drop (strlen user_chat) read_buf
  process_msg (drop 1 new_buf)
  let new_str = msg_to ++ cstr new_buf ++ ending
  access (strlen msg_to + strlen new_buf + 4) (length new_str + 1)
  write sockfd new_str

-- The branches of `regular_chat` on a command, with the value of `stdineof` behind them.
unfoldable pub on_command : ℕ → Bool → Command → Bytes → M Client Bool
unfolding send_ended send_chat close_input
on_command sockfd stdineof help read_buf = print_client_help >> pure stdineof
on_command sockfd stdineof listu read_buf = send_ended sockfd client_list_user >> pure stdineof
on_command sockfd stdineof chat read_buf = send_chat sockfd read_buf >> pure stdineof
on_command sockfd stdineof logout read_buf =
    send_ended sockfd client_bye >> close_input sockfd >> pure true
on_command sockfd stdineof unknown_command read_buf =
    close_input sockfd >> error (lit "Client sent msg that cannot be understood")

unfoldable pub is_command : Bytes → Bool
is_command [] = false
is_command (c ∷ _) = c == b'/'

unfoldable pub run_command : ℕ → Bool → Bytes → M Client Bool
unfolding on_command
run_command sockfd stdineof read_buf = do
  access maxline (word_length read_buf + 1)
  on_command sockfd stdineof (user_command read_buf) read_buf

unfoldable pub on_line : ℕ → Bool → Bytes → M Client Bool
unfolding is_command run_command
on_line sockfd stdineof read_buf =
    if is_command read_buf then run_command sockfd stdineof read_buf else pure stdineof

unfoldable pub on_input : ℕ → Bool → Read → M Client Bool
unfolding store_read on_line
on_input sockfd stdineof r = do store_read r; g ← get; on_line sockfd stdineof g.read_buf

-- The standard input is ready: the new value of `stdineof`. Every branch ends in `continue`.
unfoldable pub input_ready : ℕ → Bool → M Client Bool
unfolding on_input close_input
input_ready sockfd stdineof = do
  r ← read
  if is_eof r then (close_input sockfd >> pure true) else on_input sockfd stdineof r

-- What one window's reply becomes: a message with `TO` and the name run together. The block has 24
-- bytes more than verb and text.
unfoldable pub forward_reply : ℕ → User → M Client User
forward_reply sockfd u = do
  g ← get
  let text = cstr g.read_buf
  access (length u.username) (length u.username + 1)
  let new_str = msg_to ++ u.username ++ b' ' ∷ text ++ ending
  access (strlen msg_to + length text + 24) (length new_str + 1)
  write stdout_fd new_str
  write sockfd new_str
  pure u

-- One active user, one of whose descriptors is ready.
unfoldable pub window_ready : ℕ → User → M Client User
unfolding store_read forward_reply
window_ready sockfd u = do
  r ← read
  if is_eof r then pure (deactivate u) else (store_read r >> forward_reply sockfd u)

-- The loop of `any_children_replied`: the users as it leaves them.
unfoldable pub replies : ℕ → List ℕ → List User → M Client (List User)
unfolding window_ready
replies sockfd set [] = pure []
replies sockfd set (u ∷ us) = do
  u' ← (if u.active && (elem u.rd set || elem u.wrt set) then window_ready sockfd u else pure u)
  us' ← replies sockfd set us
  pure (u' ∷ us')

unfoldable pub any_children_replied : ℕ → M Client (Unit {0})
unfolding replies
any_children_replied sockfd = do
  g ← get
  us ← replies sockfd g.rset g.users
  g' ← get
  put (record g' { users = us })

-- The `FD_SET`s before `select`.
unfoldable pub ask_for : ℕ → Bool → M Client (Unit {0})
ask_for sockfd stdineof = do
  g ← get
  let with_input = (if stdineof then g.rset else fd_set stdin_fd g.rset)
  put (record g { rset = fd_set sockfd with_input })

-- The part of a round before `select`.
unfoldable pub chat_prepare : ℕ → Bool → M Client (Unit {0})
unfolding clear_read_buf ask_for set_fd_for_childs
chat_prepare sockfd stdineof = do clear_read_buf; ask_for sockfd stdineof; set_fd_for_childs

-- `select(maxfdpl, &rset, …)`
unfoldable pub chat_select : Selected → M Client (Unit {0})
chat_select s = do g ← get; put (record g { rset = selected_set s g.maxfdpl g.rset })

-- The part of a round behind the messages of the server.
unfoldable pub after_server : ℕ → Bool → Flow → M Client (Flow × Bool)
unfolding input_ready any_children_replied
after_server sockfd stdineof leave = pure (leave, stdineof)
after_server sockfd stdineof next = pure (next, stdineof)
after_server sockfd stdineof proceed = do
  g ← get
  if elem stdin_fd g.rset
      then (input_ready sockfd stdineof >>= λ eof. pure (next, eof))
      else (any_children_replied sockfd >> pure (next, stdineof))

-- The part of a round behind `select`. After a timeout the set is empty.
unfoldable pub chat_answer : ℕ → Bool → M Client (Flow × Bool)
unfolding server_ready after_server
chat_answer sockfd stdineof = do
  g ← get
  flow ← (if elem sockfd g.rset then server_ready sockfd stdineof else pure proceed)
  after_server sockfd stdineof flow

-- One round of the loop: how it ends, and `stdineof` behind it.
unfoldable pub chat_round : ℕ → Bool → Selected → M Client (Flow × Bool)
unfolding chat_prepare chat_select chat_answer
chat_round sockfd stdineof s = do
  chat_prepare sockfd stdineof
  chat_select s
  chat_answer sockfd stdineof

-- The loop of `regular_chat`, on the outcomes of `select`.
unfoldable pub chat_loop : ℕ → Bool → List Selected → M Client (Unit {0})
unfolding chat_prepare chat_round
chat_loop sockfd stdineof [] = chat_prepare sockfd stdineof >> block
chat_loop sockfd stdineof (s ∷ rest) = chat_round sockfd stdineof s >>= λ end. elim end.0 [
  | leave ↦ pure tt
  | _ ↦ chat_loop sockfd end.1 rest
]

-- `regular_chat(stdin, sockfd)`
unfoldable pub regular_chat : ℕ → List Selected → M Client (Unit {0})
unfolding chat_loop
regular_chat sockfd selects = do
  g ← get
  put (record g { rset = []; maxfdpl = max stdin_fd sockfd + 1 })
  chat_loop sockfd false selects
