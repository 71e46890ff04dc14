-- ===== src/Cli/Invariant/Login.antt =====
-- The login procedure keeps the invariant, and so does the conversation as a whole.
use me2u.Base.{
  ◌-◌, ◌^◌, ◌%◌, drop, Bool, true, false, if◌then◌else◌, ◌++◌, ltb, length, ℕ, ◌+◌, List, [], ◌∷◌,
  Option, none, some, elem,
}
use me2u.CString.{Bytes, padded, cstr, strcmp_eq, strncmp_eq}
use me2u.System.{
  Machine, ssize_max, access, write, ◌>>◌, wrote, overrun, Selected, block, pure, exit,
}
use me2u.System.Keeps.{Keeps, >>=-Keeps, >>-Keeps, if-Keeps, when-Keeps}
use me2u.Protocol.{
  client_set_user, ending, exit_failure, stdin_fd, stdout_fd, max, server_login_init,
  server_user_taken, server_user_approve, server_motd,
}
use me2u.Cli.State.{Client}
use me2u.Cli.Login.{
  LoginState, start, hello_sent, name_sent, approved, done, is_done, read_message, read_count,
  is_eof, write_motd, on_motd, await_motd, on_approval, await_approval, on_hello, await_hello,
  send_username, login_switch, begin_login, send_login_msg, login_prepare, login_answer,
  login_round, login_loop, login_proc, selected_set,
}
use me2u.Cli.Main.{converse}
use me2u.Cli.Invariant.{IsValid}
use me2u.Cli.Invariant.Steps.{
  get-Keeps, pure-Keeps, emit-Keeps, error-Keeps, read-Keeps, clear_read_buf-Keeps,
  store_read-Keeps,
}
use me2u.Cli.Invariant.Chat.{keeping, process_read-Keeps}
use me2u.Cli.Invariant.Loop.{regular_chat-Keeps}

module _ {sockfd : ℕ} where
  exit-Keeps : {A : Type 0} (code : ℕ) → Keeps (IsValid sockfd) (exit {A = A} code)
  exit-Keeps code = record { apply = λ m v. v }

  block-Keeps : {A : Type 0} → Keeps (IsValid sockfd) (block {A = A})
  block-Keeps = record { apply = λ m v. v }

  read_message-Keeps : (e : Bytes) → Keeps (IsValid sockfd) (read_message e)
  unfolding read_message
  read_message-Keeps e = >>=-Keeps read-Keeps λ r.
      >>-Keeps (if-Keeps (is_eof r) (λ _. error-Keeps e) (λ _. pure-Keeps tt)) (
        >>-Keeps (store_read-Keeps r) (
          process_read-Keeps {f = λ s. pure (read_count r, s)} (λ s. pure-Keeps (read_count r, s))))

  write_unless-Keeps :
      (refused : Bool) (size need fd : ℕ) (b : Bytes)
      → Keeps (IsValid sockfd) (if refused then pure tt else (access size need >> write fd b))
  write_unless-Keeps true size need fd b = pure-Keeps tt
  write_unless-Keeps false size need fd b = search keeping

  write_motd-Keeps : (n : ℕ) (s : Bytes) → Keeps (IsValid sockfd) (write_motd n s)
  unfolding write_motd
  write_motd-Keeps n s =
      let count = (n + 2 ^ 64 - 4 + 1) % 2 ^ 64 in
      write_unless-Keeps (ltb ssize_max count) (length s + 4) (5 + count) stdout_fd
        (padded count (drop 5 s))

  on_motd-Keeps : (answer : ℕ × Option Bytes) → Keeps (IsValid sockfd) (on_motd answer)
  unfolding on_motd
  on_motd-Keeps (n, none) = pure-Keeps approved
  on_motd-Keeps (n, some s) =
      if-Keeps (strncmp_eq 4 s server_motd) (λ _. >>-Keeps (write_motd-Keeps n s) (pure-Keeps done))
        (λ _. error-Keeps _)

  await_motd-Keeps : Keeps (IsValid sockfd) await_motd
  unfolding await_motd
  await_motd-Keeps = >>=-Keeps (read_message-Keeps _) on_motd-Keeps

  on_approval-Keeps : (answer : ℕ × Option Bytes) → Keeps (IsValid sockfd) (on_approval answer)
  unfolding on_approval
  on_approval-Keeps (n, none) = pure-Keeps name_sent
  on_approval-Keeps (n, some s) =
      if-Keeps (strcmp_eq s server_user_taken)
        (λ _. >>-Keeps (emit-Keeps _) (exit-Keeps exit_failure))
        (λ _.
          if-Keeps (strcmp_eq s server_user_approve) (λ _. await_motd-Keeps) (λ _. error-Keeps _))

  await_approval-Keeps : Keeps (IsValid sockfd) await_approval
  unfolding await_approval
  await_approval-Keeps = >>=-Keeps (read_message-Keeps _) on_approval-Keeps

  access-Keeps : (size upto : ℕ) → Keeps (IsValid sockfd) (access {G = Client} size upto)
  access-Keeps size upto = when-Keeps (ltb size upto) (emit-Keeps (overrun size upto))

  send_username-Keeps : (fd : ℕ) → Keeps (IsValid sockfd) (send_username fd)
  unfolding send_username
  send_username-Keeps fd = >>=-Keeps get-Keeps λ g.
      let name = cstr g.current_user_name in
      let message = client_set_user ++ b' ' ∷ name ++ ending in
      >>-Keeps (access-Keeps 20 (length name + 1)) (
        >>-Keeps (access-Keeps 30 (4 + length name))
          (>>-Keeps (access-Keeps 30 (length message + 1)) (emit-Keeps (wrote fd message))))

  on_hello-Keeps :
      (fd : ℕ) (answer : ℕ × Option Bytes) → Keeps (IsValid sockfd) (on_hello fd answer)
  unfolding on_hello
  on_hello-Keeps fd (n, none) = pure-Keeps hello_sent
  on_hello-Keeps fd (n, some s) =
      if-Keeps (strcmp_eq s server_login_init)
        (λ _. >>-Keeps (send_username-Keeps fd) (pure-Keeps name_sent)) (λ _. error-Keeps _)

  await_hello-Keeps : (fd : ℕ) → Keeps (IsValid sockfd) (await_hello fd)
  unfolding await_hello
  await_hello-Keeps fd = >>=-Keeps (read_message-Keeps _) (on_hello-Keeps fd)

  login_switch-Keeps : (fd : ℕ) (st : LoginState) → Keeps (IsValid sockfd) (login_switch fd st)
  unfolding login_switch
  login_switch-Keeps fd start = pure-Keeps start
  login_switch-Keeps fd hello_sent = await_hello-Keeps fd
  login_switch-Keeps fd name_sent = await_approval-Keeps
  login_switch-Keeps fd approved = await_motd-Keeps
  login_switch-Keeps fd done = pure-Keeps done

  begin_login-Keeps : (fd : ℕ) (st : LoginState) → Keeps (IsValid sockfd) (begin_login fd st)
  unfolding begin_login send_login_msg
  begin_login-Keeps fd start = >>-Keeps (emit-Keeps _) (pure-Keeps hello_sent)
  begin_login-Keeps fd hello_sent = pure-Keeps hello_sent
  begin_login-Keeps fd name_sent = pure-Keeps name_sent
  begin_login-Keeps fd approved = pure-Keeps approved
  begin_login-Keeps fd done = pure-Keeps done

  login_prepare-Keeps :
      (fd : ℕ) (st : LoginState) (set : List ℕ) → Keeps (IsValid sockfd) (login_prepare fd st set)
  unfolding login_prepare
  login_prepare-Keeps fd st set =
      >>-Keeps clear_read_buf-Keeps (>>=-Keeps (begin_login-Keeps fd st) (λ st'. pure-Keeps _))

  login_answer-Keeps :
      (fd : ℕ) (s : Selected) (p : LoginState × List ℕ)
      → Keeps (IsValid sockfd) (login_answer fd s p)
  unfolding login_answer
  login_answer-Keeps fd s (st, asked) =
      >>=-Keeps
        (if-Keeps (elem fd (selected_set s (max stdin_fd fd + 1) asked))
          (λ _. login_switch-Keeps fd st) (λ _. pure-Keeps st))
        (λ next. pure-Keeps _)

  login_round-Keeps :
      (fd : ℕ) (s : Selected) (p : LoginState × List ℕ)
      → Keeps (IsValid sockfd) (login_round fd s p)
  unfolding login_round
  login_round-Keeps fd s (st, set) =
      >>=-Keeps (login_prepare-Keeps fd st set) (login_answer-Keeps fd s)

  login_loop-Keeps :
      (fd : ℕ) (selects : List Selected) (p : LoginState × List ℕ)
      → Keeps (IsValid sockfd) (login_loop fd selects p)
  unfolding login_loop
  login_loop-Keeps fd [] (st, set) =
      if-Keeps (is_done st) (λ _. pure-Keeps [])
        (λ _. >>=-Keeps (login_prepare-Keeps fd st set) (λ _. block-Keeps))
  login_loop-Keeps fd (s ∷ rest) (st, set) =
      if-Keeps (is_done st) (λ _. pure-Keeps (s ∷ rest))
        (λ _. >>=-Keeps (login_round-Keeps fd s (st, set)) (login_loop-Keeps fd rest))

  converse-Keeps : (selects : List Selected) → Keeps (IsValid sockfd) (converse sockfd selects)
  unfolding converse login_proc
  converse-Keeps selects =
      >>=-Keeps (login_loop-Keeps sockfd selects (start, [])) regular_chat-Keeps

-- Whatever the server sends, the user types and the system answers, the login procedure and the
-- main loop behind it leave the variables valid, however they end, if they were valid before.
pub converse-IsValid :
    (sockfd : ℕ) (selects : List Selected) (m : Machine Client)
    → IsValid sockfd m
    → IsValid sockfd (converse sockfd selects m).0
converse-IsValid sockfd selects m v = (converse-Keeps selects).apply m v
