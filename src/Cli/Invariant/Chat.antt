-- ===== src/Cli/Invariant/Chat.antt =====
-- The rounds of the main loop keep the invariant, so it holds throughout `regular_chat`.
use me2u.Base.{
  ℕ, ◌+◌, ◌≡◌, ◌⊎◌, Bool, true, false, List, [], ◌∷◌, Option, none, some, arith, drop, elem,
  if◌then◌else◌,
}
use me2u.CString.{Bytes, strtok_spaces}
use me2u.System.{M, Read, Selected, timed_out, woke, select_failed, ◌>>=◌, get, fd_set}
use me2u.System.Laws.{elem-fd_ready, elem-fd_clr}
use me2u.System.Keeps.{Keeps, continue_with-keeps, >>=-Keeps, >>-Keeps, if-Keeps, when-Keeps}
use me2u.Protocol.{stdin_fd}
use me2u.Cli.Buffer.{process_string}
use me2u.Cli.State.{Client}
use me2u.Cli.Text.{
  ServerVerb, utsil, ot, edne, from, uoff, eyb, unknown_verb, server_verb, word_length,
  print_tokens, list_users, no_user_exists, someone_exited, set_string_ending, print_client_help,
  Command, help, listu, chat, logout, unknown_command,
}
use me2u.Cli.Users.{set_fd_for_childs}
use me2u.Cli.Login.{is_eof, selected_set}
use me2u.Cli.Chat.{
  proceed, leave, confirm_from, on_verb, on_message, on_server_eof, on_server_data, server_ready,
  send_ended, close_input, send_chat, on_command, on_line, on_input, input_ready, ask_for,
  run_command, is_command, chat_prepare, chat_select,
}
use me2u.Cli.Invariant.{IsValid}
use me2u.Cli.Invariant.Steps.{
  pure-Keeps, emit-Keeps, error-Keeps, read-Keeps, process_string-IsValid, clear_read_buf-Keeps,
  store_read-Keeps, with_users,
}
use me2u.Cli.Invariant.Windows.{process_msg-Keeps, msg_confirmed-Keeps}

pub ruleset keeping = (
  >>=-Keeps, >>-Keeps, when-Keeps, pure-Keeps, emit-Keeps, error-Keeps, read-Keeps,
  process_msg-Keeps, msg_confirmed-Keeps,
)

elem-selected_set :
    (s : Selected) (fd nfds : ℕ) (set : List ℕ)
    → elem fd (selected_set s nfds set) ≡ true
    → elem fd set ≡ true
elem-selected_set timed_out fd nfds set e = cc
elem-selected_set (woke ready) fd nfds set e = elem-fd_ready fd nfds ready set e
elem-selected_set select_failed fd nfds set e = e

elem-asked :
    (sockfd : ℕ) (stdineof : Bool) (fd : ℕ) (set : List ℕ)
    → ((k : ℕ) → elem k set ≡ true → (k ≡ stdin_fd) ⊎ (k ≡ sockfd))
    → elem fd (fd_set sockfd (if stdineof then set else fd_set stdin_fd set)) ≡ true
    → (fd ≡ stdin_fd) ⊎ (fd ≡ sockfd)
elem-asked sockfd stdineof fd set h e = ground (arith, h fd)

module _ {sockfd : ℕ} where
  confirm_from-Keeps : (fd : ℕ) (rest : Bytes) → Keeps (IsValid sockfd) (confirm_from fd rest)
  unfolding confirm_from
  confirm_from-Keeps fd rest = search keeping

  print_tokens-Keeps : (ts : List Bytes) → Keeps (IsValid sockfd) (print_tokens ts)
  unfolding print_tokens
  print_tokens-Keeps [] = pure-Keeps tt
  print_tokens-Keeps (t ∷ ts) =
      >>-Keeps (emit-Keeps _) (>>-Keeps (emit-Keeps _) (print_tokens-Keeps ts))

  no_user_exists-Keeps : (s : Bytes) → Keeps (IsValid sockfd) (no_user_exists s)
  unfolding no_user_exists
  no_user_exists-Keeps s = search keeping

  someone_exited-Keeps : (s : Bytes) → Keeps (IsValid sockfd) (someone_exited s)
  unfolding someone_exited
  someone_exited-Keeps s = search keeping

  list_users-Keeps : (s : Bytes) → Keeps (IsValid sockfd) (list_users s)
  unfolding list_users
  list_users-Keeps s = print_tokens-Keeps (strtok_spaces s)

  on_verb-Keeps :
      (fd : ℕ) (v : ServerVerb) (rest : Bytes) → Keeps (IsValid sockfd) (on_verb fd v rest)
  unfolding on_verb
  on_verb-Keeps fd utsil rest = search (keeping, list_users-Keeps)
  on_verb-Keeps fd ot rest = search keeping
  on_verb-Keeps fd edne rest = search (keeping, no_user_exists-Keeps)
  on_verb-Keeps fd from rest = search (keeping, confirm_from-Keeps)
  on_verb-Keeps fd uoff rest = search (keeping, someone_exited-Keeps)
  on_verb-Keeps fd eyb rest = pure-Keeps leave
  on_verb-Keeps fd unknown_verb rest = pure-Keeps proceed

  on_message-Keeps : (fd : ℕ) (msg : Option Bytes) → Keeps (IsValid sockfd) (on_message fd msg)
  unfolding on_message
  on_message-Keeps fd none = pure-Keeps proceed
  on_message-Keeps fd (some s) = on_verb-Keeps fd (server_verb s) (drop (word_length s + 1) s)

  -- `process_string` on the buffer, and then any part that keeps the invariant.
  pub process_read-Keeps :
      {A : Type 0} {f : Option Bytes → M Client A}
      → ((msg : Option Bytes) → Keeps (IsValid sockfd) (f msg))
      → Keeps (IsValid sockfd) (get >>= λ g. process_string g.read_buf >>= f)
  process_read-Keeps {f} k = record {
    apply = λ m v.
        continue_with-keeps (process_string m.globals.read_buf m) f (process_string-IsValid m v) k;
  }

  on_server_data-Keeps : (fd : ℕ) (r : Read) → Keeps (IsValid sockfd) (on_server_data fd r)
  unfolding on_server_data
  on_server_data-Keeps fd r =
      >>-Keeps (store_read-Keeps r) (process_read-Keeps {f = on_message fd} (on_message-Keeps fd))

  on_server_eof-Keeps : (stdineof : Bool) → Keeps (IsValid sockfd) (on_server_eof stdineof)
  unfolding on_server_eof
  on_server_eof-Keeps true = pure-Keeps leave
  on_server_eof-Keeps false = error-Keeps _

  pub server_ready-Keeps :
      (fd : ℕ) (stdineof : Bool) → Keeps (IsValid sockfd) (server_ready fd stdineof)
  unfolding server_ready
  server_ready-Keeps fd stdineof =
      >>=-Keeps read-Keeps λ r.
        if-Keeps (is_eof r) (λ _. on_server_eof-Keeps stdineof) (λ _. on_server_data-Keeps fd r)

  send_ended-Keeps : (fd : ℕ) (s : Bytes) → Keeps (IsValid sockfd) (send_ended fd s)
  unfolding send_ended set_string_ending
  send_ended-Keeps fd s = search keeping

  close_input-Keeps : (fd : ℕ) → Keeps (IsValid sockfd) (close_input fd)
  unfolding close_input
  close_input-Keeps fd = record {
    apply = λ m v. record {
      text = v.text;
      holds = v.holds;
      fits = v.fits;
      registry = v.registry;
      asked = λ k e. v.asked k (elem-fd_clr k stdin_fd m.globals.rset e);
      fresh = v.fresh;
    };
  }

  send_chat-Keeps : (fd : ℕ) (b : Bytes) → Keeps (IsValid sockfd) (send_chat fd b)
  unfolding send_chat
  send_chat-Keeps fd b = search keeping

  on_command-Keeps :
      (fd : ℕ) (stdineof : Bool) (c : Command) (b : Bytes)
      → Keeps (IsValid sockfd) (on_command fd stdineof c b)
  unfolding on_command print_client_help
  on_command-Keeps fd stdineof help b = search keeping
  on_command-Keeps fd stdineof listu b = search (keeping, send_ended-Keeps)
  on_command-Keeps fd stdineof chat b = search (keeping, send_chat-Keeps)
  on_command-Keeps fd stdineof logout b = search (keeping, send_ended-Keeps, close_input-Keeps)
  on_command-Keeps fd stdineof unknown_command b = search (keeping, close_input-Keeps)

  run_command-Keeps :
      (fd : ℕ) (stdineof : Bool) (b : Bytes) → Keeps (IsValid sockfd) (run_command fd stdineof b)
  unfolding run_command
  run_command-Keeps fd stdineof b = search (keeping, on_command-Keeps)

  on_line-Keeps :
      (fd : ℕ) (stdineof : Bool) (b : Bytes) → Keeps (IsValid sockfd) (on_line fd stdineof b)
  unfolding on_line
  on_line-Keeps fd stdineof b =
      if-Keeps (is_command b) (λ _. run_command-Keeps fd stdineof b) (λ _. pure-Keeps stdineof)

  on_input-Keeps :
      (fd : ℕ) (stdineof : Bool) (r : Read) → Keeps (IsValid sockfd) (on_input fd stdineof r)
  unfolding on_input
  on_input-Keeps fd stdineof r =
      >>-Keeps (store_read-Keeps r)
        (record { apply = λ m v. (on_line-Keeps fd stdineof m.globals.read_buf).apply m v })

  pub input_ready-Keeps :
      (fd : ℕ) (stdineof : Bool) → Keeps (IsValid sockfd) (input_ready fd stdineof)
  unfolding input_ready
  input_ready-Keeps fd stdineof = >>=-Keeps read-Keeps λ r.
      if-Keeps (is_eof r) (λ _. >>-Keeps (close_input-Keeps fd) (pure-Keeps true))
        (λ _. on_input-Keeps fd stdineof r)

  ask_for-Keeps : (stdineof : Bool) → Keeps (IsValid sockfd) (ask_for sockfd stdineof)
  unfolding ask_for
  ask_for-Keeps stdineof = record {
    apply = λ m v. record {
      text = v.text;
      holds = v.holds;
      fits = v.fits;
      registry = v.registry;
      asked = λ fd e. elem-asked sockfd stdineof fd m.globals.rset v.asked e;
      fresh = v.fresh;
    };
  }

  set_fd_for_childs-Keeps : Keeps (IsValid sockfd) set_fd_for_childs
  unfolding set_fd_for_childs
  set_fd_for_childs-Keeps = record { apply = λ m v. v }

  pub chat_prepare-Keeps : (stdineof : Bool) → Keeps (IsValid sockfd) (chat_prepare sockfd stdineof)
  unfolding chat_prepare
  chat_prepare-Keeps stdineof =
      >>-Keeps clear_read_buf-Keeps (>>-Keeps (ask_for-Keeps stdineof) set_fd_for_childs-Keeps)

  pub chat_select-Keeps : (s : Selected) → Keeps (IsValid sockfd) (chat_select s)
  unfolding chat_select
  chat_select-Keeps s = record {
    apply = λ m v. record {
      text = v.text;
      holds = v.holds;
      fits = v.fits;
      registry = v.registry;
      asked = λ k e. v.asked k (elem-selected_set s k m.globals.maxfdpl m.globals.rset e);
      fresh = v.fresh;
    };
  }
