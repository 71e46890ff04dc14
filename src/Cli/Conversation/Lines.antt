-- ===== src/Cli/Conversation/Lines.antt =====
-- What the client does on a line of the user.
use me2u.Base.{
  ℕ, ◌+◌, ◌≡◌, ◌≢◌, refl, ◌∙◌, Bool, true, false, List, [], ◌∷◌, ◌++◌, some, arith, length,
  append-nil,
}
use me2u.CString.{Bytes, lit, strlen, NoZero}
use me2u.CString.Laws.{cstr-NoZero, strlen-NoZero, NoZero-append}
use me2u.System.{Machine, Effect, wrote, shut_wr, pure, access, write, ◌>>◌}
use me2u.Protocol.{maxline, ending, user_chat, msg_to, client_bye, client_list_user}
use me2u.Cli.State.{Client}
use me2u.Cli.Text.{
  ends_word, word_length, Command, help, listu, chat, logout, unknown_command, help_string,
  print_client_help,
}
use me2u.Cli.Text.Verbs.{command_spelling, user_command-spelling}
use me2u.Cli.Users.{process_msg}
use me2u.Cli.Chat.{on_line, is_command, run_command, on_command, send_chat}
use me2u.Cli.Chat.Actions.{ended_trace, send_ended_lem, on_command-logout}
use me2u.Cli.Conversation.{Talk, deliver, and_then, IsWord}
use me2u.Cli.Conversation.View.{
  observed-append, View, Answer, Answer-pure, Answer-traced, Answer-access, Answer-eq, >>=-Answer,
}
use me2u.Cli.Conversation.Names.{NoZero-IsWord}
use me2u.Cli.Conversation.Answers.{traced-Answer, process_msg-Answer}
use me2u.Cli.Conversation.Server.{and_then-some}

-- A line with a command and a blank is taken as `on_command` does, behind a look at its first word.
on_line_command :
    (sockfd : ℕ) (c : Command) (eof : Bool) (blank : ℕ) (rest : Bytes) (m : Machine Client)
    → c ≢ unknown_command
    → ends_word blank ≡ true
    → on_line sockfd eof (command_spelling c ++ blank ∷ rest) m
      ≡ (access maxline (word_length (command_spelling c ++ blank ∷ rest) + 1)
            >> on_command sockfd eof c (command_spelling c ++ blank ∷ rest))
          m
unfolding on_line is_command run_command
on_line_command sockfd help eof blank rest m h b = simp (user_command-spelling help blank rest h b)
on_line_command sockfd listu eof blank rest m h b =
    simp (user_command-spelling listu blank rest h b)
on_line_command sockfd chat eof blank rest m h b = simp (user_command-spelling chat blank rest h b)
on_line_command sockfd logout eof blank rest m h b =
    simp (user_command-spelling logout blank rest h b)
on_line_command sockfd unknown_command eof blank rest m h b = absurd (h refl)

send_chat_parts :
    (sockfd : ℕ) (rest : Bytes) (m : Machine Client)
    → NoZero rest
    → send_chat sockfd (lit "/chat " ++ rest) m
      ≡ (access maxline (strlen (lit "/chat " ++ rest) + 1)
            >> (process_msg rest
                >> (access
                      (strlen msg_to + strlen (b' ' ∷ rest) + 4)
                      (length (lit "TO " ++ rest ++ ending) + 1)
                    >> write sockfd (lit "TO " ++ rest ++ ending))))
          m
unfolding send_chat
send_chat_parts sockfd rest m nz =
    let verb : strlen user_chat ≡ 5 = strlen-NoZero user_chat (omega arith) in
    let line : NoZero (b' ' ∷ rest) = ((omega arith), nz) in
    simp (verb, cstr-NoZero (b' ' ∷ rest) line)

-- `send_chat` from its first look at the line on.
shown_and_sent :
    {sockfd : ℕ} {m : Machine Client} {t : Talk}
    → View sockfd m t
    → (name text : Bytes) (t' : Talk) (gx : List Effect) → IsWord name
    → NoZero text
    → NoZero (name ++ b' ' ∷ text)
    → deliver name text t ≡ some (t', gx)
    → let rest = name ++ b' ' ∷ text in
      let sent = lit "TO " ++ rest ++ ending in
      Answer sockfd m t' (gx ++ wrote sockfd sent ∷ []) tt (
        (access maxline (strlen (lit "/chat " ++ rest) + 1)
            >> (process_msg rest
                >> (access (strlen msg_to + strlen (b' ' ∷ rest) + 4) (length sent + 1)
                    >> write sockfd sent)))
          m)
shown_and_sent {sockfd} {m} {t} v name text t' gx w nz string e =
    let rest = name ++ b' ' ∷ text in
    let sent = lit "TO " ++ rest ++ ending in
    let size = strlen msg_to + strlen (b' ' ∷ rest) + 4 in
    let finish = access size (length sent + 1) >> write sockfd sent in
    >>=-Answer (access maxline (strlen (lit "/chat " ++ rest) + 1) m)
      (λ _. process_msg rest >> finish)
      (Answer-access maxline (strlen (lit "/chat " ++ rest) + 1) v)
      (λ m1 rs v1.
        >>=-Answer (process_msg rest m1) (λ _. finish)
          (process_msg-Answer sockfd name text m1 t t' gx v1 w nz e)
          (λ m2 rs v2.
            >>=-Answer (access size (length sent + 1) m2) (λ _. write sockfd sent)
              (Answer-access size (length sent + 1) v2)
              (λ m3 rs v3. Answer-traced tt (wrote sockfd sent ∷ []) v3)))

module _ {sockfd : ℕ} {m : Machine Client} {t : Talk} (v : View sockfd m t) where
  -- Behind the look at the first word.
  line_of_command :
      {t' : Talk} {fx : List Effect} (c : Command) (blank : ℕ) (rest : Bytes) (eof : Bool)
      → c ≢ unknown_command
      → ends_word blank ≡ true
      → ((m' : Machine Client)
          → View sockfd m' t
          → Answer sockfd m' t' fx eof
              (on_command sockfd false c (command_spelling c ++ blank ∷ rest) m'))
      → Answer sockfd m t' fx eof (on_line sockfd false (command_spelling c ++ blank ∷ rest) m)
  line_of_command c blank rest eof h b k =
      let word = word_length (command_spelling c ++ blank ∷ rest) + 1 in
      rw (on_line_command sockfd c false blank rest m h b) (
        >>=-Answer (access maxline word m)
          (λ _. on_command sockfd false c (command_spelling c ++ blank ∷ rest))
          (Answer-access maxline word v) (λ m' rs v'. k m' v'))

  pub asks_help-Answer :
      Answer sockfd m t (wrote 1 help_string ∷ []) false (on_line sockfd false (lit "/help\n") m)
  unfolding on_command print_client_help
  asks_help-Answer =
      line_of_command help b'\n' [] false (λ e. cc) refl
        (λ m' v'. Answer-traced false (wrote 1 help_string ∷ []) v')

  pub asks_list-Answer :
      Answer sockfd m t
        (wrote sockfd (lit "LISTU\r\n\r\n") ∷ [])
        false
        (on_line sockfd false (lit "/listu\n") m)
  unfolding on_command
  asks_list-Answer =
      line_of_command listu b'\n' [] false (λ e. cc) refl
        (λ m' v'.
          traced-Answer (ended_trace sockfd client_list_user)
            (simp (send_ended_lem sockfd client_list_user m' (omega arith))) refl v')

  -- `/logout` closes the user's input.
  pub quits-Answer :
      Answer sockfd m
        (record t { input = false })
        (wrote sockfd (lit "BYE\r\n\r\n") ∷ shut_wr sockfd ∷ [])
        true
        (on_line sockfd false (lit "/logout\n") m)
  quits-Answer =
      line_of_command logout b'\n' [] true (λ e. cc) refl
        (λ m' v'. rw (on_command-logout sockfd false (lit "/logout\n") m') (record {
          result = refl;
          view = record {
            windows = v'.windows;
            spawns = v'.spawns;
            holds = v'.holds;
            below = v'.below;
          };
          reads = refl;
          shown =
              observed-append m'.os.trace (ended_trace sockfd client_bye ++ shut_wr sockfd ∷ []);
        }))

  -- `/chat`: the text is shown in its window, and sent.
  pub chats-Answer :
      (name text : Bytes) (t' : Talk) (fx : List Effect)
      → IsWord name
      → NoZero text
      → and_then
          (deliver name text t)
          (wrote sockfd (lit "TO " ++ (name ++ b' ' ∷ text) ++ ending) ∷ [])
        ≡ some (t', fx)
      → Answer sockfd m t' fx false (on_line sockfd false (lit "/chat " ++ (name ++ b' ' ∷ text)) m)
  unfolding on_command
  chats-Answer name text t' fx w nz e =
      let rest = name ++ b' ' ∷ text in
      let sent = lit "TO " ++ rest ++ ending in
      let (gx, shown, all) = and_then-some (deliver name text t) (wrote sockfd sent ∷ []) t' fx e in
      let string : NoZero rest =
        NoZero-append name (b' ' ∷ text) (NoZero-IsWord name w) ((omega arith), nz) in
      line_of_command chat b' ' rest false (λ e. cc) refl
        (λ m' v'. Answer-eq (append-nil (gx ++ wrote sockfd sent ∷ []) ∙ all) (
          >>=-Answer (send_chat sockfd (lit "/chat " ++ rest) m') (λ _. pure false)
            (rw (send_chat_parts sockfd rest m' string)
              (shown_and_sent v' name text t' gx w nz string shown))
            (λ m2 rs v2. Answer-pure false v2)))
