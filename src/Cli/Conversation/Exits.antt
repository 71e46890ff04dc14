-- ===== src/Cli/Conversation/Exits.antt =====
-- The main loop on an event on which the client ends the program.
use me2u.Base.{
  ℕ, ◌<◌, ◌≡◌, ◌≢◌, refl, ap, ◌∙◌, Bool, true, false, not, List, [], ◌∷◌, ◌++◌, some, length,
  append_assoc,
}
use me2u.CString.{Bytes, NoZero}
use me2u.System.{Machine, Effect, Read, got, Selected, woke, pure}
use me2u.Protocol.{maxline, ending, stdin_fd}
use me2u.Cli.State.{Client}
use me2u.Cli.Buffer.Framing.{with_text}
use me2u.Cli.Text.{ServerVerb, unknown_verb, ot, from}
use me2u.Cli.Text.Verbs.{spelling}
use me2u.Cli.Chat.{next, leave, is_command, on_line, on_verb, after_server, chat_round, chat_loop}
use me2u.Cli.Conversation.{Talk, play}
use me2u.Cli.Conversation.View.{observed, View}
use me2u.Cli.Conversation.Answers.{on_message_verb}
use me2u.Cli.Conversation.Rounds.{
  took, chat_round_message, chat_round_line, took-View, emptied-View,
}
use me2u.Cli.Conversation.Refinement.{chat_loop_prefix}
use me2u.Cli.Invariant.{IsValid}
use me2u.Cli.Conversation.Arrivals.{Arrival, AreArrivals, events_of, all_reads, all_selects}
use me2u.Cli.Conversation.Failures.{
  Failure, unknown_receipt, no_fork, no_command, failure_bytes, failure_fd, FailsIn,
  failure_effects, Fails, continue_with-Fails, receipt-Fails, said-Fails, no_command-Fails,
}

not_empty : (line : Bytes) → is_command line ≡ true → line ≢ []
unfolding is_command
not_empty [] h e = cc h
not_empty (c ∷ line) h e = cc

module _ {sockfd : ℕ} {m : Machine Client} {t : Talk} (v : View sockfd m t) where
  message-Fails :
      {fx : List Effect} (verb : ServerVerb) (rest : Bytes) (eof : Bool) (rs : List Read)
      → m.os.reads ≡ got ((spelling verb ++ b' ' ∷ rest) ++ ending) ∷ rs
      → verb ≢ unknown_verb
      → NoZero ((spelling verb ++ b' ' ∷ rest) ++ ending)
      → length ((spelling verb ++ b' ' ∷ rest) ++ ending) < maxline
      → (spelling verb ++ b' ' ∷ rest) ++ ending ≢ []
      → ((m' : Machine Client) → View sockfd m' t → Fails m' fx (on_verb sockfd verb rest m'))
      → Fails m fx (chat_round sockfd eof (woke (sockfd ∷ [])) m)
  message-Fails verb rest eof rs script known nz lt ne k =
      let b = (spelling verb ++ b' ' ∷ rest) ++ ending in
      let m' = with_text (took sockfd sockfd eof b rs m) [] maxline in
      let h =
        continue_with-Fails (on_verb sockfd verb rest m') (after_server sockfd eof)
          (k m' (emptied-View v eof b rs)) in
      rw
        (
          chat_round_message v eof b (spelling verb ++ b' ' ∷ rest) rs script refl ne nz lt,
          on_message_verb sockfd verb rest m' known,
        )
        (record { result = h.result; shown = h.shown })

  line-Fails :
      {fx : List Effect} (b : Bytes) (rs : List Read)
      → m.os.reads ≡ got b ∷ rs
      → sockfd ≢ stdin_fd
      → length b < maxline
      → b ≢ []
      → ((m' : Machine Client) → View sockfd m' t → Fails m' fx (on_line sockfd false b m'))
      → Fails m fx (chat_round sockfd false (woke (stdin_fd ∷ [])) m)
  line-Fails b rs script other lt ne k =
      let m' = took stdin_fd sockfd false b rs m in
      let h =
        continue_with-Fails (on_line sockfd false b m') (λ later. pure (next, later))
          (k m' (took-View v stdin_fd false b rs)) in
      rw (chat_round_line v b rs other script ne lt) (record { result = h.result; shown = h.shown })

  -- The round on such an event ends the program.
  round-Fails :
      (f : Failure) (rs : List Read)
      → m.os.reads ≡ got (failure_bytes f) ∷ rs
      → FailsIn t f
      → NoZero (failure_bytes f)
      → length (failure_bytes f) < maxline
      → sockfd ≢ stdin_fd
      → Fails m
          (failure_effects sockfd f)
          (chat_round sockfd (not t.input) (woke (failure_fd sockfd f ∷ [])) m)
  round-Fails (unknown_receipt name) rs script h nz lt other =
      message-Fails ot name (not t.input) rs script (λ e. cc) nz lt (λ e. cc)
        (λ m' v'. receipt-Fails v' name h)
  round-Fails (no_fork name text) rs script (w, absent, f) nz lt other =
      message-Fails from (name ++ b' ' ∷ text) (not t.input) rs script (λ e. cc) nz lt (λ e. cc)
        (λ m' v'. said-Fails v' name text w absent f)
  round-Fails (no_command line) rs script (on, slash, unknown) nz lt other = rw on (
      line-Fails line rs script other lt (not_empty line slash)
        (λ m' v'. no_command-Fails v' line slash unknown))

-- Behind a conversation on which `play` does not give up, a receipt for a user without a window, a
-- message for a new one for which `fork` fails, and a line that begins with '/' and is no command end the
-- program with code 1: what is observed is what `play` gives, and for the line the end of the client's
-- side of the connection. The loop begins with valid variables, an empty buffer and the users of the
-- conversation; the last message comes in one read, the others in one or, if they are single lines, cut
-- anywhere behind the fourth byte; no read has a zero or fills the buffer, names are words, and the
-- socket is not the standard input.
pub chat_loop-Fails :
    (sockfd : ℕ) (arrivals : List Arrival) (f : Failure) (rest : List Selected) (rs : List Read)
    (m : Machine Client) (t t' : Talk) (fx : List Effect)
    → View sockfd m t
    → IsValid sockfd m
    → m.os.reads ≡ all_reads arrivals ++ got (failure_bytes f) ∷ rs
    → AreArrivals arrivals
    → sockfd ≢ stdin_fd
    → play sockfd (events_of arrivals) t ≡ some (t', fx)
    → FailsIn t' f
    → NoZero (failure_bytes f)
    → length (failure_bytes f) < maxline
    → Fails m (fx ++ failure_effects sockfd f) (
        chat_loop sockfd
          (not t.input)
          (all_selects sockfd arrivals ++ woke (failure_fd sockfd f ∷ []) ∷ rest)
          m)
unfolding chat_loop
chat_loop-Fails sockfd arrivals f rest rs m t t' fx v at_start script fit other played fails nz lt =
    let s = woke (failure_fd sockfd f ∷ []) in
    let now =
      chat_loop_prefix sockfd arrivals (s ∷ rest) (got (failure_bytes f) ∷ rs) m t t' fx v at_start
        script fit other played in
    let h =
      continue_with-Fails (chat_round sockfd (not t'.input) s now.after)
        (λ end. elim end.0 [ leave ↦ pure tt | _ ↦ chat_loop sockfd end.1 rest ])
        (round-Fails now.shows.view f rs now.shows.reads fails nz lt other) in
    rw now.run (record {
      result = h.result;
      shown =
          h.shown
          ∙ ap (◌++ failure_effects sockfd f) now.shows.shown
          ∙ append_assoc (observed m.os.trace) fx (failure_effects sockfd f);
    })
