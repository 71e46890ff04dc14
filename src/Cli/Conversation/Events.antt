-- ===== src/Cli/Conversation/Events.antt =====
-- One round of the main loop on one event.
use me2u.Base.{
  ℕ, ◌<◌, ◌≡◌, ◌≢◌, refl, sym, ◌∙◌, Bool, true, false, not, List, [], ◌∷◌, ◌++◌, some, length,
  append-nil,
}
use me2u.CString.{Bytes, lit, NoZero}
use me2u.CString.Laws.{NoZero-append_inv}
use me2u.System.{Machine, Effect, wrote, shut_wr, Read, got, woke, pure}
use me2u.Protocol.{maxline, ending, stdin_fd}
use me2u.Cli.State.{Client}
use me2u.Cli.Text.{help_string}
use me2u.Cli.Chat.{next, on_line, chat_round}
use me2u.Cli.Conversation.{
  Talk, Event, listed, delivered, nobody, said, gone, asks_help, asks_list, chats, quits, quiet,
  deliver, and_then, respond, event_reads, event_select, IsEvent, event_bytes,
}
use me2u.Cli.Chat.Descriptors.{chat_round-timed_out, idle}
use me2u.Cli.Conversation.View.{observed, View, Answer, Answer-pure, Answer-eq, >>=-Answer}
use me2u.Cli.Conversation.Answers.{some-Answer}
use me2u.Cli.Conversation.Lines.{asks_help-Answer, asks_list-Answer, quits-Answer, chats-Answer}
use me2u.Cli.Conversation.Rounds.{took, chat_round_line, took-View}
use me2u.Cli.Conversation.Messages.{
  answered-input, if_open-some, with_input, with_reads, LastRead, message-respond,
}

module _ {sockfd : ℕ} {m : Machine Client} {t : Talk} (v : View sockfd m t) (rs : List Read) where
  whole_message :
      (e : Event)
      → m.os.reads ≡ got (event_bytes e) ∷ rs
      → NoZero (event_bytes e)
      → length (event_bytes e) < maxline
      → event_bytes e ≢ []
      → LastRead m [] (event_bytes e) (event_bytes e) rs
  whole_message e script nz lt ne = record {
    script = script;
    completes = refl;
    no_zero = nz;
    some_bytes = ne;
    fits = lt;
  }

  line_round :
      {t' : Talk} {fx : List Effect} (b : Bytes) (eof : Bool)
      → m.os.reads ≡ got b ∷ rs
      → sockfd ≢ stdin_fd
      → length b < maxline
      → b ≢ []
      → ((m' : Machine Client)
          → View sockfd m' t
          → Answer sockfd m' t' fx eof (on_line sockfd false b m'))
      → Answer sockfd
          (with_reads m rs)
          t'
          fx
          (next, eof)
          (chat_round sockfd false (woke (stdin_fd ∷ [])) m)
  line_round {t'} {fx} b eof script other lt ne k =
      let m' = took stdin_fd sockfd false b rs m in
      rw (chat_round_line v b rs other script ne lt) (
        let h = Answer-eq (append-nil fx) (
          >>=-Answer (on_line sockfd false b m') (λ later. pure (next, later))
            (k m' (took-View v stdin_fd false b rs)) (λ m2 same v2. Answer-pure (next, eof) v2)) in
        record { result = h.result; view = h.view; reads = h.reads; shown = h.shown })

  idle-View : View sockfd (idle m) t
  idle-View =
      let v' = took-View v sockfd true [] m.os.reads in
      record { windows = v'.windows; spawns = v'.spawns; holds = v'.holds; below = v'.below }

  -- One event: the round does what `respond` says, and goes on.
  pub chat_round-respond :
      (e : Event) (t' : Talk) (fx : List Effect)
      → m.os.reads ≡ event_reads e ++ rs
      → IsEvent e
      → sockfd ≢ stdin_fd
      → respond sockfd e t ≡ some (t', fx)
      → Answer sockfd
          (with_reads m rs)
          t'
          fx
          (next, not t'.input)
          (chat_round sockfd (not t.input) (event_select sockfd e) m)
  chat_round-respond (listed names) t' fx script (nz, lt, w) other e =
      message-respond v (event_bytes (listed names)) rs (listed names) t' fx tt
        (whole_message (listed names) script nz lt (λ h. cc)) nz w e
  chat_round-respond (delivered name) t' fx script (nz, lt, w) other e =
      message-respond v (event_bytes (delivered name)) rs (delivered name) t' fx tt
        (whole_message (delivered name) script nz lt (λ h. cc)) nz w e
  chat_round-respond (nobody name) t' fx script (nz, lt, w) other e =
      message-respond v (event_bytes (nobody name)) rs (nobody name) t' fx tt
        (whole_message (nobody name) script nz lt (λ h. cc)) nz w e
  chat_round-respond (said name text) t' fx script (nz, lt, w) other e =
      message-respond v (event_bytes (said name text)) rs (said name text) t' fx tt
        (whole_message (said name text) script nz lt (λ h. cc)) nz w e
  chat_round-respond (gone name) t' fx script (nz, lt, w) other e =
      message-respond v (event_bytes (gone name)) rs (gone name) t' fx tt
        (whole_message (gone name) script nz lt (λ h. cc)) nz w e
  chat_round-respond asks_help t' fx script (nz, lt, w) other e =
      let (on, now) = if_open-some t t' (some (t, wrote 1 help_string ∷ [])) fx e in
      rw on (
        with_input true (cc (on, now)) (
          some-Answer now (
            line_round (lit "/help\n") false script other lt (λ h. cc)
              (λ m' v'. asks_help-Answer v'))))
  chat_round-respond asks_list t' fx script (nz, lt, w) other e =
      let (on, now) = if_open-some t t' (some (t, wrote sockfd (lit "LISTU\r\n\r\n") ∷ [])) fx e in
      rw on (
        with_input true (cc (on, now)) (
          some-Answer now (
            line_round (lit "/listu\n") false script other lt (λ h. cc)
              (λ m' v'. asks_list-Answer v'))))
  chat_round-respond (chats name text) t' fx script (nz, lt, w) other e =
      let sent = wrote sockfd (lit "TO " ++ (name ++ b' ' ∷ text) ++ ending) ∷ [] in
      let (on, now) = if_open-some t t' (and_then (deliver name text t) sent) fx e in
      let string = (NoZero-append_inv name (b' ' ∷ text) nz.1.1.1.1.1.1).1.1 in
      rw on (
        with_input true (answered-input name text t t' sent fx now ∙ on) (
          line_round (lit "/chat " ++ (name ++ b' ' ∷ text)) false script other lt (λ h. cc)
            (λ m' v'. chats-Answer v' name text t' fx w string now)))
  chat_round-respond quits t' fx script (nz, lt, w) other e =
      let farewell = wrote sockfd (lit "BYE\r\n\r\n") ∷ shut_wr sockfd ∷ [] in
      let (on, now) = if_open-some t t' (some (record t { input = false }, farewell)) fx e in
      rw on (
        with_input false (cc now) (
          some-Answer now (
            line_round (lit "/logout\n") true script other lt (λ h. cc)
              (λ m' v'. quits-Answer v'))))
  chat_round-respond quiet t' fx script valid other e = with_input t.input (cc e) (
      some-Answer e (
        rw (chat_round-timed_out sockfd (not t.input) m) (record {
          result = refl;
          view = idle-View;
          reads = script;
          shown = sym (append-nil (observed m.os.trace));
        })))
