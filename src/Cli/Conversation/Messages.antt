-- ===== src/Cli/Conversation/Messages.antt =====
-- One round of the main loop in which a message of the server is complete.
use me2u.Base.{
  ℕ, ◌<◌, ◌≡◌, ◌≢◌, ap, sym, ◌∙◌, Bool, true, not, List, [], ◌∷◌, ◌++◌, Option, none, some, length,
  append-nil, Bool-cases, inl, inr,
}
use me2u.CString.{Bytes, lit, NoZero}
use me2u.CString.Laws.{NoZero-append_inv}
use me2u.System.{Machine, Result, Effect, wrote, Read, got, woke, ok, Spawn}
use me2u.Protocol.{maxline, ending}
use me2u.Cli.State.{Client}
use me2u.Cli.Buffer.Framing.{with_text}
use me2u.Cli.Text.{ServerVerb, utsil, ot, edne, from, uoff, unknown_verb}
use me2u.Cli.Text.Verbs.{spelling}
use me2u.Cli.Chat.{Flow, next, on_verb, after_server, chat_round}
use me2u.Cli.Conversation.{
  Talk, Event, listed, delivered, nobody, said, gone, asks_help, asks_list, chats, quits, quiet,
  Outcome, window_of, forked_window, open_window, deliver_to, deliver, receipt, and_then, if_open,
  respond, NameIsWord, event_bytes,
}
use me2u.Cli.Conversation.View.{ViewIn, View, Answer, Answer-pure, Answer-eq, >>=-Answer}
use me2u.Cli.Conversation.Answers.{
  on_message_verb, some-Answer, listed-Answer, nobody-Answer, gone-Answer,
}
use me2u.Cli.Conversation.Server.{and_then-some, said-Answer, delivered-Answer}
use me2u.Cli.Conversation.Rounds.{took, chat_round_message, emptied-View}

-- A text for a name leaves the user's input as it was.
forked_window-input :
    (name text : Bytes) (t t' : Talk) (p : Spawn) (ps : List Spawn) (pid : Option ℕ)
    (fx : List Effect)
    → forked_window name text t p ps pid ≡ some (t', fx)
    → t'.input ≡ t.input
forked_window-input name text t t' p ps none fx e = cc
forked_window-input name text t t' p ps (some child) fx e = cc

open_window-input :
    (name text : Bytes) (t t' : Talk) (ps : List Spawn) (fx : List Effect)
    → open_window name text t ps ≡ some (t', fx)
    → t'.input ≡ t.input
open_window-input name text t t' [] fx e = cc
open_window-input name text t t' (p ∷ ps) fx e = forked_window-input name text t t' p ps p.pid fx e

deliver_to-input :
    (name text : Bytes) (t t' : Talk) (found : Option ℕ) (fx : List Effect)
    → deliver_to name text t found ≡ some (t', fx)
    → t'.input ≡ t.input
deliver_to-input name text t t' none fx e = open_window-input name text t t' t.spawns fx e
deliver_to-input name text t t' (some fd) fx e = cc

pub answered-input :
    (name text : Bytes) (t t' : Talk) (es fx : List Effect)
    → and_then (deliver name text t) es ≡ some (t', fx)
    → t'.input ≡ t.input
answered-input name text t t' es fx e =
    let (gx, sent, all) = and_then-some (deliver name text t) es t' fx e in
    deliver_to-input name text t t' (window_of name t.windows) gx sent

receipt_input :
    (t t' : Talk) (found : Option ℕ) (fx : List Effect)
    → receipt t found ≡ some (t', fx)
    → t'.input ≡ t.input
receipt_input t t' none fx e = cc
receipt_input t t' (some fd) fx e = cc

pub if_open-some :
    (t t' : Talk) (o : Outcome) (fx : List Effect)
    → if_open t o ≡ some (t', fx)
    → (t.input ≡ true) × (o ≡ some (t', fx))
if_open-some t t' o fx e = elim (Bool-cases t.input) [
  | inl on ↦ (on, rw on at e)
  | inr shut ↦ cc (rw shut at e)
]

-- The machine with these reads to come.
abbrev pub with_reads : Machine Client → List Read → Machine Client
with_reads m rs = record m { os = record m.os { reads = rs } }

-- The round's answer, where it leaves the input as `t'` has it.
pub with_input :
    {sockfd : ℕ} {m : Machine Client} {t' : Talk} {fx : List Effect}
    {r : Machine Client × Result (Flow × Bool)} (open_now : Bool)
    → t'.input ≡ open_now
    → Answer sockfd m t' fx (next, not open_now) r
    → Answer sockfd m t' fx (next, not t'.input) r
with_input open_now e h = record {
  result = h.result ∙ ap (λ b. ok (next, not b)) (sym e);
  view = h.view;
  reads = h.reads;
  shown = h.shown;
}

-- The last read of a message: `b` completes the text in the buffer to the bytes `whole`.
pub record LastRead (m : Machine Client) (text b whole : Bytes) (rs : List Read) : Type 0 where
  pub script : m.os.reads ≡ got b ∷ rs
  pub completes : text ++ b ≡ whole
  pub no_zero : NoZero b
  pub some_bytes : b ≢ []
  pub fits : length b < maxline

-- The events that the server sends.
abbrev pub FromServer : Event → Type 0
FromServer (listed names) = Unit
FromServer (delivered name) = Unit
FromServer (nobody name) = Unit
FromServer (said name text) = Unit
FromServer (gone name) = Unit
FromServer _ = ⊥

module _ {sockfd : ℕ} {m : Machine Client} {t : Talk} {text : Bytes} (v : ViewIn sockfd m t text)
    (b : Bytes) (rs : List Read) where
  message_round :
      {t' : Talk} {fx : List Effect} (verb : ServerVerb) (rest : Bytes) (eof : Bool)
      → LastRead m text b ((spelling verb ++ b' ' ∷ rest) ++ ending) rs
      → verb ≢ unknown_verb
      → ((m' : Machine Client)
          → View sockfd m' t
          → Answer sockfd m' t' fx next (on_verb sockfd verb rest m'))
      → Answer sockfd
          (with_reads m rs)
          t'
          fx
          (next, eof)
          (chat_round sockfd eof (woke (sockfd ∷ [])) m)
  unfolding after_server
  message_round {t'} {fx} verb rest eof l known k =
      let m' = with_text (took sockfd sockfd eof b rs m) [] maxline in
      rw
        (
          chat_round_message v eof b (spelling verb ++ b' ' ∷ rest) rs l.script l.completes
              l.some_bytes l.no_zero l.fits,
          on_message_verb sockfd verb rest m' known,
        )
        (let h = Answer-eq (append-nil fx) (
            >>=-Answer (on_verb sockfd verb rest m') (after_server sockfd eof)
              (k m' (emptied-View v eof b rs)) (λ m2 same v2. Answer-pure (next, eof) v2)) in
          record { result = h.result; view = h.view; reads = h.reads; shown = h.shown })

  -- The round does what `respond` says, and goes on.
  pub message-respond :
      (e : Event) (t' : Talk) (fx : List Effect)
      → FromServer e
      → LastRead m text b (event_bytes e) rs
      → NoZero (event_bytes e)
      → NameIsWord e
      → respond sockfd e t ≡ some (t', fx)
      → Answer sockfd
          (with_reads m rs)
          t'
          fx
          (next, not t'.input)
          (chat_round sockfd (not t.input) (woke (sockfd ∷ [])) m)
  message-respond (listed names) t' fx sent l nz w e = with_input t.input (cc e) (
      some-Answer e
        (message_round utsil names (not t.input) l (λ h. cc) (λ m' v'. listed-Answer v' names)))
  message-respond (delivered name) t' fx sent l nz w e =
      with_input t.input (receipt_input t t' (window_of name t.windows) fx e) (
        message_round ot name (not t.input) l (λ h. cc) (λ m' v'. delivered-Answer v' name t' fx e))
  message-respond (nobody name) t' fx sent l nz w e =
      let string = (NoZero-append_inv name ending nz.1.1.1.1.1).0 in
      with_input t.input (cc e) (
        some-Answer e (
          message_round edne name (not t.input) l (λ h. cc)
            (λ m' v'. nobody-Answer v' name string)))
  message-respond (said name words) t' fx sent l nz w e =
      let rest_nz = (NoZero-append_inv (name ++ b' ' ∷ words) ending nz.1.1.1.1.1).0 in
      let string = (NoZero-append_inv name (b' ' ∷ words) rest_nz).1.1 in
      let reply = wrote sockfd (lit "MORF " ++ (name ++ b' ' ∷ words) ++ ending) ∷ [] in
      with_input t.input (answered-input name words t t' reply fx e) (
        message_round from (name ++ b' ' ∷ words) (not t.input) l (λ h. cc)
          (λ m' v'. said-Answer v' name words t' fx w string e))
  message-respond (gone name) t' fx sent l nz w e =
      let string = (NoZero-append_inv name ending nz.1.1.1.1.1).0 in
      with_input t.input (cc e) (
        some-Answer e
          (message_round uoff name (not t.input) l (λ h. cc) (λ m' v'. gone-Answer v' name string)))
  message-respond asks_help t' fx sent l nz w e = absurd sent
  message-respond asks_list t' fx sent l nz w e = absurd sent
  message-respond (chats name words) t' fx sent l nz w e = absurd sent
  message-respond quits t' fx sent l nz w e = absurd sent
  message-respond quiet t' fx sent l nz w e = absurd sent
