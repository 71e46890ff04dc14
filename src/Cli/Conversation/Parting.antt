-- ===== src/Cli/Conversation/Parting.antt =====
-- How the main loop goes on behind a round, and how it ends where the server takes its leave.
use me2u.Base.{
  ℕ, ◌≡◌, refl, ap, ◌∙◌, Bool, true, false, not, List, [], ◌∷◌, ◌++◌, some, arith, append-nil,
}
use me2u.CString.{lit}
use me2u.System.{
  M, Machine, Result, Read, got, Selected, woke, ok, exited, crashed, waiting, pure, continue_with,
}
use me2u.Protocol.{maxline, ending}
use me2u.Cli.State.{Client}
use me2u.Cli.Chat.{Flow, next, leave, chat_round, chat_loop}
use me2u.Cli.Conversation.{Talk}
use me2u.Cli.Conversation.View.{observed, observed-append, View}
use me2u.Cli.Chat.{on_message, on_verb, after_server, server_ready, on_server_eof}
use me2u.Cli.Text.{word_length, server_verb}
use me2u.Cli.Buffer.Framing.{with_text}
use me2u.CString.{strncmp_eq}
use me2u.Cli.Conversation.Rounds.{
  took, chat_round-woke, chat_answer_server, chat_round_message, ready_sockfd, emptied-View,
  took-View,
}

pub continue_with-ok :
    {A B : Type 0} (r : Machine Client × Result A) (f : A → M Client B) (a : A)
    → r.1 ≡ ok a
    → continue_with r f ≡ f a r.0
continue_with-ok (m, ok b) f a e = ap (λ x. f x m) (cc e)
continue_with-ok (m, exited c) f a e = cc
continue_with-ok (m, crashed) f a e = cc
continue_with-ok (m, waiting) f a e = cc

pub continue_with-exited :
    {A B : Type 0} (r : Machine Client × Result A) (f : A → M Client B) (c : ℕ)
    → r.1 ≡ exited c
    → continue_with r f ≡ (r.0, exited c)
continue_with-exited (m, exited d) f c e = ap (λ x. (m, exited x)) (cc e)
continue_with-exited (m, ok b) f c e = cc
continue_with-exited (m, crashed) f c e = cc
continue_with-exited (m, waiting) f c e = cc

pub chat_loop-next :
    (sockfd : ℕ) (eof later : Bool) (s : Selected) (rest : List Selected) (m : Machine Client)
    → (chat_round sockfd eof s m).1 ≡ ok (next, later)
    → chat_loop sockfd eof (s ∷ rest) m ≡ chat_loop sockfd later rest (chat_round sockfd eof s m).0
unfolding chat_loop
chat_loop-next sockfd eof later s rest m e =
    continue_with-ok (chat_round sockfd eof s m)
      (λ end. elim end.0 [ leave ↦ pure tt | _ ↦ chat_loop sockfd end.1 rest ]) (next, later) e

-- How the server ends a conversation: it says so, or it closes the connection.
pub data Farewell : Type 0 where
  says_bye hangs_up : Farewell

abbrev pub farewell_read : Farewell → Read
farewell_read says_bye = got (lit "EYB\r\n\r\n")
farewell_read hangs_up = got []

-- The end that is out of order is that of the connection while the user's input is open.
abbrev pub parting : Farewell → Bool → Result (Unit {0})
parting says_bye input = ok tt
parting hangs_up false = ok tt
parting hangs_up true = exited 1

-- The loop's run `r` from `m` ends with `a` in the conversation `t`, with nothing more to be observed.
pub record Parted (sockfd : ℕ) (m : Machine Client) (t : Talk) (rs : List Read)
    (a : Result (Unit {0})) (r : Machine Client × Result (Unit {0})) : Type 0 where
  pub result : r.1 ≡ a
  pub view : View sockfd r.0 t
  pub reads : r.0.os.reads ≡ rs
  pub shown : observed r.0.os.trace ≡ observed m.os.trace

on_message-eyb :
    (sockfd : ℕ) (m : Machine Client) → on_message sockfd (some (lit "EYB")) m ≡ (m, ok leave)
unfolding on_message on_verb server_verb word_length strncmp_eq
on_message-eyb sockfd m = refl

server_ready_end :
    (sockfd : ℕ) (eof : Bool) (rs : List Read) (m : Machine Client)
    → m.os.reads ≡ got [] ∷ rs
    → server_ready sockfd eof m ≡ on_server_eof eof (record m { os = record m.os { reads = rs } })
unfolding server_ready
server_ready_end sockfd eof rs m script = simp script

module _ {sockfd : ℕ} {m : Machine Client} {t : Talk} (v : View sockfd m t) (rs : List Read)
    (rest : List Selected) where
  loop_on_round :
      (eof : Bool) (r : Machine Client × Result (Flow × Bool))
      → chat_round sockfd eof (woke (sockfd ∷ [])) m ≡ r
      → chat_loop sockfd eof (woke (sockfd ∷ []) ∷ rest) m
        ≡ continue_with r (λ end. elim end.0 [ leave ↦ pure tt | _ ↦ chat_loop sockfd end.1 rest ])
  unfolding chat_loop
  loop_on_round eof r e =
      ap
        (λ r.
          continue_with r (λ end. elim end.0 [ leave ↦ pure tt | _ ↦ chat_loop sockfd end.1 rest ]))
        e

  bye_round :
      (eof : Bool)
      → m.os.reads ≡ got (lit "EYB" ++ ending) ∷ rs
      → chat_round sockfd eof (woke (sockfd ∷ [])) m ≡ (
        with_text (took sockfd sockfd eof (lit "EYB" ++ ending) rs m) [] maxline,
        ok (leave, eof),
      )
  unfolding after_server
  bye_round eof script =
      let m' = with_text (took sockfd sockfd eof (lit "EYB" ++ ending) rs m) [] maxline in
      chat_round_message v eof (lit "EYB" ++ ending) (lit "EYB") rs script refl (λ e. cc)
        (omega arith) (omega arith)
      ∙ ap (λ r. continue_with r (after_server sockfd eof)) (on_message-eyb sockfd m')

  eof_round :
      (eof : Bool)
      → m.os.reads ≡ got [] ∷ rs
      → chat_round sockfd eof (woke (sockfd ∷ [])) m
        ≡ continue_with
            (on_server_eof eof (took sockfd sockfd eof [] rs m))
            (after_server sockfd eof)
  eof_round eof script =
      let m' = took sockfd sockfd eof [] m.os.reads m in
      chat_round-woke sockfd sockfd eof m
      ∙ chat_answer_server sockfd eof m' (ready_sockfd v eof)
      ∙ ap (λ r. continue_with r (after_server sockfd eof))
          (server_ready_end sockfd eof rs m' script)

  bye_loop :
      (eof : Bool)
      → m.os.reads ≡ got (lit "EYB" ++ ending) ∷ rs
      → Parted sockfd m t rs (ok tt) (chat_loop sockfd eof (woke (sockfd ∷ []) ∷ rest) m)
  bye_loop eof script =
      let b = lit "EYB" ++ ending in
      rw
        (loop_on_round eof (with_text (took sockfd sockfd eof b rs m) [] maxline, ok (leave, eof))
          (bye_round eof script))
        (record { result = refl; view = emptied-View v eof b rs; reads = refl; shown = refl })

  eof_loop :
      (input : Bool)
      → m.os.reads ≡ got [] ∷ rs
      → Parted sockfd m t rs
          (parting hangs_up input)
          (chat_loop sockfd (not input) (woke (sockfd ∷ []) ∷ rest) m)
  unfolding on_server_eof after_server
  eof_loop true script =
      let m' = took sockfd sockfd false [] rs m in
      let v' = took-View v sockfd false [] rs in
      rw
        (loop_on_round false (continue_with (on_server_eof false m') (after_server sockfd false))
          (eof_round false script))
        (record {
          result = refl;
          view = record {
            windows = v'.windows;
            spawns = v'.spawns;
            holds = v'.holds;
            below = v'.below;
          };
          reads = refl;
          shown = observed-append m.os.trace _ ∙ append-nil (observed m.os.trace);
        })
  eof_loop false script =
      let m' = took sockfd sockfd true [] rs m in
      rw
        (loop_on_round true (continue_with (on_server_eof true m') (after_server sockfd true))
          (eof_round true script))
        (record { result = refl; view = took-View v sockfd true [] rs; reads = refl; shown = refl })

  -- The server's leave ends the loop.
  pub chat_loop-parting :
      (f : Farewell)
      → m.os.reads ≡ farewell_read f ∷ rs
      → Parted sockfd m t rs
          (parting f t.input)
          (chat_loop sockfd (not t.input) (woke (sockfd ∷ []) ∷ rest) m)
  chat_loop-parting says_bye script = bye_loop (not t.input) script
  chat_loop-parting hangs_up script = eof_loop t.input script
