-- ===== src/Cli/Conversation/Rounds.antt =====
-- One round of the main loop in which the socket or the standard input is ready, up to what is done
-- with the bytes that came.
use me2u.Base.{
  ℕ, ◌≤◌, ◌<◌, ◌≡◌, ◌≢◌, refl, ap, ◌∙◌, Bool, true, false, List, [], ◌∷◌, ◌++◌, some, arith, length,
  take_all, elem, append-nil, if◌then◌else◌,
}
use me2u.CString.{Bytes, NoZero}
use me2u.CString.Laws.{cstr-NoZero, strlen-NoZero}
use me2u.System.{Machine, Read, got, woke, pure, fd_set, fd_ready, continue_with}
use me2u.System.Laws.{elem-fd_set_self, elem-fd_ready_self, elem-fd_ready_other}
use me2u.Protocol.{maxline, ending, stdin_fd}
use me2u.Cli.State.{Client}
use me2u.Cli.Buffer.Framing.{Holds, with_text}
use me2u.Cli.Buffer.Messages.{process_string-some}
use me2u.Cli.Users.{raise_maxfdpl, set_fd_for_childs}
use me2u.Cli.Login.{clear_read_buf, store_read}
use me2u.Cli.Chat.{
  next, chat_prepare, chat_select, chat_answer, server_ready, on_server_data, on_message, on_line,
  input_ready, on_input, after_server, chat_round, ask_for,
}
use me2u.Cli.Chat.Descriptors.{raise_maxfdpl-ge}
use me2u.Cli.Conversation.{Talk}
use me2u.Cli.Conversation.View.{ViewIn, View}

-- The set that is asked for, and what is left of it where `fd` is ready.
abbrev asked : ℕ → Bool → Machine Client → List ℕ
asked sockfd eof m = fd_set sockfd (if eof then m.globals.rset else fd_set stdin_fd m.globals.rset)

abbrev ready : ℕ → ℕ → Bool → Machine Client → List ℕ
ready fd sockfd eof m =
    fd_ready (raise_maxfdpl m.globals.users m.globals.maxfdpl) (fd ∷ []) (asked sockfd eof m)

-- The machine after `b` has been read from `fd`.
abbrev pub took : ℕ → ℕ → Bool → Bytes → List Read → Machine Client → Machine Client
took fd sockfd eof b rs m = record m {
  os = record m.os { reads = rs };
  globals = record m.globals {
    read_buf = b;
    rset = ready fd sockfd eof m;
    maxfdpl = raise_maxfdpl m.globals.users m.globals.maxfdpl;
  };
}

abbrev pub with_read : Machine Client → Bytes → List Read → Machine Client
with_read m b rs = record m {
  os = record m.os { reads = rs };
  globals = record m.globals { read_buf = b };
}

-- A read that completes a message: the message is taken from the buffer, and answered.
server_ready-some :
    (sockfd : ℕ) (eof : Bool) (text b msg : Bytes) (rs : List Read) (m : Machine Client)
    → m.os.reads ≡ got b ∷ rs
    → m.globals.read_buf ≡ []
    → Holds m.globals text
    → text ++ b ≡ msg ++ ending
    → b ≢ []
    → NoZero b
    → length b < maxline
    → server_ready sockfd eof m
      ≡ on_message sockfd (some msg) (with_text (with_read m b rs) [] maxline)
unfolding server_ready on_server_data store_read
server_ready-some sockfd eof text [] msg rs m script clear h whole ne nz lt = absurd (ne refl)
server_ready-some sockfd eof text (c ∷ b) msg rs m script clear h whole ne nz lt = simp (
  script,
  clear,
  take_all maxline (c ∷ b) (omega arith),
  append-nil,
  process_string-some (with_read m (c ∷ b) rs) text (c ∷ b) msg
      (record {
        text_is = h.text_is;
        no_zero = h.no_zero;
        has_room = h.has_room;
        size_ge = h.size_ge;
      })
      (omega (arith, strlen-NoZero (c ∷ b) nz)) (ap (text ++◌) (cstr-NoZero (c ∷ b) nz) ∙ whole),
)

input_ready_line :
    (sockfd : ℕ) (eof : Bool) (b : Bytes) (rs : List Read) (m : Machine Client)
    → m.os.reads ≡ got b ∷ rs
    → m.globals.read_buf ≡ []
    → b ≢ []
    → length b < maxline
    → input_ready sockfd eof m ≡ on_line sockfd eof b (with_read m b rs)
unfolding input_ready on_input store_read
input_ready_line sockfd eof [] rs m script clear ne lt = absurd (ne refl)
input_ready_line sockfd eof (c ∷ b) rs m script clear ne lt =
    simp (script, clear, take_all maxline (c ∷ b) (omega arith), append-nil)

pub chat_round-woke :
    (fd sockfd : ℕ) (eof : Bool) (m : Machine Client)
    → chat_round sockfd eof (woke (fd ∷ [])) m
      ≡ chat_answer sockfd eof (took fd sockfd eof [] m.os.reads m)
unfolding chat_round chat_prepare set_fd_for_childs ask_for clear_read_buf chat_select
chat_round-woke fd sockfd eof m = refl

pub chat_answer_server :
    (sockfd : ℕ) (eof : Bool) (m : Machine Client)
    → elem sockfd m.globals.rset ≡ true
    → chat_answer sockfd eof m ≡ continue_with (server_ready sockfd eof m) (after_server sockfd eof)
unfolding chat_answer
chat_answer_server sockfd eof m up = rw up refl

chat_answer_input :
    (sockfd : ℕ) (eof : Bool) (m : Machine Client)
    → elem sockfd m.globals.rset ≡ false
    → elem stdin_fd m.globals.rset ≡ true
    → chat_answer sockfd eof m
      ≡ continue_with (input_ready sockfd eof m) (λ later. pure (next, later))
unfolding chat_answer after_server
chat_answer_input sockfd eof m down up = simp (down, up)

module _ {sockfd : ℕ} {m : Machine Client} {t : Talk} {text : Bytes}
    (v : ViewIn sockfd m t text) where
  raised : m.globals.maxfdpl ≤ raise_maxfdpl m.globals.users m.globals.maxfdpl
  raised = omega (arith, raise_maxfdpl-ge m.globals.users m.globals.maxfdpl)

  pub ready_sockfd : (eof : Bool) → elem sockfd (ready sockfd sockfd eof m) ≡ true
  ready_sockfd eof =
      elem-fd_ready_self sockfd (raise_maxfdpl m.globals.users m.globals.maxfdpl) (sockfd ∷ [])
        (asked sockfd eof m)
        (elem-fd_set_self sockfd (if eof then m.globals.rset else fd_set stdin_fd m.globals.rset))
        (ground arith) (omega (arith, v.below, raised))

  -- A whole message of the server is taken from the buffer, and answered.
  pub chat_round_message :
      (eof : Bool) (b msg : Bytes) (rs : List Read)
      → m.os.reads ≡ got b ∷ rs
      → text ++ b ≡ msg ++ ending
      → b ≢ []
      → NoZero b
      → length b < maxline
      → chat_round sockfd eof (woke (sockfd ∷ [])) m
        ≡ continue_with
            (on_message sockfd (some msg) (with_text (took sockfd sockfd eof b rs m) [] maxline))
            (after_server sockfd eof)
  chat_round_message eof b msg rs script whole ne nz lt =
      let m' = took sockfd sockfd eof [] m.os.reads m in
      chat_round-woke sockfd sockfd eof m
      ∙ chat_answer_server sockfd eof m' (ready_sockfd eof)
      ∙ ap (λ r. continue_with r (after_server sockfd eof))
          (server_ready-some sockfd eof text b msg rs m' script refl
            (record {
              text_is = v.holds.text_is;
              no_zero = v.holds.no_zero;
              has_room = v.holds.has_room;
              size_ge = v.holds.size_ge;
            })
            whole ne nz lt)

  -- A line of the user is taken up, unless the socket is the standard input.
  pub chat_round_line :
      (b : Bytes) (rs : List Read)
      → sockfd ≢ stdin_fd
      → m.os.reads ≡ got b ∷ rs
      → b ≢ []
      → length b < maxline
      → chat_round sockfd false (woke (stdin_fd ∷ [])) m
        ≡ continue_with
            (on_line sockfd false b (took stdin_fd sockfd false b rs m))
            (λ later. pure (next, later))
  chat_round_line b rs other script ne lt =
      let nfds = raise_maxfdpl m.globals.users m.globals.maxfdpl in
      let up : elem stdin_fd (ready stdin_fd sockfd false m) ≡ true =
        elem-fd_ready_self stdin_fd nfds (stdin_fd ∷ []) (asked sockfd false m)
          (ground (arith, elem-fd_set_self stdin_fd m.globals.rset)) (ground arith)
          (omega (arith, v.below, raised)) in
      let down : elem sockfd (ready stdin_fd sockfd false m) ≡ false =
        elem-fd_ready_other sockfd stdin_fd nfds (asked sockfd false m) other in
      let m' = took stdin_fd sockfd false [] m.os.reads m in
      chat_round-woke stdin_fd sockfd false m
      ∙ chat_answer_input sockfd false m' down up
      ∙ ap (λ r. continue_with r (λ later. pure (next, later)))
          (input_ready_line sockfd false b rs m' script refl ne lt)

  pub took-View :
      (fd : ℕ) (eof : Bool) (b : Bytes) (rs : List Read)
      → ViewIn sockfd (took fd sockfd eof b rs m) t text
  took-View fd eof b rs = record {
    windows = v.windows;
    spawns = v.spawns;
    holds = record {
      text_is = v.holds.text_is;
      no_zero = v.holds.no_zero;
      has_room = v.holds.has_room;
      size_ge = v.holds.size_ge;
    };
    below = omega (arith, v.below, raised);
  }

  pub emptied-View :
      (eof : Bool) (b : Bytes) (rs : List Read)
      → View sockfd (with_text (took sockfd sockfd eof b rs m) [] maxline) t
  emptied-View eof b rs = record {
    windows = v.windows;
    spawns = v.spawns;
    holds = record { text_is = refl; no_zero = tt; has_room = omega arith; size_ge = omega arith };
    below = omega (arith, v.below, raised);
  }
