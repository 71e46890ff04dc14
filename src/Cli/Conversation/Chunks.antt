-- ===== src/Cli/Conversation/Chunks.antt =====
-- Rounds of the main loop in which a message of the server is not yet complete.
use me2u.Base.{
  ℕ, ◌≤◌, ◌≡◌, ◌≢◌, refl, ap, sym, subst, ◌∙◌, Bool, false, List, [], ◌∷◌, ◌++◌, arith, length,
  length-append, take_all, elem, append-nil, append_assoc, All,
}
use me2u.CString.{Bytes, cstr}
use me2u.CString.Laws.{cstr-NoZero, strlen-NoZero}
use me2u.System.{Machine, Read, got, Selected, woke, ok, continue_with}
use me2u.Protocol.{maxline, ending, stdin_fd}
use me2u.Cli.State.{Client}
use me2u.Cli.Buffer.{ends_with_ending}
use me2u.Cli.Buffer.Framing.{Holds}
use me2u.Cli.Buffer.Messages.{
  flatten, IsChunk, EndsOnce, after_read, after_read-Holds, process_string-none,
}
use me2u.Cli.Users.{raise_maxfdpl, set_fd_for_childs}
use me2u.Cli.Login.{clear_read_buf, store_read}
use me2u.Cli.Chat.{
  proceed, next, ask_for, chat_prepare, chat_select, server_ready, on_server_data, on_message,
  after_server, chat_round, chat_loop,
}
use me2u.Cli.Invariant.{IsValid}
use me2u.Cli.Invariant.Chat.{server_ready-Keeps, chat_prepare-Keeps, chat_select-Keeps}
use me2u.Cli.Invariant.Loop.{any_children_replied-idle}
use me2u.Cli.Conversation.{Talk}
use me2u.Cli.Conversation.View.{ViewIn}
use me2u.System.Laws.{elem-fd_ready_other}
use me2u.Cli.Conversation.Rounds.{
  took, with_read, chat_round-woke, chat_answer_server, ready_sockfd, took-View,
}
use me2u.Cli.Conversation.Parting.{chat_loop-next}

-- A read that does not complete a message is kept in the buffer.
server_ready-none :
    (sockfd : ℕ) (eof : Bool) (text b : Bytes) (rs : List Read) (m : Machine Client)
    → m.os.reads ≡ got b ∷ rs
    → m.globals.read_buf ≡ []
    → Holds m.globals text
    → IsChunk b
    → 4 ≤ length (text ++ b)
    → ends_with_ending (text ++ b) ≡ false
    → server_ready sockfd eof m ≡ (after_read (with_read m b rs) text b, ok proceed)
unfolding server_ready on_server_data store_read on_message
server_ready-none sockfd eof text [] rs m script clear h (nz, ne, lt) four more = absurd (ne refl)
server_ready-none sockfd eof text (c ∷ b) rs m script clear h (nz, ne, lt) four more =
    let same : text ++ cstr (c ∷ b) ≡ text ++ (c ∷ b) = ap (text ++◌) (cstr-NoZero (c ∷ b) nz) in
    simp (
      script,
      clear,
      take_all maxline (c ∷ b) (omega arith),
      append-nil,
      process_string-none (with_read m (c ∷ b) rs) text (c ∷ b)
          (record {
            text_is = h.text_is;
            no_zero = h.no_zero;
            has_room = h.has_room;
            size_ge = h.size_ge;
          })
          (omega (arith, strlen-NoZero (c ∷ b) nz)) (rw same four) (rw same more),
    )

took-IsValid :
    (sockfd : ℕ) (eof : Bool) (m : Machine Client)
    → IsValid sockfd m
    → IsValid sockfd (took sockfd sockfd eof [] m.os.reads m)
unfolding chat_prepare set_fd_for_childs ask_for clear_read_buf chat_select
took-IsValid sockfd eof m valid =
    (chat_select-Keeps (woke (sockfd ∷ []))).apply (chat_prepare sockfd eof m).0
      ((chat_prepare-Keeps eof).apply m valid)

-- Where only the socket is ready, nothing is done behind an incomplete message.
after_server-proceed :
    (sockfd : ℕ) (eof : Bool) (m : Machine Client)
    → IsValid sockfd m
    → elem stdin_fd m.globals.rset ≡ false
    → after_server sockfd eof proceed m ≡ (m, ok (next, eof))
unfolding after_server
after_server-proceed sockfd eof m valid none_typed =
    simp (none_typed, any_children_replied-idle sockfd m valid)

-- The machine `m'` holds `text`, and has read what `m` had to read up to `rs`.
pub record Kept (sockfd : ℕ) (m m' : Machine Client) (t : Talk) (text : Bytes) (rs : List Read)
    : Type 0 where
  pub view : ViewIn sockfd m' t text
  pub valid : IsValid sockfd m'
  pub reads : m'.os.reads ≡ rs
  pub shown : m'.os.trace ≡ m.os.trace

module _ {sockfd : ℕ} {m : Machine Client} {t : Talk} {text : Bytes} (v : ViewIn sockfd m t text)
    (valid : IsValid sockfd m) (other : sockfd ≢ stdin_fd) where
  chat_round_chunk :
      (eof : Bool) (b : Bytes) (rs : List Read)
      → m.os.reads ≡ got b ∷ rs
      → IsChunk b
      → 4 ≤ length (text ++ b)
      → ends_with_ending (text ++ b) ≡ false
      → (m' : Machine Client) × Kept sockfd m m' t (text ++ b) rs
        × (chat_round sockfd eof (woke (sockfd ∷ [])) m ≡ (m', ok (next, eof)))
  chat_round_chunk eof b rs script chunk four more =
      let m0 = took sockfd sockfd eof [] m.os.reads m in
      let v0 = took-View v sockfd eof [] m.os.reads in
      let h0 : Holds m0.globals text = v0.holds in
      let taken = with_read m0 b rs in
      let m' = after_read taken text b in
      let now : server_ready sockfd eof m0 ≡ (m', ok proceed) =
        server_ready-none sockfd eof text b rs m0 script refl h0 chunk four more in
      let still : IsValid sockfd m' =
        subst (λ r. IsValid sockfd r.0) now
          ((server_ready-Keeps sockfd eof).apply m0 (took-IsValid sockfd eof m valid)) in
      let nfds = raise_maxfdpl m.globals.users m.globals.maxfdpl in
      let none_typed : elem stdin_fd m'.globals.rset ≡ false =
        elem-fd_ready_other stdin_fd sockfd nfds _ (λ e. other (sym e)) in
      let whole : text ++ cstr b ≡ text ++ b = ap (text ++◌) (cstr-NoZero b chunk.0) in
      let held : Holds m'.globals (text ++ cstr b) =
        after_read-Holds taken text b
          (record {
            text_is = h0.text_is;
            no_zero = h0.no_zero;
            has_room = h0.has_room;
            size_ge = h0.size_ge;
          })
          (omega (arith, strlen-NoZero b chunk.0, chunk.2)) in
      (
        m',
        record {
          view = record {
            windows = v0.windows;
            spawns = v0.spawns;
            holds = subst (λ s. Holds m'.globals s) whole held;
            below = v0.below;
          };
          valid = still;
          reads = refl;
          shown = refl;
        },
        chat_round-woke sockfd sockfd eof m
            ∙ chat_answer_server sockfd eof m0 (ready_sockfd v eof)
            ∙ ap (λ r. continue_with r (after_server sockfd eof)) now
            ∙ after_server-proceed sockfd eof m' still none_typed,
      )

abbrev pub gots : List Bytes → List Read
gots [] = []
gots (b ∷ bs) = got b ∷ gots bs

abbrev pub wakes : ℕ → List Bytes → List Selected
wakes sockfd [] = []
wakes sockfd (b ∷ bs) = woke (sockfd ∷ []) ∷ wakes sockfd bs

-- The first of them brings the text to four bytes at least.
abbrev pub Enough : Bytes → List Bytes → Type 0
Enough text [] = Unit
Enough text (b ∷ bs) = 4 ≤ length (text ++ b)

Enough-longer : (text b : Bytes) (bs : List Bytes) → 4 ≤ length text → Enough text bs
Enough-longer text b [] four = tt
Enough-longer text b (c ∷ bs) four = omega (arith, length-append text c)

last_ne_nil : (a b : Bytes) → b ≢ [] → a ++ b ≢ []
last_ne_nil [] b ne e = ne e
last_ne_nil (x ∷ a) b ne e = cc e

-- The loop goes through the reads of a message before the last.
pub chat_loop_chunks :
    {sockfd : ℕ} {t : Talk} (bs : List Bytes) (last msg text : Bytes) (more : List Selected)
    (rs : List Read) (eof : Bool) (m : Machine Client)
    → ViewIn sockfd m t text
    → IsValid sockfd m
    → sockfd ≢ stdin_fd
    → m.os.reads ≡ gots bs ++ rs
    → All IsChunk bs
    → Enough text bs
    → EndsOnce msg
    → last ≢ []
    → text ++ (flatten bs ++ last) ≡ msg ++ ending
    → (m' : Machine Client) × Kept sockfd m m' t (text ++ flatten bs) rs
      × (chat_loop sockfd eof (wakes sockfd bs ++ more) m ≡ chat_loop sockfd eof more m')
chat_loop_chunks {sockfd} {t} [] last msg text more rs eof m v valid other script chunks enough once
      ne whole =
    (
      m,
      record {
        view = subst (λ s. ViewIn sockfd m t s) (sym (append-nil text)) v;
        valid = valid;
        reads = script;
        shown = refl;
      },
      refl,
    )
chat_loop_chunks {sockfd} {t} (b ∷ bs) last msg text more rs eof m v valid other script chunks
      enough once ne whole =
    let cut : (text ++ b) ++ (flatten bs ++ last) ≡ msg ++ ending =
      append_assoc text b (flatten bs ++ last)
      ∙ ap (text ++◌) (sym (append_assoc b (flatten bs) last))
      ∙ whole in
    let unfinished =
      once (text ++ b) (flatten bs ++ last) (sym cut) (last_ne_nil (flatten bs) last ne) in
    let (m1, kept, now) =
      chat_round_chunk v valid other eof b (gots bs ++ rs) script chunks.0 enough unfinished in
    let (m2, later, run) =
      chat_loop_chunks bs last msg (text ++ b) more rs eof m1 kept.view kept.valid other kept.reads
        chunks.1 (Enough-longer (text ++ b) b bs enough) once ne cut in
    (
      m2,
      record {
        view = subst (λ s. ViewIn sockfd m2 t s) (append_assoc text b (flatten bs)) later.view;
        valid = later.valid;
        reads = later.reads;
        shown = later.shown ∙ kept.shown;
      },
      chat_loop-next sockfd eof eof (woke (sockfd ∷ [])) (wakes sockfd bs ++ more) m
            (ap (λ r. r.1) now)
          ∙ ap (λ r. chat_loop sockfd eof (wakes sockfd bs ++ more) r.0) now
          ∙ run,
    )
