-- ===== src/Window/Screen.antt =====
-- What a chat window shows and sends.
use me2u.Base.{
  Bool, if◌then◌else◌, ℕ, ◌+◌, ◌<◌, ◌≡◌, ◌≢◌, refl, ◌∙◌, true, false, List, [], ◌∷◌, ◌++◌, arith,
  length, take_all, elem, ltb, le→ltb, All, append_assoc, append-nil,
}
use me2u.CString.{Bytes, lit, strlen, NoZero}
use me2u.CString.Laws.{cstr-NoZero, strlen-NoZero}
use me2u.System.{
  Machine, Read, got, Selected, woke, ok, waiting, Effect, wrote, traced, when, write, fd_set,
  fd_ready,
}
use me2u.System.Laws.{elem-fd_set_self, elem-fd_ready_self}
use me2u.Protocol.{maxline, max, stdin_fd, c_default}
use me2u.Window.{
  fd_setsize, Window, sent_msg_c, recv_msg_c, write_to_screen, window_prepare, window_select,
  fill_buf, read_buf, on_received, on_typed, window_answer, window_round, window_loop,
}

-- What happens to a window: the other end writes, or the user types.
pub data Event : Type 0 where
  received typed : Bytes → Event

abbrev pub event_read : Event → Read
event_read (received b) = got b
event_read (typed b) = got b

-- The descriptor that is ready, where `rd` is the one of the other end.
abbrev pub event_select : ℕ → Event → Selected
event_select rd (received b) = woke (rd ∷ [])
event_select rd (typed b) = woke (stdin_fd ∷ [])

-- The text on the screen, with its arrow and its color.
abbrev pub shown : Bytes → Bytes → Bytes → List Effect
shown color arrow b = wrote 1 color ∷ wrote 1 arrow ∷ wrote 1 b ∷ wrote 1 c_default ∷ []

-- What is written on an event: what was received is shown; what was typed is shown, and sent if
-- `can_write` allows it.
abbrev pub event_effects : (ℕ → Bool) → ℕ → Event → List Effect
event_effects can_write rd (received b) = shown recv_msg_c (lit "> ") b
event_effects can_write rd (typed b) =
    shown sent_msg_c (lit "< ") b ++ (if can_write rd then wrote rd b ∷ [] else [])

abbrev pub event_text : Event → Bytes
event_text (received b) = b
event_text (typed b) = b

abbrev pub reads_of : List Event → List Read
reads_of [] = []
reads_of (e ∷ es) = event_read e ∷ reads_of es

abbrev pub selects_of : ℕ → List Event → List Selected
selects_of rd [] = []
selects_of rd (e ∷ es) = event_select rd e ∷ selects_of rd es

abbrev pub effects_of : (ℕ → Bool) → ℕ → List Event → List Effect
effects_of can_write rd [] = []
effects_of can_write rd (e ∷ es) = event_effects can_write rd e ++ effects_of can_write rd es

-- A text that fits: not empty, no zero in it, shorter than the buffer.
abbrev pub IsLine : Bytes → Type 0
IsLine b = NoZero b × (b ≢ []) × (length b < maxline)

-- The set that is asked for.
abbrev pub asked : Machine Window → List ℕ
asked m = fd_set m.globals.wrt (fd_set m.globals.rd (fd_set stdin_fd m.globals.rset))

abbrev pub after_event : (ℕ → Bool) → Machine Window → List ℕ → Event → List Read → Machine Window
after_event can_write m set e rs =
    traced
      (record m {
        os = record m.os { reads = rs };
        globals = record m.globals { buf = event_text e; rset = set };
      })
      (event_effects can_write m.globals.rd e)

write_to_screen_lem :
    (b arrow color : Bytes) (m : Machine Window)
    → NoZero b
    → length b < maxline
    → write_to_screen 1 b arrow color m ≡ (traced m (shown color arrow b), ok tt)
unfolding write_to_screen
write_to_screen_lem b arrow color m nz lt =
    let fits : ltb maxline (strlen b + 1) ≡ false =
      le→ltb maxline (strlen b + 1) (omega (arith, strlen-NoZero b nz)) in
    simp (fits, cstr-NoZero b nz, append_assoc)

read_buf_lem :
    (b : Bytes) (m : Machine Window) (rs : List Read)
    → m.os.reads ≡ got b ∷ rs
    → IsLine b
    → m.globals.buf ≡ []
    → read_buf m ≡ (
      record m { os = record m.os { reads = rs }; globals = record m.globals { buf = b } },
      ok false,
    )
unfolding read_buf fill_buf
read_buf_lem [] m rs e line clear = absurd (line.1 refl)
read_buf_lem (x ∷ b) m rs e line clear =
    simp (e, clear, take_all maxline (x ∷ b) (omega arith), append-nil)

pub asked_rd : (m : Machine Window) → elem m.globals.rd (asked m) ≡ true
asked_rd m = ground (arith, elem-fd_set_self m.globals.rd (fd_set stdin_fd m.globals.rset))

pub asked_stdin : (m : Machine Window) → elem stdin_fd (asked m) ≡ true
asked_stdin m = ground (arith, elem-fd_set_self stdin_fd m.globals.rset)

pub elem-fd_ready_other :
    (fd nfds : ℕ) (s : List ℕ) → fd ≢ stdin_fd → elem fd (fd_ready nfds (stdin_fd ∷ []) s) ≡ false
elem-fd_ready_other fd nfds [] ne = refl
elem-fd_ready_other fd nfds (x ∷ s) ne = ground (arith, elem-fd_ready_other fd nfds s)

-- The descriptors fit the sets.
abbrev pub AreSmall : Machine Window → Type 0
AreSmall m = (m.globals.rd < fd_setsize) × (m.globals.wrt < fd_setsize)

pub window_prepare_lem :
    (m : Machine Window)
    → AreSmall m
    → window_prepare m
      ≡ (record m { globals = record m.globals { buf = []; rset = asked m } }, ok tt)
unfolding window_prepare
window_prepare_lem m small =
    let rd_fits : ltb fd_setsize (m.globals.rd + 1) ≡ false =
      le→ltb fd_setsize (m.globals.rd + 1) (omega (arith, small.0)) in
    let wrt_fits : ltb fd_setsize (m.globals.wrt + 1) ≡ false =
      le→ltb fd_setsize (m.globals.wrt + 1) (omega (arith, small.1)) in
    simp (rd_fits, wrt_fits)

sent_lem :
    (can_write : ℕ → Bool) (rd : ℕ) (b : Bytes) (m : Machine Window)
    → when (can_write rd) (write rd b) m
      ≡ (traced m (if can_write rd then wrote rd b ∷ [] else []), ok tt)
sent_lem can_write rd b m = sent_if (can_write rd)
  where
    sent_if :
        (c : Bool) → when c (write rd b) m ≡ (traced m (if c then wrote rd b ∷ [] else []), ok tt)
    sent_if true = refl
    sent_if false = rw append-nil refl

-- One event: the text is read, shown and, if it was typed, written to `rd` where that works.
pub window_round_lem :
    (can_write : ℕ → Bool) (e : Event) (m : Machine Window) (rs : List Read)
    → m.os.reads ≡ event_read e ∷ rs
    → IsLine (event_text e)
    → m.globals.rd ≢ stdin_fd
    → AreSmall m
    → (set : List ℕ) × (window_round can_write (event_select m.globals.rd e) m
        ≡ (after_event can_write m set e rs, ok false))
unfolding window_round window_select window_answer on_received on_typed
window_round_lem can_write (received b) m rs script line ne small =
    let set = fd_ready (max stdin_fd m.globals.rd + 1) (m.globals.rd ∷ []) (asked m) in
    let up : elem m.globals.rd set ≡ true =
      elem-fd_ready_self m.globals.rd (max stdin_fd m.globals.rd + 1) (m.globals.rd ∷ []) (asked m)
        (asked_rd m) (ground arith) (ground arith) in
    let woken = record m { globals = record m.globals { buf = []; rset = set } } in
    let filled = record m {
      os = record m.os { reads = rs };
      globals = record m.globals { buf = b; rset = set };
    } in
    (
      set,
      simp (
        window_prepare_lem m small,
        up,
        read_buf_lem b woken rs script line refl,
        write_to_screen_lem b (lit "> ") recv_msg_c filled line.0 line.2,
      ),
    )
window_round_lem can_write (typed b) m rs script line ne small =
    let set = fd_ready (max stdin_fd m.globals.rd + 1) (stdin_fd ∷ []) (asked m) in
    let up : elem stdin_fd set ≡ true =
      elem-fd_ready_self stdin_fd (max stdin_fd m.globals.rd + 1) (stdin_fd ∷ []) (asked m)
        (asked_stdin m) (ground arith) (ground arith) in
    let down : elem m.globals.rd set ≡ false =
      elem-fd_ready_other m.globals.rd (max stdin_fd m.globals.rd + 1) (asked m) ne in
    let woken = record m { globals = record m.globals { buf = []; rset = set } } in
    let filled = record m {
      os = record m.os { reads = rs };
      globals = record m.globals { buf = b; rset = set };
    } in
    (
      set,
      simp (
        window_prepare_lem m small,
        up,
        down,
        read_buf_lem b woken rs script line refl,
        write_to_screen_lem b (lit "< ") sent_msg_c filled line.0 line.2,
        cstr-NoZero b line.0,
        sent_lem can_write m.globals.rd b (traced filled (shown sent_msg_c (lit "< ") b)),
        append_assoc,
      ),
    )

-- On any events, in any order, with texts that fit the buffer, are not empty and have no zero, with
-- descriptors that fit the sets and `rd` other than the standard input, the window shows every text once
-- and in order, in the colors and with the arrows of the two directions, writes each text that was typed to
-- `rd` if that can be written, and nothing else at all, and then waits. For the read end of a pipe, which
-- the client hands it, nothing that is typed leaves the window; `/close` is such a text too, and the window
-- goes on.
pub window_loop_lem :
    (can_write : ℕ → Bool) (es : List Event) (m : Machine Window)
    → m.os.reads ≡ reads_of es
    → All (λ e. IsLine (event_text e)) es
    → m.globals.rd ≢ stdin_fd
    → AreSmall m
    → ((window_loop can_write (selects_of m.globals.rd es) m).0.os.trace
        ≡ m.os.trace ++ effects_of can_write m.globals.rd es)
      × ((window_loop can_write (selects_of m.globals.rd es) m).1 ≡ waiting)
unfolding window_loop
window_loop_lem can_write [] m script lines ne small =
    (simp (window_prepare_lem m small, append-nil), simp (window_prepare_lem m small))
window_loop_lem can_write (e ∷ es) m script lines ne small =
    let (set, now) = window_round_lem can_write e m (reads_of es) script lines.0 ne small in
    let (later, end) =
      window_loop_lem can_write es (after_event can_write m set e (reads_of es)) refl lines.1 ne
        small in
    (
      simp now (
          later
          ∙ append_assoc m.os.trace (event_effects can_write m.globals.rd e)
              (effects_of can_write m.globals.rd es)),
      simp now end,
    )
