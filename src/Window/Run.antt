-- ===== src/Window/Run.antt =====
-- A whole run of the program in a chat window, from its command line to its end.
use me2u.Base.{
  ℕ, ◌+◌, ◌<◌, ◌≡◌, ◌≢◌, ◌⊎◌, inl, inr, refl, sym, ap, ◌∙◌, Bool, true, false, List, [], ◌∷◌, ◌++◌,
  some, Option, arith, elem, All, append_assoc, append-nil, if◌then◌else◌,
}
use me2u.CString.{Bytes}
use me2u.System.{
  Machine, Effect, Read, got, Selected, woke, ok, exited, fd_ready, continue_with, pure,
}
use me2u.System.Laws.{elem-fd_ready_self}
use me2u.Protocol.{max, stdin_fd}
use me2u.Window.{
  Window, fd_setsize, window_select, fill_buf, read_buf, on_received, on_typed, window_answer,
  window_round, window_loop, chat_main,
}
use me2u.Window.Screen.{
  Event, event_text, event_effects, reads_of, selects_of, effects_of, IsLine, AreSmall, asked,
  asked_rd, asked_stdin, elem-fd_ready_other, after_event, window_prepare_lem, window_round_lem,
}

-- What is left of the window `m` behind some events that wrote `fx`.
record Behind (m after : Machine Window) (fx : List Effect) (rs : List Read) : Type 0 where
  reads : after.os.reads ≡ rs
  rd_same : after.globals.rd ≡ m.globals.rd
  wrt_same : after.globals.wrt ≡ m.globals.wrt
  trace : after.os.trace ≡ m.os.trace ++ fx

window_loop-append :
    (can_write : ℕ → Bool) (es : List Event) (m : Machine Window) (rs : List Read)
    (rest : List Selected)
    → m.os.reads ≡ reads_of es ++ rs
    → All (λ e. IsLine (event_text e)) es
    → m.globals.rd ≢ stdin_fd
    → AreSmall m
    → (after : Machine Window) × (window_loop can_write (selects_of m.globals.rd es ++ rest) m
        ≡ window_loop can_write rest after)
      × Behind m after (effects_of can_write m.globals.rd es) rs
unfolding window_loop
window_loop-append can_write [] m rs rest script lines ne small = (
  m,
  refl,
  record { reads = script; rd_same = refl; wrt_same = refl; trace = sym (append-nil m.os.trace) },
)
window_loop-append can_write (e ∷ es) m rs rest script lines ne small =
    let (set, now) = window_round_lem can_write e m (reads_of es ++ rs) script lines.0 ne small in
    let next = after_event can_write m set e (reads_of es ++ rs) in
    let (after, later, b) = window_loop-append can_write es next rs rest refl lines.1 ne small in
    (
      after,
      ap
            (λ r. continue_with r (λ end.
              if end then pure tt else window_loop can_write (selects_of m.globals.rd es ++ rest)))
            now
          ∙ later,
      record {
        reads = b.reads;
        rd_same = b.rd_same;
        wrt_same = b.wrt_same;
        trace =
            b.trace
            ∙ append_assoc m.os.trace (event_effects can_write m.globals.rd e)
                (effects_of can_write m.globals.rd es);
      },
    )

-- The round in which the pipe, or the user's input, is at its end.
window_round-end :
    (can_write : ℕ → Bool) (fd : ℕ) (m : Machine Window) (rs : List Read)
    → (fd ≡ m.globals.rd) ⊎ (fd ≡ stdin_fd)
    → m.os.reads ≡ got [] ∷ rs
    → m.globals.rd ≢ stdin_fd
    → AreSmall m
    → (after : Machine Window) × (window_round can_write (woke (fd ∷ [])) m ≡ (after, ok true))
      × (after.os.trace ≡ m.os.trace)
unfolding window_round window_select window_answer on_received on_typed read_buf fill_buf
window_round-end can_write fd m rs (inl e) script ne small =
    let set = fd_ready (max stdin_fd m.globals.rd + 1) (m.globals.rd ∷ []) (asked m) in
    let up : elem m.globals.rd set ≡ true =
      elem-fd_ready_self m.globals.rd (max stdin_fd m.globals.rd + 1) (m.globals.rd ∷ []) (asked m)
        (asked_rd m) (ground arith) (ground arith) in
    (
      record m {
        os = record m.os { reads = rs };
        globals = record m.globals { buf = []; rset = set };
      },
      simp (e, window_prepare_lem m small, up, script),
      refl,
    )
window_round-end can_write fd m rs (inr e) script ne small =
    let set = fd_ready (max stdin_fd m.globals.rd + 1) (stdin_fd ∷ []) (asked m) in
    let up : elem stdin_fd set ≡ true =
      elem-fd_ready_self stdin_fd (max stdin_fd m.globals.rd + 1) (stdin_fd ∷ []) (asked m)
        (asked_stdin m) (ground arith) (ground arith) in
    let down : elem m.globals.rd set ≡ false =
      elem-fd_ready_other m.globals.rd (max stdin_fd m.globals.rd + 1) (asked m) ne in
    (
      record m {
        os = record m.os { reads = rs };
        globals = record m.globals { buf = []; rset = set };
      },
      simp (e, window_prepare_lem m small, up, down, script),
      refl,
    )

-- A whole run of a window: with two numbers for its descriptors on the command line, texts that are
-- received and typed, in any order, and then the end of the pipe or of the user's input, the program ends
-- with success, and what it has written is what `effects_of` says: each text on the screen, in order, each
-- that was typed also to `rd` if that can be written, and nothing else. The texts fit the buffer, are not
-- empty and have no zero, the descriptors fit the sets, and `rd` is not the standard input.
pub chat_main_session :
    (atoi : Bytes → Option ℕ) (can_write : ℕ → Bool) (program rd_arg wrt_arg : Bytes)
    (rd wrt fd : ℕ) (es : List Event) (rs : List Read) (m : Machine Window)
    → atoi rd_arg ≡ some rd
    → atoi wrt_arg ≡ some wrt
    → m.os.reads ≡ reads_of es ++ got [] ∷ rs
    → All (λ e. IsLine (event_text e)) es
    → rd ≢ stdin_fd
    → rd < fd_setsize
    → wrt < fd_setsize
    → (fd ≡ rd) ⊎ (fd ≡ stdin_fd)
    → let run =
        chat_main atoi can_write
          (program ∷ rd_arg ∷ wrt_arg ∷ [])
          (selects_of rd es ++ woke (fd ∷ []) ∷ [])
          m in
      (run.1 ≡ exited 0) × (run.0.os.trace ≡ m.os.trace ++ effects_of can_write rd es)
unfolding chat_main window_loop
chat_main_session atoi can_write program rd_arg wrt_arg rd wrt fd es rs m e_rd e_wrt script lines ne
      rd_fits wrt_fits ended =
    let opened = record m { globals = record { rd = rd; wrt = wrt; rset = []; buf = [] } } in
    let (after, run, b) =
      window_loop-append can_write es opened (got [] ∷ rs) (woke (fd ∷ []) ∷ []) script lines ne
        (rd_fits, wrt_fits) in
    let ended_after : (fd ≡ after.globals.rd) ⊎ (fd ≡ stdin_fd) = elim ended [
      | inl e ↦ inl (e ∙ sym b.rd_same)
      | inr e ↦ inr e
    ] in
    let (last, round, kept) =
      window_round-end can_write fd after rs ended_after b.reads (λ e. ne (sym b.rd_same ∙ e))
        (omega (arith, rd_fits, b.rd_same), omega (arith, wrt_fits, b.wrt_same)) in
    (simp (e_rd, e_wrt, run, round), simp (e_rd, e_wrt, run, round) (kept ∙ b.trace))
