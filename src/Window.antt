-- ===== src/Window.antt =====
-- The program in a chat window: hw1_cli/chat.c and hw1_cli/chat.h.
pub mod Screen
pub mod Run
mod Tests
use me2u.Base.{
  ℕ, ◌+◌, Bool, true, false, List, [], ◌∷◌, Option, none, some, length, get_elem?, take, elem, ltb,
  if◌then◌else◌,
}
use me2u.CString.{Bytes, lit, cstr, strlen, overlay}
use me2u.System.{
  M, Read, got, failed, Selected, timed_out, woke, select_failed, block, ◌>>=◌, ◌>>◌, pure, get,
  put, exit, crash, emit, access, write, when, read, reported, fd_set, fd_ready,
}
use me2u.Protocol.{maxline, max, exit_success, stdin_fd, stdout_fd, c_default}

-- The variables of `main`: `buf` has `maxline` bytes, zero behind those listed. `stdineof` is 0 for
-- good.
pub record Window : Type 0 where
  pub rd : ℕ
  pub wrt : ℕ
  pub rset : List ℕ
  pub buf : Bytes

abbrev pub sent_msg_c : Bytes
sent_msg_c = lit "\u{1b}[1;32m"

abbrev pub recv_msg_c : Bytes
recv_msg_c = lit "\u{1b}[1;33m"

-- `error` of this program: it ends with 0.
abbrev pub window_error : {A : Type 0} → Bytes → M Window A
window_error msg = do emit (reported msg); exit 0

unfoldable pub write_to_screen : ℕ → Bytes → Bytes → Bytes → M Window (Unit {0})
write_to_screen fd buf arrow color = do
  write fd color
  write fd arrow
  access maxline (strlen buf + 1)
  write fd (cstr buf)
  write fd c_default

-- How many descriptors an `fd_set` has.
abbrev pub fd_setsize : ℕ
fd_setsize = 1024

-- The part of a round before `select`. `FD_SET` writes behind the set for a larger descriptor.
unfoldable pub window_prepare : M Window (Unit {0})
window_prepare = do
  g ← get
  access fd_setsize (g.rd + 1)
  access fd_setsize (g.wrt + 1)
  put (record g { buf = []; rset = fd_set g.wrt (fd_set g.rd (fd_set stdin_fd g.rset)) })

-- What `select` leaves in the set.
abbrev pub set_after : Selected → ℕ → List ℕ → List ℕ
set_after timed_out nfds set = []
set_after (woke ready) nfds set = fd_ready nfds ready set
set_after select_failed nfds set = set

-- `select(maxfdpl, &rset, …)`
unfoldable pub window_select : Selected → M Window (Unit {0})
window_select s = do g ← get; put (record g { rset = set_after s (max stdin_fd g.rd + 1) g.rset })

-- Whether the input is at its end; if not, what came is put into the buffer.
unfoldable pub fill_buf : Read → M Window Bool
fill_buf (got []) = pure true
fill_buf (got b) = do g ← get; put (record g { buf = overlay (take maxline b) g.buf }); pure false
fill_buf failed = pure false

-- `(n = read(fd, buf, MAXLINE)) == 0`
unfoldable pub read_buf : M Window Bool
read_buf = read >>= fill_buf

-- The other end has written: whether the loop ends.
unfoldable pub on_received : M Window Bool
on_received = do
  end ← read_buf
  g ← get
  if end then pure true else (write_to_screen stdout_fd g.buf (lit "> ") recv_msg_c >> pure false)

-- The user has typed a line: whether the loop ends. `can_write` tells on which descriptors `write`
-- works: on any other it fails, which the program does not look at. The client hands the read end of a
-- pipe as `rd`, on which it fails.
unfoldable pub on_typed : (ℕ → Bool) → M Window Bool
on_typed can_write = do
  end ← read_buf
  g ← get
  if end
      then pure true
      else (write_to_screen stdout_fd g.buf (lit "< ") sent_msg_c
          >> when (can_write g.rd) (write g.rd (cstr g.buf))
          >> pure false)

-- The part of a round behind `select`. After a timeout the set is empty.
unfoldable pub window_answer : (ℕ → Bool) → M Window Bool
window_answer can_write = do
  g ← get
  if elem g.rd g.rset
      then on_received
      else if elem stdin_fd g.rset
      then on_typed can_write
      else pure false

unfoldable pub window_round : (ℕ → Bool) → Selected → M Window Bool
window_round can_write s = do window_prepare; window_select s; window_answer can_write

-- The loop of `main`, on the outcomes of `select`.
unfoldable pub window_loop : (ℕ → Bool) → List Selected → M Window (Unit {0})
window_loop can_write [] = window_prepare >> block
window_loop can_write (s ∷ rest) =
    let again = window_loop can_write rest in
    window_round can_write s >>= λ end. if end then pure tt else again

-- An argument as a number; behind the end of `argv`, a null pointer is followed. `atoi` is the C
-- library's, with `none` for a negative number: `FD_SET` on it is undefined, and taken as a crash.
abbrev pub number : Option ℕ → M Window ℕ
number none = crash
number (some fd) = pure fd

abbrev pub descriptor : (Bytes → Option ℕ) → Option Bytes → M Window ℕ
descriptor atoi none = crash
descriptor atoi (some s) = number (atoi s)

-- `main` of hw1_cli/chat.c, on `argv` with the program's name first.
unfoldable pub chat_main :
    (Bytes → Option ℕ) → (ℕ → Bool) → List Bytes → List Selected → M Window (Unit {0})
chat_main atoi can_write argv selects = do
  if ltb (length argv) 2 then window_error (lit "Invalid args. ./chat fd") else pure tt
  rd ← descriptor atoi (get_elem? argv 1)
  wrt ← descriptor atoi (get_elem? argv 2)
  put (record { rd = rd; wrt = wrt; rset = []; buf = [] })
  window_loop can_write selects
  exit exit_success
