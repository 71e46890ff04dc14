-- ===== src/Cli/Buffer.antt =====
-- The buffer in which hw1_cli/client.c collects what the server sends, up to the end of a message.
pub mod Ending
pub mod Framing
pub mod Messages
pub mod Stream
use me2u.Base.{
  ℕ, zero, suc, ◌+◌, ◌-◌, ◌^◌, Bool, true, false, ◌&&◌, List, [], ◌∷◌, ◌++◌, Option, none, some,
  ltb, leb, length, take, drop, if◌then◌else◌,
}
use me2u.CString.{Bytes, cstr, strlen, strncmp_eq}
use me2u.System.{M, ◌>>=◌, ◌>>◌, pure, get, put, when, emit, access, crash, underrun}
use me2u.Protocol.{maxline, ending}
use me2u.Cli.State.{Client}

-- What `malloc` or `realloc` leaves of the block behind `full_buf`; of a new one nothing is known,
-- and nothing of it is kept.
abbrev text_of : Option Bytes → Bytes
text_of none = []
text_of (some t) = t

-- The size of the block that `malloc(MAXLINE)` or `realloc(full_buf, size)` gives.
abbrev block_size : Option Bytes → ℕ → ℕ
block_size none size = maxline
block_size (some _) size = size

-- The size is an `int`, counted without a bound here, so this is the code as long as it is below 2^31.
unfoldable pub increase_full_buf : M Client (Unit {0})
increase_full_buf = do
  g ← get
  let temp = g.max_size_of_full_buf
  let size = temp + maxline
  access (block_size g.full_buf size) (temp + maxline)
  put (record g { full_buf = some (take temp (text_of g.full_buf)); max_size_of_full_buf = size })

unfoldable pub reset_full_buf : M Client (Unit {0})
unfolding increase_full_buf
reset_full_buf = do
  g ← get
  put (record g { full_buf = none; max_size_of_full_buf = 0 })
  increase_full_buf

-- A pointer that is followed must not be null.
abbrev pub deref : {A : Type 0} → Option A → M Client A
deref none = crash
deref (some a) = pure a

-- `max_size_of_full_buf - 1`, an `int`, as the `size_t` that it is compared with.
abbrev size_t_pred : ℕ → ℕ
size_t_pred zero = 2 ^ 64 - 1
size_t_pred (suc n) = n

-- `strncmp(full_buf + strlen(full_buf) - 4, ENDING, 4) == 0`. With fewer than four bytes in the
-- buffer the comparison begins in front of it: the bytes there are the allocator's, and taken to
-- differ.
unfoldable pub ends_with_ending : Bytes → Bool
ends_with_ending text = leb 4 (length text) && strncmp_eq 4 (drop (length text - 4) text) ending

abbrev read_before : Bytes → M Client (Unit {0})
read_before text = when (ltb (length text) 4) (emit (underrun (4 - length text)))

-- `strcat(full_buf, buf)`
append_full_buf : Bytes → M Client Bytes
append_full_buf buf = do
  g ← get
  old ← deref g.full_buf
  let text = cstr old ++ cstr buf
  access g.max_size_of_full_buf (length text + 1)
  put (record g { full_buf = some text })
  pure text

-- The message in the buffer, if it is complete. The block that is returned has four bytes more than
-- the message.
take_message : Bytes → M Client (Option Bytes)
take_message text =
    if ends_with_ending text
    then (do reset_full_buf; pure (some (take (length text - 4) text)))
    else pure none

-- The first part of `process_string(read_buf)`: the read is put behind the text in the buffer,
-- which is the result.
pub collect : Bytes → M Client Bytes
unfolding increase_full_buf append_full_buf
collect buf = do
  g ← get
  old ← deref g.full_buf
  when (ltb (size_t_pred g.max_size_of_full_buf) (strlen old + strlen buf)) increase_full_buf
  append_full_buf buf

-- `process_string(read_buf)`
unfoldable pub process_string : Bytes → M Client (Option Bytes)
unfolding collect take_message reset_full_buf
process_string buf = do
  access maxline (strlen buf + 1)
  text ← collect buf
  read_before text
  take_message text
