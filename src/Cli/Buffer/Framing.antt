-- ===== src/Cli/Buffer/Framing.antt =====
-- How `process_string` puts the messages together again from what the reads bring.
use me2u.Base.{
  ℕ, zero, suc, ◌+◌, ◌-◌, ◌≤◌, ◌<◌, ◌≡◌, refl, ◌++◌, Option, some, arith, ltb, if◌then◌else◌,
  length, length-append, take_all,
}
use me2u.CString.{Bytes, cstr, strlen, NoZero}
use me2u.CString.Laws.{cstr-NoZero, strlen-NoZero}
use me2u.System.{Machine, ok, when}
use me2u.Protocol.{maxline}
use me2u.Cli.State.{Client}
use me2u.Cli.Buffer.{increase_full_buf, append_full_buf, size_t_pred, collect}

-- A block of `size` bytes behind `full_buf` holds the string `t`, and has room for a zero behind
-- it.
pub record HoldsIn (full_buf : Option Bytes) (size : ℕ) (t : Bytes) : Type 0 where
  pub text_is : full_buf ≡ some t
  pub no_zero : NoZero t
  pub has_room : length t < size
  pub size_ge : maxline ≤ size

abbrev pub Holds : Client → Bytes → Type 0
Holds c t = HoldsIn c.full_buf c.max_size_of_full_buf t

-- The machine with another text in the buffer, in a block of another size.
abbrev pub with_text : Machine Client → Bytes → ℕ → Machine Client
with_text m t size = record m {
  globals = record m.globals { full_buf = some t; max_size_of_full_buf = size };
}

-- The size of the block behind `full_buf` after `n` bytes have come.
abbrev pub size_after : Client → ℕ → ℕ
size_after c n =
    if ltb (c.max_size_of_full_buf - 1) n
    then c.max_size_of_full_buf + maxline
    else c.max_size_of_full_buf

increase_full_buf_lem :
    (m : Machine Client) (t : Bytes)
    → Holds m.globals t
    → increase_full_buf m ≡ (with_text m t (m.globals.max_size_of_full_buf + maxline), ok tt)
unfolding increase_full_buf
increase_full_buf_lem m t h = ground (arith, take_all m.globals.max_size_of_full_buf t)

size_t_pred_lem : (n : ℕ) → 0 < n → size_t_pred n ≡ n - 1
size_t_pred_lem zero h = absurd (omega arith)
size_t_pred_lem (suc n) h = omega arith

-- The part of `process_string` that makes room.
grow_lem :
    (m : Machine Client) (t : Bytes) (n : ℕ)
    → Holds m.globals t
    → when (ltb (size_t_pred m.globals.max_size_of_full_buf) n) increase_full_buf m
      ≡ (with_text m t (size_after m.globals n), ok tt)
grow_lem m t n h =
    ground (arith, increase_full_buf_lem m t h, size_t_pred_lem m.globals.max_size_of_full_buf)

append_full_buf_lem :
    (m : Machine Client) (t b : Bytes)
    → Holds m.globals t
    → length (t ++ cstr b) < m.globals.max_size_of_full_buf
    → append_full_buf b m
      ≡ (with_text m (t ++ cstr b) m.globals.max_size_of_full_buf, ok (t ++ cstr b))
unfolding append_full_buf
append_full_buf_lem m t b h room =
    rw (h.text_is, append_full_buf, cstr-NoZero t h.no_zero) (ground arith)

pub size_after-room :
    (c : Client) (t b : Bytes)
    → Holds c t
    → length b ≤ maxline
    → length (t ++ b) < size_after c (length t + length b)
size_after-room c t b h lt = ground (arith, length-append t b, h.has_room, h.size_ge)

-- Making room keeps what the buffer holds.
size_after-Holds :
    (m : Machine Client) (t : Bytes) (n : ℕ)
    → Holds m.globals t
    → Holds (with_text m t (size_after m.globals n)).globals t
size_after-Holds m t n h = record {
  text_is = refl;
  no_zero = h.no_zero;
  has_room = ground (arith, h.has_room);
  size_ge = ground (arith, h.size_ge);
}

pub collect_lem :
    (m : Machine Client) (t b : Bytes)
    → Holds m.globals t
    → strlen b ≤ maxline
    → collect b m
      ≡ (with_text m (t ++ cstr b) (size_after m.globals (length t + strlen b)), ok (t ++ cstr b))
unfolding collect
collect_lem m t b h lt =
    let n : ℕ = length t + strlen b in
    simp (h.text_is, strlen-NoZero t h.no_zero, grow_lem m t n h)
      (append_full_buf_lem (with_text m t (size_after m.globals n)) t b (size_after-Holds m t n h)
        (unfold strlen in size_after-room m.globals t (cstr b) h lt))
