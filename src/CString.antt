-- ===== src/CString.antt =====
-- C strings: the functions of the C library that hw1_cli/client.c, hw1_cli/chat.c and
-- hw1_client/src/client.c call, on memory seen from a pointer.
--
-- A `Bytes` stands for the memory behind a `char *`: its bytes, and zeros behind them as far as
-- one reads. How far a pointer may be read is a matter of the object's size, which the callers
-- check apart.
pub mod Laws
use Prim.Native.Char.{code}
use Prim.Native.String.{String}
use me2u.Base.{
  ◌≢◌, ℕ, zero, suc, Bool, true, false, not, ◌&&◌, ◌||◌, List, [], ◌∷◌, ◌++◌, ◌==◌, if◌then◌else◌,
  length, drop,
}

abbrev pub Bytes : Type 0
Bytes = List ℕ

-- A literal of the source: its bytes, which are ASCII, without the terminating zero.
abbrev pub lit : String → Bytes
lit String.[] = []
lit (String.◌∷◌ c s) = code c ∷ lit s

-- The string that a pointer to `m` denotes: the bytes before the first zero.
unfoldable pub cstr : Bytes → Bytes
cstr [] = []
cstr (x ∷ m) = if x == 0 then [] else x ∷ cstr m

unfoldable pub strlen : Bytes → ℕ
unfolding cstr
strlen m = length (cstr m)

-- `strcmp(a, b) == 0`
unfoldable pub strcmp_eq : Bytes → Bytes → Bool
strcmp_eq [] [] = true
strcmp_eq [] (y ∷ b) = y == 0
strcmp_eq (x ∷ a) [] = x == 0
strcmp_eq (x ∷ a) (y ∷ b) = x == y && (x == 0 || strcmp_eq a b)

-- How many bytes of its first argument `strcmp` reads: up to the first difference or zero.
unfoldable pub strcmp_reads : Bytes → Bytes → ℕ
strcmp_reads [] b = 1
strcmp_reads (x ∷ a) [] = 1
strcmp_reads (x ∷ a) (y ∷ b) = if x == y && not (x == 0) then suc (strcmp_reads a b) else 1

-- `strncmp(a, b, n) == 0`
unfoldable pub strncmp_eq : ℕ → Bytes → Bytes → Bool
strncmp_eq zero a b = true
strncmp_eq (suc n) [] [] = true
strncmp_eq (suc n) [] (y ∷ b) = y == 0
strncmp_eq (suc n) (x ∷ a) [] = x == 0
strncmp_eq (suc n) (x ∷ a) (y ∷ b) = x == y && (x == 0 || strncmp_eq n a b)

-- The first `n` bytes of the memory in which a string stands, with zeros behind it.
abbrev pub padded : ℕ → Bytes → Bytes
padded zero s = []
padded (suc n) [] = 0 ∷ padded n []
padded (suc n) (c ∷ s) = c ∷ padded n s

-- `read` and `memcpy` into a buffer: the new bytes over the old ones, whose tail stays.
abbrev pub overlay : Bytes → Bytes → Bytes
overlay new old = new ++ drop (length new) old

-- `strtok` with the one delimiter ' ', called until it returns NULL: the non-empty pieces.
-- The first argument is the piece being read.
unfoldable pub split_spaces : Bytes → Bytes → List Bytes
split_spaces [] [] = []
split_spaces (x ∷ w) [] = (x ∷ w) ∷ []
split_spaces [] (c ∷ s) = split_spaces (if c == b' ' then [] else c ∷ []) s
split_spaces (x ∷ w) (c ∷ s) =
    let cut = (x ∷ w) ∷ split_spaces [] s in
    let on = split_spaces (x ∷ (w ++ c ∷ [])) s in if c == b' ' then cut else on

unfoldable pub strtok_spaces : Bytes → List Bytes
unfolding split_spaces cstr
strtok_spaces m = split_spaces [] (cstr m)

-- No byte is zero: a string, and not only the memory behind a pointer.
abbrev pub NoZero : Bytes → Type 0
NoZero [] = Unit
NoZero (x ∷ s) = (x ≢ 0) × NoZero s
