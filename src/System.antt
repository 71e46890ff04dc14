-- ===== src/System.antt =====
-- The operating system as the programs see it, and the monad in which they are written.
--
-- What the system answers is given in advance, as scripts: the results of the successive calls of
-- `read`, and of `pipe` with `fork`; the outcomes of `select` are the argument on which the main
-- loops recur. What the programs do to the system is recorded, in order, as a list of effects.
--
-- An access behind the end of an object is recorded as the effect `overrun`, and the program goes
-- on as if zeros stood there and nothing else were harmed. A program has no such undefined
-- behaviour exactly where its trace has no `overrun`.
pub mod Laws
pub mod Keeps
use Prim.Native.String.{String}
use me2u.Base.{
  ℕ, suc, ◌+◌, ◌≡◌, Bool, ◌&&◌, ◌||◌, true, false, List, [], ◌∷◌, ◌++◌, Option, none, some, ltb,
  leb, ◌==◌, if◌then◌else◌, elem,
}
use me2u.CString.{Bytes, lit, strlen}

pub data Effect : Type 0 where
  -- `write(fd, …)` of these bytes
  wrote : ℕ → Bytes → Effect
  -- bytes `from` up to `upto` of an object of `size` bytes were accessed, with `size < upto`
  overrun : ℕ → ℕ → Effect
  -- bytes in front of an object were read: how many
  underrun : ℕ → Effect
  -- `shutdown(fd, SHUT_WR)`
  shut_wr : ℕ → Effect
  closed : ℕ → Effect
  -- `perror(msg)`, and `printf` to the terminal
  reported : Bytes → Effect
  -- a forked child has replaced itself by an xterm: its title and its two descriptors
  spawned : Bytes → ℕ → ℕ → Effect

-- One call of `read`: the bytes that came, none of them at the end of file, or a failure.
pub data Read : Type 0 where
  got : Bytes → Read
  failed : Read

-- The outcome of one call of `select`: no descriptor within the time, the ready ones, or a failure.
pub data Selected : Type 0 where
  timed_out : Selected
  woke : List ℕ → Selected
  select_failed : Selected

-- One `pipe` with the `fork` behind it: the two descriptors, and the child's pid unless it failed.
pub record Spawn : Type 0 where
  pub rd : ℕ
  pub wrt : ℕ
  pub pid : Option ℕ

pub record Os : Type 0 where
  pub reads : List Read
  pub spawns : List Spawn
  pub trace : List Effect

-- The system, and the program's own variables.
pub record Machine (G : Type 0) : Type 0 where
  pub os : Os
  pub globals : G

pub data Result (A : Type 0) : Type 0 where
  ok : A → Result A
  -- `exit(code)`
  exited : ℕ → Result A
  -- a null pointer was followed
  crashed : Result A
  -- the program waits in a system call for which the scripts hold no answer
  waiting : Result A

abbrev pub M : Type 0 → Type 0 → Type 0
M G A = Machine G → Machine G × Result A

abbrev pub continue_with :
    {G A B : Type 0} → Machine G × Result A → (A → M G B) → Machine G × Result B
continue_with (m, ok a) f = f a m
continue_with (m, exited c) f = (m, exited c)
continue_with (m, crashed) f = (m, crashed)
continue_with (m, waiting) f = (m, waiting)

abbrev pub pure : {G A : Type 0} → A → M G A
pure a m = (m, ok a)

infixl 5 ◌>>=◌ ◌>>◌
abbrev pub ◌>>=◌ : {G A B : Type 0} → M G A → (A → M G B) → M G B
◌>>=◌ a f m = continue_with (a m) f

abbrev pub ◌>>◌ : {G B : Type 0} → M G (Unit {0}) → M G B → M G B
a >> b = a >>= λ _. b

abbrev pub emit : {G : Type 0} → Effect → M G (Unit {0})
emit e m = (record m { os = record m.os { trace = m.os.trace ++ e ∷ [] } }, ok tt)

abbrev pub get : {G : Type 0} → M G G
get m = (m, ok m.globals)

abbrev pub put : {G : Type 0} → G → M G (Unit {0})
put g m = (record m { globals = g }, ok tt)

abbrev pub exit : {G A : Type 0} → ℕ → M G A
exit c m = (m, exited c)

abbrev pub crash : {G A : Type 0} → M G A
crash m = (m, crashed)

-- A system call for which no answer is given.
abbrev pub block : {G A : Type 0} → M G A
block m = (m, waiting)

-- `SSIZE_MAX`. For a larger count what `write` does is up to the system; Linux refuses the call, and
-- reads and writes nothing.
abbrev pub ssize_max : ℕ
ssize_max = 9223372036854775807

abbrev pub write : {G : Type 0} → ℕ → Bytes → M G (Unit {0})
write fd b = emit (wrote fd b)

abbrev pub when : {G : Type 0} → Bool → M G (Unit {0}) → M G (Unit {0})
when true a = a
when false a = pure tt

-- Bytes up to `upto` of an object of `size` bytes are accessed.
abbrev pub access : {G : Type 0} → ℕ → ℕ → M G (Unit {0})
access size upto = when (ltb size upto) (emit (overrun size upto))

abbrev pub take_read : {G : Type 0} → Machine G → List Read → Machine G × Result Read
take_read m [] = (m, waiting)
take_read m (r ∷ rs) = (record m { os = record m.os { reads = rs } }, ok r)

-- `read`: the next result of the script.
abbrev pub read : {G : Type 0} → M G Read
read m = take_read m m.os.reads

abbrev pub take_spawn : {G : Type 0} → Machine G → List Spawn → Machine G × Result Spawn
take_spawn m [] = (m, waiting)
take_spawn m (p ∷ ps) = (record m { os = record m.os { spawns = ps } }, ok p)

-- `pipe` and `fork`: the next result of the script.
abbrev pub pipe_fork : {G : Type 0} → M G Spawn
pipe_fork m = take_spawn m m.os.spawns

-- Descriptor sets: `FD_SET`, `FD_CLR` and `FD_ISSET` (which is `elem`).
abbrev pub fd_set : ℕ → List ℕ → List ℕ
fd_set fd s = if elem fd s then s else fd ∷ s

abbrev pub fd_clr : ℕ → List ℕ → List ℕ
fd_clr fd [] = []
fd_clr fd (x ∷ s) = let rest = fd_clr fd s in if fd == x then rest else x ∷ rest

-- What `select(nfds, &set, …)` leaves in `set` where `ready` is the set of the ready descriptors:
-- those that were asked for and stand below `nfds`.
abbrev pub fd_ready : ℕ → List ℕ → List ℕ → List ℕ
fd_ready nfds ready [] = []
fd_ready nfds ready (x ∷ s) =
    let rest = fd_ready nfds ready s in if elem x ready && ltb x nfds then x ∷ rest else rest

-- The machine with more effects in its trace.
abbrev pub traced : {G : Type 0} → Machine G → List Effect → Machine G
traced m es = record m { os = record m.os { trace = m.os.trace ++ es } }
