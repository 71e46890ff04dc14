-- ===== src/Cli/Invariant.antt =====
-- What holds of the client's variables between two steps.
pub mod Users
pub mod Steps
pub mod Windows
pub mod Chat
pub mod Loop
pub mod Login
use me2u.Base.{ℕ, ◌≤◌, ◌≡◌, ◌≢◌, ◌⊎◌, Bool, true, List, [], ◌∷◌, Option, length, elem, All}
use me2u.CString.{Bytes, NoZero}
use me2u.System.{Machine, Spawn}
use me2u.Protocol.{maxline, stdin_fd}
use me2u.Cli.State.{User, Client}
use me2u.Cli.Buffer.Framing.{HoldsIn}

-- A descriptor other than the two that the loop asks `select` for.
abbrev pub Apart : ℕ → ℕ → Type 0
Apart sockfd fd = (fd ≢ stdin_fd) × (fd ≢ sockfd)

abbrev pub ApartSpawn : ℕ → Spawn → Type 0
ApartSpawn sockfd p = Apart sockfd p.rd × Apart sockfd p.wrt

abbrev pub ApartUser : ℕ → User → Type 0
ApartUser sockfd u = u.active ≡ true → Apart sockfd u.rd × Apart sockfd u.wrt

-- No two users have the same name.
abbrev pub Distinct : List User → Type 0
Distinct [] = Unit
Distinct (u ∷ us) = All (λ v. u.username ≢ v.username) us × Distinct us

-- The list of users: names are strings, and distinct, and the windows of the active users have
-- descriptors of their own.
pub record Registry (sockfd : ℕ) (users : List User) : Type 0 where
  pub named : All (λ u. NoZero u.username) users
  pub distinct : Distinct users
  pub apart : All (ApartUser sockfd) users

-- The variables, and the descriptors that `pipe` will give.
pub record Valid (sockfd : ℕ) (full_buf : Option Bytes) (size : ℕ) (read_buf : Bytes)
    (users : List User) (rset : List ℕ) (spawns : List Spawn) : Type 0 where
  pub text : Bytes
  pub holds : HoldsIn full_buf size text
  pub fits : length read_buf ≤ maxline
  pub registry : Registry sockfd users
  pub asked : (fd : ℕ) → elem fd rset ≡ true → (fd ≡ stdin_fd) ⊎ (fd ≡ sockfd)
  pub fresh : All (ApartSpawn sockfd) spawns

abbrev pub IsValid : ℕ → Machine Client → Type 0
IsValid sockfd m =
    Valid sockfd m.globals.full_buf m.globals.max_size_of_full_buf m.globals.read_buf
      m.globals.users m.globals.rset m.os.spawns
