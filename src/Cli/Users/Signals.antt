-- ===== src/Cli/Users/Signals.antt =====
-- The handler of SIGCHLD, and where it may interrupt the program.
use me2u.Base.{
  ℕ, suc, ◌+◌, ◌≡◌, refl, ap, ◌∙◌, Bool, true, false, List, [], ◌∷◌, ◌++◌, none, some, arith,
  modify, All, All-map, ◌==◌, ◌||◌, if◌then◌else◌, Bool-cases, inl, inr,
}
use native.Mathlib.Nat.{zero-add}
use me2u.CString.{Bytes, lit}
use me2u.System.{M, Machine, Spawn, ok, crashed, ◌>>=◌, ◌>>◌, pipe_fork, emit, reported}
use me2u.Cli.State.{User, Client}
use me2u.Cli.Users.{
  deactivate, deactivate_at, find_pid_from, find_user_pid, sigchild_handler, link_user, forked,
  register_child, new_user,
}

-- The first user with that pid is made inactive, and no other.
abbrev pub deactivate_pid : ℕ → List User → List User
deactivate_pid child [] = []
deactivate_pid child (u ∷ us) =
    let rest = deactivate_pid child us in if u.pid == child then deactivate u ∷ us else u ∷ rest

abbrev pub deactivate_pids : List ℕ → List User → List User
deactivate_pids [] us = us
deactivate_pids (child ∷ rest) us = deactivate_pids rest (deactivate_pid child us)

-- Some user has that pid.
abbrev pub has_pid : ℕ → List User → Bool
has_pid child [] = false
has_pid child (u ∷ us) = u.pid == child || has_pid child us

find_pid_none :
    (us : List User) (i child : ℕ) → has_pid child us ≡ false → find_pid_from i child us ≡ none
unfolding find_pid_from
find_pid_none [] i child h = refl
find_pid_none (u ∷ us) i child h = ground (arith, find_pid_none us (suc i) child)

-- Deactivation does not change the pids.
has_pid-deactivate_pid :
    (us : List User) (k child : ℕ) → has_pid k (deactivate_pid child us) ≡ has_pid k us
has_pid-deactivate_pid [] k child = refl
has_pid-deactivate_pid (u ∷ us) k child = ground (arith, has_pid-deactivate_pid us k child)

-- The index that is found, counted from `i`, is the one that `modify` changes.
find_pid_some :
    (us : List User) (i child : ℕ)
    → has_pid child us ≡ true
    → (k : ℕ) × (find_pid_from i child us ≡ some (i + k))
      × (modify us k deactivate ≡ deactivate_pid child us)
unfolding find_pid_from
find_pid_some [] i child h = cc
find_pid_some (u ∷ us) i child h = elim (Bool-cases (u.pid == child)) [
  | inl same ↦ (0, rw same (ap some (omega arith)), rw same)
  | inr other ↦
      let (k, found, changed) = find_pid_some us (suc i) child (ground arith) in
      (suc k, rw other (found ∙ ap some (omega arith)), rw other (ap (◌∷◌ u) changed))
]

-- The machine after that child has ended.
abbrev after_child : Machine Client → ℕ → Machine Client
after_child m child = record m {
  globals = record m.globals { users = deactivate_pid child m.globals.users };
}

deactivate_known :
    (child : ℕ) (m : Machine Client)
    → has_pid child m.globals.users ≡ true
    → deactivate_at (find_user_pid child m.globals.users) m ≡ (after_child m child, ok tt)
unfolding deactivate_at find_user_pid
deactivate_known child m h =
    let (k, found, changed) = find_pid_some m.globals.users 0 child h in
    simp (found ∙ ap some (zero-add k), changed)

-- The handler, where every child that `waitpid` reports belongs to a user: exactly the windows of
-- these children are no longer active, and nothing else is changed.
pub sigchild_handler_known :
    (pids : List ℕ) (m : Machine Client)
    → All (λ child. has_pid child m.globals.users ≡ true) pids
    → sigchild_handler pids m ≡ (
      record m { globals = record m.globals { users = deactivate_pids pids m.globals.users } },
      ok tt,
    )
unfolding sigchild_handler
sigchild_handler_known [] m h = refl
sigchild_handler_known (child ∷ rest) m h =
    let later : All (λ k. has_pid k (deactivate_pid child m.globals.users) ≡ true) rest =
      All-map rest (λ k p. has_pid-deactivate_pid m.globals.users k child ∙ p) h.1 in
    simp (deactivate_known child m h.0, sigchild_handler_known rest (after_child m child) later)

-- A child that no user has is a null pointer that is followed.
pub sigchild_handler_unknown :
    (child : ℕ) (rest : List ℕ) (m : Machine Client)
    → has_pid child m.globals.users ≡ false
    → sigchild_handler (child ∷ rest) m ≡ (m, crashed)
unfolding sigchild_handler find_user_pid deactivate_at
sigchild_handler_unknown child rest m h = simp (find_pid_none m.globals.users 0 child h)

-- The program from the call of `fork` on, where the signal of the new child's end comes before the
-- parent has stored its pid.
unfoldable pub interrupted_fork : Bytes → ℕ → M Client (Unit {0})
interrupted_fork name i = do
  link_user name
  p ← pipe_fork
  emit (reported (lit "right b4 fork"))
  child ← forked name p p.pid
  sigchild_handler (child ∷ [])
  register_child i p child

-- If the new child ends before its pid is stored, the handler follows a null pointer, unless
-- another user, or the new node with its pid 0, has that pid.
pub interrupted_fork_crashed :
    (name : Bytes) (i : ℕ) (m : Machine Client) (p : Spawn) (ps : List Spawn) (child : ℕ)
    → m.os.spawns ≡ p ∷ ps
    → p.pid ≡ some child
    → has_pid child (m.globals.users ++ new_user name ∷ []) ≡ false
    → (interrupted_fork name i m).1 ≡ crashed
unfolding interrupted_fork link_user forked
interrupted_fork_crashed name i m p ps child sp pd h =
    simp (sp, pd, sigchild_handler_unknown child [])
