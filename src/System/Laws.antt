-- ===== src/System/Laws.antt =====
-- Laws of the descriptor sets.
use me2u.Base.{ℕ, ◌<◌, ◌≡◌, ◌≢◌, refl, true, false, List, [], ◌∷◌, arith, elem}
use me2u.System.{fd_set, fd_clr, fd_ready}

pub elem-fd_set_self : (fd : ℕ) (s : List ℕ) → elem fd (fd_set fd s) ≡ true
elem-fd_set_self fd s = ground arith

-- `select` reports no descriptor that was not asked for.
pub elem-fd_ready :
    (fd nfds : ℕ) (ready s : List ℕ) → elem fd (fd_ready nfds ready s) ≡ true → elem fd s ≡ true
elem-fd_ready fd nfds ready [] h = cc
elem-fd_ready fd nfds ready (x ∷ s) h = ground (arith, elem-fd_ready fd nfds ready s)

pub elem-fd_clr : (fd k : ℕ) (s : List ℕ) → elem fd (fd_clr k s) ≡ true → elem fd s ≡ true
elem-fd_clr fd k [] h = cc
elem-fd_clr fd k (x ∷ s) h = ground (arith, elem-fd_clr fd k s)

pub elem-fd_clr_self : (fd : ℕ) (s : List ℕ) → elem fd (fd_clr fd s) ≡ false
elem-fd_clr_self fd [] = refl
elem-fd_clr_self fd (x ∷ s) = ground (arith, elem-fd_clr_self fd s)

-- `select` reports a descriptor that was asked for, is ready and stands below the bound.
pub elem-fd_ready_self :
    (fd nfds : ℕ) (ready s : List ℕ)
    → elem fd s ≡ true
    → elem fd ready ≡ true
    → fd < nfds
    → elem fd (fd_ready nfds ready s) ≡ true
elem-fd_ready_self fd nfds ready [] a r lt = cc
elem-fd_ready_self fd nfds ready (x ∷ s) a r lt = ground (arith, elem-fd_ready_self fd nfds ready s)

-- `select` reports no other descriptor than the one that is ready.
pub elem-fd_ready_other :
    (fd k nfds : ℕ) (s : List ℕ) → fd ≢ k → elem fd (fd_ready nfds (k ∷ []) s) ≡ false
elem-fd_ready_other fd k nfds [] ne = refl
elem-fd_ready_other fd k nfds (x ∷ s) ne = ground (arith, elem-fd_ready_other fd k nfds s)
