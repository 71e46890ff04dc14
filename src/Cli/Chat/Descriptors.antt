-- ===== src/Cli/Chat/Descriptors.antt =====
-- The bound that the main loop hands to `select`.
use me2u.Base.{
  ℕ, zero, suc, ◌+◌, ◌*◌, ◌≤◌, ◌<◌, ◌≡◌, true, All, refl, Bool, List, [], ◌∷◌, arith, replicate,
  if◌then◌else◌, Bool-cases, inl, inr,
}
use me2u.System.{Machine, timed_out, ok}
use me2u.Protocol.{max}
use me2u.Cli.State.{User, Client}
use me2u.Cli.Users.{raise_maxfdpl, set_fd_for_childs}
use me2u.Cli.Chat.{
  next, replies, any_children_replied, chat_prepare, chat_select, chat_answer, after_server,
  chat_round, chat_loop,
}

-- The users whose windows are open.
abbrev pub active_count : List User → ℕ
active_count [] = 0
active_count (u ∷ us) = (if u.active then 1 else 0) + active_count us

-- Each call of `set_fd_for_childs` raises the bound by two for each open window, or more.
pub raise_maxfdpl-ge : (us : List User) (n : ℕ) → n + 2 * active_count us ≤ raise_maxfdpl us n
unfolding raise_maxfdpl
raise_maxfdpl-ge [] n = omega arith
raise_maxfdpl-ge (u ∷ us) n =
    ground (arith, raise_maxfdpl-ge us (if u.active then max (max n u.rd + 1) u.wrt + 1 else n))

-- The descriptors of the open windows are among the 1024 that a set has.
abbrev pub HasSmall : User → Type 0
HasSmall u = u.active ≡ true → (u.rd < 1024) × (u.wrt < 1024)

-- For descriptors like these, and a bound that is larger, it is raised by just two.
raise_maxfdpl-le :
    (us : List User) (n bound : ℕ)
    → All HasSmall us
    → n ≤ bound
    → 1024 ≤ bound
    → raise_maxfdpl us n ≤ bound + 2 * active_count us
unfolding raise_maxfdpl
raise_maxfdpl-le [] n bound small le big = omega arith
raise_maxfdpl-le (u ∷ us) n bound (small, smalls) le big = elim (Bool-cases u.active) [
  | inl used ↦
      let rd = (small used).0 in
      let wrt = (small used).1 in
      let raised : max (max n u.rd + 1) u.wrt + 1 ≤ bound + 2 = ground arith in
      let later =
        raise_maxfdpl-le us (max (max n u.rd + 1) u.wrt + 1) (bound + 2) smalls raised
          (omega arith) in
      rw used (omega arith)
  | inr gone ↦ let later = raise_maxfdpl-le us n bound smalls le big in rw gone (omega arith)
]

replies-nil :
    (sockfd : ℕ) (us : List User) (m : Machine Client) → replies sockfd [] us m ≡ (m, ok us)
unfolding replies
replies-nil sockfd [] m = refl
replies-nil sockfd (u ∷ us) m = elim (Bool-cases u.active) [
  | inl on ↦ simp (on, replies-nil sockfd us m)
  | inr off ↦ simp (off, replies-nil sockfd us m)
]

-- The machine with no descriptor ready.
abbrev none_ready : Machine Client → Machine Client
none_ready m = record m { globals = record m.globals { rset = [] } }

any_children_replied-nil :
    (sockfd : ℕ) (m : Machine Client)
    → any_children_replied sockfd (none_ready m) ≡ (none_ready m, ok tt)
unfolding any_children_replied
any_children_replied-nil sockfd m = simp (replies-nil sockfd m.globals.users (none_ready m))

-- The machine after a round in which `select` ran out of time.
abbrev pub idle : Machine Client → Machine Client
idle m = record m {
  globals = record m.globals {
    read_buf = [];
    rset = [];
    maxfdpl = raise_maxfdpl m.globals.users m.globals.maxfdpl;
  };
}

-- Such a round only raises the bound.
pub chat_round-timed_out :
    (sockfd : ℕ) (stdineof : Bool) (m : Machine Client)
    → chat_round sockfd stdineof timed_out m ≡ (idle m, ok (next, stdineof))
unfolding chat_round chat_prepare chat_select chat_answer after_server set_fd_for_childs
chat_round-timed_out sockfd stdineof m = simp (any_children_replied-nil sockfd (idle m))

chat_loop-ge :
    (k sockfd : ℕ) (stdineof : Bool) (m : Machine Client)
    → m.globals.maxfdpl + 2 * active_count m.globals.users * (k + 1)
      ≤ (chat_loop sockfd stdineof (replicate k timed_out) m).0.globals.maxfdpl
unfolding chat_loop
chat_loop-ge zero sockfd stdineof m =
    unfold chat_prepare set_fd_for_childs in
    omega (arith, raise_maxfdpl-ge m.globals.users m.globals.maxfdpl)
chat_loop-ge (suc k) sockfd stdineof m = simp (chat_round-timed_out sockfd stdineof m) (
    omega (
      arith,
      raise_maxfdpl-ge m.globals.users m.globals.maxfdpl,
      chat_loop-ge k sockfd stdineof (idle m),
    ))

chat_loop-le :
    (k sockfd bound : ℕ) (stdineof : Bool) (m : Machine Client)
    → All HasSmall m.globals.users
    → m.globals.maxfdpl ≤ bound
    → 1024 ≤ bound
    → (chat_loop sockfd stdineof (replicate k timed_out) m).0.globals.maxfdpl
      ≤ bound + 2 * active_count m.globals.users * (k + 1)
unfolding chat_loop
chat_loop-le zero sockfd bound stdineof m small le big =
    unfold chat_prepare set_fd_for_childs in
    omega (arith, raise_maxfdpl-le m.globals.users m.globals.maxfdpl bound small le big)
chat_loop-le (suc k) sockfd bound stdineof m small le big =
    let raised = raise_maxfdpl-le m.globals.users m.globals.maxfdpl bound small le big in
    simp (chat_round-timed_out sockfd stdineof m) (
      omega (
        arith,
        chat_loop-le k sockfd (bound + 2 * active_count m.globals.users) stdineof (idle m) small
            raised (omega arith),
      ))

-- After `k` rounds without any input the bound has grown by at least two for each open window and round,
-- and, from 1024 on, by no more than that. The descriptors of the windows are below 1024 and the bound is
-- at most 1024 to begin with, and the number of rounds is such that it stays an `int`.
pub chat_loop-maxfdpl :
    (k sockfd : ℕ) (stdineof : Bool) (m : Machine Client)
    → All HasSmall m.globals.users
    → m.globals.maxfdpl ≤ 1024
    → 1024 + 2 * active_count m.globals.users * (k + 1) < 2147483648
    → let end = (chat_loop sockfd stdineof (replicate k timed_out) m).0.globals.maxfdpl in
      (m.globals.maxfdpl + 2 * active_count m.globals.users * (k + 1) ≤ end)
      × (end ≤ 1024 + 2 * active_count m.globals.users * (k + 1))
      × (end < 2147483648)
chat_loop-maxfdpl k sockfd stdineof m small le int =
    let above = chat_loop-le k sockfd 1024 stdineof m small le (omega arith) in
    (chat_loop-ge k sockfd stdineof m, above, omega arith)
