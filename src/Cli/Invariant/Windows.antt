-- ===== src/Cli/Invariant/Windows.antt =====
-- Opening windows and writing to them keeps the invariant.
use me2u.Base.{
  ℕ, ◌+◌, ◌≡◌, refl, sym, subst, false, List, [], ◌∷◌, ◌++◌, Option, none, some, drop, get_elem?,
  modify, All, Option-cases, inl, inr,
}
use me2u.CString.{Bytes, cstr, strcmp_eq}
use me2u.CString.Laws.{cstr-NoZero, NoZero-cstr}
use me2u.System.{Machine, Spawn, traced}
use me2u.System.Keeps.{continue_with-keeps, Keeps, >>=-Keeps, >>-Keeps}
use me2u.Cli.State.{User, Client}
use me2u.Cli.Text.{word_length}
use me2u.Cli.Text.Verbs.{first_word}
use me2u.Cli.Users.{
  find_user, create_new_user, forked, user_or_new, write_to_window, process_msg, confirm,
  confirm_at, msg_confirmed, new_user, deactivate, deactivate_at, sigchild_handler, find_user_pid,
}
use me2u.Cli.Users.Lookup.{position, position-none, search_trace, find_user_lem}
use me2u.Cli.Users.Windows.{
  registered, linked, write_to_window_lem, write_to_window-none, create_new_user_waiting,
  create_new_user_failed, create_new_user_lem,
}
use me2u.Cli.Invariant.{IsValid}
use me2u.Cli.Invariant.Users.{NoZero-first_word, Registry-append, Registry-modify}
use me2u.Cli.Invariant.Steps.{with_users, pure-Keeps, error-Keeps, crash-Keeps}

abbrev Absent : Bytes → List User → Type 0
Absent name us = All (λ u. strcmp_eq u.username (cstr name) ≡ false) us

module _ {sockfd : ℕ} where
  -- The state after the new node is linked in, before its window is there.
  linked-IsValid :
      (name : Bytes) (m : Machine Client)
      → IsValid sockfd m
      → Absent name m.globals.users
      → IsValid sockfd (record m {
        globals = record m.globals { users = m.globals.users ++ new_user name ∷ [] };
      })
  linked-IsValid name m v a = with_users m (m.globals.users ++ new_user name ∷ []) v (
      Registry-append sockfd m.globals.users (new_user name) v.registry (NoZero-cstr name) (λ e. cc)
        a)

  -- A pipe has been taken from the script.
  rest-IsValid :
      (m : Machine Client) (p : Spawn) (ps : List Spawn)
      → m.os.spawns ≡ p ∷ ps
      → IsValid sockfd m
      → IsValid sockfd (record m { os = record m.os { spawns = ps } })
  rest-IsValid m p ps e v = record {
    text = v.text;
    holds = v.holds;
    fits = v.fits;
    registry = v.registry;
    asked = v.asked;
    fresh = (rw e at v.fresh).1;
  }

  create_new_user_from :
      (name : Bytes) (m : Machine Client) (ps : List Spawn)
      → m.os.spawns ≡ ps
      → IsValid sockfd m
      → Absent name m.globals.users
      → IsValid sockfd (create_new_user name m).0
  create_new_user_from name m [] e v a =
      rw (create_new_user_waiting name m e) (linked-IsValid name m v a)
  create_new_user_from name m (p ∷ ps) e v a = elim (Option-cases p.pid) [
    | inl failed ↦
        rw (create_new_user_failed name m p ps e failed)
          (rest-IsValid (linked m name) p ps e (linked-IsValid name m v a))
    | inr (child, forked) ↦ rw (create_new_user_lem name m p ps child e forked) (
        let new = registered name p child in
        let us = m.globals.users ++ new ∷ [] in
        let fresh = rw e at v.fresh in
        with_users (record m { os = record m.os { spawns = ps } }) us (rest-IsValid m p ps e v)
          (Registry-append sockfd m.globals.users new v.registry (NoZero-cstr name) (λ _. fresh.0)
            a))
  ]

  write_to_window-Keeps : (i : ℕ) (text : Bytes) → Keeps (IsValid sockfd) (write_to_window i text)
  write_to_window-Keeps i text = record {
    apply = λ m v. elim (Option-cases (get_elem? m.globals.users i)) [
      | inl out ↦ rw (write_to_window-none m i text out) v
      | inr (u, at) ↦ rw (write_to_window_lem m i text u at) v
    ];
  }

  user_or_new-IsValid :
      (name : Bytes) (m : Machine Client)
      → cstr name ≡ name
      → IsValid sockfd m
      → IsValid sockfd (user_or_new name (position 0 name m.globals.users) m).0
  unfolding user_or_new
  user_or_new-IsValid name m e v = elim (Option-cases (position 0 name m.globals.users)) [
    | inl absent ↦ rw absent (
        create_new_user_from name m m.os.spawns refl v (
          subst (λ n. All (λ u. strcmp_eq u.username n ≡ false) m.globals.users) (sym e)
            (position-none m.globals.users 0 name absent)))
    | inr (k, found) ↦ rw found v
  ]

  pub process_msg-Keeps : (msg : Bytes) → Keeps (IsValid sockfd) (process_msg msg)
  unfolding process_msg
  process_msg-Keeps msg = record {
    apply = λ m v.
        let name = first_word msg in
        let looked = traced m (search_trace name m.globals.users) in
        let written = λ (i : ℕ). write_to_window-Keeps i (cstr (drop (word_length msg + 1) msg)) in
        simp (find_user_lem name m) (
          continue_with-keeps (user_or_new name (position 0 name m.globals.users) looked) _
            (user_or_new-IsValid name looked (cstr-NoZero name (NoZero-first_word msg)) v) written);
  }

  confirm_at-Keeps : (found : Option ℕ) → Keeps (IsValid sockfd) (confirm_at found)
  unfolding confirm_at
  confirm_at-Keeps none = error-Keeps _
  confirm_at-Keeps (some i) = record {
    apply = λ m v.
        with_users m (modify m.globals.users i confirm) v
          (Registry-modify sockfd m.globals.users i confirm (λ u. refl) (λ u a. a) v.registry);
  }

  find_user-Keeps : (name : Bytes) → Keeps (IsValid sockfd) (find_user name)
  find_user-Keeps name = record { apply = λ m v. simp (find_user_lem name m) v }

  pub msg_confirmed-Keeps : (name : Bytes) → Keeps (IsValid sockfd) (msg_confirmed name)
  unfolding msg_confirmed
  msg_confirmed-Keeps name = >>=-Keeps (find_user-Keeps name) confirm_at-Keeps

  deactivate_at-Keeps : (found : Option ℕ) → Keeps (IsValid sockfd) (deactivate_at found)
  unfolding deactivate_at
  deactivate_at-Keeps none = crash-Keeps
  deactivate_at-Keeps (some i) = record {
    apply = λ m v.
        with_users m (modify m.globals.users i deactivate) v (
          Registry-modify sockfd m.globals.users i deactivate (λ u. refl) (λ u a e. cc) v.registry);
  }

  sigchild_handler-Keeps : (pids : List ℕ) → Keeps (IsValid sockfd) (sigchild_handler pids)
  unfolding sigchild_handler
  sigchild_handler-Keeps [] = pure-Keeps tt
  sigchild_handler-Keeps (child ∷ rest) = record {
    apply = λ m v.
        (>>-Keeps (deactivate_at-Keeps (find_user_pid child m.globals.users))
            (sigchild_handler-Keeps rest)).apply
          m v;
  }

-- The handler of SIGCHLD leaves the variables valid, if they are valid where it interrupts the
-- program.
pub sigchild_handler-IsValid :
    (sockfd : ℕ) (pids : List ℕ) (m : Machine Client)
    → IsValid sockfd m
    → IsValid sockfd (sigchild_handler pids m).0
sigchild_handler-IsValid sockfd pids m v = (sigchild_handler-Keeps pids).apply m v
