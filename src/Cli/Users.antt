-- ===== src/Cli/Users.antt =====
-- The list of users in hw1_cli/client.c: finding and creating users, the messages of their
-- windows, and the handler of SIGCHLD.
pub mod Lookup
pub mod Windows
pub mod Signals
use me2u.Base.{
  ℕ, suc, ◌+◌, ◌^◌, ◌%◌, Bool, true, false, List, [], ◌∷◌, ◌++◌, Option, none, some, length, take,
  drop, get_elem?, modify, ◌==◌, if◌then◌else◌,
}
use me2u.CString.{Bytes, lit, cstr, strlen, strcmp_eq, strcmp_reads}
use me2u.System.{
  M, Spawn, ◌>>=◌, ◌>>◌, pure, get, put, crash, emit, access, write, pipe_fork, reported, spawned,
}
use me2u.Protocol.{max}
use me2u.Cli.State.{User, Client, error}
use me2u.Cli.Text.{word_length}

-- The loop of `find_user`, from the node at index `i`: the index of the first user of that name.
-- `strcmp` reads the block of a `username`, which has no byte for a zero.
unfoldable pub find_from : ℕ → Bytes → List User → M Client (Option ℕ)
find_from i name [] = pure none
find_from i name (u ∷ us) =
    let rest = find_from (suc i) name us in
    access (length u.username) (strcmp_reads u.username name)
    >> (if strcmp_eq u.username name then pure (some i) else rest)

unfoldable pub find_user : Bytes → M Client (Option ℕ)
unfolding find_from
find_user name = do g ← get; find_from 0 name g.users

-- What the loop of `set_fd_for_childs` makes of `maxfdpl`, an `int`; it is counted without a bound here, so
-- this is the code as long as the result is below 2^31.
unfoldable pub raise_maxfdpl : List User → ℕ → ℕ
raise_maxfdpl [] n = n
raise_maxfdpl (u ∷ us) n = raise_maxfdpl us (if u.active then max (max n u.rd + 1) u.wrt + 1 else n)

-- `set_fd_for_childs(rset)`: the set is passed by value, so the `FD_SET`s are lost with the call.
unfoldable pub set_fd_for_childs : M Client (Unit {0})
unfolding raise_maxfdpl
set_fd_for_childs = do g ← get; put (record g { maxfdpl = raise_maxfdpl g.users g.maxfdpl })

abbrev pub new_user : Bytes → User
new_user name = record {
  username = cstr name;
  to_cnt = 0;
  ot_cnt = 0;
  rd = 0;
  wrt = 0;
  active = false;
  pid = 0;
}

-- The first part of `create_new_user`, up to the pipe: the new node is linked in at the tail.
unfoldable pub link_user : Bytes → M Client (Unit {0})
link_user name = do g ← get; put (record g { users = g.users ++ new_user name ∷ [] })

-- Its last part, in the parent, for the node at index `i`.
unfoldable pub register_child : ℕ → Spawn → ℕ → M Client (Unit {0})
unfolding set_fd_for_childs
register_child i p child = do
  g ← get
  let child_user = λ (u : User). record u { rd = p.rd; wrt = p.wrt; active = true; pid = child }
  put (record g { users = modify g.users i child_user })
  set_fd_for_childs

-- The result of `fork` in the parent; the child becomes an xterm, which is the effect `spawned`.
unfoldable pub forked : Bytes → Spawn → Option ℕ → M Client ℕ
forked name p none = error (lit "Error while forking to start xterm")
forked name p (some child) = do emit (spawned (cstr name) p.rd p.wrt); pure child

unfoldable pub create_new_user : Bytes → M Client ℕ
unfolding link_user forked register_child
create_new_user name = do
  g ← get
  link_user name
  p ← pipe_fork
  emit (reported (lit "right b4 fork"))
  child ← forked name p p.pid
  register_child (length g.users) p child
  pure (length g.users)

-- `temp_user`, after the lookup.
unfoldable pub user_or_new : Bytes → Option ℕ → M Client ℕ
unfolding create_new_user
user_or_new name none = create_new_user name
user_or_new name (some i) = pure i

-- `write(temp_user->wrt, …)`, through the pointer at index `i`.
unfoldable pub write_to_window : ℕ → Bytes → M Client (Unit {0})
write_to_window i text = do
  g ← get
  elim (get_elem? g.users i) [ none ↦ crash | some u ↦ write u.wrt text ]

unfoldable pub process_msg : Bytes → M Client (Unit {0})
unfolding find_user user_or_new write_to_window
process_msg msg = do
  let name_len = word_length msg
  let name = take name_len msg
  found ← find_user name
  i ← user_or_new name found
  write_to_window i (cstr (drop (name_len + 1) msg))

-- `temp_user->ot_cnt++`, an `int` as its bit pattern.
abbrev pub confirm : User → User
confirm u = record u { ot_cnt = (u.ot_cnt + 1) % 2 ^ 32 }

unfoldable pub confirm_at : Option ℕ → M Client (Unit {0})
confirm_at none = error (lit "Got msg confirm msg for a user that never existed")
confirm_at (some i) = do g ← get; put (record g { users = modify g.users i confirm })

unfoldable pub msg_confirmed : Bytes → M Client (Unit {0})
unfolding find_user confirm_at
msg_confirmed name = do found ← find_user name; confirm_at found

find_pid_from : ℕ → ℕ → List User → Option ℕ
find_pid_from i child [] = none
find_pid_from i child (u ∷ us) = if u.pid == child then some i else find_pid_from (suc i) child us

unfoldable pub find_user_pid : ℕ → List User → Option ℕ
unfolding find_pid_from
find_user_pid child us = find_pid_from 0 child us

abbrev pub deactivate : User → User
deactivate u = record u { active = false }

-- `temp->curr_user->active = false`, where `temp` is what `find_user_pid` returned.
unfoldable pub deactivate_at : Option ℕ → M Client (Unit {0})
deactivate_at none = crash
deactivate_at (some i) = do g ← get; put (record g { users = modify g.users i deactivate })

-- `sigchild_handler`: the argument lists the pids that `waitpid` returns, up to the first that is
-- not positive.
unfoldable pub sigchild_handler : List ℕ → M Client (Unit {0})
sigchild_handler [] = pure tt
sigchild_handler (child ∷ rest) = do
  g ← get
  deactivate_at (find_user_pid child g.users)
  sigchild_handler rest
