-- ===== src/Cli/Users/Windows.antt =====
-- Which window a message goes to.
use me2u.Base.{
  ℕ, ◌+◌, ◌≡◌, true, List, [], ◌∷◌, ◌++◌, none, some, arith, length, drop, get_elem?,
  get_elem?-append_last, modify-append_last, append_assoc,
}
use me2u.CString.{Bytes, lit, cstr}
use me2u.System.{
  traced, Machine, Effect, ok, crashed, waiting, exited, wrote, reported, spawned, Spawn,
}
use me2u.Cli.State.{User, Client}
use me2u.Cli.Text.{word_length}
use me2u.Cli.Text.Verbs.{first_word}
use me2u.Cli.Users.{
  new_user, raise_maxfdpl, set_fd_for_childs, user_or_new, create_new_user, link_user, forked,
  register_child, write_to_window, process_msg,
}
use me2u.Cli.Users.Lookup.{position, search_trace, find_user_lem}

-- The text of a message, behind its first word.
abbrev pub message_text : Bytes → Bytes
message_text msg = cstr (drop (word_length msg + 1) msg)

pub write_to_window-none :
    (m : Machine Client) (k : ℕ) (text : Bytes)
    → get_elem? m.globals.users k ≡ none
    → write_to_window k text m ≡ (m, crashed)
unfolding write_to_window
write_to_window-none m k text out = ground arith

pub write_to_window_lem :
    (m : Machine Client) (k : ℕ) (text : Bytes) (u : User)
    → get_elem? m.globals.users k ≡ some u
    → write_to_window k text m ≡ (traced m (wrote u.wrt text ∷ []), ok tt)
unfolding write_to_window
write_to_window_lem m k text u at = ground arith

-- A message for a name in the list is written to the pipe of the first user of that name, and
-- nothing else is done: no window is opened, whether or not that user's window is still there.
pub process_msg_known :
    (msg : Bytes) (m : Machine Client) (k : ℕ) (u : User)
    → position 0 (first_word msg) m.globals.users ≡ some k
    → get_elem? m.globals.users k ≡ some u
    → process_msg msg m ≡ (
      traced m
          (search_trace (first_word msg) m.globals.users ++ wrote u.wrt (message_text msg) ∷ []),
      ok tt,
    )
unfolding process_msg user_or_new
process_msg_known msg m k u found at =
    let looked = traced m (search_trace (first_word msg) m.globals.users) in
    simp (
      find_user_lem (first_word msg) m,
      found,
      write_to_window_lem looked k (message_text msg) u at,
      append_assoc,
    )

-- The user that `create_new_user` adds.
abbrev pub registered : Bytes → Spawn → ℕ → User
registered name p child = record {
  username = cstr name;
  to_cnt = 0;
  ot_cnt = 0;
  rd = p.rd;
  wrt = p.wrt;
  active = true;
  pid = child;
}

-- The machine after a new user with a window has been added at the end of the list.
abbrev pub with_new_user : Machine Client → Bytes → Spawn → ℕ → Machine Client
with_new_user m name p child =
    let us = m.globals.users ++ registered name p child ∷ [] in
    record m {
      globals = record m.globals { users = us; maxfdpl = raise_maxfdpl us m.globals.maxfdpl };
    }

-- The effects of opening a window.
abbrev pub window_trace : Bytes → Spawn → List Effect
window_trace name p = reported (lit "right b4 fork") ∷ spawned (cstr name) p.rd p.wrt ∷ []

-- The machine after a user of a name that was not listed has got a window, from the first spawn.
abbrev pub with_window : Machine Client → Bytes → Spawn → List Spawn → ℕ → Machine Client
with_window m name p ps child =
    let after = traced (with_new_user m name p child) (window_trace name p) in
    record after { os = record after.os { spawns = ps } }

pub create_new_user_lem :
    (name : Bytes) (m : Machine Client) (p : Spawn) (ps : List Spawn) (child : ℕ)
    → m.os.spawns ≡ p ∷ ps
    → p.pid ≡ some child
    → create_new_user name m ≡ (with_window m name p ps child, ok (length m.globals.users))
unfolding create_new_user link_user forked register_child set_fd_for_childs
create_new_user_lem name m p ps child sp pd = simp (sp, pd, modify-append_last, append_assoc)

-- The machine after a node of that name, with no window, has been linked in.
abbrev pub linked : Machine Client → Bytes → Machine Client
linked m name = record m {
  globals = record m.globals { users = m.globals.users ++ new_user name ∷ [] };
}

pub create_new_user_waiting :
    (name : Bytes) (m : Machine Client)
    → m.os.spawns ≡ []
    → create_new_user name m ≡ (linked m name, waiting)
unfolding create_new_user link_user
create_new_user_waiting name m e = simp e

-- Where `fork` fails the program ends with `EXIT_FAILURE`.
pub create_new_user_failed :
    (name : Bytes) (m : Machine Client) (p : Spawn) (ps : List Spawn)
    → m.os.spawns ≡ p ∷ ps
    → p.pid ≡ none
    → create_new_user name m ≡ (
      traced
          (record (linked m name) { os = record m.os { spawns = ps } })
          (reported (lit "right b4 fork")
            ∷ reported (lit "Error while forking to start xterm")
            ∷ []),
      exited 1,
    )
unfolding create_new_user link_user forked
create_new_user_failed name m p ps e f = simp (e, f, append_assoc)

-- Where `pipe` and `fork` succeed, a message for a name that is not in the list opens one window,
-- adds its user at the end of the list, and is written to the new pipe; the users before it stay
-- as they were.
pub process_msg_new :
    (msg : Bytes) (m : Machine Client) (p : Spawn) (ps : List Spawn) (child : ℕ)
    → position 0 (first_word msg) m.globals.users ≡ none
    → m.os.spawns ≡ p ∷ ps
    → p.pid ≡ some child
    → process_msg msg m ≡ (
      traced
          (with_window
            (traced m (search_trace (first_word msg) m.globals.users))
            (first_word msg)
            p
            ps
            child)
          (wrote p.wrt (message_text msg) ∷ []),
      ok tt,
    )
unfolding process_msg user_or_new
process_msg_new msg m p ps child absent sp pd =
    let looked = traced m (search_trace (first_word msg) m.globals.users) in
    let opened = with_window looked (first_word msg) p ps child in
    simp (
      find_user_lem (first_word msg) m,
      absent,
      create_new_user_lem (first_word msg) looked p ps child sp pd,
      write_to_window_lem opened (length m.globals.users) (message_text msg)
          (registered (first_word msg) p child) (get_elem?-append_last m.globals.users _),
    )
