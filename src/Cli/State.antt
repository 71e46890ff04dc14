-- ===== src/Cli/State.antt =====
-- The variables of hw1_cli/client.c, and the records of hw1_cli/client.h.
use me2u.Base.{ℕ, Bool, List, Option}
use me2u.CString.{Bytes}
use me2u.System.{M, ◌>>◌, emit, exit, reported}
use me2u.Protocol.{exit_failure}

-- A node of the list of users, with the `user_struct` that it points to: every node has one. The
-- block of `username` has the size of the name, with no room for a zero.
pub record User : Type 0 where
  pub username : Bytes
  pub to_cnt : ℕ
  pub ot_cnt : ℕ
  pub rd : ℕ
  pub wrt : ℕ
  pub active : Bool
  pub pid : ℕ

-- `full_buf` is a null pointer or a block of `max_size_of_full_buf` bytes, of which the string in
-- it is kept. `read_buf` has `maxline` bytes, zero behind those listed. `users` is the list from
-- `user_list_head` to `user_list_tail`.
pub record Client : Type 0 where
  pub full_buf : Option Bytes
  pub max_size_of_full_buf : ℕ
  pub read_buf : Bytes
  pub users : List User
  pub rset : List ℕ
  pub maxfdpl : ℕ
  pub current_user_name : Bytes

-- `error`: `perror`, and `exit(EXIT_FAILURE)`.
abbrev pub error : {A : Type 0} → Bytes → M Client A
error msg = do emit (reported msg); exit exit_failure
