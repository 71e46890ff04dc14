-- ===== src/First/Main.antt =====
-- `main` of hw1_client/src/main.c.
--
-- The file includes hw1_client/include/debug.h, whose macro `error` hides the function of that name.
-- In a build that does not define `ERROR` the macro is empty, so the calls of `error` in `main` do
-- nothing; the calls in hw1_client/src/client.c are those of the function.
pub mod Errors
pub mod Session
use me2u.Base.{
  ℕ, ◌+◌, Bool, List, [], ◌∷◌, ◌++◌, Option, none, some, length, take, get_elem?, ltb, ◌==◌,
  if◌then◌else◌,
}
use me2u.CString.{Bytes, strlen}
use me2u.System.{M, Selected, ◌>>=◌, ◌>>◌, pure, get, put, exit, crash}
use me2u.Protocol.{exit_success, exit_failure}
use me2u.First.Protocol.{min}
use me2u.Cli.Main.{Network, byte_at, argument}
use me2u.First.Strings.{First}
use me2u.First.Print.{first_print_usage, first_print_verbose}
use me2u.First.Login.{first_login_proc}
use me2u.First.Chat.{first_regular_chat}

-- `error(…)` in this file: the empty macro.
abbrev pub no_error : M First (Unit {0})
no_error = pure tt

-- The option, if `argv[1]` is one: the index of NAME in `argv`.
unfoldable pub first_option : Bytes → M First ℕ
first_option arg =
    if byte_at 0 arg == b'-'
    then if byte_at 1 arg == b'h'
      then first_print_usage exit_success
      else if byte_at 1 arg == b'v'
      then first_print_verbose >> pure 2
      else first_print_usage exit_failure
    else pure 1

-- `socket`, `inet_pton` and `connect`. Their failures are not acted on; without a socket, the
-- descriptor is -1, and the first `FD_SET` with it is undefined, as is a null pointer.
unfoldable pub open_socket : Network → Bytes → Bytes → Option ℕ → M First ℕ
open_socket net hostaddr port none = no_error >> crash
open_socket net hostaddr port (some sockfd) = do
  if net.inet_pton hostaddr then pure tt else no_error
  if net.connect hostaddr port then pure tt else no_error
  pure sockfd

unfoldable pub first_connect : Network → Bytes → Bytes → M First ℕ
first_connect net hostaddr port = open_socket net hostaddr port net.socket

-- The two procedures, one after the other.
unfoldable pub first_converse : ℕ → List Selected → M First (Unit {0})
first_converse sockfd selects = do
  rest ← first_login_proc sockfd selects
  first_regular_chat sockfd rest

unfoldable pub first_set_name : Bytes → M First (Unit {0})
first_set_name name = do
  g ← get
  put (record g { current_user_name = take (min 20 (strlen name)) name })

unfoldable pub first_main : Network → List Bytes → List Selected → M First (Unit {0})
first_main net argv selects = do
  if ltb (length argv) 4 then first_print_usage exit_failure else pure tt
  count ← (argument argv 1 >>= first_option)
  name ← argument argv count
  first_set_name name
  hostaddr ← argument argv (count + 1)
  port ← argument argv (count + 2)
  sockfd ← first_connect net hostaddr port
  first_converse sockfd selects
  exit exit_success
