-- ===== src/Cli/Main.antt =====
-- `main` of hw1_cli/client.c: the command line, the connection, and the two procedures.
pub mod Start
pub mod Session
use me2u.Base.{
  ℕ, zero, suc, ◌+◌, Bool, true, false, List, [], ◌∷◌, ◌++◌, Option, none, some, length, take,
  get_elem?, ltb, ◌==◌, if◌then◌else◌,
}
use me2u.CString.{Bytes, lit, strlen}
use me2u.System.{M, Selected, ◌>>=◌, ◌>>◌, pure, get, put, exit, crash, emit, reported, closed}
use me2u.Protocol.{exit_success, exit_failure, min}
use me2u.Cli.State.{Client, error}
use me2u.Cli.Buffer.{increase_full_buf}
use me2u.Cli.Text.{color_verbose, color_reset}
use me2u.Cli.Login.{login_proc}
use me2u.Cli.Chat.{regular_chat}

-- The network as `main` sees it: the socket's descriptor unless `socket` fails, whether an address
-- is valid, and whether the server at an address and port accepts the connection.
pub record Network : Type 0 where
  pub socket : Option ℕ
  pub inet_pton : Bytes → Bool
  pub connect : Bytes → Bytes → Bool

abbrev pub usage : Bytes
usage =
    lit "    Printing USAGE\n    ./client [-hv] NAME SERVER_IP SERVER_PORT\n"
    ++ lit "    -h                  Displays this help menu, and returns EXIT_SUCCESS.\n"
    ++ lit
        "    -v                  Verbose print all incoming and outgoing protocol verbs & content.\n"
    ++ lit "    NAME                This is the username to display when chatting.\n"
    ++ lit "    SERVER_IP           The ip address of the server to connect to.\n"
    ++ lit "    SERVER_PORT         The port to connect to.        \n"

unfoldable pub print_usage : {A : Type 0} → ℕ → M Client A
print_usage exit_code = do emit (reported usage); exit exit_code

unfoldable pub print_verbose : M Client (Unit {0})
unfolding color_verbose color_reset
print_verbose = do
  color_verbose
  emit (reported (lit "    This is verbose printing        \n"))
  color_reset

unfoldable pub proper_exit : {A : Type 0} → M Client A
proper_exit = do
  emit (reported (lit "proper exit\n"))
  g ← get
  put (record g { full_buf = none })
  exit exit_success

-- The byte at an index of a string; zero at its end.
abbrev pub byte_at : ℕ → Bytes → ℕ
byte_at n [] = 0
byte_at zero (c ∷ s) = c
byte_at (suc n) (c ∷ s) = byte_at n s

-- The option, if `argv[1]` is one: the index of NAME in `argv`.
unfoldable pub parse_option : Bytes → M Client ℕ
unfolding print_usage print_verbose
parse_option arg =
    if byte_at 0 arg == b'-'
    then if byte_at 1 arg == b'h'
      then print_usage exit_success
      else if byte_at 1 arg == b'v'
      then print_verbose >> pure 2
      else print_usage exit_failure
    else pure 1

-- `argv[i]`, which is null from `argc` on. It is followed by all callers.
abbrev pub argument : {G : Type 0} → List Bytes → ℕ → M G Bytes
argument argv i = elim (get_elem? argv i) [ none ↦ crash | some s ↦ pure s ]

-- `socket`, `inet_pton` and `connect`, up to a connected socket.
unfoldable pub connect_to : Network → Bytes → Bytes → M Client ℕ
connect_to net hostaddr port = elim net.socket [
  | none ↦ error (lit "scoket error")
  | some sockfd ↦
      if net.inet_pton hostaddr
      then if net.connect hostaddr port then pure sockfd else error (lit "connect error")
      else error (lit "inet_pton error")
]

-- The user's name goes into an array of 20 zeros.
unfoldable pub set_name : Bytes → M Client (Unit {0})
set_name name = do g ← get; put (record g { current_user_name = take (min 20 (strlen name)) name })

-- The two procedures, one after the other.
unfoldable pub converse : ℕ → List Selected → M Client (Unit {0})
converse sockfd selects = do rest ← login_proc sockfd selects; regular_chat sockfd rest

-- `main`, on `argv` with the program's name first. The port is kept as text: `atoi` serves
-- `connect`.
unfoldable pub main : Network → List Bytes → List Selected → M Client (Unit {0})
main net argv selects = do
  increase_full_buf
  if ltb (length argv) 4 then print_usage exit_failure else pure tt
  count ← (argument argv 1 >>= parse_option)
  name ← argument argv count
  set_name name
  hostaddr ← argument argv (count + 1)
  port ← argument argv (count + 2)
  sockfd ← connect_to net hostaddr port
  converse sockfd selects
  emit (closed sockfd)
  proper_exit

-- The variables as the program starts.
abbrev pub initial : Client
initial = record {
  full_buf = none;
  max_size_of_full_buf = 0;
  read_buf = [];
  users = [];
  rset = [];
  maxfdpl = 0;
  current_user_name = [];
}
