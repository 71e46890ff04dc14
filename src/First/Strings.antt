-- ===== src/First/Strings.antt =====
-- The first version's variables, and its functions on strings.
pub mod Prefix
use me2u.Base.{
  ℕ, zero, suc, ◌+◌, Bool, true, false, ◌||◌, List, [], ◌∷◌, ◌++◌, Option, none, some, length, ltb,
  ◌==◌, if◌then◌else◌,
}
use me2u.CString.{Bytes, lit, cstr, strlen, strncmp_eq}
use me2u.System.{M, ◌>>=◌, ◌>>◌, pure, exit, emit, access, write, reported}
use me2u.Protocol.{stdout_fd}
use me2u.First.Protocol.{c_default, ending}

-- The global name, and the variables that `login_proc` and `regular_chat` have each of their own:
-- the set, and `buf`, of `maxline` bytes, zero behind those listed.
pub record First : Type 0 where
  pub current_user_name : Bytes
  pub rset : List ℕ
  pub buf : Bytes

abbrev pub c_errors : Bytes
c_errors = lit "\u{1b}[1;31m"

-- `error` of this version: it ends with 0.
abbrev pub first_error : {A : Type 0} → Bytes → M First A
first_error msg = do emit (reported msg); exit 0

unfoldable pub printf_error : Bytes → M First (Unit {0})
printf_error text = do emit (reported c_errors); emit (reported text); emit (reported c_default)

unfoldable pub starts_with : Bytes → Bytes → Bool
starts_with str pre =
    if ltb (strlen str) (strlen pre) then false else strncmp_eq (strlen pre) str pre

-- The first byte of a string; zero at its end.
abbrev pub first_byte : Bytes → ℕ
first_byte [] = 0
first_byte (c ∷ s) = c

-- The loop of `valid_username`, which does not move `ptr`: `none` where it has not ended after so
-- many rounds.
unfoldable pub check_from : ℕ → Bytes → Option Bool
check_from zero ptr = none
check_from (suc rounds) ptr =
    let again = check_from rounds ptr in
    if first_byte ptr == 0
    then some true
    else if first_byte ptr == b' ' || first_byte ptr == b'\n'
    then some false
    else again

unfoldable pub valid_username : ℕ → Bytes → Option Bool
valid_username rounds name = if ltb 10 (strlen name) then some false else check_from rounds name

-- `get_string_without_ending`: a copy in a block of `strlen(str)` bytes, with no zero behind it.
abbrev pub get_string_without_ending : Bytes → Bytes
get_string_without_ending str = cstr str

-- `strlen` of a block that is full.
abbrev pub full_block : Bytes → M First (Unit {0})
full_block block = access (length block) (length block + 1)

-- `set_string_ending`: the block has `strlen(str)` bytes.
unfoldable pub set_string_ending : Bytes → M First Bytes
set_string_ending str = do
  let old_size = strlen str
  access old_size (old_size + 4)
  pure (cstr str ++ ending)

abbrev pub help_string : Bytes
help_string =
    lit "\n\u{1b}[1;34m You can say the following commands\n"
    ++ lit "    /help               To see this help menu\n"
    ++ lit "    /logout             To logout of the chat. This also closes all windows\n"
    ++ lit "    /listu              Request a list of logged in users\n"
    ++ lit "    /chat <to> <msg>    requires username of logged in user, "
    ++ lit "and the msg you want to send\u{1b}[0m\n"

unfoldable pub print_client_help : M First (Unit {0})
print_client_help = write stdout_fd help_string
