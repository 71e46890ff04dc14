-- ===== src/Cli/Text.antt =====
-- Words, verbs and the printing functions of hw1_cli/client.c.
pub mod Verbs
use me2u.Base.{
  ℕ, suc, ◌+◌, Bool, true, false, ◌||◌, List, [], ◌∷◌, ◌++◌, length, ◌==◌, if◌then◌else◌,
}
use me2u.CString.{Bytes, lit, cstr, strlen, strncmp_eq, strtok_spaces}
use me2u.System.{M, ◌>>=◌, ◌>>◌, pure, access, write}
use me2u.Protocol.{
  stdout_fd, c_verbose, c_default, server_list_user, confirm_msg_to, no_usr, msg_from,
  server_bye_brod, server_bye_ack, user_help, user_listu, user_chat, user_logout, ending,
}
use me2u.Cli.State.{Client}

-- The bytes at which a word ends.
abbrev pub ends_word : ℕ → Bool
ends_word ch = ch == 0 || ch == b'\t' || ch == b' ' || ch == b'\n'

unfoldable pub word_length : Bytes → ℕ
word_length [] = 0
word_length (ch ∷ string) = if ends_word ch then 0 else suc (word_length string)

-- The verbs that `regular_chat` tells apart in a message from the server.
pub data ServerVerb : Type 0 where
  utsil ot edne from uoff eyb unknown_verb : ServerVerb

-- The chain of `strncmp(process_str, …, first_wd_l) == 0` in `regular_chat`.
unfoldable pub server_verb : Bytes → ServerVerb
server_verb s =
    let first_wd_l = word_length s in
    if strncmp_eq first_wd_l s server_list_user
    then utsil
    else if strncmp_eq first_wd_l s confirm_msg_to
    then ot
    else if strncmp_eq first_wd_l s no_usr
    then edne
    else if strncmp_eq first_wd_l s msg_from
    then from
    else if strncmp_eq first_wd_l s server_bye_brod
    then uoff
    else if strncmp_eq first_wd_l s server_bye_ack
    then eyb
    else unknown_verb

pub data Command : Type 0 where
  help listu chat logout unknown_command : Command

-- The chain of `strncmp(read_buf, …, first_wd_l) == 0` in `regular_chat`.
unfoldable pub user_command : Bytes → Command
user_command s =
    let first_wd_l = word_length s in
    if strncmp_eq first_wd_l s user_help
    then help
    else if strncmp_eq first_wd_l s user_listu
    then listu
    else if strncmp_eq first_wd_l s user_chat
    then chat
    else if strncmp_eq first_wd_l s user_logout
    then logout
    else unknown_command

-- `set_string_ending`: the block has `strlen(str)` bytes.
unfoldable pub set_string_ending : Bytes → M Client Bytes
set_string_ending str = do
  let old_size = strlen str
  access old_size (old_size + 4)
  pure (cstr str ++ ending)

unfoldable pub print_tokens : List Bytes → M Client (Unit {0})
print_tokens [] = pure tt
print_tokens (user_ptr ∷ rest) = do
  write stdout_fd user_ptr
  write stdout_fd (b'\n' ∷ [])
  print_tokens rest

unfoldable pub list_users : Bytes → M Client (Unit {0})
unfolding print_tokens
list_users user_list = print_tokens (strtok_spaces user_list)

unfoldable pub no_user_exists : Bytes → M Client (Unit {0})
no_user_exists string = do
  write stdout_fd (lit "No, user = ")
  write stdout_fd (cstr string)
  write stdout_fd (lit " exists.\n")

unfoldable pub someone_exited : Bytes → M Client (Unit {0})
someone_exited string = do
  write stdout_fd (lit "Client closed with the name of = ")
  write stdout_fd (cstr string)

abbrev pub help_string : Bytes
help_string =
    lit "\n\u{1b}[1;34m You can say the following commands\n"
    ++ lit "    /help               To see this help menu\n"
    ++ lit "    /logout             To logout of the chat. This also closes all windows\n"
    ++ lit "    /listu              Request a list of logged in users\n"
    ++ lit "    /chat <to> <msg>    requires username of logged in user, "
    ++ lit "and the msg you want to send\u{1b}[0m\n"

unfoldable pub print_client_help : M Client (Unit {0})
print_client_help = write stdout_fd help_string

unfoldable pub color_verbose : M Client (Unit {0})
color_verbose = write stdout_fd c_verbose

unfoldable pub color_reset : M Client (Unit {0})
color_reset = write stdout_fd c_default
