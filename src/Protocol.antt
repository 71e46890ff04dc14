-- ===== src/Protocol.antt =====
-- The constants of the ME2U protocol and of the user's commands: hw1_cli/client.h.
use me2u.Base.{ℕ, ltb, if◌then◌else◌}
use me2u.CString.{Bytes, lit}

abbrev pub maxline : ℕ
maxline = 5120

abbrev pub exit_success : ℕ
exit_success = 0

abbrev pub exit_failure : ℕ
exit_failure = 1

abbrev pub stdin_fd : ℕ
stdin_fd = 0

abbrev pub stdout_fd : ℕ
stdout_fd = 1

abbrev pub c_verbose : Bytes
c_verbose = lit "\u{1b}[1;34m"

abbrev pub c_default : Bytes
c_default = lit "\u{1b}[0m"

abbrev pub client_login_init : Bytes
client_login_init = lit "ME2U"

abbrev pub server_login_init : Bytes
server_login_init = lit "U2EM"

abbrev pub client_set_user : Bytes
client_set_user = lit "IAM"

abbrev pub server_user_taken : Bytes
server_user_taken = lit "ETAKEN"

abbrev pub username_taken : Bytes
username_taken = lit "Username Taken"

abbrev pub server_user_approve : Bytes
server_user_approve = lit "MAI"

abbrev pub server_motd : Bytes
server_motd = lit "MOTD"

abbrev pub client_list_user : Bytes
client_list_user = lit "LISTU"

abbrev pub server_list_user : Bytes
server_list_user = lit "UTSIL"

abbrev pub msg_to : Bytes
msg_to = lit "TO"

abbrev pub confirm_msg_to : Bytes
confirm_msg_to = lit "OT"

abbrev pub msg_from : Bytes
msg_from = lit "FROM"

abbrev pub confirm_msg_from : Bytes
confirm_msg_from = lit "MORF"

abbrev pub no_usr : Bytes
no_usr = lit "EDNE"

abbrev pub client_bye : Bytes
client_bye = lit "BYE"

abbrev pub server_bye_ack : Bytes
server_bye_ack = lit "EYB"

abbrev pub server_bye_brod : Bytes
server_bye_brod = lit "UOFF"

abbrev pub ending : Bytes
ending = lit "\r\n\r\n"

abbrev pub user_help : Bytes
user_help = lit "/help"

abbrev pub user_logout : Bytes
user_logout = lit "/logout"

abbrev pub user_listu : Bytes
user_listu = lit "/listu"

abbrev pub user_chat : Bytes
user_chat = lit "/chat"

abbrev pub max : ℕ → ℕ → ℕ
max a b = if ltb b a then a else b

abbrev pub min : ℕ → ℕ → ℕ
min a b = if ltb a b then a else b
