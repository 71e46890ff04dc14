-- ===== src/Cli/Tests/Session.antt =====
-- A whole run of the client: login, a command, a message in each direction, and the logout.
use me2u.Base.{◌≡◌, refl, [], ◌∷◌}
use me2u.CString.{lit}
use me2u.System.{Machine, Result, woke, got, exited}
use me2u.Cli.State.{Client}
use me2u.Cli.Main.{main, initial}
use me2u.Cli.Tests.Data.{net, window}

-- Twice the server speaks, then the user and the server in turn.
abbrev session : Machine Client × Result (Unit {0})
session =
    main net (lit "client" ∷ lit "bob" ∷ lit "127.0.0.1" ∷ lit "5555" ∷ [])
      (woke (3 ∷ [])
        ∷ woke (3 ∷ [])
        ∷ woke (0 ∷ [])
        ∷ woke (3 ∷ [])
        ∷ woke (0 ∷ [])
        ∷ woke (3 ∷ [])
        ∷ woke (3 ∷ [])
        ∷ woke (0 ∷ [])
        ∷ woke (3 ∷ [])
        ∷ [])
      (record {
        os = record {
          reads =
              got (lit "U2EM\r\n\r\n")
              ∷ got (lit "MAI\r\n\r\n")
              ∷ got (lit "MOTD hello\r\n\r\n")
              ∷ got (lit "/listu\n")
              ∷ got (lit "UTSIL bob eve\r\n\r\n")
              ∷ got (lit "/chat eve hi\n")
              ∷ got (lit "OT eve\r\n\r\n")
              ∷ got (lit "FROM eve yo\r\n\r\n")
              ∷ got (lit "/logout\n")
              ∷ got (lit "EYB\r\n\r\n")
              ∷ [];
          spawns = window ∷ [];
          trace = [];
        };
        globals = initial;
      })

session_ends : session.1 ≡ exited 0
unfolding me2u.Cli.Buffer.increase_full_buf me2u.Cli.Buffer.process_string
    me2u.Cli.Buffer.reset_full_buf me2u.Cli.Buffer.ends_with_ending main me2u.Cli.Main.parse_option
    me2u.Cli.Main.set_name me2u.Cli.Main.connect_to me2u.Cli.Main.converse me2u.Cli.Main.proper_exit
    me2u.Cli.Login.login_proc me2u.Cli.Login.login_loop me2u.Cli.Login.login_round
    me2u.Cli.Login.login_prepare me2u.Cli.Login.clear_read_buf me2u.Cli.Login.begin_login
    me2u.Cli.Login.send_login_msg me2u.Cli.Login.login_answer me2u.Cli.Login.login_switch
    me2u.Cli.Login.await_hello me2u.Cli.Login.read_message me2u.Cli.Login.store_read
    me2u.Cli.Login.on_hello me2u.Cli.Login.send_username me2u.Cli.Login.await_approval
    me2u.Cli.Login.on_approval me2u.Cli.Login.await_motd me2u.Cli.Login.on_motd
    me2u.Cli.Login.write_motd me2u.Cli.Text.word_length me2u.Cli.Text.server_verb
    me2u.Cli.Text.user_command me2u.Cli.Text.list_users me2u.Cli.Text.print_tokens
    me2u.Cli.Text.set_string_ending me2u.Cli.Users.find_user me2u.Cli.Users.find_from
    me2u.Cli.Users.user_or_new me2u.Cli.Users.create_new_user me2u.Cli.Users.link_user
    me2u.Cli.Users.forked me2u.Cli.Users.register_child me2u.Cli.Users.set_fd_for_childs
    me2u.Cli.Users.raise_maxfdpl me2u.Cli.Users.write_to_window me2u.Cli.Users.process_msg
    me2u.Cli.Users.msg_confirmed me2u.Cli.Users.confirm_at me2u.Cli.Chat.regular_chat
    me2u.Cli.Chat.chat_loop me2u.Cli.Chat.chat_round me2u.Cli.Chat.chat_prepare
    me2u.Cli.Chat.ask_for me2u.Cli.Chat.chat_select me2u.Cli.Chat.chat_answer
    me2u.Cli.Chat.server_ready me2u.Cli.Chat.on_server_data me2u.Cli.Chat.on_message
    me2u.Cli.Chat.on_verb me2u.Cli.Chat.confirm_from me2u.Cli.Chat.after_server
    me2u.Cli.Chat.input_ready me2u.Cli.Chat.on_input me2u.Cli.Chat.on_line me2u.Cli.Chat.is_command
    me2u.Cli.Chat.run_command me2u.Cli.Chat.on_command me2u.Cli.Chat.send_ended
    me2u.Cli.Chat.send_chat me2u.Cli.Chat.close_input me2u.Cli.Chat.any_children_replied
    me2u.Cli.Chat.replies me2u.CString.strcmp_eq me2u.CString.strncmp_eq me2u.CString.strlen
    me2u.CString.cstr me2u.CString.strtok_spaces me2u.Cli.Login.read_count me2u.CString.strcmp_reads
session_ends = refl
