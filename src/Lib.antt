-- ===== src/Lib.antt =====
-- The ME2U chat client: hw1_cli/client.c with hw1_cli/client.h, and the program of its windows,
-- hw1_cli/chat.c with hw1_cli/chat.h; the server, hw1_server/server.py; and the client's first version,
-- hw1_client/src/client.c with hw1_client/src/main.c.
--
-- The client connects to a server, logs its user in and then serves three sides in one `select` loop:
-- the server's messages, the user's commands and the windows. A window is an xterm in a child process
-- that runs hw1_cli/chat.c; it is opened for each user with whom messages are exchanged. A handler of
-- SIGCHLD marks the windows whose process has ended.
--
--   Base       numbers, lists and Boolean tests that all parts share
--   CString    the string functions of the C library; `Bytes` is the memory behind a pointer
--   System     the operating system and the monad in which the programs are written; `Keeps` says
--              that a program keeps an invariant
--   Protocol   the constants of hw1_cli/client.h
--   Cli        hw1_cli/client.c; below it, with the names of the source:
--     State      the global variables and the list of users
--     Buffer     `process_string`, `increase_full_buf`, `reset_full_buf`: reads become messages
--     Text       `word_length`, the chains of `strncmp` on verbs and commands, the printing functions
--     Users      `find_user`, `create_new_user`, `process_msg`, `msg_confirmed`, `set_fd_for_childs`,
--                `sigchild_handler`, `find_user_pid`
--     Login      `login_proc`
--     Chat       `regular_chat` and `any_children_replied`
--     Main       `main`, `print_usage`, `proper_exit`; Session puts a whole run together
--     Invariant  what holds of the variables between two steps, and that every step keeps it
--     Conversation  what the main loop promises, without its buffers, sets and lists: `play` says what
--                a sequence of messages, lines and timeouts does. View and Names relate the variables
--                to a conversation, Answers, Server and Lines take a message or line, Rounds, Messages
--                and Events a round, Chunks and Arrivals a message in several reads, Refinement the
--                loop, Parting, Failures and Exits its ends
--     Schedule   the rounds of the loop with the handler of SIGCHLD between them, as a relation
--   Window     hw1_cli/chat.c: `main`, `write_to_screen`; Screen has theorems on its loop, Run on a whole run
--   Server     hw1_server/server.py: `handle_user` and the functions that it calls. Text is about its
--              strings, Promise describes what it sends on a message, Sends and Handlers compare the
--              code with that, Distinct, Names and Sound are about the list of users, and Threads and
--              Failures about a thread, Race about two
--   Together   the client, the server and a window, each on what the others write: Chats follows a
--              text from its sender to the receiver's window, Answers takes the answers to `/listu`
--              and to a text for nobody, Leaving is about a leave and the other users, Receipts
--              about a receipt of the first version, and Visits, Wires, Sent, Replies and Session about
--              a client's whole run
--   First      hw1_client/src/client.c: Protocol has the constants of hw1_client/include/client.h,
--              Strings has `startsWith`, `valid_username` and the copies of
--              strings, Login `login_proc`, Chat `regular_chat`, Talk that loop on messages and
--              lines, Print the printing functions, and Main `main` of hw1_client/src/main.c with the
--              macro `error` of hw1_client/include/debug.h
--
-- A program is a function on a `Machine`: its own variables, and the system. What the system answers
-- is given as scripts: the results of `read`, and of `pipe` with `fork`, stand in the machine, and the
-- outcomes of `select` are the list on which the loops recur. A loop whose list is used up waits in
-- `select`, as the program does, so no fuel is needed; a theorem on all lists is one on runs of any
-- length. What a program does is recorded as a list of effects. `exit`, a null pointer that is
-- followed, and a wait are results of their own.
--
-- An access outside an object is the effect `overrun` or `underrun`; the program goes on as if zeros
-- stood there and nothing else were harmed. So a theorem that gives the whole trace also says where the
-- program has undefined behaviour. Blocks of the heap keep the sizes with which they were allocated.
-- An `int` that only counts messages wraps at 2^32; a `size_t` at 2^64. The two `int`s
-- `max_size_of_full_buf` and `maxfdpl` are counted without a bound: their overflow is undefined behaviour,
-- and all theorems are about runs in which they stay below 2^31, that is, in which no message has two
-- gigabytes and, with `w` open windows, fewer than 2^30 / `w` rounds are made; the theorem on `maxfdpl` has
-- this as a hypothesis. The client's `fd_set`s have no bound either; those of a window have 1024 places,
-- and setting another is an `overrun`. A `write` with a count above SSIZE_MAX is refused, as Linux does.
-- `malloc` never fails.
--
-- The specification of the main loop is `play` in Conversation: its state is the windows by name, the
-- windows that can be opened, and whether the user's input is open; its events are the messages and
-- lines with their contents, and its results are the effects that other programs can observe. It gives
-- up, with `none`, where the client does: on a receipt for an unknown user, and where no window can be
-- opened; and on a line of the user behind `/logout`, which is not read any more.
--
-- Parameters, as code that is not part of the repository: the network (`Network`), `atoi` (a negative number is `none`, and ends a
-- window with undefined behaviour), the descriptors on which a window can write, and all that the scripts
-- hold. The client hands its windows the read end of a pipe to write to, on which `write` fails. The
-- child's side of `fork` is the effect `spawned`. Buffering of `printf`, times and signal masks are not
-- modelled, nor is SIGPIPE; SIGCHLD comes between two rounds of the main loop (Schedule), or where
-- `create_new_user` has not yet stored the pid (Users/Signals).
--
-- The first version has no buffer for messages: what one `read` gives is one message. Its loop in
-- `valid_username` is a recursion on a number of rounds, and `none` says that it has not ended by then.
--
-- The threads of the server share the users and the closed connections. A round of a thread, from one
-- `recv` to the next, is taken to run undisturbed; the code has no lock that says so, and Race takes
-- the round on `IAM` apart, between the test of the name and the approval. A string is its
-- bytes, which is right for ASCII; `recv` gives at most 4096 of them; `send` puts all of its bytes out,
-- and raises an exception, which ends the thread, on a connection that the server has closed, and so does
-- `recv`, also with nothing to receive. Where the
-- programs are put together, what one writes in one call comes to the other in one read.
--
-- Not modelled: the third-party headers hw1_client/include/unp.h, config.h and addrinfo.h, the other
-- macros of debug.h, and the tests of hw1_client; hw1_cli/test.c, an experiment; and of hw1_server the
-- function `listen`, which only calls its library, and what is printed.
pub mod Base
pub mod CString
pub mod System
pub mod Protocol
pub mod Cli
pub mod Window
pub mod First
pub mod Server
pub mod Together
