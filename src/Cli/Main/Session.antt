-- ===== src/Cli/Main/Session.antt =====
-- A whole run of the program: the command line, the login, the conversation, and the end.
use me2u.Base.{
  ℕ, ◌+◌, ◌<◌, ◌≡◌, ◌≢◌, refl, ap, sym, ◌∙◌, Bool, true, false, List, [], ◌∷◌, ◌++◌, some, arith,
  append-nil, append_assoc, All, length, length-append, take, take_all, ◌==◌,
}
use me2u.CString.{Bytes, lit, NoZero}
use me2u.System.{
  M, Machine, Result, Effect, wrote, closed, reported, Spawn, Read, got, Selected, woke, ok, exited,
  traced, emit, ◌>>◌, continue_with,
}
use me2u.Protocol.{maxline, ending, stdin_fd, max, min}
use me2u.Cli.State.{Client}
use me2u.Cli.Buffer.Framing.{Holds}
use me2u.Cli.Login.Rounds.{after_message}
use me2u.Cli.Login.Outcomes.{hello_reply, approval, motd, login_trace, login_proc_success}
use me2u.Cli.Chat.{chat_loop, regular_chat}
use me2u.Cli.Conversation.{Talk, play}
use me2u.Cli.Invariant.{ApartSpawn, IsValid}
use me2u.Cli.Conversation.Arrivals.{Arrival, AreArrivals, events_of, all_reads, all_selects}
use me2u.Cli.Conversation.View.{observed, observed-append, View}
use me2u.Cli.Conversation.Parting.{
  Farewell, says_bye, hangs_up, farewell_read, parting, continue_with-ok, continue_with-exited,
}
use me2u.Cli.Conversation.Refinement.{chat_loop_farewell}
use me2u.Cli.Main.{Network, main, initial, parse_option, byte_at, connect_to, converse, proper_exit}
use me2u.Cli.Main.Start.{increase_full_buf-initial, set_name_lem}

-- What happens in a session: the user's name and the server's address on the command line, the
-- message of the day, the conversation, and how the server takes its leave.
pub record Session : Type 0 where
  pub sockfd : ℕ
  pub name : Bytes
  pub hostaddr : Bytes
  pub port : Bytes
  pub text : Bytes
  pub arrivals : List Arrival
  pub farewell : Farewell

-- The network connects, the name is one and fits its field, and the messages fit the buffer.
pub record IsSession (net : Network) (s : Session) : Type 0 where
  pub socket : net.socket ≡ some s.sockfd
  pub other : s.sockfd ≢ stdin_fd
  pub address : net.inet_pton s.hostaddr ≡ true
  pub accepted : net.connect s.hostaddr s.port ≡ true
  pub no_option : byte_at 0 s.name ≢ b'-'
  pub named : NoZero s.name
  pub short : length s.name < 20
  pub no_zero : NoZero s.text
  pub fits : length s.text + 9 < maxline
  pub fit : AreArrivals s.arrivals

abbrev pub arguments : Bytes → Session → List Bytes
arguments program s = program ∷ s.name ∷ s.hostaddr ∷ s.port ∷ []

abbrev pub session_reads : Session → List Read → List Read
session_reads s rs =
    got hello_reply
    ∷ got approval
    ∷ got (motd s.text)
    ∷ (all_reads s.arrivals ++ farewell_read s.farewell ∷ rs)

abbrev pub session_selects : Session → List Selected → List Selected
session_selects s rest =
    woke (s.sockfd ∷ [])
    ∷ woke (s.sockfd ∷ [])
    ∷ (all_selects s.sockfd s.arrivals ++ woke (s.sockfd ∷ []) ∷ rest)

-- The talk as it begins.
abbrev pub first_talk : List Spawn → Talk
first_talk spawns = record { windows = []; spawns = spawns; input = true }

-- What the login writes: two messages, and the message of the day with the zeros behind it.
abbrev pub greetings : Session → List Effect
greetings s =
    wrote s.sockfd (lit "ME2U\r\n\r\n")
    ∷ wrote s.sockfd (lit "IAM " ++ s.name ++ ending)
    ∷ wrote 1 (s.text ++ 0 ∷ 0 ∷ 0 ∷ 0 ∷ 0 ∷ 0 ∷ [])
    ∷ []

-- The program's state in front of the login.
abbrev named_machine : Bytes → Machine Client → Machine Client
named_machine name m = record m {
  globals = record initial {
    full_buf = some [];
    max_size_of_full_buf = maxline;
    current_user_name = name;
  };
}

-- The exit code, and what is done with the socket. After a failure it is not closed.
abbrev pub exit_code : Farewell → Bool → ℕ
exit_code says_bye input = 0
exit_code hangs_up false = 0
exit_code hangs_up true = 1

abbrev pub closing : ℕ → Farewell → Bool → List Effect
closing sockfd says_bye input = closed sockfd ∷ []
closing sockfd hangs_up false = closed sockfd ∷ []
closing sockfd hangs_up true = []

connect_to_lem :
    (net : Network) (s : Session) (m : Machine Client)
    → IsSession net s
    → connect_to net s.hostaddr s.port m ≡ (m, ok s.sockfd)
unfolding connect_to
connect_to_lem net s m h =
    ap (λ o. connect_to (record net { socket = o }) s.hostaddr s.port m) h.socket
    ∙ simp (h.address, h.accepted)

finish : ℕ → M Client (Unit {0})
finish sockfd = emit (closed sockfd) >> proper_exit

main-converse :
    (net : Network) (s : Session) (program : Bytes) (selects : List Selected) (m : Machine Client)
    → m.globals ≡ initial
    → IsSession net s
    → main net (arguments program s) selects m
      ≡ continue_with (converse s.sockfd selects (named_machine s.name m)) (λ _. finish s.sockfd)
unfolding main parse_option finish
main-converse net s program selects m fresh h =
    let plain : (byte_at 0 s.name == b'-') ≡ false = ground (arith, h.no_option) in
    let whole : take (min 20 (length s.name)) s.name ≡ s.name =
      take_all (min 20 (length s.name)) s.name (ground (arith, h.short)) in
    simp (
      increase_full_buf-initial m fresh,
      plain,
      set_name_lem s.name (named_machine [] m) h.named,
      whole,
      connect_to_lem net s (named_machine s.name m) h,
      fresh,
    )

-- The machine in which the main loop begins.
abbrev logged_in : Session → List Read → Machine Client → Machine Client
logged_in s rs m =
    let m1 =
      traced (after_message (named_machine s.name m) (motd s.text) rs)
        (login_trace s.sockfd (named_machine s.name m).globals s.text) in
    record m1 { globals = record m1.globals { rset = []; maxfdpl = max stdin_fd s.sockfd + 1 } }

converse_lem :
    (net : Network) (s : Session) (selects : List Selected) (rs : List Read) (m : Machine Client)
    → IsSession net s
    → m.os.reads ≡ got hello_reply ∷ got approval ∷ got (motd s.text) ∷ rs
    → converse s.sockfd
        (woke (s.sockfd ∷ []) ∷ woke (s.sockfd ∷ []) ∷ selects)
        (named_machine s.name m)
      ≡ chat_loop s.sockfd false selects (logged_in s rs m)
unfolding converse regular_chat
converse_lem net s selects rs m h script =
    let fresh : Holds (named_machine s.name m).globals [] = record {
      text_is = refl;
      no_zero = tt;
      has_room = omega arith;
      size_ge = omega arith;
    } in
    simp (
      login_proc_success s.sockfd (named_machine s.name m) s.text rs (s.sockfd ∷ []) (s.sockfd ∷ [])
        selects script h.no_zero h.fits fresh h.named h.short (ground arith) (ground arith))

logged_in-View :
    (s : Session) (rs : List Read) (m : Machine Client)
    → View s.sockfd (logged_in s rs m) (first_talk m.os.spawns)
logged_in-View s rs m = record {
  windows = refl;
  spawns = refl;
  holds = record { text_is = refl; no_zero = tt; has_room = omega arith; size_ge = omega arith };
  below = ground arith;
}

finish_exits :
    (sockfd : ℕ) (es : List Effect) (r : Machine Client × Result (Unit {0}))
    → r.1 ≡ ok tt
    → observed r.0.os.trace ≡ es
    → ((continue_with r (λ _. finish sockfd)).1 ≡ exited 0)
      × (observed (continue_with r (λ _. finish sockfd)).0.os.trace ≡ es ++ closed sockfd ∷ [])
unfolding finish proper_exit
finish_exits sockfd es r e shown =
    let last = closed sockfd ∷ reported (lit "proper exit\n") ∷ [] in
    rw (continue_with-ok r (λ _. finish sockfd) tt e) (
      refl,
      ap observed
            (append_assoc r.0.os.trace (closed sockfd ∷ []) (reported (lit "proper exit\n") ∷ []))
          ∙ observed-append r.0.os.trace last
          ∙ ap (◌++ closed sockfd ∷ []) shown,
    )

logged_in-IsValid :
    (s : Session) (rs : List Read) (m : Machine Client)
    → NoZero s.text
    → length s.text + 9 < maxline
    → All (ApartSpawn s.sockfd) m.os.spawns
    → IsValid s.sockfd (logged_in s rs m)
logged_in-IsValid s rs m nz fits apart = record {
  text = [];
  holds = record { text_is = refl; no_zero = tt; has_room = omega arith; size_ge = omega arith };
  fits = omega (arith, length-append s.text ending);
  registry = record { named = tt; distinct = tt; apart = tt };
  asked = λ fd e. cc;
  fresh = apart;
}

finished :
    (sockfd : ℕ) (f : Farewell) (input : Bool) (es : List Effect)
    (r : Machine Client × Result (Unit {0}))
    → r.1 ≡ parting f input
    → observed r.0.os.trace ≡ es
    → ((continue_with r (λ _. finish sockfd)).1 ≡ exited (exit_code f input))
      × (observed (continue_with r (λ _. finish sockfd)).0.os.trace ≡ es ++ closing sockfd f input)
finished sockfd says_bye input es r e shown = finish_exits sockfd es r e shown
finished sockfd hangs_up false es r e shown = finish_exits sockfd es r e shown
finished sockfd hangs_up true es r e shown =
    rw (continue_with-exited r (λ _. finish sockfd) 1 e) (refl, shown ∙ sym (append-nil es))

observed_login :
    (s : Session) (rs : List Read) (m : Machine Client)
    → observed (logged_in s rs m).os.trace ≡ observed m.os.trace ++ greetings s
observed_login s rs m =
    observed-append m.os.trace (login_trace s.sockfd (named_machine s.name m).globals s.text)

-- A session with a server that connects, greets, approves the name and sends a message of the day, goes
-- on with a conversation on which `play` does not give up, and takes its leave: the program ends, with
-- code 0 on `EYB` and on the end of the connection behind `/logout`, and with 1 on its end before. What
-- is observed is the login's two messages and its text, then exactly the effects of `play`, and the end
-- of the socket if the code is 0: no window is told to close, and no pipe is closed. The name does not begin with '-' and has fewer than 20 bytes. The
-- login's messages come in one read each, lines too, and the messages of the conversation in one or, if
-- they are single lines, cut anywhere behind the fourth byte; no read has a zero or fills the buffer, and
-- names are words. The socket is not 0, and the pipes' descriptors are other than the two. Accesses out
-- of bounds, taken to do no harm, and reports on the terminal are not observed.
pub main_session :
    (net : Network) (s : Session) (program : Bytes) (rest : List Selected) (rs : List Read)
    (m : Machine Client) (t : Talk) (fx : List Effect)
    → m.globals ≡ initial
    → m.os.reads ≡ session_reads s rs
    → All (ApartSpawn s.sockfd) m.os.spawns
    → IsSession net s
    → play s.sockfd (events_of s.arrivals) (first_talk m.os.spawns) ≡ some (t, fx)
    → ((main net (arguments program s) (session_selects s rest) m).1
        ≡ exited (exit_code s.farewell t.input))
      × (observed (main net (arguments program s) (session_selects s rest) m).0.os.trace
          ≡ observed m.os.trace ++ (greetings s ++ fx ++ closing s.sockfd s.farewell t.input))
main_session net s program rest rs m t fx fresh script fresh_pipes h played =
    let later = all_reads s.arrivals ++ farewell_read s.farewell ∷ rs in
    let selects = all_selects s.sockfd s.arrivals ++ woke (s.sockfd ∷ []) ∷ rest in
    let m1 = logged_in s later m in
    let (end, shown) =
      chat_loop_farewell s.sockfd s.arrivals s.farewell rest rs m1 (first_talk m.os.spawns) t fx
        (logged_in-View s later m) (logged_in-IsValid s later m h.no_zero h.fits fresh_pipes) refl
        h.fit h.other played in
    let es = observed m.os.trace ++ greetings s ++ fx in
    let (code, all) =
      finished s.sockfd s.farewell t.input es (chat_loop s.sockfd false selects m1) end
        (shown ∙ ap (◌++ fx) (observed_login s later m)) in
    rw
      (
        main-converse net s program (session_selects s rest) m fresh h,
        converse_lem net s selects later m h script,
      )
      (
        code,
        all
            ∙ ap (◌++ closing s.sockfd s.farewell t.input)
                (append_assoc (observed m.os.trace) (greetings s) fx)
            ∙ append_assoc (observed m.os.trace) (greetings s ++ fx)
                (closing s.sockfd s.farewell t.input),
      )
