-- ===== src/Cli/Login/Outcomes.antt =====
-- Whole runs of the login procedure: the one that succeeds, and those that fail.
use me2u.Base.{
  ℕ, ◌+◌, ◌≤◌, ◌<◌, ◌≡◌, refl, ap, ◌∙◌, ◌≢◌, true, List, [], ◌∷◌, ◌++◌, some, arith, length, elem,
  length-append, append_assoc, le→ltb,
}
use me2u.CString.{Bytes, lit, strlen, overlay, strcmp_eq, strncmp_eq, NoZero}
use me2u.CString.Laws.{overlay_all, cstr-NoZero, strlen-NoZero, NoZero-append}
use me2u.System.{
  Machine, Effect, Read, got, ok, wrote, overrun, traced, Selected, woke, ◌>>=◌, pure, fd_set,
  fd_ready,
}
use me2u.System.Laws.{elem-fd_set_self, elem-fd_ready_self}
use me2u.Protocol.{
  maxline, ending, stdin_fd, max, client_set_user, server_login_init, server_user_approve,
}
use me2u.Cli.State.{Client}
use me2u.Cli.Buffer.Framing.{Holds}
use me2u.Cli.Login.{
  LoginState, start, hello_sent, name_sent, done, await_motd, await_approval, await_hello, on_motd,
  on_approval, on_hello, read_message, login_switch, login_answer, login_prepare, login_round,
  login_loop, login_proc, clear_read_buf, begin_login, send_login_msg,
}
use me2u.Cli.Login.Reads.{read_message-some}
use me2u.Cli.Login.Rounds.{after_message, send_username_lem, write_motd_lem}

-- Reading one whole message into empty buffers.
pub whole_read :
    (e : Bytes) (m : Machine Client) (msg : Bytes) (rs : List Read)
    → m.os.reads ≡ got (msg ++ ending) ∷ rs
    → NoZero msg
    → length msg + 4 < maxline
    → Holds m.globals []
    → length m.globals.read_buf ≤ length msg + 4
    → read_message e m ≡ (after_message m (msg ++ ending) rs, ok (length (msg ++ ending), some msg))
whole_read e m msg rs script nz lt h old =
    let b = msg ++ ending in
    let n : length b ≡ length msg + 4 = length-append msg ending in
    let clean : overlay b m.globals.read_buf ≡ b = overlay_all b m.globals.read_buf (omega arith) in
    let string : NoZero b = NoZero-append msg ending nz (omega arith) in
    let size : strlen (overlay b m.globals.read_buf) < maxline =
      rw clean (omega (arith, strlen-NoZero b string)) in
    let some_bytes : b ≢ [] = λ e. absurd (omega (arith, ap length e)) in
    read_message-some e m [] b msg rs script some_bytes (omega arith) h size
      (rw clean (cstr-NoZero b string))
    ∙ ap
        (λ (r : Bytes). (
          after_message (record m { globals = record m.globals { read_buf = r } }) r rs,
          ok (length b, some msg),
        ))
        clean

pub empty_after :
    (m : Machine Client) (b : Bytes) (rs : List Read) → Holds (after_message m b rs).globals []
empty_after m b rs = record {
  text_is = refl;
  no_zero = tt;
  has_room = omega arith;
  size_ge = omega arith;
}

abbrev pub hello_reply : Bytes
hello_reply = server_login_init ++ ending

abbrev pub approval : Bytes
approval = server_user_approve ++ ending

abbrev pub name_message : Client → Bytes
name_message c = client_set_user ++ b' ' ∷ c.current_user_name ++ ending

abbrev pub motd : Bytes → Bytes
motd text = lit "MOTD " ++ text ++ ending

await_hello_lem :
    (sockfd : ℕ) (m : Machine Client) (rs : List Read)
    → m.os.reads ≡ got hello_reply ∷ rs
    → Holds m.globals []
    → m.globals.read_buf ≡ []
    → NoZero m.globals.current_user_name
    → length m.globals.current_user_name < 20
    → await_hello sockfd m ≡ (
      traced (after_message m hello_reply rs) (wrote sockfd (name_message m.globals) ∷ []),
      ok name_sent,
    )
unfolding await_hello on_hello strcmp_eq
await_hello_lem sockfd m rs script h clear nz le =
    let after = after_message m hello_reply rs in
    let short = le→ltb 20 (length m.globals.current_user_name + 1) (omega arith) in
    simp (
      whole_read (lit "Server exited prematurely while in hello process") m server_login_init rs
          script (omega arith) (omega arith) h (rw clear (omega arith)),
      send_username_lem sockfd after nz (omega arith),
      short,
    )

-- The effects of a message of the day that comes in one read: the text, with the zeros of its
-- block and the two bytes behind the block, which are accessed out of bounds.
abbrev pub motd_trace : Bytes → List Effect
motd_trace text =
    overrun (length (lit "MOTD " ++ text) + 4) (length (lit "MOTD " ++ text) + 4 + 2)
    ∷ wrote 1 (text ++ 0 ∷ 0 ∷ 0 ∷ 0 ∷ 0 ∷ 0 ∷ [])
    ∷ []

await_motd_lem :
    (m : Machine Client) (text : Bytes) (rs : List Read)
    → m.os.reads ≡ got (motd text) ∷ rs
    → NoZero text
    → length text + 9 < maxline
    → Holds m.globals []
    → length m.globals.read_buf ≤ 9
    → await_motd m ≡ (traced (after_message m (motd text) rs) (motd_trace text), ok done)
unfolding await_motd on_motd strncmp_eq
await_motd_lem m text rs script nz lt h old = simp (
  whole_read (lit "Server exited prevaturely before MOTD") m (lit "MOTD " ++ text) rs script
      (NoZero-append (lit "MOTD ") text (omega arith) nz) (omega arith) h (omega arith),
  write_motd_lem text (after_message m (motd text) rs) (omega arith),
)

await_approval_lem :
    (m : Machine Client) (text : Bytes) (rs : List Read)
    → m.os.reads ≡ got approval ∷ got (motd text) ∷ rs
    → NoZero text
    → length text + 9 < maxline
    → Holds m.globals []
    → m.globals.read_buf ≡ []
    → await_approval m ≡ (traced (after_message m (motd text) rs) (motd_trace text), ok done)
unfolding await_approval on_approval strcmp_eq
await_approval_lem m text rs script nz lt h clear =
    let after = after_message m approval (got (motd text) ∷ rs) in
    simp
      (whole_read (lit "Server exited prematurely while username approval is in proces") m
        server_user_approve (got (motd text) ∷ rs) script (omega arith) (omega arith) h
        (rw clear (omega arith)))
      (await_motd_lem after text rs refl nz lt (empty_after m approval (got (motd text) ∷ rs))
        (omega arith))

-- The set that `select` leaves of the one that a round asks for.
abbrev left_of : ℕ → List ℕ → List ℕ → List ℕ
left_of sockfd ready set =
    fd_ready (max stdin_fd sockfd + 1) ready (fd_set sockfd (fd_set stdin_fd set))

-- A round in which the socket is ready.
login_answer_ready :
    (sockfd : ℕ) (ready set : List ℕ) (st : LoginState) (m : Machine Client)
    → elem sockfd ready ≡ true
    → login_answer sockfd (woke ready) (st, fd_set sockfd (fd_set stdin_fd set)) m
      ≡ (login_switch sockfd st >>= λ next. pure (next, left_of sockfd ready set)) m
unfolding login_answer
login_answer_ready sockfd ready set st m r =
    let up : elem sockfd (left_of sockfd ready set) ≡ true =
      elem-fd_ready_self sockfd (max stdin_fd sockfd + 1) ready
        (fd_set sockfd (fd_set stdin_fd set)) (elem-fd_set_self sockfd (fd_set stdin_fd set)) r
        (ground arith) in
    simp up

login_loop-done :
    (sockfd : ℕ) (selects : List Selected) (set : List ℕ) (m : Machine Client)
    → login_loop sockfd selects (done, set) m ≡ (m, ok selects)
unfolding login_loop
login_loop-done sockfd [] set m = refl
login_loop-done sockfd (s ∷ rest) set m = refl

-- The effects of a login that succeeds.
abbrev pub login_trace : ℕ → Client → Bytes → List Effect
login_trace sockfd c text =
    wrote sockfd (lit "ME2U\r\n\r\n") ∷ wrote sockfd (name_message c) ∷ motd_trace text

-- The machine after the first round: the greeting has come, and the name is sent.
abbrev greeted : ℕ → Machine Client → List Read → Machine Client
greeted sockfd m rs =
    traced (after_message m hello_reply rs)
      (wrote sockfd (lit "ME2U\r\n\r\n") ∷ wrote sockfd (name_message m.globals) ∷ [])

first_round :
    (sockfd : ℕ) (m : Machine Client) (rs : List Read) (ready : List ℕ)
    → m.os.reads ≡ got hello_reply ∷ rs
    → Holds m.globals []
    → NoZero m.globals.current_user_name
    → length m.globals.current_user_name < 20
    → elem sockfd ready ≡ true
    → login_round sockfd (woke ready) (start, []) m
      ≡ (greeted sockfd m rs, ok (name_sent, left_of sockfd ready []))
unfolding login_round login_prepare clear_read_buf begin_login send_login_msg login_switch
first_round sockfd m rs ready script h named le up =
    let sent =
      traced (record m { globals = record m.globals { read_buf = [] } })
        (wrote sockfd (lit "ME2U\r\n\r\n") ∷ []) in
    simp (
      login_answer_ready sockfd ready [] hello_sent sent up,
      await_hello_lem sockfd sent rs script h refl named le,
      append_assoc,
    )

second_round :
    (sockfd : ℕ) (m : Machine Client) (text : Bytes) (rs : List Read) (ready set : List ℕ)
    → m.os.reads ≡ got approval ∷ got (motd text) ∷ rs
    → NoZero text
    → length text + 9 < maxline
    → Holds m.globals []
    → elem sockfd ready ≡ true
    → login_round sockfd (woke ready) (name_sent, set) m ≡ (
      traced (after_message m (motd text) rs) (motd_trace text),
      ok (done, left_of sockfd ready set),
    )
unfolding login_round login_prepare clear_read_buf begin_login login_switch
second_round sockfd m text rs ready set script nz lt h up =
    let cleared = record m { globals = record m.globals { read_buf = [] } } in
    simp (
      login_answer_ready sockfd ready set name_sent cleared up,
      await_approval_lem cleared text rs script nz lt h refl,
    )

-- A server that greets, approves the name and sends a message of the day, each in one read, logs
-- the user in within two rounds, if the socket is ready in both, the message fits the buffer, the
-- name is shorter than its field, and no zero is in either: two messages are sent, in order, and
-- the text is shown.
pub login_proc_success :
    (sockfd : ℕ) (m : Machine Client) (text : Bytes) (rs : List Read) (r1 r2 : List ℕ)
    (rest : List Selected)
    → m.os.reads ≡ got hello_reply ∷ got approval ∷ got (motd text) ∷ rs
    → NoZero text
    → length text + 9 < maxline
    → Holds m.globals []
    → NoZero m.globals.current_user_name
    → length m.globals.current_user_name < 20
    → elem sockfd r1 ≡ true
    → elem sockfd r2 ≡ true
    → login_proc sockfd (woke r1 ∷ woke r2 ∷ rest) m
      ≡ (traced (after_message m (motd text) rs) (login_trace sockfd m.globals text), ok rest)
unfolding login_proc login_loop
login_proc_success sockfd m text rs r1 r2 rest script nz lt h named le up1 up2 =
    let later = got approval ∷ got (motd text) ∷ rs in
    let met = greeted sockfd m later in
    simp (
      first_round sockfd m later r1 script h named le up1,
      second_round sockfd met text rs r2 (left_of sockfd r1 []) refl nz lt
          (empty_after m hello_reply later) up2,
      login_loop-done,
      append_assoc,
    )
