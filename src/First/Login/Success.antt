-- ===== src/First/Login/Success.antt =====
-- A whole login of the first version.
use me2u.Base.{
  ℕ, ◌+◌, ◌-◌, ◌^◌, ◌%◌, ◌<◌, ◌≡◌, refl, true, List, [], ◌∷◌, ◌++◌, arith, length, length-append,
  take_all, elem, lt→ltb, append_assoc,
}
use me2u.CString.{Bytes, lit, NoZero}
use me2u.CString.Laws.{NoZero-append}
use me2u.System.{Machine, Read, got, Selected, woke, ok, Effect, wrote, overrun, traced, fd_set}
use me2u.First.Strings.Prefix.{starts_with-append}
use me2u.Protocol.{stdin_fd}
use me2u.First.Protocol.{maxline, ending, server_motd}
use me2u.First.Strings.{First}
use me2u.First.Login.{
  motd, logged_in, first_switch, first_begin, first_prepare, first_round, first_loop,
  first_login_proc, case_motd, on_motd_string, write_text,
}
use me2u.First.Login.Run.{after_string, read_string_lem, first_answer_ready}
use me2u.First.Login.Rounds.{
  woken, greeting_trace, name_trace, hello_round, name_round, approval_round,
}

abbrev motd_text : Bytes → Bytes
motd_text text = lit "MOTD " ++ text ++ ending

-- What the message of the day is shown with: two bytes behind its block are read.
abbrev motd_effects : Bytes → List Effect
motd_effects text =
    overrun (length text + 9) (length text + 10)
    ∷ overrun (length text + 9) (length text + 11)
    ∷ wrote 1 (text ++ ending)
    ∷ []

case_motd_lem :
    (m : Machine First) (text : Bytes) (rs : List Read)
    → m.os.reads ≡ got (motd_text text) ∷ rs
    → NoZero text
    → length text + 9 < maxline
    → m.globals.buf ≡ []
    → case_motd m ≡ (
      traced
          (record m {
            os = record m.os { reads = rs };
            globals = record m.globals { buf = motd_text text };
          })
          (motd_effects text),
      ok logged_in,
    )
unfolding case_motd on_motd_string write_text
case_motd_lem m text rs e nz lt clear =
    let n = length-append text ending in
    let whole : NoZero (motd_text text) =
      NoZero-append (lit "MOTD ") (text ++ ending) (omega arith)
        (NoZero-append text ending nz (omega arith)) in
    let size : length (motd_text text) ≡ length text + 9 = omega (arith, n) in
    let next : length text + 9 + 1 ≡ length text + 10 = omega arith in
    let count : (length text + 9 + 2 ^ 64 - 4 + 1) % 2 ^ 64 ≡ length text + 6 = omega arith in
    let upto : 5 + (length text + 6) ≡ length text + 11 = omega arith in
    simp (
      read_string_lem (lit "Server exited prevaturely before MOTD") (motd_text text) m rs e whole
          (λ e. cc) (omega (arith, n)) clear,
      starts_with-append server_motd (b' ' ∷ text ++ ending) whole (omega arith),
      size,
      next,
      count,
      upto,
      lt→ltb (length text + 9) (length text + 11) (omega arith),
      take_all (length text + 6) (text ++ ending) (omega (arith, n)),
      append_assoc,
    )

motd_round :
    (sockfd : ℕ) (ready : List ℕ) (m : Machine First) (text : Bytes) (rs : List Read)
    → m.os.reads ≡ got (motd_text text) ∷ rs
    → NoZero text
    → length text + 9 < maxline
    → elem sockfd ready ≡ true
    → first_round sockfd (woke ready) motd m ≡ (
      traced
          (record (woken sockfd ready m) {
            os = record m.os { reads = rs };
            globals = record (woken sockfd ready m).globals { buf = motd_text text };
          })
          (motd_effects text),
      ok logged_in,
    )
unfolding first_round first_prepare first_begin first_switch
motd_round sockfd ready m text rs e nz lt r =
    let asked = record m {
      globals = record m.globals {
        buf = [];
        rset = fd_set sockfd (fd_set stdin_fd m.globals.rset);
      };
    } in
    simp (
      first_answer_ready sockfd ready motd asked (fd_set stdin_fd m.globals.rset) refl r,
      case_motd_lem (woken sockfd ready m) text rs e nz lt refl,
    )

-- All that a login does, in order.
abbrev pub login_effects : ℕ → Bytes → Bytes → List Effect
login_effects sockfd name text =
    greeting_trace sockfd ++ overrun 8 9 ∷ name_trace sockfd name ++ overrun 7 8 ∷ motd_effects text

-- A login that succeeds, with what is left to be read.
pub first_login_run :
    (sockfd : ℕ) (m : Machine First) (text : Bytes) (rs : List Read) (r1 r2 r3 r4 : List ℕ)
    (rest : List Selected)
    → m.os.reads
      ≡ got (lit "U2EM\r\n\r\n")
        ∷ got (lit "MAI\r\n\r\n")
        ∷ got (lit "MOTD " ++ text ++ ending)
        ∷ rs
    → NoZero text
    → length text + 9 < maxline
    → NoZero m.globals.current_user_name
    → length m.globals.current_user_name < 20
    → elem sockfd r1 ≡ true
    → elem sockfd r3 ≡ true
    → elem sockfd r4 ≡ true
    → let after = first_login_proc sockfd (woke r1 ∷ woke r2 ∷ woke r3 ∷ woke r4 ∷ rest) m in
      (after.1 ≡ ok rest)
      × (after.0.os.trace ≡ m.os.trace ++ login_effects sockfd m.globals.current_user_name text)
      × (after.0.os.reads ≡ rs)
unfolding first_login_proc first_loop
first_login_run sockfd m text rs r1 r2 r3 r4 rest script nz lt named short up1 up3 up4 =
    let m0 = record m { globals = record m.globals { rset = [] } } in
    let later = got (motd_text text) ∷ rs in
    let m1 =
      after_string (traced (woken sockfd r1 m0) (greeting_trace sockfd)) (lit "U2EM\r\n\r\n")
        (got (lit "MAI\r\n\r\n") ∷ later) in
    let m2 = traced (woken sockfd r2 m1) (name_trace sockfd m.globals.current_user_name) in
    let m3 = after_string (woken sockfd r3 m2) (lit "MAI\r\n\r\n") later in
    let one = hello_round sockfd r1 m0 (got (lit "MAI\r\n\r\n") ∷ later) script up1 in
    let two = name_round sockfd r2 m1 named short in
    let three = approval_round sockfd r3 m2 [] later refl tt (omega arith) up3 in
    let four = motd_round sockfd r4 m3 text rs refl nz lt up4 in
    (
      simp (one, two, three, four),
      simp (one, two, three, four) (simp append_assoc),
      simp (one, two, three, four),
    )

-- A server that greets, approves the name and sends a message of the day, each in one read, logs
-- the user in within four rounds, in the second of which any descriptor may be ready; the whole
-- trace is known: two messages are sent, and the text is shown with its end.
pub first_login_proc_success :
    (sockfd : ℕ) (m : Machine First) (text : Bytes) (rs : List Read) (r1 r2 r3 r4 : List ℕ)
    (rest : List Selected)
    → m.os.reads
      ≡ got (lit "U2EM\r\n\r\n")
        ∷ got (lit "MAI\r\n\r\n")
        ∷ got (lit "MOTD " ++ text ++ ending)
        ∷ rs
    → NoZero text
    → length text + 9 < maxline
    → NoZero m.globals.current_user_name
    → length m.globals.current_user_name < 20
    → elem sockfd r1 ≡ true
    → elem sockfd r3 ≡ true
    → elem sockfd r4 ≡ true
    → let after = first_login_proc sockfd (woke r1 ∷ woke r2 ∷ woke r3 ∷ woke r4 ∷ rest) m in
      (after.1 ≡ ok rest)
      × (after.0.os.trace ≡ m.os.trace ++ login_effects sockfd m.globals.current_user_name text)
first_login_proc_success sockfd m text rs r1 r2 r3 r4 rest script nz lt named short up1 up3 up4 =
    let (end, trace, left) =
      first_login_run sockfd m text rs r1 r2 r3 r4 rest script nz lt named short up1 up3 up4 in
    (end, trace)
