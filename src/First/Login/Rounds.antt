-- ===== src/First/Login/Rounds.antt =====
-- The first three rounds of a login of the first version.
use me2u.Base.{
  Bool, ℕ, ◌+◌, ◌<◌, ◌≡◌, refl, true, false, List, [], ◌∷◌, ◌++◌, arith, length, length-append,
  elem, ltb, le→ltb, lt→ltb, append_assoc,
}
use me2u.CString.{Bytes, lit, strlen, NoZero}
use me2u.CString.Laws.{cstr-NoZero, strlen-NoZero, NoZero-append}
use me2u.System.{Machine, Read, got, woke, ok, Effect, wrote, overrun, traced, fd_set, fd_ready}
use me2u.First.Strings.Prefix.{starts_with-append}
use me2u.Protocol.{stdin_fd}
use me2u.First.Protocol.{maxline, max, ending, server_login_init}
use me2u.First.Strings.{First, set_string_ending}
use me2u.First.Login.{
  initiate, hello, username, approval, motd, first_switch, first_answer, first_begin, first_prepare,
  first_round, case_hello, on_hello_string, case_username,
}
use me2u.First.Login.Run.{after_string, read_string_lem, first_answer_ready, case_approval_joined}

-- The machine when `select` has returned in a round that began in `m`.
abbrev pub woken : ℕ → List ℕ → Machine First → Machine First
woken sockfd ready m = record m {
  globals = record m.globals {
    buf = [];
    rset =
        fd_ready (max stdin_fd sockfd + 1) ready (fd_set sockfd (fd_set stdin_fd m.globals.rset));
  };
}

-- What the first message is sent with.
abbrev pub greeting_trace : ℕ → List Effect
greeting_trace sockfd = overrun 4 8 ∷ overrun 4 9 ∷ wrote sockfd (lit "ME2U\r\n\r\n") ∷ []

begin_lem :
    (sockfd : ℕ) (m : Machine First)
    → first_begin sockfd initiate m ≡ (traced m (greeting_trace sockfd), ok hello)
unfolding first_begin set_string_ending strlen
begin_lem sockfd m = simp append_assoc

pub hello_round :
    (sockfd : ℕ) (ready : List ℕ) (m : Machine First) (rs : List Read)
    → m.os.reads ≡ got (lit "U2EM\r\n\r\n") ∷ rs
    → elem sockfd ready ≡ true
    → first_round sockfd (woke ready) initiate m ≡ (
      after_string (traced (woken sockfd ready m) (greeting_trace sockfd)) (lit "U2EM\r\n\r\n") rs,
      ok username,
    )
unfolding first_round first_prepare first_switch case_hello on_hello_string
hello_round sockfd ready m rs e r =
    let asked =
      traced
        (record m {
          globals = record m.globals {
            buf = [];
            rset = fd_set sockfd (fd_set stdin_fd m.globals.rset);
          };
        })
        (greeting_trace sockfd) in
    let up = traced (woken sockfd ready m) (greeting_trace sockfd) in
    simp (
      begin_lem sockfd (record m {
        globals = record m.globals {
          buf = [];
          rset = fd_set sockfd (fd_set stdin_fd m.globals.rset);
        };
      }),
      first_answer_ready sockfd ready hello asked (fd_set stdin_fd m.globals.rset) refl r,
      read_string_lem (lit "Server exited prevaturely while in hello procedure")
          (lit "U2EM\r\n\r\n") up rs e (omega arith) (λ e. cc) (omega arith) refl,
      starts_with-append server_login_init (lit "\r\n\r\n") (omega arith) (omega arith),
    )

-- What the name is sent with.
abbrev pub name_trace : ℕ → Bytes → List Effect
name_trace sockfd name =
    overrun (length name + 4) (length name + 8)
    ∷ overrun (length name + 4) (length name + 9)
    ∷ wrote sockfd (lit "IAM " ++ name ++ ending)
    ∷ []

name_switch :
    (sockfd : ℕ) (up : Bool) (m : Machine First)
    → first_switch sockfd up username m ≡ case_username sockfd m
unfolding first_switch
name_switch sockfd true m = refl
name_switch sockfd false m = refl

case_username_lem :
    (sockfd : ℕ) (m : Machine First)
    → NoZero m.globals.current_user_name
    → length m.globals.current_user_name < 20
    → case_username sockfd m
      ≡ (traced m (name_trace sockfd m.globals.current_user_name), ok approval)
unfolding case_username set_string_ending
case_username_lem sockfd m nz lt =
    let name = m.globals.current_user_name in
    let line : NoZero (lit "IAM " ++ name) = NoZero-append (lit "IAM ") name (omega arith) nz in
    let fits : ltb 20 (strlen name + 1) ≡ false =
      le→ltb 20 (strlen name + 1) (omega (arith, strlen-NoZero name nz)) in
    let size : strlen (lit "IAM " ++ name) ≡ length name + 4 =
      omega (arith, strlen-NoZero (lit "IAM " ++ name) line) in
    let block : length (lit "IAM " ++ name) ≡ length name + 4 = omega arith in
    let need : length ((lit "IAM " ++ name) ++ ending) + 1 ≡ length name + 9 =
      omega (arith, length-append (lit "IAM " ++ name) ending) in
    let four : length name + 4 + 4 ≡ length name + 8 = omega arith in
    simp (
      fits,
      cstr-NoZero name nz,
      size,
      cstr-NoZero (lit "IAM " ++ name) line,
      block,
      need,
      four,
      lt→ltb (length name + 4) (length name + 8) (omega arith),
      lt→ltb (length name + 4) (length name + 9) (omega arith),
      append_assoc,
    )

pub name_round :
    (sockfd : ℕ) (ready : List ℕ) (m : Machine First)
    → NoZero m.globals.current_user_name
    → length m.globals.current_user_name < 20
    → first_round sockfd (woke ready) username m
      ≡ (traced (woken sockfd ready m) (name_trace sockfd m.globals.current_user_name), ok approval)
unfolding first_round first_prepare first_answer first_begin
name_round sockfd ready m nz lt =
    let up = elem sockfd (woken sockfd ready m).globals.rset in
    simp (
      name_switch sockfd up (woken sockfd ready m),
      case_username_lem sockfd (woken sockfd ready m) nz lt,
    )

pub approval_round :
    (sockfd : ℕ) (ready : List ℕ) (m : Machine First) (more : Bytes) (rs : List Read)
    → m.os.reads ≡ got (lit "MAI\r\n\r\n" ++ more) ∷ rs
    → NoZero more
    → length more + 7 < maxline
    → elem sockfd ready ≡ true
    → first_round sockfd (woke ready) approval m
      ≡ (after_string (woken sockfd ready m) (lit "MAI\r\n\r\n" ++ more) rs, ok motd)
unfolding first_round first_prepare first_begin first_switch
approval_round sockfd ready m more rs e nz lt r =
    let asked = record m {
      globals = record m.globals {
        buf = [];
        rset = fd_set sockfd (fd_set stdin_fd m.globals.rset);
      };
    } in
    simp (
      first_answer_ready sockfd ready approval asked (fd_set stdin_fd m.globals.rset) refl r,
      case_approval_joined (woken sockfd ready m) more rs e nz lt refl,
    )
