-- ===== src/First/Talk/Loop.antt =====
-- One round of the first version's `regular_chat`.
use me2u.Base.{
  ℕ, ◌+◌, ◌<◌, ◌≡◌, ◌≢◌, refl, ap, ◌∙◌, Bool, true, false, List, [], ◌∷◌, ◌++◌, arith, length,
  take_all, elem, ltb, le→ltb, append-nil, append_assoc, if◌then◌else◌,
}
use me2u.CString.{Bytes, lit, cstr, strlen, strncmp_eq, NoZero}
use me2u.CString.Laws.{cstr-NoZero, strlen-NoZero}
use me2u.System.{
  Machine, Result, Effect, Read, got, woke, ok, traced, pure, fd_set, fd_ready, continue_with,
}
use me2u.System.Laws.{elem-fd_set_self, elem-fd_ready_self, elem-fd_ready_other}
use me2u.Protocol.{stdin_fd}
use me2u.First.Protocol.{maxline, max}
use me2u.First.Strings.{First, set_string_ending, print_client_help, starts_with}
use me2u.First.Login.{store_buf}
use me2u.First.Chat.{
  on_buf, from_server, end_input, write_ended, on_typed_line, from_user, react, ask, await_ready,
  talk_round,
}
use me2u.First.Talk.{
  Event, listed, sent, absent, left, asks_help, asks_list, logs_out, event_effects,
}

-- The run `r` from `m` returns `a`, reads nothing more, and does exactly `es`.
pub record Does {A : Type 0} (m : Machine First) (es : List Effect) (a : A)
    (r : Machine First × Result A) : Type 0 where
  pub result : r.1 ≡ ok a
  pub reads : r.0.os.reads ≡ m.os.reads
  pub trace : r.0.os.trace ≡ m.os.trace ++ es

pub traced-Does :
    {A : Type 0} {m : Machine First} {es : List Effect} {a : A} {r : Machine First × Result A}
    → r ≡ (traced m es, ok a)
    → Does m es a r
traced-Does e = rw e (record { result = refl; reads = refl; trace = refl })

-- The events of the server.
abbrev pub sent_by_server : Event → Bool
sent_by_server (listed names) = true
sent_by_server (sent rest) = true
sent_by_server (absent name) = true
sent_by_server (left name) = true
sent_by_server _ = false

abbrev pub event_fd : ℕ → Event → ℕ
event_fd sockfd e = if sent_by_server e then sockfd else stdin_fd

-- The value of `stdineof` behind an event.
abbrev pub ended : Event → Bool → Bool
ended logs_out eof = true
ended _ eof = eof

pub on_typed_line-help :
    (sockfd : ℕ) (eof : Bool) (m : Machine First)
    → on_typed_line sockfd eof (lit "/help\n") m
      ≡ (traced m (event_effects sockfd asks_help), ok eof)
unfolding on_typed_line starts_with strlen cstr strncmp_eq print_client_help
on_typed_line-help sockfd eof m = refl

pub on_typed_line-listu :
    (sockfd : ℕ) (eof : Bool) (m : Machine First)
    → on_typed_line sockfd eof (lit "/listu\n") m
      ≡ (traced m (event_effects sockfd asks_list), ok eof)
unfolding on_typed_line starts_with strlen cstr strncmp_eq write_ended set_string_ending
on_typed_line-listu sockfd eof m = simp append_assoc

pub on_typed_line-logout :
    (sockfd : ℕ) (eof : Bool) (m : Machine First)
    → Does m (event_effects sockfd logs_out) true (on_typed_line sockfd eof (lit "/logout\n") m)
unfolding on_typed_line starts_with strlen cstr strncmp_eq write_ended set_string_ending end_input
on_typed_line-logout sockfd eof m = record {
  result = refl;
  reads = refl;
  trace = simp append_assoc;
}

abbrev pub with_read : Machine First → Bytes → List Read → Machine First
with_read m b rs = record m {
  os = record m.os { reads = rs };
  globals = record m.globals { buf = b };
}

from_server_lem :
    (sockfd : ℕ) (eof : Bool) (b : Bytes) (rs : List Read) (m : Machine First)
    → m.os.reads ≡ got b ∷ rs
    → m.globals.buf ≡ []
    → b ≢ []
    → NoZero b
    → length b < maxline
    → from_server sockfd eof m ≡ on_buf sockfd b (with_read m b rs)
unfolding from_server store_buf
from_server_lem sockfd eof [] rs m script clear ne nz lt = absurd (ne refl)
from_server_lem sockfd eof (c ∷ b) rs m script clear ne nz lt =
    let fits : ltb maxline (strlen (c ∷ b) + 1) ≡ false =
      le→ltb maxline (strlen (c ∷ b) + 1) (omega (arith, strlen-NoZero (c ∷ b) nz)) in
    simp (
      script,
      clear,
      take_all maxline (c ∷ b) (omega arith),
      append-nil,
      fits,
      cstr-NoZero (c ∷ b) nz,
    )

from_user_lem :
    (sockfd : ℕ) (eof : Bool) (b : Bytes) (rs : List Read) (m : Machine First)
    → m.os.reads ≡ got b ∷ rs
    → m.globals.buf ≡ []
    → b ≢ []
    → NoZero b
    → length b < maxline
    → from_user sockfd eof m ≡ on_typed_line sockfd eof b (with_read m b rs)
unfolding from_user store_buf
from_user_lem sockfd eof [] rs m script clear ne nz lt = absurd (ne refl)
from_user_lem sockfd eof (c ∷ b) rs m script clear ne nz lt =
    let fits : ltb maxline (strlen (c ∷ b) + 1) ≡ false =
      le→ltb maxline (strlen (c ∷ b) + 1) (omega (arith, strlen-NoZero (c ∷ b) nz)) in
    simp (
      script,
      clear,
      take_all maxline (c ∷ b) (omega arith),
      append-nil,
      fits,
      cstr-NoZero (c ∷ b) nz,
    )

-- The set that is asked for, and the machine behind `select`.
abbrev asked : ℕ → Bool → Machine First → List ℕ
asked sockfd eof m = fd_set sockfd (if eof then m.globals.rset else fd_set stdin_fd m.globals.rset)

abbrev pub woken : ℕ → ℕ → Bool → Machine First → Machine First
woken fd sockfd eof m = record m {
  globals = record m.globals {
    buf = [];
    rset = fd_ready (max stdin_fd sockfd + 1) (fd ∷ []) (asked sockfd eof m);
  };
}

talk_round-woke :
    (fd sockfd : ℕ) (eof : Bool) (m : Machine First)
    → talk_round sockfd eof (woke (fd ∷ [])) m ≡ react sockfd eof (woken fd sockfd eof m)
unfolding talk_round ask await_ready
talk_round-woke fd sockfd eof m = refl

react_server :
    (sockfd : ℕ) (eof : Bool) (m : Machine First)
    → elem sockfd m.globals.rset ≡ true
    → react sockfd eof m ≡ continue_with (from_server sockfd eof m) (λ more. pure (more, eof))
unfolding react
react_server sockfd eof m up = rw up refl

react_user :
    (sockfd : ℕ) (eof : Bool) (m : Machine First)
    → elem sockfd m.globals.rset ≡ false
    → elem stdin_fd m.globals.rset ≡ true
    → react sockfd eof m ≡ continue_with (from_user sockfd eof m) (λ later. pure (true, later))
unfolding react
react_user sockfd eof m down up = rw (down, up) refl

-- The socket is ready.
pub talk_round_server :
    (sockfd : ℕ) (eof : Bool) (b : Bytes) (rs : List Read) (m : Machine First)
    → m.os.reads ≡ got b ∷ rs
    → b ≢ []
    → NoZero b
    → length b < maxline
    → talk_round sockfd eof (woke (sockfd ∷ [])) m
      ≡ continue_with
          (on_buf sockfd b (with_read (woken sockfd sockfd eof m) b rs))
          (λ more. pure (more, eof))
talk_round_server sockfd eof b rs m script ne nz lt =
    let m' = woken sockfd sockfd eof m in
    let up : elem sockfd m'.globals.rset ≡ true =
      elem-fd_ready_self sockfd (max stdin_fd sockfd + 1) (sockfd ∷ []) (asked sockfd eof m)
        (elem-fd_set_self sockfd (if eof then m.globals.rset else fd_set stdin_fd m.globals.rset))
        (ground arith) (ground arith) in
    talk_round-woke sockfd sockfd eof m
    ∙ react_server sockfd eof m' up
    ∙ ap (λ r. continue_with r (λ more. pure (more, eof)))
        (from_server_lem sockfd eof b rs m' script refl ne nz lt)

-- The user has typed a line.
pub talk_round_user :
    (sockfd : ℕ) (b : Bytes) (rs : List Read) (m : Machine First)
    → sockfd ≢ stdin_fd
    → m.os.reads ≡ got b ∷ rs
    → b ≢ []
    → NoZero b
    → length b < maxline
    → talk_round sockfd false (woke (stdin_fd ∷ [])) m
      ≡ continue_with
          (on_typed_line sockfd false b (with_read (woken stdin_fd sockfd false m) b rs))
          (λ later. pure (true, later))
talk_round_user sockfd b rs m other script ne nz lt =
    let m' = woken stdin_fd sockfd false m in
    let up : elem stdin_fd m'.globals.rset ≡ true =
      elem-fd_ready_self stdin_fd (max stdin_fd sockfd + 1) (stdin_fd ∷ []) (asked sockfd false m)
        (ground (arith, elem-fd_set_self stdin_fd m.globals.rset)) (ground arith) (ground arith) in
    let down : elem sockfd m'.globals.rset ≡ false =
      elem-fd_ready_other sockfd stdin_fd (max stdin_fd sockfd + 1) (asked sockfd false m) other in
    talk_round-woke stdin_fd sockfd false m
    ∙ react_user sockfd false m' down up
    ∙ ap (λ r. continue_with r (λ later. pure (true, later)))
        (from_user_lem sockfd false b rs m' script refl ne nz lt)
