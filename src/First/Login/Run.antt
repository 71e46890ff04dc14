-- ===== src/First/Login/Run.antt =====
-- A login of the first version.
use me2u.Base.{
  ap, ℕ, ◌+◌, ◌<◌, ◌≡◌, ◌≢◌, refl, true, false, List, [], ◌∷◌, ◌++◌, arith, length, take_all, elem,
  ltb, le→ltb, lt→ltb, append-nil,
}
use me2u.CString.{Bytes, lit, strlen, strncmp_eq, NoZero}
use me2u.CString.Laws.{cstr-NoZero, strlen-NoZero, NoZero-append}
use me2u.System.{Machine, Read, got, woke, ok, overrun, traced, fd_set, fd_ready}
use me2u.System.Laws.{elem-fd_set_self, elem-fd_ready_self}
use me2u.First.Strings.Prefix.{starts_with-append, starts_with-other}
use me2u.Protocol.{stdin_fd}
use me2u.First.Protocol.{server_user_taken, server_user_approve, maxline, max}
use me2u.First.Strings.{First}
use me2u.First.Login.{
  first_count, FirstState, motd, first_answer, first_switch, read_string, store_buf, case_approval,
  on_approval_string,
}

-- The machine after `b` has been read.
abbrev pub after_string : Machine First → Bytes → List Read → Machine First
after_string m b rs =
    traced (record m { os = record m.os { reads = rs }; globals = record m.globals { buf = b } })
      (overrun (length b) (length b + 1) ∷ [])

first_count_lem : (b : Bytes) → length b < maxline → first_count (got b) ≡ length b
unfolding first_count
first_count_lem b lt = ap length (take_all maxline b (omega arith))

-- A read into the empty buffer: the text is copied, and the zero behind the copy is not there.
pub read_string_lem :
    (msg b : Bytes) (m : Machine First) (rs : List Read)
    → m.os.reads ≡ got b ∷ rs
    → NoZero b
    → b ≢ []
    → length b < maxline
    → m.globals.buf ≡ []
    → read_string msg m ≡ (after_string m b rs, ok (length b, b))
unfolding read_string store_buf
read_string_lem msg [] m rs e nz ne lt clear = absurd (ne refl)
read_string_lem msg (x ∷ b) m rs e nz ne lt clear =
    let whole = take_all maxline (x ∷ b) (omega arith) in
    let fits : ltb maxline (strlen (x ∷ b) + 1) ≡ false =
      le→ltb maxline (strlen (x ∷ b) + 1) (omega (arith, strlen-NoZero (x ∷ b) nz)) in
    simp (
      e,
      first_count_lem (x ∷ b) lt,
      clear,
      whole,
      append-nil,
      fits,
      cstr-NoZero (x ∷ b) nz,
      lt→ltb (length (x ∷ b)) (length (x ∷ b) + 1) (omega arith),
    )

-- A round in which the socket is ready.
pub first_answer_ready :
    (sockfd : ℕ) (ready : List ℕ) (st : FirstState) (m : Machine First) (set : List ℕ)
    → m.globals.rset ≡ fd_set sockfd set
    → elem sockfd ready ≡ true
    → first_answer sockfd (woke ready) st m
      ≡ first_switch sockfd true st (record m {
        globals = record m.globals {
          rset = fd_ready (max stdin_fd sockfd + 1) ready m.globals.rset;
        };
      })
unfolding first_answer
first_answer_ready sockfd ready st m set e r =
    let up : elem sockfd (fd_ready (max stdin_fd sockfd + 1) ready m.globals.rset) ≡ true =
      elem-fd_ready_self sockfd (max stdin_fd sockfd + 1) ready m.globals.rset
        (rw e (elem-fd_set_self sockfd set)) r (ground arith) in
    simp up

-- A message that begins with the approval is taken for the approval alone, whatever follows in the
-- same read; the next state waits for the message of the day, which may have been in that read.
pub case_approval_joined :
    (m : Machine First) (more : Bytes) (rs : List Read)
    → m.os.reads ≡ got (lit "MAI\r\n\r\n" ++ more) ∷ rs
    → NoZero more
    → length more + 7 < maxline
    → m.globals.buf ≡ []
    → case_approval m ≡ (after_string m (lit "MAI\r\n\r\n" ++ more) rs, ok motd)
unfolding case_approval on_approval_string strncmp_eq
case_approval_joined m more rs e nz lt clear =
    let tail = lit "\r\n\r\n" ++ more in
    let b = lit "MAI" ++ tail in
    let string = NoZero-append (lit "MAI\r\n\r\n") more (omega arith) nz in
    simp (
      read_string_lem (lit "Server exited prevaturely while in username approval procedure") b m rs
          e string (λ e. cc) (omega arith) clear,
      starts_with-other b server_user_taken (omega arith) refl,
      starts_with-append server_user_approve tail string (omega arith),
    )
