-- ===== src/First/Talk/Run.antt =====
-- The loop of the first version's `regular_chat` on messages and lines.
use me2u.Base.{
  ℕ, ◌<◌, ◌≡◌, ◌≢◌, refl, ap, ◌∙◌, Bool, true, false, List, [], ◌∷◌, ◌++◌, arith, length,
  length-append, append-nil, append_assoc, if◌then◌else◌,
}
use me2u.CString.{Bytes, lit, cstr, strlen, strncmp_eq, NoZero}
use me2u.CString.Laws.{NoZero-append_inv}
use me2u.System.{
  Machine, Result, Effect, Read, got, Selected, woke, ok, exited, crashed, waiting, traced, pure,
  continue_with,
}
use me2u.Protocol.{stdin_fd}
use me2u.First.Protocol.{maxline, ending}
use me2u.First.Strings.{First, starts_with}
use me2u.First.Chat.{on_buf, on_typed_line, talk_round, talk_loop}
use me2u.First.Chat.Replies.{on_typed_line-chat, on_buf-no_user}
use me2u.First.Talk.{
  Event, listed, sent, absent, left, asks_help, asks_list, chats, logs_out, event_bytes,
  event_effects, on_buf-listed, on_buf-sent, on_buf-left,
}
use me2u.First.Talk.Loop.{
  Does, traced-Does, sent_by_server, event_fd, ended, on_typed_line-help, on_typed_line-listu,
  on_typed_line-logout, with_read, woken, talk_round_server, talk_round_user,
}

-- An event that fits the buffer and has no zero; a line comes only while the input is open.
abbrev pub IsEvent : Bool → Event → Type 0
IsEvent eof e =
    NoZero (event_bytes e)
    × (length (event_bytes e) < maxline)
    × (sent_by_server e ≡ false → eof ≡ false)

abbrev pub AreEvents : Bool → List Event → Type 0
AreEvents eof [] = Unit
AreEvents eof (e ∷ es) = IsEvent eof e × AreEvents (ended e eof) es

abbrev pub reads_of : List Event → List Read
reads_of [] = []
reads_of (e ∷ es) = got (event_bytes e) ∷ reads_of es

abbrev pub selects_of : ℕ → List Event → List Selected
selects_of sockfd [] = []
selects_of sockfd (e ∷ es) = woke (event_fd sockfd e ∷ []) ∷ selects_of sockfd es

abbrev pub effects_of : ℕ → List Event → List Effect
effects_of sockfd [] = []
effects_of sockfd (e ∷ es) = event_effects sockfd e ++ effects_of sockfd es

continue_with-Does :
    {A B : Type 0} {m : Machine First} {es : List Effect} {a : A} (r : Machine First × Result A)
    (f : A → B)
    → Does m es a r
    → Does m es (f a) (continue_with r (λ x. pure (f x)))
continue_with-Does {a} (m', ok b) f h = record {
  result = ap (λ x. ok (f x)) same;
  reads = h.reads;
  trace = h.trace;
}
  where
    same : b ≡ a
    same = cc (h.result)
continue_with-Does (m', exited c) f h = cc (h.result)
continue_with-Does (m', crashed) f h = cc (h.result)
continue_with-Does (m', waiting) f h = cc (h.result)

module _ (sockfd : ℕ) (eof : Bool) (m : Machine First) (rs : List Read) where
  server_round :
      (b : Bytes) (es : List Effect)
      → m.os.reads ≡ got b ∷ rs
      → b ≢ []
      → NoZero b
      → length b < maxline
      → ((m' : Machine First) → on_buf sockfd b m' ≡ (traced m' es, ok true))
      → Does
          (record m { os = record m.os { reads = rs } })
          es
          (true, eof)
          (talk_round sockfd eof (woke (sockfd ∷ [])) m)
  server_round b es script ne nz lt k =
      let m' = with_read (woken sockfd sockfd eof m) b rs in
      let h =
        continue_with-Does (on_buf sockfd b m') (λ more. (more, eof))
          (traced-Does {m = m'} {es = es} (k m')) in
      rw (talk_round_server sockfd eof b rs m script ne nz lt)
        (record { result = h.result; reads = h.reads; trace = h.trace })

  user_round :
      (b : Bytes) (es : List Effect) (later : Bool)
      → sockfd ≢ stdin_fd
      → m.os.reads ≡ got b ∷ rs
      → b ≢ []
      → NoZero b
      → length b < maxline
      → ((m' : Machine First) → Does m' es later (on_typed_line sockfd false b m'))
      → Does
          (record m { os = record m.os { reads = rs } })
          es
          (true, later)
          (talk_round sockfd false (woke (stdin_fd ∷ [])) m)
  user_round b es later other script ne nz lt k =
      let m' = with_read (woken stdin_fd sockfd false m) b rs in
      let h = continue_with-Does (on_typed_line sockfd false b m') (λ l. (true, l)) (k m') in
      rw (talk_round_user sockfd b rs m other script ne nz lt)
        (record { result = h.result; reads = h.reads; trace = h.trace })

  talk_round-Does :
      (e : Event)
      → sockfd ≢ stdin_fd
      → m.os.reads ≡ got (event_bytes e) ∷ rs
      → IsEvent eof e
      → Does
          (record m { os = record m.os { reads = rs } })
          (event_effects sockfd e)
          (true, ended e eof)
          (talk_round sockfd eof (woke (event_fd sockfd e ∷ [])) m)
  talk_round-Does (listed names) other script (nz, lt, open_input) =
      server_round (lit "UTSIL" ++ names) _ script (λ h. cc) nz lt
        (λ m'. on_buf-listed sockfd m' names nz.1.1.1.1.1)
  talk_round-Does (sent rest) other script (nz, lt, open_input) =
      server_round (lit "OT" ++ rest) _ script (λ h. cc) nz lt
        (λ m'. on_buf-sent sockfd m' rest nz.1.1)
  talk_round-Does (absent name) other script (nz, lt, open_input) =
      server_round (lit "EDNE" ++ name ++ ending) _ script (λ h. cc) nz lt
        (λ m'.
          on_buf-no_user sockfd name m' (NoZero-append_inv name ending nz.1.1.1.1).0
            (omega (arith, length-append name ending)))
  talk_round-Does (left name) other script (nz, lt, open_input) =
      server_round (lit "UOFF" ++ name ++ ending) _ script (λ h. cc) nz lt
        (λ m'.
          on_buf-left sockfd m' name (NoZero-append_inv name ending nz.1.1.1.1).0
            (omega (arith, length-append name ending)))
  talk_round-Does asks_help other script (nz, lt, open_input) = rw (open_input refl) (
      user_round (lit "/help\n") _ false other script (λ h. cc) nz lt
        (λ m'. traced-Does (on_typed_line-help sockfd false m')))
  talk_round-Does asks_list other script (nz, lt, open_input) = rw (open_input refl) (
      user_round (lit "/listu\n") _ false other script (λ h. cc) nz lt
        (λ m'. traced-Does (on_typed_line-listu sockfd false m')))
  talk_round-Does (chats rest) other script (nz, lt, open_input) = rw (open_input refl) (
      user_round (lit "/chat" ++ rest) _ false other script (λ h. cc) nz lt
        (λ m'. traced-Does (on_typed_line-chat sockfd false rest m' nz.1.1.1.1.1)))
  talk_round-Does logs_out other script (nz, lt, open_input) = rw (open_input refl) (
      user_round (lit "/logout\n") _ true other script (λ h. cc) nz lt
        (λ m'. on_typed_line-logout sockfd false m'))

  -- The server's last word.
  bye_round :
      m.os.reads ≡ got (lit "EYB\r\n\r\n") ∷ rs
      → (talk_round sockfd eof (woke (sockfd ∷ [])) m).1 ≡ ok (false, eof)
        × ((talk_round sockfd eof (woke (sockfd ∷ [])) m).0.os.trace ≡ m.os.trace)
  unfolding on_buf strncmp_eq strlen cstr starts_with
  bye_round script =
      rw
        (talk_round_server sockfd eof (lit "EYB\r\n\r\n") rs m script (λ e. cc) (omega arith)
          (omega arith))
        (refl, refl)

talk_loop_on :
    (sockfd : ℕ) (eof more later : Bool) (s : Selected) (rest : List Selected) (m : Machine First)
    → (talk_round sockfd eof s m).1 ≡ ok (more, later)
    → talk_loop sockfd eof (s ∷ rest) m
      ≡ (if more then talk_loop sockfd later rest else pure tt) (talk_round sockfd eof s m).0
unfolding talk_loop
talk_loop_on sockfd eof more later s rest m e = by_result (talk_round sockfd eof s m) e
  where
    by_result :
        (r : Machine First × Result (Bool × Bool))
        → r.1 ≡ ok (more, later)
        → continue_with r (λ end. if end.0 then talk_loop sockfd end.1 rest else pure tt)
          ≡ (if more then talk_loop sockfd later rest else pure tt) r.0
    by_result (m', ok end) e =
        ap (λ (x : Bool × Bool). (if x.0 then talk_loop sockfd x.1 rest else pure tt) m') (cc e)
    by_result (m', exited c) e = cc
    by_result (m', crashed) e = cc
    by_result (m', waiting) e = cc

-- On any of these messages and lines, in any order, and `EYB` behind them, the loop does exactly what
-- is listed for each, one after the other, the accesses out of bounds included, and returns. Each comes
-- in one read, has no zero and fits the buffer; there is no line behind `/logout`; and the socket is not
-- the standard input.
pub talk_loop-effects_of :
    (sockfd : ℕ) (eof : Bool) (es : List Event) (rest : List Selected) (rs : List Read)
    (m : Machine First)
    → m.os.reads ≡ reads_of es ++ got (lit "EYB\r\n\r\n") ∷ rs
    → AreEvents eof es
    → sockfd ≢ stdin_fd
    → ((talk_loop sockfd eof (selects_of sockfd es ++ woke (sockfd ∷ []) ∷ rest) m).1 ≡ ok tt)
      × ((talk_loop sockfd eof (selects_of sockfd es ++ woke (sockfd ∷ []) ∷ rest) m).0.os.trace
          ≡ m.os.trace ++ effects_of sockfd es)
talk_loop-effects_of sockfd eof [] rest rs m script fit other =
    let (end, same) = bye_round sockfd eof m rs script in
    rw (talk_loop_on sockfd eof false eof (woke (sockfd ∷ [])) rest m end)
      (refl, rw append-nil same)
talk_loop-effects_of sockfd eof (e ∷ es) rest rs m script (fits, fit) other =
    let all = reads_of es ++ got (lit "EYB\r\n\r\n") ∷ rs in
    let s = woke (event_fd sockfd e ∷ []) in
    let now = talk_round-Does sockfd eof m all e other script fits in
    let (end, later) =
      talk_loop-effects_of sockfd (ended e eof) es rest rs (talk_round sockfd eof s m).0 now.reads
        fit other in
    rw
      (talk_loop_on sockfd eof true (ended e eof) s
        (selects_of sockfd es ++ woke (sockfd ∷ []) ∷ rest) m now.result)
      (
        end,
        later
            ∙ ap (◌++ effects_of sockfd es) now.trace
            ∙ append_assoc m.os.trace (event_effects sockfd e) (effects_of sockfd es),
      )
