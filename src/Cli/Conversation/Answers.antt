-- ===== src/Cli/Conversation/Answers.antt =====
-- What the client does on a message of the server.
use me2u.Base.{
  ℕ, ◌+◌, ◌≡◌, ◌≢◌, refl, ap, ◌∙◌, subst, List, [], ◌∷◌, ◌++◌, Option, none, some, arith, length,
  ltb, append-nil, append_assoc, Bool-cases, inl, inr,
}
use me2u.CString.{Bytes, lit, strtok_spaces, NoZero}
use me2u.CString.Laws.{cstr-NoZero}
use me2u.System.{spawned, Machine, Result, ok, Effect, wrote, overrun, traced, Spawn}
use me2u.Protocol.{ending}
use me2u.Cli.State.{Client}
use me2u.Cli.Text.{
  ServerVerb, utsil, ot, edne, from, uoff, eyb, unknown_verb, word_length, print_tokens, list_users,
  no_user_exists, someone_exited,
}
use me2u.Cli.Text.Verbs.{spelling, server_verb-spelling}
use me2u.Cli.Users.{process_msg}
use me2u.Cli.Users.Lookup.{search_trace}
use me2u.Cli.Users.Windows.{registered, process_msg_known, process_msg_new}
use me2u.Cli.Chat.{next, on_verb, on_message, confirm_from}
use me2u.Cli.Chat.Actions.{confirm_from_lem}
use me2u.Cli.Chat.Descriptors.{raise_maxfdpl-ge}
use me2u.Cli.Conversation.{
  Talk, window_of, deliver_to, open_window, forked_window, deliver, lines_of, IsWord,
}
use me2u.Cli.Conversation.View.{
  observed, observed-append, windows_of, windows_of-append, View, Answer, Answer-traced, Answer-eq,
}
use me2u.Cli.Conversation.Names.{
  NoZero-IsWord, first_word_name, message_text_name, observed-search_trace, position_of_none,
  position_of_some,
}

pub traced-Answer :
    {A : Type 0} {sockfd : ℕ} {m : Machine Client} {t : Talk} {fx : List Effect} {a : A}
    {r : Machine Client × Result A} (es : List Effect)
    → r ≡ (traced m es, ok a)
    → observed es ≡ fx
    → View sockfd m t
    → Answer sockfd m t fx a r
traced-Answer {a} es e o v = rw e (Answer-eq o (Answer-traced a es v))

deliver_known :
    (sockfd fd : ℕ) (name text : Bytes) (m : Machine Client) (t : Talk)
    → View sockfd m t
    → IsWord name
    → NoZero text
    → window_of name t.windows ≡ some fd
    → Answer sockfd m t (wrote fd text ∷ []) tt (process_msg (name ++ b' ' ∷ text) m)
deliver_known sockfd fd name text m t v w nz e =
    let (k, u, found, at, wrt) =
      position_of_some m.globals.users 0 name fd (ap (window_of name) v.windows ∙ e) in
    let first = first_word_name name text w in
    let es = search_trace name m.globals.users ++ wrote u.wrt text ∷ [] in
    let run : process_msg (name ++ b' ' ∷ text) m ≡ (traced m es, ok tt) =
      rw (first, message_text_name name text w nz) at
        (process_msg_known (name ++ b' ' ∷ text) m k u (rw first (found ∙ ap some (omega arith)))
          at) in
    traced-Answer es run
      (observed-append (search_trace name m.globals.users) (wrote u.wrt text ∷ [])
        ∙ ap (◌++ wrote u.wrt text ∷ []) (observed-search_trace name m.globals.users)
        ∙ ap (λ d. wrote d text ∷ []) wrt)
      v

deliver_new :
    (sockfd child : ℕ) (name text : Bytes) (m : Machine Client) (t : Talk) (p : Spawn)
    (ps : List Spawn)
    → View sockfd m t
    → IsWord name
    → NoZero text
    → window_of name t.windows ≡ none
    → t.spawns ≡ p ∷ ps
    → p.pid ≡ some child
    → Answer sockfd m
        (record t { windows = t.windows ++ (name, p.wrt) ∷ []; spawns = ps })
        (spawned name p.rd p.wrt ∷ wrote p.wrt text ∷ [])
        tt
        (process_msg (name ++ b' ' ∷ text) m)
deliver_new sockfd child name text m t p ps v w nz e sp pd =
    let first = first_word_name name text w in
    let string = cstr-NoZero name (NoZero-IsWord name w) in
    let absent = position_of_none m.globals.users 0 name (ap (window_of name) v.windows ∙ e) in
    let found = search_trace name m.globals.users in
    let run =
      rw (first, message_text_name name text w nz) at
        (process_msg_new (name ++ b' ' ∷ text) m p ps child (rw first absent) (v.spawns ∙ sp) pd) in
    let us = m.globals.users ++ registered name p child ∷ [] in
    let raised = raise_maxfdpl-ge us m.globals.maxfdpl in
    rw run (record {
      result = refl;
      view = record {
        windows =
            windows_of-append m.globals.users (registered name p child ∷ [])
            ∙ ap (windows_of m.globals.users ++◌) (ap (λ n. (n, p.wrt) ∷ []) string)
            ∙ ap (◌++ (name, p.wrt) ∷ []) v.windows;
        spawns = refl;
        holds = v.holds;
        below = omega (arith, v.below);
      };
      reads = refl;
      shown = simp (observed-append, observed-search_trace, append_assoc, string);
    })

pub some-Answer :
    {A : Type 0} {sockfd : ℕ} {m : Machine Client} {t t' : Talk} {fx fx' : List Effect} {a : A}
    {r : Machine Client × Result A}
    → ◌≡◌ {A = Option (Talk × List Effect)} (some (t, fx)) (some (t', fx'))
    → Answer sockfd m t fx a r
    → Answer sockfd m t' fx' a r
some-Answer {sockfd} {m} {t} {t'} {fx} {fx'} {a} {r} e h =
    let same : t ≡ t' = cc e in
    let effects : fx ≡ fx' = cc e in
    Answer-eq effects (subst (λ s. Answer sockfd m s fx a r) same h)

-- A text for a name: to its window, or to a new one.
pub process_msg-Answer :
    (sockfd : ℕ) (name text : Bytes) (m : Machine Client) (t t' : Talk) (fx : List Effect)
    → View sockfd m t
    → IsWord name
    → NoZero text
    → deliver name text t ≡ some (t', fx)
    → Answer sockfd m t' fx tt (process_msg (name ++ b' ' ∷ text) m)
process_msg-Answer sockfd name text m t t' fx v w nz e = at_window (window_of name t.windows) refl e
  where
    at_pid :
        (p : Spawn) (ps : List Spawn) (pid : Option ℕ)
        → window_of name t.windows ≡ none
        → t.spawns ≡ p ∷ ps
        → p.pid ≡ pid
        → forked_window name text t p ps pid ≡ some (t', fx)
        → Answer sockfd m t' fx tt (process_msg (name ++ b' ' ∷ text) m)
    at_pid p ps none absent sp pd now = cc
    at_pid p ps (some child) absent sp pd now =
        some-Answer now (deliver_new sockfd child name text m t p ps v w nz absent sp pd)

    at_spawns :
        (spawns : List Spawn)
        → window_of name t.windows ≡ none
        → t.spawns ≡ spawns
        → open_window name text t spawns ≡ some (t', fx)
        → Answer sockfd m t' fx tt (process_msg (name ++ b' ' ∷ text) m)
    at_spawns [] absent sp now = cc
    at_spawns (p ∷ ps) absent sp now = at_pid p ps p.pid absent sp refl now

    at_window :
        (found : Option ℕ)
        → window_of name t.windows ≡ found
        → deliver_to name text t found ≡ some (t', fx)
        → Answer sockfd m t' fx tt (process_msg (name ++ b' ' ∷ text) m)
    at_window none absent now = at_spawns t.spawns absent refl now
    at_window (some fd) found now =
        some-Answer now (deliver_known sockfd fd name text m t v w nz found)

-- A message of a known verb is answered as `on_verb` does on what follows the verb and a blank.
pub on_message_verb :
    (sockfd : ℕ) (v : ServerVerb) (rest : Bytes) (m : Machine Client)
    → v ≢ unknown_verb
    → on_message sockfd (some (spelling v ++ b' ' ∷ rest)) m ≡ on_verb sockfd v rest m
unfolding on_message word_length
on_message_verb sockfd utsil rest m h = simp (server_verb-spelling utsil rest h)
on_message_verb sockfd ot rest m h = simp (server_verb-spelling ot rest h)
on_message_verb sockfd edne rest m h = simp (server_verb-spelling edne rest h)
on_message_verb sockfd from rest m h = simp (server_verb-spelling from rest h)
on_message_verb sockfd uoff rest m h = simp (server_verb-spelling uoff rest h)
on_message_verb sockfd eyb rest m h = simp (server_verb-spelling eyb rest h)
on_message_verb sockfd unknown_verb rest m h = absurd (h refl)

print_tokens_lem :
    (words : List Bytes) (m : Machine Client)
    → print_tokens words m ≡ (traced m (lines_of words), ok tt)
unfolding print_tokens
print_tokens_lem [] m = rw append-nil
print_tokens_lem (word ∷ words) m =
    let shown = wrote 1 word ∷ wrote 1 (b'\n' ∷ []) ∷ [] in
    simp (append_assoc) (simp (print_tokens_lem words (traced m shown), append_assoc))

observed-lines_of : (words : List Bytes) → observed (lines_of words) ≡ lines_of words
observed-lines_of [] = refl
observed-lines_of (word ∷ words) =
    ap (λ es. wrote 1 word ∷ wrote 1 (b'\n' ∷ []) ∷ es) (observed-lines_of words)

module _ {sockfd : ℕ} {m : Machine Client} {t : Talk} (v : View sockfd m t) where
  pub listed-Answer :
      (names : Bytes)
      → Answer sockfd m t (lines_of (strtok_spaces names)) next (on_verb sockfd utsil names m)
  unfolding on_verb list_users
  listed-Answer names =
      traced-Answer (lines_of (strtok_spaces names))
        (simp (print_tokens_lem (strtok_spaces names) m)) (observed-lines_of (strtok_spaces names))
        v

  pub nobody-Answer :
      (name : Bytes)
      → NoZero name
      → Answer sockfd m t
          (wrote 1 (lit "No, user = ") ∷ wrote 1 name ∷ wrote 1 (lit " exists.\n") ∷ [])
          next
          (on_verb sockfd edne name m)
  unfolding on_verb no_user_exists
  nobody-Answer name nz =
      traced-Answer (wrote 1 (lit "No, user = ") ∷ wrote 1 name ∷ wrote 1 (lit " exists.\n") ∷ [])
        (simp (cstr-NoZero name nz, append_assoc)) refl v

  pub gone-Answer :
      (name : Bytes)
      → NoZero name
      → Answer sockfd m t
          (wrote 1 (lit "Client closed with the name of = ") ∷ wrote 1 name ∷ [])
          next
          (on_verb sockfd uoff name m)
  unfolding on_verb someone_exited
  gone-Answer name nz =
      traced-Answer (wrote 1 (lit "Client closed with the name of = ") ∷ wrote 1 name ∷ [])
        (simp (cstr-NoZero name nz, append_assoc)) refl v

  pub confirm_from-Answer :
      (rest : Bytes)
      → NoZero rest
      → Answer sockfd m t
          (wrote sockfd (lit "MORF " ++ rest ++ ending) ∷ [])
          tt
          (confirm_from sockfd rest m)
  confirm_from-Answer rest nz = elim (Bool-cases (ltb 30 (length rest))) [
    | inl long ↦
        traced-Answer
          (overrun 40 (length rest + 10) ∷ wrote sockfd (lit "MORF " ++ rest ++ ending) ∷ [])
          (simp (confirm_from_lem sockfd rest m nz, long)) refl v
    | inr short ↦
        traced-Answer (wrote sockfd (lit "MORF " ++ rest ++ ending) ∷ [])
          (simp (confirm_from_lem sockfd rest m nz, short)) refl v
  ]
