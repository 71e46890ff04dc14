-- ===== src/Cli/Conversation/Failures.antt =====
-- Events on which the client ends the program, and what it does on them.
use me2u.Base.{
  ℕ, ◌+◌, ◌≡◌, refl, ap, ◌∙◌, true, false, List, [], ◌∷◌, ◌++◌, none, append-nil, append_assoc, ltb,
  Bool-cases, inl, inr,
}
use me2u.CString.{Bytes, lit}
use me2u.System.{
  M, Machine, Result, Effect, reported, overrun, shut_wr, Spawn, exited, traced, pure, fd_clr,
  continue_with,
}
use me2u.Protocol.{maxline, ending, stdin_fd}
use me2u.Cli.State.{Client}
use me2u.Cli.Text.{word_length, ot, from, unknown_command, user_command}
use me2u.Cli.Text.Verbs.{first_word}
use me2u.Cli.Users.{process_msg, user_or_new, msg_confirmed, confirm_at}
use me2u.Cli.Users.Lookup.{position, search_trace, find_user_lem}
use me2u.Cli.Users.Windows.{linked, create_new_user_failed}
use me2u.Cli.Chat.{
  next, confirm_from, is_command, close_input, run_command, on_command, on_line, on_verb,
}
use me2u.Cli.Conversation.{Talk, window_of, IsWord}
use me2u.Cli.Conversation.View.{observed, observed-append, View}
use me2u.Cli.Conversation.Names.{first_word_name, observed-search_trace, position_of_none}
use me2u.Cli.Conversation.Parting.{continue_with-exited}

-- A receipt for a user without a window, a message for whose window `fork` fails, and a line that
-- begins with '/' and is no command.
pub data Failure : Type 0 where
  unknown_receipt : Bytes → Failure
  no_fork : Bytes → Bytes → Failure
  no_command : Bytes → Failure

abbrev pub failure_bytes : Failure → Bytes
failure_bytes (unknown_receipt name) = (lit "OT " ++ name) ++ ending
failure_bytes (no_fork name text) = (lit "FROM " ++ (name ++ b' ' ∷ text)) ++ ending
failure_bytes (no_command line) = line

abbrev pub failure_fd : ℕ → Failure → ℕ
failure_fd sockfd (no_command line) = stdin_fd
failure_fd sockfd _ = sockfd

abbrev pub ForkFails : List Spawn → Type 0
ForkFails [] = ⊥
ForkFails (p ∷ ps) = p.pid ≡ none

-- That it is one, in the conversation `t`.
abbrev pub FailsIn : Talk → Failure → Type 0
FailsIn t (unknown_receipt name) = window_of name t.windows ≡ none
FailsIn t (no_fork name text) = IsWord name × (window_of name t.windows ≡ none) × ForkFails t.spawns
FailsIn t (no_command line) =
    (t.input ≡ true) × (is_command line ≡ true) × (user_command line ≡ unknown_command)

-- What is observed of it: a bad line closes the client's end of the connection.
abbrev pub failure_effects : ℕ → Failure → List Effect
failure_effects sockfd (no_command line) = shut_wr sockfd ∷ []
failure_effects sockfd _ = []

-- The run `r` from `m` ends the program with code 1.
pub record Fails {A : Type 0} (m : Machine Client) (fx : List Effect)
    (r : Machine Client × Result A) : Type 0 where
  pub result : r.1 ≡ exited 1
  pub shown : observed r.0.os.trace ≡ observed m.os.trace ++ fx

pub continue_with-Fails :
    {A B : Type 0} {m : Machine Client} {fx : List Effect} (r : Machine Client × Result A)
    (f : A → M Client B)
    → Fails m fx r
    → Fails m fx (continue_with r f)
continue_with-Fails r f h =
    rw (continue_with-exited r f 1 h.result) (record { result = refl; shown = h.shown })

-- A run that is known and exits.
traced-Fails :
    {A : Type 0} {m : Machine Client} {fx : List Effect} {r : Machine Client × Result A}
    (m' : Machine Client) (es : List Effect)
    → r ≡ (m', exited 1)
    → m'.os.trace ≡ m.os.trace ++ es
    → observed es ≡ fx
    → Fails m fx r
traced-Fails {m} m' es e trace o = rw e (record {
  result = refl;
  shown = ap observed trace ∙ observed-append m.os.trace es ∙ ap (observed m.os.trace ++◌) o;
})

-- The program where `fork` fails for the window of a name that is not listed.
process_msg_failed :
    (msg : Bytes) (m : Machine Client) (p : Spawn) (ps : List Spawn)
    → position 0 (first_word msg) m.globals.users ≡ none
    → m.os.spawns ≡ p ∷ ps
    → p.pid ≡ none
    → Fails m [] (process_msg msg m)
unfolding process_msg user_or_new
process_msg_failed msg m p ps absent sp pd =
    let name = first_word msg in
    let looked = traced m (search_trace name m.globals.users) in
    let last =
      reported (lit "right b4 fork") ∷ reported (lit "Error while forking to start xterm") ∷ [] in
    traced-Fails
      (traced (record (linked looked name) { os = record looked.os { spawns = ps } }) last)
      (search_trace name m.globals.users ++ last)
      (simp (find_user_lem name m, absent, create_new_user_failed name looked p ps sp pd))
      (append_assoc m.os.trace (search_trace name m.globals.users) last)
      (observed-append (search_trace name m.globals.users) last
        ∙ append-nil (observed (search_trace name m.globals.users))
        ∙ observed-search_trace name m.globals.users)

-- The machine with the input taken out of the set, and more effects.
abbrev closed_off : Machine Client → List Effect → Machine Client
closed_off m es =
    traced (record m { globals = record m.globals { rset = fd_clr stdin_fd m.globals.rset } }) es

module _ {sockfd : ℕ} {m : Machine Client} {t : Talk} (v : View sockfd m t) where
  pub receipt-Fails :
      (name : Bytes) → window_of name t.windows ≡ none → Fails m [] (on_verb sockfd ot name m)
  unfolding on_verb msg_confirmed confirm_at
  receipt-Fails name e =
      let absent = position_of_none m.globals.users 0 name (ap (window_of name) v.windows ∙ e) in
      let es =
        search_trace name m.globals.users
        ++ reported (lit "Got msg confirm msg for a user that never existed") ∷ [] in
      traced-Fails (traced m es) es (simp (find_user_lem name m, absent, append_assoc)) refl (
        observed-append (search_trace name m.globals.users) _
        ∙ append-nil (observed (search_trace name m.globals.users))
        ∙ observed-search_trace name m.globals.users)

  no_fork-Fails :
      (name text : Bytes)
      → IsWord name
      → window_of name t.windows ≡ none
      → ForkFails t.spawns
      → Fails m [] (process_msg (name ++ b' ' ∷ text) m)
  unfolding process_msg user_or_new
  no_fork-Fails name text w e f = at_spawns t.spawns refl f
    where
      at_spawns :
          (spawns : List Spawn)
          → t.spawns ≡ spawns
          → ForkFails spawns
          → Fails m [] (process_msg (name ++ b' ' ∷ text) m)
      at_spawns [] sp f = absurd f
      at_spawns (p ∷ ps) sp f =
          let absent =
            position_of_none m.globals.users 0 name (ap (window_of name) v.windows ∙ e) in
          process_msg_failed (name ++ b' ' ∷ text) m p ps (rw (first_word_name name text w) absent)
            (v.spawns ∙ sp) f

  pub no_command-Fails :
      (line : Bytes)
      → is_command line ≡ true
      → user_command line ≡ unknown_command
      → Fails m (shut_wr sockfd ∷ []) (on_line sockfd false line m)
  unfolding on_line run_command on_command close_input
  no_command-Fails line c u =
      let last = shut_wr sockfd ∷ reported (lit "Client sent msg that cannot be understood") ∷ [] in
      let word = word_length line + 1 in
      elim (Bool-cases (ltb maxline word)) [
        | inl over ↦
            let es = overrun maxline word ∷ last in
            traced-Fails (closed_off m es) es (simp (c, u, over, append_assoc)) refl refl
        | inr within ↦
            traced-Fails (closed_off m last) last (simp (c, u, within, append_assoc)) refl refl
      ]

  pub said-Fails :
      (name text : Bytes)
      → IsWord name
      → window_of name t.windows ≡ none
      → ForkFails t.spawns
      → Fails m [] (on_verb sockfd from (name ++ b' ' ∷ text) m)
  unfolding on_verb
  said-Fails name text w absent f =
      let rest = name ++ b' ' ∷ text in
      continue_with-Fails (continue_with (process_msg rest m) (λ _. confirm_from sockfd rest))
        (λ _. pure next)
        (continue_with-Fails (process_msg rest m) (λ _. confirm_from sockfd rest)
          (no_fork-Fails name text w absent f))
