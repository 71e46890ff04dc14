-- ===== src/Cli/Conversation/Server.antt =====
-- The messages of the server that concern a user by name.
use me2u.Base.{
  ℕ, zero, suc, ◌+◌, ◌≡◌, refl, ap, ◌∙◌, List, [], ◌∷◌, ◌++◌, Option, none, some, arith, modify,
  append-nil,
}
use me2u.CString.{Bytes, lit, NoZero}
use me2u.CString.Laws.{NoZero-append}
use me2u.System.{Machine, Effect, wrote, pure, continue_with}
use me2u.Protocol.{ending}
use me2u.Cli.State.{User, Client}
use me2u.Cli.Text.{from, ot}
use me2u.Cli.Users.{process_msg, msg_confirmed, confirm, confirm_at}
use me2u.Cli.Users.Lookup.{search_trace, find_user_lem}
use me2u.Cli.Chat.{next, on_verb, confirm_from}
use me2u.Cli.Conversation.{Talk, window_of, Outcome, deliver, and_then, receipt, IsWord}
use me2u.Cli.Conversation.View.{
  observed, observed-append, windows_of, View, Answer, Answer-pure, Answer-eq, >>=-Answer,
}
use me2u.Cli.Conversation.Names.{NoZero-IsWord, observed-search_trace, position_of_some}
use me2u.Cli.Conversation.Answers.{some-Answer, process_msg-Answer, confirm_from-Answer}

pub and_then-some :
    (o : Outcome) (es : List Effect) (t : Talk) (fx : List Effect)
    → and_then o es ≡ some (t, fx)
    → (gx : List Effect) × (o ≡ some (t, gx)) × (gx ++ es ≡ fx)
and_then-some none es t fx e = cc
and_then-some (some (s, gx)) es t fx e =
    let same : s ≡ t = cc e in (gx, ap (λ x. some (x, gx)) same, cc e)

windows_of-modify : (us : List User) (k : ℕ) → windows_of (modify us k confirm) ≡ windows_of us
windows_of-modify [] k = refl
windows_of-modify (u ∷ us) zero = refl
windows_of-modify (u ∷ us) (suc k) = ap (◌∷◌ (u.username, u.wrt)) (windows_of-modify us k)

module _ {sockfd : ℕ} {m : Machine Client} {t : Talk} (v : View sockfd m t) where
  -- A text is shown in its window, and answered.
  pub said-Answer :
      (name text : Bytes) (t' : Talk) (fx : List Effect)
      → IsWord name
      → NoZero text
      → and_then
          (deliver name text t)
          (wrote sockfd (lit "MORF " ++ (name ++ b' ' ∷ text) ++ ending) ∷ [])
        ≡ some (t', fx)
      → Answer sockfd m t' fx next (on_verb sockfd from (name ++ b' ' ∷ text) m)
  unfolding on_verb
  said-Answer name text t' fx w nz e =
      let reply = wrote sockfd (lit "MORF " ++ (name ++ b' ' ∷ text) ++ ending) ∷ [] in
      let (gx, sent, all) = and_then-some (deliver name text t) reply t' fx e in
      let rest = name ++ b' ' ∷ text in
      let string : NoZero rest =
        NoZero-append name (b' ' ∷ text) (NoZero-IsWord name w) ((omega arith), nz) in
      Answer-eq (append-nil (gx ++ reply) ∙ all) (
        >>=-Answer (continue_with (process_msg rest m) (λ _. confirm_from sockfd rest))
          (λ _. pure next)
          (>>=-Answer (process_msg rest m) (λ _. confirm_from sockfd rest)
            (process_msg-Answer sockfd name text m t t' gx v w nz sent)
            (λ m' rs v'. confirm_from-Answer v' rest string))
          (λ m' rs v'. Answer-pure next v'))

  confirmed :
      (name : Bytes) (fd : ℕ)
      → window_of name t.windows ≡ some fd
      → Answer sockfd m t [] next (on_verb sockfd ot name m)
  unfolding on_verb msg_confirmed confirm_at
  confirmed name fd e =
      let (k, u, found, at, wrt) =
        position_of_some m.globals.users 0 name fd (ap (window_of name) v.windows ∙ e) in
      simp (find_user_lem name m, found)
        (record {
          result = refl;
          view = record {
            windows = windows_of-modify m.globals.users (0 + k) ∙ v.windows;
            spawns = v.spawns;
            holds = v.holds;
            below = v.below;
          };
          reads = refl;
          shown =
              observed-append m.os.trace (search_trace name m.globals.users)
              ∙ ap (observed m.os.trace ++◌) (observed-search_trace name m.globals.users);
        })

  -- A receipt for a user with a window changes nothing that can be observed.
  pub delivered-Answer :
      (name : Bytes) (t' : Talk) (fx : List Effect)
      → receipt t (window_of name t.windows) ≡ some (t', fx)
      → Answer sockfd m t' fx next (on_verb sockfd ot name m)
  delivered-Answer name t' fx e = at (window_of name t.windows) refl e
    where
      at :
          (found : Option ℕ)
          → window_of name t.windows ≡ found
          → receipt t found ≡ some (t', fx)
          → Answer sockfd m t' fx next (on_verb sockfd ot name m)
      at none f now = cc
      at (some fd) f now = some-Answer now (confirmed name fd f)
