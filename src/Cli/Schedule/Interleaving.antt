-- ===== src/Cli/Schedule/Interleaving.antt =====
-- What the signals between the rounds leave as it is.
use me2u.Base.{
  ℕ, zero, suc, ◌≡◌, ◌≢◌, refl, ap, sym, ◌∙◌, subst, Bool, not, List, [], ◌∷◌, ◌++◌, Option, none,
  some, modify, append-nil, append_assoc, All,
}
use me2u.System.{M, ◌>>◌, Machine, Effect, Read, Selected, ok}
use me2u.Protocol.{stdin_fd}
use me2u.Cli.State.{User, Client}
use me2u.Cli.Users.{deactivate, deactivate_at, find_user_pid, sigchild_handler}
use me2u.Cli.Chat.{next, chat_round}
use me2u.Cli.Invariant.{IsValid}
use me2u.Cli.Invariant.Windows.{sigchild_handler-IsValid}
use me2u.Cli.Invariant.Loop.{chat_round-Keeps}
use me2u.Cli.Conversation.{
  Talk, Event, respond, play, event_reads, event_select, reads_of, selects_of, IsEvent,
}
use me2u.Cli.Conversation.View.{observed, windows_of, View, Answer}
use me2u.Cli.Conversation.Messages.{with_reads}
use me2u.Cli.Conversation.Events.{chat_round-respond}
use me2u.Cli.Conversation.Refinement.{play_on-some}
use me2u.Cli.Schedule.{Runs, done, round, signal}

-- However the handler of SIGCHLD comes between the rounds of the main loop, for whatever children, and
-- whatever the rounds receive: where the run comes to, the variables are valid, if they were.
pub Runs-IsValid :
    {sockfd : ℕ} {m m' : Machine Client} {eof eof' : Bool} {ss : List Selected}
    → Runs sockfd m eof ss m' eof'
    → IsValid sockfd m
    → IsValid sockfd m'
Runs-IsValid done v = v
Runs-IsValid (round s later e run) v = Runs-IsValid run ((chat_round-Keeps _ s).apply _ v)
Runs-IsValid (signal pids e run) v = Runs-IsValid run (sigchild_handler-IsValid _ pids _ v)

windows_of-deactivate :
    (us : List User) (k : ℕ) → windows_of (modify us k deactivate) ≡ windows_of us
windows_of-deactivate [] k = refl
windows_of-deactivate (u ∷ us) zero = refl
windows_of-deactivate (u ∷ us) (suc k) = ap (◌∷◌ (u.username, u.wrt)) (windows_of-deactivate us k)

-- The machine `m'` shows the same conversation as `m`.
record Undisturbed (sockfd : ℕ) (m m' : Machine Client) (t : Talk) : Type 0 where
  pub view : View sockfd m' t
  pub reads : m'.os.reads ≡ m.os.reads
  pub shown : m'.os.trace ≡ m.os.trace

-- One child, and what `later` does behind it.
child_ended :
    {sockfd : ℕ} {t : Talk} (found : Option ℕ) (later : M Client (Unit {0})) (m : Machine Client)
    → ((m' : Machine Client)
        → View sockfd m' t
        → (later m').1 ≡ ok tt
        → Undisturbed sockfd m' (later m').0 t)
    → View sockfd m t
    → ((deactivate_at found >> later) m).1 ≡ ok tt
    → Undisturbed sockfd m ((deactivate_at found >> later) m).0 t
unfolding deactivate_at
child_ended none later m k v e = cc
child_ended (some i) later m k v e =
    let m' = record m {
      globals = record m.globals { users = modify m.globals.users i deactivate };
    } in
    let rest =
      k m'
        (record {
          windows = windows_of-deactivate m.globals.users i ∙ v.windows;
          spawns = v.spawns;
          holds = v.holds;
          below = v.below;
        })
        e in
    record { view = rest.view; reads = rest.reads; shown = rest.shown }

sigchild_handler-Undisturbed :
    {sockfd : ℕ} {t : Talk} (pids : List ℕ) (m : Machine Client)
    → View sockfd m t
    → (sigchild_handler pids m).1 ≡ ok tt
    → Undisturbed sockfd m (sigchild_handler pids m).0 t
unfolding sigchild_handler
sigchild_handler-Undisturbed [] m v e = record { view = v; reads = refl; shown = refl }
sigchild_handler-Undisturbed (child ∷ rest) m v e =
    child_ended (find_user_pid child m.globals.users) (sigchild_handler rest) m
      (sigchild_handler-Undisturbed rest) v e

-- Where a run has come to.
pub record Reached (m m' : Machine Client) (t : Talk) (fx : List Effect) (sockfd : ℕ) (eof : Bool)
    : Type 0 where
  pub view : View sockfd m' t
  pub input : eof ≡ not t.input
  pub shown : observed m'.os.trace ≡ observed m.os.trace ++ fx

round_at :
    {sockfd : ℕ} {m : Machine Client} {t : Talk} (eof : Bool) (s : Selected) (e : Event) (t' : Talk)
    (fx : List Effect) (rs : List Read)
    → eof ≡ not t.input
    → s ≡ event_select sockfd e
    → View sockfd m t
    → m.os.reads ≡ event_reads e ++ rs
    → IsEvent e
    → sockfd ≢ stdin_fd
    → respond sockfd e t ≡ some (t', fx)
    → Answer sockfd (with_reads m rs) t' fx (next, not t'.input) (chat_round sockfd eof s m)
round_at eof s e t' fx rs at_eof at_s v script valid other first =
    rw (at_eof, at_s) (chat_round-respond v rs e t' fx script valid other first)

-- However the handler of SIGCHLD comes between the rounds of a conversation on which `play` does not
-- give up, for children that are users': where the run comes to, what has been observed, the windows
-- and the user's input are as `play` says, as without the signals. Each message or line comes in one
-- read that has no zero and fits the buffer, names are words, the socket is not the standard input, and
-- the run begins with an empty buffer and the users of the conversation.
pub Runs-play :
    {sockfd : ℕ} {m m' : Machine Client} {eof eof' : Bool} {ss : List Selected}
    → Runs sockfd m eof ss m' eof'
    → (es : List Event) (t t' : Talk) (fx : List Effect) → ss ≡ selects_of sockfd es
    → eof ≡ not t.input
    → View sockfd m t
    → m.os.reads ≡ reads_of es
    → All IsEvent es
    → sockfd ≢ stdin_fd
    → play sockfd es t ≡ some (t', fx)
    → Reached m m' t' fx sockfd eof'
Runs-play {sockfd} {m} done [] t t' fx at_ss at_eof v script valid other played =
    let end : t ≡ t' = cc played in
    let nothing : [] ≡ fx = cc played in
    record {
      view = subst (λ s. View sockfd m s) end v;
      input = at_eof ∙ ap {A = Talk} (λ s. not s.input) end;
      shown = sym (append-nil (observed m.os.trace)) ∙ ap (observed m.os.trace ++◌) nothing;
    }
Runs-play done (e ∷ es) t t' fx at_ss at_eof v script valid other played = cc
Runs-play (round s later stop run) [] t t' fx at_ss at_eof v script valid other played = cc
Runs-play {sockfd} {m} {eof} (round s later stop run) (e ∷ es) t t' fx at_ss at_eof v script valid
      other played =
    let (t1, before, after, first, others, whole) =
      play_on-some (respond sockfd e t) (play sockfd es) t' fx played in
    let now =
      round_at eof s e t1 before (reads_of es) at_eof (cc at_ss) v script valid.0 other first in
    let rest =
      Runs-play run es t1 t' after (cc at_ss) (cc (stop, now.result)) now.view now.reads valid.1
        other others in
    record {
      view = rest.view;
      input = rest.input;
      shown =
          rest.shown
          ∙ ap (◌++ after) now.shown
          ∙ append_assoc (observed m.os.trace) before after
          ∙ ap (observed m.os.trace ++◌) whole;
    }
Runs-play {m} (signal pids stop run) es t t' fx at_ss at_eof v script valid other played =
    let same = sigchild_handler-Undisturbed pids m v stop in
    let rest =
      Runs-play run es t t' fx at_ss at_eof same.view (same.reads ∙ script) valid other played in
    record {
      view = rest.view;
      input = rest.input;
      shown = rest.shown ∙ ap (λ es. observed es ++ fx) same.shown;
    }
