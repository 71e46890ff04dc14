-- ===== src/Cli/Conversation/Refinement.antt =====
-- The main loop on a conversation.
use me2u.Base.{
  ℕ, ◌≡◌, ◌≢◌, refl, ap, sym, ◌∙◌, Bool, not, List, [], ◌∷◌, ◌++◌, none, some, append-nil,
  append_assoc,
}
use me2u.System.{Machine, Effect, Read, Selected, woke, ok, waiting}
use me2u.Protocol.{stdin_fd}
use me2u.Cli.State.{Client}
use me2u.Cli.Users.{set_fd_for_childs}
use me2u.Cli.Login.{clear_read_buf}
use me2u.Cli.Chat.{ask_for, chat_prepare, chat_loop}
use me2u.Cli.Conversation.{Talk, Outcome, play_on, prepend, play, respond}
use me2u.Cli.Conversation.View.{observed, View, Answer, Answer-pure}
use me2u.Cli.Invariant.{IsValid}
use me2u.Cli.Conversation.Arrivals.{
  Arrival, AreArrivals, Arrived, arrival_reads, arrival_selects, events_of, all_reads, all_selects,
  chat_loop-respond,
}
use me2u.Cli.Conversation.Answers.{some-Answer}
use me2u.Cli.Conversation.Rounds.{took-View}
use me2u.Cli.Conversation.Parting.{Farewell, farewell_read, parting, chat_loop-parting}

pub play_on-some :
    (o : Outcome) (f : Talk → Outcome) (t' : Talk) (fx : List Effect)
    → play_on o f ≡ some (t', fx)
    → (t1 : Talk) × (before : List Effect) × (after : List Effect) × (o ≡ some (t1, before))
      × (f t1 ≡ some (t', after))
      × (before ++ after ≡ fx)
play_on-some none f t' fx e = cc
play_on-some (some (t1, before)) f t' fx e = with_rest (f t1) refl e
  where
    with_rest :
        (later : Outcome)
        → f t1 ≡ later
        → prepend before later ≡ some (t', fx)
        → (t1' : Talk) × (before' : List Effect) × (after : List Effect) × (◌≡◌ {A = Outcome}
            (some (t1, before))
            (some (t1', before')))
          × (f t1' ≡ some (t', after))
          × (before' ++ after ≡ fx)
    with_rest none same e = cc
    with_rest (some (t2, after)) same e =
        let end : t2 ≡ t' = cc e in
        (t1, before, after, refl, same ∙ ap (λ s. some (s, after)) end, cc e)

-- The loop goes through a conversation, whatever comes behind it.
pub chat_loop_prefix :
    (sockfd : ℕ) (arrivals : List Arrival) (more : List Selected) (rs : List Read)
    (m : Machine Client) (t t' : Talk) (fx : List Effect)
    → View sockfd m t
    → IsValid sockfd m
    → m.os.reads ≡ all_reads arrivals ++ rs
    → AreArrivals arrivals
    → sockfd ≢ stdin_fd
    → play sockfd (events_of arrivals) t ≡ some (t', fx)
    → Arrived sockfd m t t' fx rs (all_selects sockfd arrivals) more
chat_loop_prefix sockfd [] more rs m t t' fx v valid script fit other e =
    let end : t ≡ t' = cc e in
    let now = some-Answer e (Answer-pure {m = m} tt v) in
    record {
      after = m;
      shows = record { result = refl; view = now.view; reads = script; shown = now.shown };
      valid = valid;
      run = ap {A = Talk} (λ s. chat_loop sockfd (not s.input) more m) end;
    }
chat_loop_prefix sockfd (a ∷ rest) more rs m t t' fx v valid script (fits, fit) other played =
    let (t1, before, after, first, others, whole) =
      play_on-some (respond sockfd a.event t) (play sockfd (events_of rest)) t' fx played in
    let here = arrival_selects sockfd a.event a.parts in
    let now =
      chat_loop-respond a.event a.parts (all_selects sockfd rest ++ more) (all_reads rest ++ rs) t1
        before v valid other
        (script ∙ append_assoc (arrival_reads a.event a.parts) (all_reads rest) rs) fits first in
    let later =
      chat_loop_prefix sockfd rest more rs now.after t1 t' after now.shows.view now.valid
        now.shows.reads fit other others in
    record {
      after = later.after;
      shows = record {
        result = refl;
        view = later.shows.view;
        reads = later.shows.reads;
        shown =
            later.shows.shown
            ∙ ap (◌++ after) now.shows.shown
            ∙ append_assoc (observed m.os.trace) before after
            ∙ ap (observed m.os.trace ++◌) whole;
      };
      valid = later.valid;
      run =
          ap (λ ss. chat_loop sockfd (not t.input) ss m)
            (append_assoc here (all_selects sockfd rest) more)
          ∙ now.run
          ∙ later.run;
    }

-- The loop waits for its next input.
chat_loop-block :
    (sockfd : ℕ) (eof : Bool) (m : Machine Client) (t : Talk)
    → View sockfd m t
    → Answer sockfd m t [] tt ((chat_loop sockfd eof [] m).0, ok tt)
      × ((chat_loop sockfd eof [] m).1 ≡ waiting)
unfolding chat_loop chat_prepare clear_read_buf ask_for set_fd_for_childs
chat_loop-block sockfd eof m t v =
    let v' = took-View v sockfd eof [] m.os.reads in
    (
      record {
        result = refl;
        view = record {
          windows = v'.windows;
          spawns = v'.spawns;
          holds = v'.holds;
          below = v'.below;
        };
        reads = refl;
        shown = rw append-nil;
      },
      refl,
    )

-- On a conversation on which `play` does not give up, the main loop does what `play` says: it writes,
-- opens windows and closes its input as that lists them and in that order, has the windows that it
-- gives, and then waits for the next input. The messages of the server, the lines of the user and the
-- timeouts of `select` come in any order. A line comes in one read, and a message in one or, if it is a
-- single line, cut anywhere behind its fourth byte into reads that follow each other; no read has a zero
-- or fills the buffer, and names are words. The socket is not the standard input, and the loop begins
-- with valid variables, an empty buffer and the users of the conversation. Accesses out of bounds, which are
-- taken to do no harm, and reports on the client's own terminal are left out of what is observed.
pub chat_loop-play :
    (sockfd : ℕ) (arrivals : List Arrival) (m : Machine Client) (t t' : Talk) (fx : List Effect)
    → View sockfd m t
    → IsValid sockfd m
    → m.os.reads ≡ all_reads arrivals
    → AreArrivals arrivals
    → sockfd ≢ stdin_fd
    → play sockfd (events_of arrivals) t ≡ some (t', fx)
    → ((chat_loop sockfd (not t.input) (all_selects sockfd arrivals) m).1 ≡ waiting)
      × View sockfd (chat_loop sockfd (not t.input) (all_selects sockfd arrivals) m).0 t'
      × (observed (chat_loop sockfd (not t.input) (all_selects sockfd arrivals) m).0.os.trace
          ≡ observed m.os.trace ++ fx)
chat_loop-play sockfd arrivals m t t' fx v at_start script fit other played =
    let now =
      chat_loop_prefix sockfd arrivals [] [] m t t' fx v at_start
        (script ∙ sym (append-nil (all_reads arrivals))) fit other played in
    let (later, end) = chat_loop-block sockfd (not t'.input) now.after t' now.shows.view in
    let exact = rw (append-nil (all_selects sockfd arrivals)) at now.run in
    rw exact
      (end, later.view, later.shown ∙ append-nil (observed now.after.os.trace) ∙ now.shows.shown)

-- On a conversation on which `play` does not give up and the server's leave behind it: the main loop
-- ends on `EYB`, and on the end of the connection if the user's input is closed; on the end of the
-- connection before that, the program exits with code 1. What is observed is what `play` gives, and
-- nothing more. The loop begins with valid variables, an empty buffer and the users of the conversation;
-- a line comes in one read, a message in one or, if it is a single line, cut anywhere behind its fourth
-- byte into reads that follow each other; no read has a zero or fills the buffer, names are words, and
-- the socket is not the standard input.
pub chat_loop_farewell :
    (sockfd : ℕ) (arrivals : List Arrival) (f : Farewell) (rest : List Selected) (rs : List Read)
    (m : Machine Client) (t t' : Talk) (fx : List Effect)
    → View sockfd m t
    → IsValid sockfd m
    → m.os.reads ≡ all_reads arrivals ++ farewell_read f ∷ rs
    → AreArrivals arrivals
    → sockfd ≢ stdin_fd
    → play sockfd (events_of arrivals) t ≡ some (t', fx)
    → ((chat_loop sockfd
          (not t.input)
          (all_selects sockfd arrivals ++ woke (sockfd ∷ []) ∷ rest)
          m).1
        ≡ parting f t'.input)
      × (observed
            (chat_loop sockfd
              (not t.input)
              (all_selects sockfd arrivals ++ woke (sockfd ∷ []) ∷ rest)
              m).0.os.trace
          ≡ observed m.os.trace ++ fx)
chat_loop_farewell sockfd arrivals f rest rs m t t' fx v at_start script fit other played =
    let now =
      chat_loop_prefix sockfd arrivals (woke (sockfd ∷ []) ∷ rest) (farewell_read f ∷ rs) m t t' fx
        v at_start script fit other played in
    let end = chat_loop-parting now.shows.view rs rest f now.shows.reads in
    rw now.run (end.result, end.shown ∙ now.shows.shown)
