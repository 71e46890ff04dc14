-- ===== src/Cli/Conversation/Arrivals.antt =====
-- The events of a conversation as they arrive: a message of the server may come in several reads.
use me2u.Base.{
  ℕ, ◌≤◌, ◌≡◌, ◌≢◌, refl, ap, ◌∙◌, not, List, [], ◌∷◌, ◌++◌, some, length, drop, append_assoc, All,
}
use me2u.CString.{Bytes, NoZero}
use me2u.System.{Machine, Effect, Read, got, Selected, woke, ok}
use me2u.Protocol.{ending, stdin_fd}
use me2u.Cli.State.{Client}
use me2u.Cli.Buffer.Messages.{flatten, IsChunk}
use me2u.Cli.Buffer.Stream.{OneLine, OneLine-EndsOnce}
use me2u.Cli.Chat.{next, chat_round, chat_loop}
use me2u.Cli.Invariant.{IsValid}
use me2u.Cli.Invariant.Loop.{chat_round-Keeps}
use me2u.Cli.Conversation.{
  Talk, Event, respond, event_bytes, event_reads, event_select, IsEvent, NameIsWord,
}
use me2u.Cli.Conversation.View.{observed, View, Answer}
use me2u.Cli.Conversation.Messages.{with_reads, FromServer, message-respond}
use me2u.Cli.Conversation.Events.{chat_round-respond}
use me2u.Cli.Conversation.Parting.{chat_loop-next}
use me2u.Cli.Conversation.Chunks.{gots, wakes, chat_loop_chunks}

-- An event, with the reads that bring its first bytes; one more brings the others. Mostly there are
-- none, and one read brings all of it.
pub record Arrival : Type 0 where
  pub event : Event
  pub parts : List Bytes

abbrev pub last_part : Event → List Bytes → Bytes
last_part e parts = drop (length (flatten parts)) (event_bytes e)

abbrev pub arrival_reads : Event → List Bytes → List Read
arrival_reads e [] = event_reads e
arrival_reads e (b ∷ bs) = gots (b ∷ bs) ++ got (last_part e (b ∷ bs)) ∷ []

abbrev pub arrival_selects : ℕ → Event → List Bytes → List Selected
arrival_selects sockfd e [] = event_select sockfd e ∷ []
arrival_selects sockfd e (b ∷ bs) = wakes sockfd (b ∷ bs) ++ woke (sockfd ∷ []) ∷ []

-- A message of one line that the server sends, cut into reads that fit the buffer, the first of them
-- with four bytes at least.
pub record IsCut (e : Event) (b : Bytes) (bs : List Bytes) : Type 0 where
  pub sent : FromServer e
  pub name : NameIsWord e
  pub no_zero : NoZero (event_bytes e)
  pub msg : Bytes
  pub line : OneLine msg
  pub message : event_bytes e ≡ msg ++ ending
  pub chunks : All IsChunk (b ∷ bs)
  pub enough : 4 ≤ length b
  pub last : IsChunk (last_part e (b ∷ bs))
  pub whole : flatten (b ∷ bs) ++ last_part e (b ∷ bs) ≡ event_bytes e

abbrev pub IsArrival : Event → List Bytes → Type 0
IsArrival e [] = IsEvent e
IsArrival e (b ∷ bs) = IsCut e b bs

abbrev pub AreArrivals : List Arrival → Type 0
AreArrivals = All (λ a. IsArrival a.event a.parts)

abbrev pub events_of : List Arrival → List Event
events_of [] = []
events_of (a ∷ rest) = a.event ∷ events_of rest

abbrev pub all_reads : List Arrival → List Read
all_reads [] = []
all_reads (a ∷ rest) = arrival_reads a.event a.parts ++ all_reads rest

abbrev pub all_selects : ℕ → List Arrival → List Selected
all_selects sockfd [] = []
all_selects sockfd (a ∷ rest) = arrival_selects sockfd a.event a.parts ++ all_selects sockfd rest

-- Where the loop stands after an event: at the machine `m'`, with the input as in `t'`.
pub record Arrived (sockfd : ℕ) (m : Machine Client) (t t' : Talk) (fx : List Effect)
    (rs : List Read) (here more : List Selected) : Type 0 where
  pub after : Machine Client
  pub shows : Answer sockfd (with_reads m rs) t' fx tt (after, ok tt)
  pub valid : IsValid sockfd after
  pub run :
      chat_loop sockfd (not t.input) (here ++ more) m ≡ chat_loop sockfd (not t'.input) more after

one_round :
    {sockfd : ℕ} {m : Machine Client} {t t' : Talk} {fx : List Effect} {rs : List Read}
    (s : Selected) (more : List Selected)
    → IsValid sockfd m
    → Answer sockfd
        (with_reads m rs)
        t'
        fx
        (next, not t'.input)
        (chat_round sockfd (not t.input) s m)
    → Arrived sockfd m t t' fx rs (s ∷ []) more
one_round {sockfd} {m} {t} {t'} s more valid h = record {
  after = (chat_round sockfd (not t.input) s m).0;
  shows = record { result = refl; view = h.view; reads = h.reads; shown = h.shown };
  valid = (chat_round-Keeps (not t.input) s).apply m valid;
  run = chat_loop-next sockfd (not t.input) (not t'.input) s more m h.result;
}

pub chat_loop-respond :
    {sockfd : ℕ} {m : Machine Client} {t : Talk} (e : Event) (parts : List Bytes)
    (more : List Selected) (rs : List Read) (t' : Talk) (fx : List Effect)
    → View sockfd m t
    → IsValid sockfd m
    → sockfd ≢ stdin_fd
    → m.os.reads ≡ arrival_reads e parts ++ rs
    → IsArrival e parts
    → respond sockfd e t ≡ some (t', fx)
    → Arrived sockfd m t t' fx rs (arrival_selects sockfd e parts) more
chat_loop-respond {sockfd} e [] more rs t' fx v valid other script fits now =
    one_round (event_select sockfd e) more valid
      (chat_round-respond v rs e t' fx script fits other now)
chat_loop-respond {sockfd} {m} {t} e (b ∷ bs) more rs t' fx v valid other script cut now =
    let last = last_part e (b ∷ bs) in
    let (m1, kept, run) =
      chat_loop_chunks (b ∷ bs) last cut.msg [] (woke (sockfd ∷ []) ∷ more) (got last ∷ rs)
        (not t.input) m v valid other (script ∙ append_assoc (gots (b ∷ bs)) (got last ∷ []) rs)
        cut.chunks cut.enough (OneLine-EndsOnce cut.msg cut.line) cut.last.1
        (cut.whole ∙ cut.message) in
    let final = one_round {t = t} (woke (sockfd ∷ [])) more kept.valid (
      message-respond kept.view last rs e t' fx cut.sent
        (record {
          script = kept.reads;
          completes = cut.whole;
          no_zero = cut.last.0;
          some_bytes = cut.last.1;
          fits = cut.last.2;
        })
        cut.no_zero cut.name now) in
    record {
      after = final.after;
      shows = record {
        result = refl;
        view = final.shows.view;
        reads = final.shows.reads;
        shown = final.shows.shown ∙ ap (λ es. observed es ++ fx) kept.shown;
      };
      valid = final.valid;
      run =
          ap (λ ss. chat_loop sockfd (not t.input) ss m)
            (append_assoc (wakes sockfd (b ∷ bs)) (woke (sockfd ∷ []) ∷ []) more)
          ∙ run
          ∙ final.run;
    }
