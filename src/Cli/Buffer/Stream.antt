-- ===== src/Cli/Buffer/Stream.antt =====
-- Many messages, one after the other, through the buffer.
use me2u.Base.{
  ◌+◌, ◌-◌, ◌≤◌, ◌<◌, ◌≡◌, ◌≢◌, refl, sym, ap, ◌∙◌, false, List, [], ◌∷◌, ◌++◌, none, some, arith,
  take, length, length-append, append-nil, append_assoc, All, Bool-cases, inl, inr,
}
use me2u.CString.{Bytes, cstr, strlen}
use me2u.CString.Laws.{cstr-NoZero, strlen-NoZero}
use me2u.System.{M, Machine, ok, ◌>>=◌, pure}
use me2u.Protocol.{maxline, ending}
use me2u.Cli.State.{Client}
use me2u.Cli.Buffer.{ends_with_ending, process_string}
use me2u.Cli.Buffer.Ending.{ends_with_ending-eq}
use me2u.Cli.Buffer.Framing.{Holds, with_text}
use me2u.Cli.Buffer.Messages.{
  flatten, IsChunk, EndsOnce, append-ne-nil, after_read, after_read-Holds, process_string-none,
  process_string-some,
}

-- A text of one line.
abbrev pub OneLine : Bytes → Type 0
OneLine msg = All (λ c. c ≢ b'\n') msg

-- In a line with its ending, "\r\n\r\n" stands at the end only.
ending_last : (msg p q : Bytes) → OneLine msg → msg ++ ending ≡ p ++ (ending ++ q) → q ≡ []
ending_last [] [] q one e = cc
ending_last [] (x ∷ p) q one e = absurd (omega (arith, ap length e, length-append p (ending ++ q)))
ending_last (x ∷ []) [] q one e = absurd (ground arith)
ending_last (x ∷ y ∷ msg) [] q one e = absurd (one.1.0 (cc))
ending_last (x ∷ msg) (y ∷ p) q one e = ending_last msg p q one.1 (cc)

pub OneLine-EndsOnce : (msg : Bytes) → OneLine msg → EndsOnce msg
OneLine-EndsOnce msg one p q e ne = elim (Bool-cases (ends_with_ending p)) [
  | inl early ↦
      let p' = take (length p - 4) p in
      absurd (
        ne (
          ending_last msg p' q one
            (e ∙ ap (◌++ q) (ends_with_ending-eq p early) ∙ append_assoc p' ending q)))
  | inr fine ↦ fine
]

-- `process_string` on one read after the other: the messages that it reports.
pub messages : List Bytes → M Client (List Bytes)
messages [] = pure []
messages (b ∷ bs) =
    let later = messages bs in
    process_string b >>= λ r. elim r [ some msg ↦ later >>= λ ms. pure (msg ∷ ms) | none ↦ later ]

-- A message, and the reads in which it comes: the first one, and the others.
pub record Delivery : Type 0 where
  pub msg : Bytes
  pub first : Bytes
  pub others : List Bytes

-- The reads together are the message, a single line, with its ending; the first has four bytes.
pub record IsDelivery (d : Delivery) : Type 0 where
  pub chunks : All IsChunk (d.first ∷ d.others)
  pub line : OneLine d.msg
  pub enough : 4 ≤ length d.first
  pub whole : flatten (d.first ∷ d.others) ≡ d.msg ++ ending

abbrev pub reads_of : List Delivery → List Bytes
reads_of [] = []
reads_of (d ∷ ds) = (d.first ∷ d.others) ++ reads_of ds

abbrev pub texts_of : List Delivery → List Bytes
texts_of [] = []
texts_of (d ∷ ds) = d.msg ∷ texts_of ds

-- The machine with an empty buffer, which is a new one if there was a message.
abbrev pub emptied : List Delivery → Machine Client → Machine Client
emptied [] m = m
emptied (d ∷ ds) m = with_text m [] maxline

emptied-Holds : (m : Machine Client) → Holds (with_text m [] maxline).globals []
emptied-Holds m = record {
  text_is = refl;
  no_zero = tt;
  has_room = omega arith;
  size_ge = omega arith;
}

emptied-emptied :
    (ds : List Delivery) (m : Machine Client)
    → emptied ds (with_text m [] maxline) ≡ with_text m [] maxline
emptied-emptied [] m = refl
emptied-emptied (d ∷ ds) m = refl

messages_from :
    (m : Machine Client) (t b msg : Bytes) (bs more : List Bytes)
    → Holds m.globals t
    → All IsChunk (b ∷ bs)
    → EndsOnce msg
    → 4 ≤ length t + length b
    → t ++ flatten (b ∷ bs) ≡ msg ++ ending
    → messages ((b ∷ bs) ++ more) m
      ≡ (messages more >>= λ ms. pure (msg ∷ ms)) (with_text m [] maxline)
unfolding messages
messages_from m t b msg [] more h ((nz, ne, lt), _) once four e =
    let whole : t ++ cstr b ≡ msg ++ ending =
      ap (t ++◌) (cstr-NoZero b nz ∙ sym (append-nil b)) ∙ e in
    simp (process_string-some m t b msg h (omega (arith, strlen-NoZero b nz)) whole)
messages_from m t b msg (c ∷ bs) more h ((nz, ne, lt), rest) once four e =
    let same : t ++ cstr b ≡ t ++ b = ap (t ++◌) (cstr-NoZero b nz) in
    let short : strlen b < maxline = omega (arith, strlen-NoZero b nz) in
    let cut : (t ++ cstr b) ++ flatten (c ∷ bs) ≡ msg ++ ending =
      ap (◌++ flatten (c ∷ bs)) same ∙ append_assoc t b _ ∙ e in
    let unfinished : ends_with_ending (t ++ cstr b) ≡ false =
      once (t ++ cstr b) (flatten (c ∷ bs)) (sym cut) (append-ne-nil c (flatten bs) rest.0.1) in
    let long : 4 ≤ length (t ++ cstr b) = rw same (omega (arith, length-append t b)) in
    simp (
      process_string-none m t b h short long unfinished,
      messages_from (after_read m t b) (t ++ cstr b) c msg bs more
          (after_read-Holds m t b h (omega arith)) rest once (omega arith) cut,
    )

-- Each message of a stream is reported once, in order and without its ending, however it is cut into
-- reads that hold no zero, fit the buffer and do not reach into the next message, the first of each
-- with four bytes at least, where every message is a single line; the buffer is empty behind the
-- last, and the trace has no new effect, so nothing was accessed out of bounds.
pub messages-texts_of :
    (ds : List Delivery) (m : Machine Client)
    → Holds m.globals []
    → All IsDelivery ds
    → messages (reads_of ds) m ≡ (emptied ds m, ok (texts_of ds))
unfolding messages
messages-texts_of [] m h ok_all = refl
messages-texts_of (d ∷ ds) m h (v, vs) =
    let next = with_text m [] maxline in
    simp (
      messages_from m [] d.first d.msg d.others (reads_of ds) h v.chunks
          (OneLine-EndsOnce d.msg v.line) (omega (arith, v.enough)) v.whole,
      messages-texts_of ds next (emptied-Holds m) vs,
      emptied-emptied ds m,
    )
