-- ===== src/Cli/Buffer/Messages.antt =====
-- How `process_string` puts the messages together again from what the reads bring.
use me2u.Base.{
  ◌+◌, ◌-◌, ◌≤◌, ◌<◌, ◌≡◌, refl, sym, ap, ◌∙◌, ◌≢◌, false, List, [], ◌∷◌, ◌++◌, Option, none, some,
  arith, ltb, inl, inr, if◌then◌else◌, length, take, length-append, take-append, append-nil,
  append_assoc, All, Bool-cases, le→ltb, ◌↔◌,
}
use me2u.CString.{Bytes, cstr, strlen, NoZero}
use me2u.CString.Laws.{cstr-NoZero, strlen-NoZero, NoZero-cstr, NoZero-append}
use me2u.System.{traced, underrun, Effect, overrun, M, Machine, Result, ok, ◌>>=◌, ◌>>◌, pure}
use me2u.Protocol.{maxline, ending}
use me2u.Cli.State.{Client}
use me2u.Cli.Buffer.{
  read_before, reset_full_buf, increase_full_buf, take_message, ends_with_ending, process_string,
}
use me2u.Cli.Buffer.Ending.{ends_with_ending-append, ends_with_ending-eq}
use me2u.Cli.Buffer.Framing.{Holds, with_text, size_after, collect_lem, size_after-room}

-- The machine after the bytes of `b` have been put behind the text `t`.
abbrev pub after_read : Machine Client → Bytes → Bytes → Machine Client
after_read m t b = with_text m (t ++ cstr b) (size_after m.globals (length t + strlen b))

-- A read that does not complete the message is put behind what the buffer held; nothing else
-- changes.
pub process_string-none :
    (m : Machine Client) (t b : Bytes)
    → Holds m.globals t
    → strlen b < maxline
    → 4 ≤ length (t ++ cstr b)
    → ends_with_ending (t ++ cstr b) ≡ false
    → process_string b m ≡ (after_read m t b, ok none)
unfolding process_string take_message
process_string-none m t b h lt four e = simp (
  le→ltb maxline (strlen b + 1) (omega arith),
  collect_lem m t b h (omega arith),
  e,
  le→ltb (length (t ++ cstr b)) 4 four,
)

-- A read that completes a message returns it without its end, and empties the buffer.
pub process_string-some :
    (m : Machine Client) (t b msg : Bytes)
    → Holds m.globals t
    → strlen b < maxline
    → t ++ cstr b ≡ msg ++ ending
    → process_string b m ≡ (with_text m [] maxline, ok (some msg))
unfolding process_string take_message
process_string-some m t b msg h lt e =
    let n : length (msg ++ ending) - 4 ≡ length msg = omega (arith, length-append msg ending) in
    let four : 4 ≤ length (msg ++ ending) = omega (arith, length-append msg ending) in
    simp (
      le→ltb maxline (strlen b + 1) (omega arith),
      collect_lem m t b h (omega arith),
      e,
      ends_with_ending-append msg,
      n,
      take-append msg ending,
      le→ltb (length (msg ++ ending)) 4 four,
    )

pub after_read-Holds :
    (m : Machine Client) (t b : Bytes)
    → Holds m.globals t
    → strlen b ≤ maxline
    → Holds (after_read m t b).globals (t ++ cstr b)
after_read-Holds m t b h lt = record {
  text_is = refl;
  no_zero = NoZero-append t (cstr b) h.no_zero (NoZero-cstr b);
  has_room = unfold strlen in size_after-room m.globals t (cstr b) h lt;
  size_ge = ground (arith, h.size_ge);
}

-- On a read shorter than the buffer, with four bytes or more in the text collected,
-- `process_string` reports a message exactly if that text ends in "\r\n\r\n", and reports what
-- stands before that end.
pub process_string_iff :
    (m : Machine Client) (t b msg : Bytes)
    → Holds m.globals t
    → strlen b < maxline
    → 4 ≤ length (t ++ cstr b)
    → ((process_string b m).1 ≡ ok (some msg)) ↔ (t ++ cstr b ≡ msg ++ ending)
process_string_iff m t b msg h lt four = (forth, back)
  where
    forth : (process_string b m).1 ≡ ok (some msg) → t ++ cstr b ≡ msg ++ ending
    forth e = elim (Bool-cases (ends_with_ending (t ++ cstr b))) [
      | inl done ↦
          let whole = ends_with_ending-eq (t ++ cstr b) done in
          let head : Bytes = take (length (t ++ cstr b) - 4) (t ++ cstr b) in
          let same : head ≡ msg = cc (process_string-some m t b head h lt whole) in
          whole ∙ ap (◌++ ending) same
      | inr more ↦ cc (process_string-none m t b h lt four more)
    ]

    back : t ++ cstr b ≡ msg ++ ending → (process_string b m).1 ≡ ok (some msg)
    back e = ap (λ r. r.1) (process_string-some m t b msg h lt e)

abbrev pub flatten : List Bytes → Bytes
flatten [] = []
flatten (b ∷ bs) = b ++ flatten bs

-- One read: bytes, fewer than the buffer takes, and none of them zero.
abbrev pub IsChunk : Bytes → Type 0
IsChunk b = NoZero b × (b ≢ []) × (length b < maxline)

-- The reads up to the first message: `process_string` is called on one after the other.
pub receive : List Bytes → M Client (Option Bytes)
receive [] = pure none
receive (b ∷ bs) =
    process_string b >>= λ r. elim r [ some msg ↦ pure (some msg) | none ↦ receive bs ]

-- No part of the message, from its beginning, ends in "\r\n\r\n".
abbrev pub EndsOnce : Bytes → Type 0
EndsOnce msg = (p q : Bytes) → msg ++ ending ≡ p ++ q → q ≢ [] → ends_with_ending p ≡ false

pub append-ne-nil : (a b : Bytes) → a ≢ [] → a ++ b ≢ []
append-ne-nil [] b h = absurd (h refl)
append-ne-nil (x ∷ a) b h = λ e. cc

receive_from :
    (m : Machine Client) (t b msg : Bytes) (bs : List Bytes)
    → Holds m.globals t
    → All IsChunk (b ∷ bs)
    → EndsOnce msg
    → 4 ≤ length t + length b
    → t ++ flatten (b ∷ bs) ≡ msg ++ ending
    → receive (b ∷ bs) m ≡ (with_text m [] maxline, ok (some msg))
unfolding receive
receive_from m t b msg [] h ((nz, ne, lt), _) once four e =
    let whole : t ++ cstr b ≡ msg ++ ending =
      ap (t ++◌) (cstr-NoZero b nz ∙ sym (append-nil b)) ∙ e in
    rw (process_string-some m t b msg h (omega (arith, strlen-NoZero b nz)) whole)
receive_from m t b msg (c ∷ bs) h ((nz, ne, lt), rest) once four e =
    let same : t ++ cstr b ≡ t ++ b = ap (t ++◌) (cstr-NoZero b nz) in
    let short : strlen b < maxline = omega (arith, strlen-NoZero b nz) in
    let cut : (t ++ cstr b) ++ flatten (c ∷ bs) ≡ msg ++ ending =
      ap (◌++ flatten (c ∷ bs)) same ∙ append_assoc t b _ ∙ e in
    let more : ends_with_ending (t ++ cstr b) ≡ false =
      once (t ++ cstr b) (flatten (c ∷ bs)) (sym cut) (append-ne-nil c (flatten bs) rest.0.1) in
    let long : 4 ≤ length (t ++ cstr b) = rw same (omega (arith, length-append t b)) in
    rw (process_string-none m t b h short long more) (
      receive_from (after_read m t b) (t ++ cstr b) c msg bs
        (after_read-Holds m t b h (omega arith)) rest once (omega arith) cut)

-- However the server's message is cut into reads, each with no zero in it and shorter than the
-- buffer, the first of four bytes at least, and no part of the message ending in "\r\n\r\n":
-- called on an empty buffer, the reads together report that message, once, and leave the buffer
-- empty; the trace has no new effect, so no access was out of bounds.
pub receive-flatten :
    (m : Machine Client) (b msg : Bytes) (bs : List Bytes)
    → Holds m.globals []
    → All IsChunk (b ∷ bs)
    → EndsOnce msg
    → 4 ≤ length b
    → flatten (b ∷ bs) ≡ msg ++ ending
    → receive (b ∷ bs) m ≡ (with_text m [] maxline, ok (some msg))
receive-flatten m b msg bs h cs once four e = receive_from m [] b msg bs h cs once (omega arith) e

-- The accesses of `process_string` outside its objects: behind a read that fills the whole buffer
-- with no zero, and in front of a text of fewer than four bytes.
abbrev pub bad_accesses : Bytes → Bytes → List Effect
bad_accesses b text =
    (if ltb maxline (strlen b + 1) then overrun maxline (strlen b + 1) ∷ [] else [])
    ++ (if ltb (length text) 4 then underrun (4 - length text) ∷ [] else [])

abbrev pub message_end : Machine Client → Bytes → Machine Client × Result (Option Bytes)
message_end m text =
    if ends_with_ending text
    then (with_text m [] maxline, ok (some (take (length text - 4) text)))
    else (m, ok none)

finish_lem :
    (m : Machine Client) (text : Bytes)
    → (read_before text >> take_message text) m
      ≡ message_end
          (traced m (if ltb (length text) 4 then underrun (4 - length text) ∷ [] else []))
          text
unfolding take_message reset_full_buf increase_full_buf
finish_lem m text = elim (Bool-cases (ltb (length text) 4)) [
  | inl short ↦ elim (Bool-cases (ends_with_ending text)) [
    | inl done ↦ simp (short, done)
    | inr more ↦ simp (short, more)
  ]
  | inr long ↦ elim (Bool-cases (ends_with_ending text)) [
    | inl done ↦ simp (long, done, append-nil)
    | inr more ↦ simp (long, more, append-nil)
  ]
]

-- On any read that the buffer can take, `process_string` puts the read behind the text in the
-- buffer, reports a message if the whole ends in "\r\n\r\n", and accesses nothing out of bounds
-- but the byte behind a full read and the bytes in front of a text of fewer than four.
pub process_string_lem :
    (m : Machine Client) (t b : Bytes)
    → Holds m.globals t
    → strlen b ≤ maxline
    → process_string b m
      ≡ message_end (traced (after_read m t b) (bad_accesses b (t ++ cstr b))) (t ++ cstr b)
unfolding process_string
process_string_lem m t b h le = elim (Bool-cases (ltb maxline (strlen b + 1))) [
  | inl over ↦
      let note = traced m (overrun maxline (strlen b + 1) ∷ []) in
      simp (over, collect_lem note t b h le)
        (simp (finish_lem (after_read note t b) (t ++ cstr b), append_assoc))
  | inr within ↦ simp (within, collect_lem m t b h le) (finish_lem (after_read m t b) (t ++ cstr b))
]
