-- ===== src/Cli/Buffer/Ending.antt =====
-- The test for the end of a message.
use me2u.Base.{
  ℕ, ◌-◌, ◌≡◌, sym, ap, ◌∙◌, true, [], ◌∷◌, ◌++◌, arith, length, take, drop, take-append-drop,
  drop-append, length-append, length-drop,
}
use me2u.CString.{Bytes, strncmp_eq}
use me2u.CString.Laws.{strncmp_eq_self}
use me2u.Protocol.{ending}
use me2u.Cli.Buffer.{ends_with_ending}

-- The test passes on exactly the texts that end in "\r\n\r\n".
pub ends_with_ending-append : (msg : Bytes) → ends_with_ending (msg ++ ending) ≡ true
unfolding ends_with_ending
ends_with_ending-append msg =
    let e : length (msg ++ ending) - 4 ≡ length msg = omega (arith, length-append msg ending) in
    rw (e, drop-append, strncmp_eq_self [] ending) (ground (arith, length-append msg ending))

four_bytes : (s : Bytes) → length s ≡ 4 → strncmp_eq 4 s ending ≡ true → s ≡ ending
unfolding strncmp_eq
four_bytes (a ∷ b ∷ c ∷ d ∷ []) n h = ground arith
four_bytes [] n h = absurd (omega arith)
four_bytes (a ∷ []) n h = absurd (omega arith)
four_bytes (a ∷ b ∷ []) n h = absurd (omega arith)
four_bytes (a ∷ b ∷ c ∷ []) n h = absurd (omega arith)
four_bytes (a ∷ b ∷ c ∷ d ∷ e ∷ s) n h = absurd (omega arith)

pub ends_with_ending-eq :
    (text : Bytes) → ends_with_ending text ≡ true → text ≡ take (length text - 4) text ++ ending
unfolding ends_with_ending
ends_with_ending-eq text h =
    let n : ℕ = length text - 4 in
    sym (take-append-drop n text)
    ∙ ap (take n text ++◌) (
        four_bytes (drop n text) (ground (arith, length-drop (length text - 4) text))
          (ground arith))
