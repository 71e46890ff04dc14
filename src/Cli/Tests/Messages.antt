-- ===== src/Cli/Tests/Messages.antt =====
-- Messages, words and commands.
use me2u.Base.{◌≡◌, ◌↔◌, refl, inl, inr, true, List, All, [], ◌∷◌, some, arith}
use me2u.CString.{lit, strncmp_eq}
use me2u.System.{ok}
use me2u.Protocol.{maxline}
use me2u.Cli.Buffer.{ends_with_ending}
use me2u.Cli.Buffer.Framing.{with_text}
use me2u.Cli.Buffer.Messages.{receive, EndsOnce, receive-flatten}
use me2u.Cli.Buffer.Stream.{Delivery, IsDelivery, messages, reads_of, emptied, messages-texts_of}
use me2u.Cli.Text.{word_length, from, unknown_verb, chat, server_verb, user_command}
use me2u.Cli.Text.Verbs.{Begins, spelling, server_verb-word}
use me2u.Cli.Tests.Data.{client, client-Holds}

word_length_chat : word_length (lit "/chat eve hi") ≡ 5
unfolding word_length
word_length_chat = refl

server_verb_from : server_verb (lit "FROM eve hi") ≡ from
unfolding server_verb word_length strncmp_eq
server_verb_from = refl

server_verb_lower : server_verb (lit "from eve hi") ≡ unknown_verb
unfolding server_verb word_length strncmp_eq
server_verb_lower = refl

ends_with_ending_eyb : ends_with_ending (lit "EYB\r\n\r\n") ≡ true
unfolding ends_with_ending strncmp_eq
ends_with_ending_eyb = refl

eyb-EndsOnce : EndsOnce (lit "EYB")
unfolding ends_with_ending strncmp_eq
eyb-EndsOnce [] q e ne = refl
eyb-EndsOnce (a ∷ []) q e ne = refl
eyb-EndsOnce (a ∷ b ∷ []) q e ne = refl
eyb-EndsOnce (a ∷ b ∷ c ∷ []) q e ne = refl
eyb-EndsOnce (a ∷ b ∷ c ∷ d ∷ []) q e ne = ground arith
eyb-EndsOnce (a ∷ b ∷ c ∷ d ∷ f ∷ []) q e ne = ground arith
eyb-EndsOnce (a ∷ b ∷ c ∷ d ∷ f ∷ g ∷ []) q e ne = ground arith
eyb-EndsOnce (a ∷ b ∷ c ∷ d ∷ f ∷ g ∷ h ∷ p) [] e ne = absurd (ne refl)
eyb-EndsOnce (a ∷ b ∷ c ∷ d ∷ f ∷ g ∷ h ∷ []) (x ∷ q) e ne = cc
eyb-EndsOnce (a ∷ b ∷ c ∷ d ∷ f ∷ g ∷ h ∷ i ∷ p) (x ∷ q) e ne = cc

receive-flatten_example :
    receive (lit "EYB\r" ∷ lit "\n" ∷ lit "\r\n" ∷ []) (client [] [])
    ≡ (with_text (client [] []) [] maxline, ok (some (lit "EYB")))
receive-flatten_example =
    receive-flatten (client [] []) (lit "EYB\r") (lit "EYB") (lit "\n" ∷ lit "\r\n" ∷ [])
      (client-Holds [] [])
      (
        (omega arith, (λ e. cc), omega arith),
        ((omega arith, (λ e. cc), omega arith), ((omega arith, (λ e. cc), omega arith), tt)),
      )
      eyb-EndsOnce (omega arith) refl

server_verb-word_example :
    (word_length (lit "FR eve") ≡ 2)
    × ((strncmp_eq (word_length (lit "FR eve")) (lit "FR eve") (lit "FROM") ≡ true)
        ↔ Begins (lit "FR") (lit "FROM"))
    × (server_verb (lit "FR eve") ≡ from → Begins (lit "FR") (spelling from))
server_verb-word_example =
    server_verb-word (lit "FR") (lit "eve") (lit "FROM") b' ' from (omega arith)
      (inr (inr (inl refl))) (omega arith) (λ e. cc)

server_verb_abbreviated : server_verb (lit "FR eve hi") ≡ from
unfolding server_verb word_length strncmp_eq
server_verb_abbreviated = refl

word_length_blank : word_length (lit " eve") ≡ 0
unfolding word_length
word_length_blank = refl

user_command_abbreviated : user_command (lit "/c eve hi") ≡ chat
unfolding user_command word_length strncmp_eq
user_command_abbreviated = refl

-- Two messages, the first in two reads.
abbrev answers : List Delivery
answers =
    record { msg = lit "MAI"; first = lit "MAI\r"; others = lit "\n\r\n" ∷ [] }
    ∷ record { msg = lit "MOTD hi"; first = lit "MOTD hi\r\n\r\n"; others = [] }
    ∷ []

answers-IsDelivery : All IsDelivery answers
answers-IsDelivery = (
  record {
    chunks = ((omega arith, (λ e. cc), omega arith), ((omega arith, (λ e. cc), omega arith), tt));
    line = omega arith;
    enough = omega arith;
    whole = refl;
  },
  (
    record {
      chunks = ((omega arith, (λ e. cc), omega arith), tt);
      line = omega arith;
      enough = omega arith;
      whole = refl;
    },
    tt,
  ),
)

messages-texts_of_example :
    messages (reads_of answers) (client [] [])
    ≡ (emptied answers (client [] []), ok (lit "MAI" ∷ lit "MOTD hi" ∷ []))
messages-texts_of_example =
    messages-texts_of answers (client [] []) (client-Holds [] []) answers-IsDelivery
