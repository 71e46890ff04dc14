-- ===== src/First/Tests.antt =====
-- Runs of the first version.
use me2u.Base.{◌++◌, ◌≡◌, true, false, refl, List, [], ◌∷◌, arith, none, some}
use me2u.CString.{Bytes, lit}
use me2u.System.{Machine, Read, got, woke, ok, wrote, traced}
use me2u.First.Protocol.{ending}
use me2u.First.Strings.{First, valid_username}
use me2u.First.Strings.Prefix.{valid_username-none}
use me2u.First.Login.{case_approval, motd}
use me2u.First.Login.Run.{after_string, case_approval_joined}
use me2u.Cli.Main.{Network}
use me2u.First.Talk.{Event, listed, absent, asks_help, chats, logs_out}
use me2u.First.Talk.Run.{AreEvents, reads_of, selects_of, effects_of, talk_loop-effects_of}
use me2u.First.Chat.{talk_loop, on_buf}
use me2u.First.Chat.Replies.{on_buf-unnamed}

abbrev first : List Read → Machine First
first reads = record {
  os = record { reads = reads; spawns = []; trace = [] };
  globals = record { current_user_name = lit "bob"; rset = []; buf = [] };
}

abbrev greeting : List Read
greeting =
    got (lit "U2EM\r\n\r\n")
    ∷ got (lit "MAI\r\n\r\n")
    ∷ got (lit "MOTD " ++ lit "hi" ++ ending)
    ∷ []

case_approval_joined_example :
    case_approval (first (got (lit "MAI\r\n\r\n" ++ lit "MOTD hi\r\n\r\n") ∷ [])) ≡ (
      after_string
          (first (got (lit "MAI\r\n\r\n" ++ lit "MOTD hi\r\n\r\n") ∷ []))
          (lit "MAI\r\n\r\n" ++ lit "MOTD hi\r\n\r\n")
          [],
      ok motd,
    )
case_approval_joined_example =
    case_approval_joined (first (got (lit "MAI\r\n\r\n" ++ lit "MOTD hi\r\n\r\n") ∷ []))
      (lit "MOTD hi\r\n\r\n") [] refl (omega arith) (omega arith) refl

valid_username-none_example : valid_username 1000 (b'b' ∷ lit "ob") ≡ none
unfolding me2u.CString.strlen
valid_username-none_example =
    valid_username-none 1000 b'b' (lit "ob") (omega arith) (omega arith) (omega arith) (omega arith)

on_buf-unnamed_example :
    on_buf 3 (lit "EDNE" ++ lit " e") (first [])
    ≡ (traced (first []) (wrote 1 (lit "No, user = ") ∷ wrote 1 (lit " exists.\n") ∷ []), ok true)
on_buf-unnamed_example = on_buf-unnamed 3 (lit " e") (first []) (omega arith) (omega arith)

-- A network that refuses the address and the connection, and one that accepts both.
abbrev refusing : Network
refusing = record { socket = some 3; inet_pton = λ _. false; connect = λ _ _. false }

abbrev accepting : Network
accepting = record { socket = some 3; inet_pton = λ _. true; connect = λ _ _. true }

abbrev words : List Bytes
words = lit "client" ∷ lit "bob" ∷ lit "127.0.0.1" ∷ lit "5555" ∷ []

-- Help, a list of users, a user that is not there, a text for one, and the logout.
abbrev talk : List Event
talk =
    asks_help
    ∷ listed (lit " bob eve\r\n\r\n")
    ∷ absent (lit " amy")
    ∷ chats (lit " eve hi\n")
    ∷ logs_out
    ∷ []

talk-AreEvents : AreEvents false talk
talk-AreEvents = (
  (omega arith, omega arith, (λ e. refl)),
  (
    (omega arith, omega arith, (λ e. refl)),
    (
      (omega arith, omega arith, (λ e. refl)),
      ((omega arith, omega arith, (λ e. refl)), ((omega arith, omega arith, (λ e. refl)), tt)),
    ),
  ),
)

abbrev talking : Machine First
talking = first (reads_of talk ++ got (lit "EYB\r\n\r\n") ∷ [])

talk_loop-effects_of_example :
    let after = talk_loop 3 false (selects_of 3 talk ++ woke (3 ∷ []) ∷ []) talking in
    (after.1 ≡ ok tt) × (after.0.os.trace ≡ effects_of 3 talk)
talk_loop-effects_of_example =
    talk_loop-effects_of 3 false talk [] [] talking refl talk-AreEvents (λ e. cc)
