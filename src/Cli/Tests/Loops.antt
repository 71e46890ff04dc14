-- ===== src/Cli/Tests/Loops.antt =====
-- The windows and the main loop.
use me2u.Base.{none, ◌+◌, ◌*◌, ◌≤◌, ◌<◌, ◌≡◌, refl, false, [], ◌∷◌, ◌++◌, arith, some, replicate}
use me2u.CString.{lit}
use me2u.System.{got, timed_out, ok, crashed, traced, wrote, overrun, Machine}
use me2u.Cli.State.{Client}
use me2u.Cli.Text.{logout}
use me2u.Cli.Text.Verbs.{first_word}
use me2u.Cli.Users.{process_msg}
use me2u.Cli.Users.Lookup.{position, search_trace}
use me2u.Cli.Users.Windows.{message_text, with_window, process_msg_known, process_msg_new}
use me2u.Cli.Users.Signals.{interrupted_fork, interrupted_fork_crashed}
use me2u.Cli.Chat.{confirm_from, chat_loop}
use me2u.Cli.Chat.Actions.{confirm_from_lem}
use me2u.Cli.Chat.Descriptors.{active_count, chat_loop-maxfdpl}
use me2u.Cli.Tests.Data.{client, eve, window}

abbrev known : Machine Client
known = client (eve ∷ []) (got [] ∷ [])

position-eve : position 0 (first_word (lit "eve hi")) (eve ∷ []) ≡ some 0
unfolding me2u.Cli.Text.word_length me2u.CString.strcmp_eq
position-eve = refl

position-amy : position 0 (first_word (lit "amy hi")) (eve ∷ []) ≡ none
unfolding me2u.Cli.Text.word_length me2u.CString.strcmp_eq
position-amy = refl

process_msg_known_example : process_msg (lit "eve hi") known ≡ (
  traced known (
      search_trace (first_word (lit "eve hi")) (eve ∷ [])
      ++ wrote 5 (message_text (lit "eve hi")) ∷ []),
  ok tt,
)
process_msg_known_example = process_msg_known (lit "eve hi") known 0 eve position-eve refl

process_msg_new_example : process_msg (lit "amy hi") known ≡ (
  traced
      (with_window
        (traced known (search_trace (first_word (lit "amy hi")) (eve ∷ [])))
        (first_word (lit "amy hi"))
        window
        []
        77)
      (wrote 5 (message_text (lit "amy hi")) ∷ []),
  ok tt,
)
process_msg_new_example = process_msg_new (lit "amy hi") known window [] 77 position-amy refl refl

interrupted_fork_crashed_example : (interrupted_fork (lit "amy") 0 (client [] [])).1 ≡ crashed
interrupted_fork_crashed_example =
    interrupted_fork_crashed (lit "amy") 0 (client [] []) window [] 77 refl refl refl

confirm_from_lem_example : confirm_from 3 (lit "eve this text is not a short one") known ≡ (
  traced known (overrun 40 42 ∷ wrote 3 (lit "MORF eve this text is not a short one\r\n\r\n") ∷ []),
  ok tt,
)
confirm_from_lem_example =
    confirm_from_lem 3 (lit "eve this text is not a short one") known (omega arith)

chat_loop-maxfdpl_example :
    let end = (chat_loop 3 false (replicate 5 timed_out) known).0.globals.maxfdpl in
    (0 + 2 * active_count (eve ∷ []) * (5 + 1) ≤ end)
    × (end ≤ 1024 + 2 * active_count (eve ∷ []) * (5 + 1))
    × (end < 2147483648)
chat_loop-maxfdpl_example =
    chat_loop-maxfdpl 5 3 false known ((λ e. (omega arith, omega arith)), tt) (omega arith)
      (omega arith)
