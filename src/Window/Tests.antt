-- ===== src/Window/Tests.antt =====
-- Runs of the program in a window.
use me2u.Base.{◌-◌, inr, Option, some, none, Bool, false, ℕ, ◌≡◌, refl, List, [], ◌∷◌, ◌++◌, arith}
use me2u.CString.{Bytes, lit}
use me2u.System.{Machine, Read, got, woke, waiting, exited}
use me2u.Window.{Window, window_loop, chat_main}
use me2u.Window.Screen.{Event, received, typed, selects_of, reads_of, effects_of, window_loop_lem}
use me2u.Window.Run.{chat_main_session}

abbrev dialogue : List Event
dialogue =
    received (lit "hi") ∷ typed (lit "hello\n") ∷ typed (lit "/close\n") ∷ received (lit "bye") ∷ []

-- The descriptors are those of a pipe of the client: 4 is its read end.
abbrev read_only : ℕ → Bool
read_only fd = false

abbrev opened : List Read → Machine Window
opened reads = record {
  os = record { reads = reads; spawns = []; trace = [] };
  globals = record { rd = 4; wrt = 5; rset = []; buf = [] };
}

window_loop_lem_example :
    ((window_loop read_only (selects_of 4 dialogue) (opened (reads_of dialogue))).0.os.trace
      ≡ [] ++ effects_of read_only 4 dialogue)
    × ((window_loop read_only (selects_of 4 dialogue) (opened (reads_of dialogue))).1 ≡ waiting)
window_loop_lem_example =
    window_loop_lem read_only dialogue (opened (reads_of dialogue)) refl
      (
        (omega arith, (λ e. cc), omega arith),
        (
          (omega arith, (λ e. cc), omega arith),
          ((omega arith, (λ e. cc), omega arith), ((omega arith, (λ e. cc), omega arith), tt)),
        ),
      )
      (omega arith) (omega arith, omega arith)

-- The number that one digit spells.
abbrev digit : Bytes → Option ℕ
digit [] = none
digit (c ∷ s) = some (c - b'0')

abbrev started : Machine Window
started = opened (reads_of dialogue ++ got [] ∷ [])

-- The user ends the input.
chat_main_session_example :
    let run =
      chat_main digit read_only
        (lit "./chat" ∷ lit "4" ∷ lit "5" ∷ [])
        (selects_of 4 dialogue ++ woke (0 ∷ []) ∷ [])
        started in
    (run.1 ≡ exited 0) × (run.0.os.trace ≡ [] ++ effects_of read_only 4 dialogue)
chat_main_session_example =
    chat_main_session digit read_only (lit "./chat") (lit "4") (lit "5") 4 5 0 dialogue [] started
      refl refl refl
      (
        (omega arith, (λ e. cc), omega arith),
        (
          (omega arith, (λ e. cc), omega arith),
          ((omega arith, (λ e. cc), omega arith), ((omega arith, (λ e. cc), omega arith), tt)),
        ),
      )
      (omega arith) (omega arith) (omega arith) (inr refl)
