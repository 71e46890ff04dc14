-- ===== src/Cli/Tests/Logins.antt =====
-- The command line and the login procedure.
use me2u.Base.{List, ◌≡◌, ◌++◌, refl, [], ◌∷◌, arith}
use me2u.CString.{lit}
use me2u.System.{Read, got, woke, ok, exited, traced, Machine}
use me2u.Protocol.{ending, server_user_taken}
use me2u.Cli.State.{Client}
use me2u.Cli.Login.{login_proc, await_approval}
use me2u.Cli.Login.Rounds.{after_message}
use me2u.Cli.Login.Outcomes.{approval, login_trace, login_proc_success}
use me2u.Cli.Login.Failures.{await_approval_joined, await_approval_cut}
use me2u.Cli.Main.{initial}
use me2u.Cli.Tests.Data.{client, client-Holds}

abbrev greeting : List Read
greeting = got (lit "U2EM\r\n\r\n") ∷ got (lit "MAI\r\n\r\n") ∷ got (lit "MOTD hi\r\n\r\n") ∷ []

login_proc_success_example :
    login_proc 3 (woke (3 ∷ []) ∷ woke (3 ∷ 0 ∷ []) ∷ []) (client [] greeting) ≡ (
      traced
          (after_message (client [] greeting) (lit "MOTD hi\r\n\r\n") [])
          (login_trace 3 (client [] greeting).globals (lit "hi")),
      ok [],
    )
login_proc_success_example =
    login_proc_success 3 (client [] greeting) (lit "hi") [] (3 ∷ []) (3 ∷ 0 ∷ []) [] refl
      (omega arith) (omega arith) (client-Holds [] greeting) (omega arith) (omega arith) refl refl

abbrev refusal : List Read
refusal = got (server_user_taken ++ ending) ∷ []

-- The approval and the message of the day in one read.
abbrev joined : List Read
joined = got (lit "MAI\r\n\r\nMOTD hi\r\n\r\n") ∷ []

await_approval_joined_example : (await_approval (client [] joined)).1 ≡ exited 1
await_approval_joined_example =
    await_approval_joined (client [] joined) (lit "MOTD hi") [] refl (omega arith) (omega arith)
      (client-Holds [] joined) refl

-- The message of the day in two reads.
abbrev cut : List Read
cut = got approval ∷ got (lit "MO") ∷ got (lit "TD hi\r\n\r\n") ∷ []

await_approval_cut_example : (await_approval (client [] cut)).1 ≡ exited 1
await_approval_cut_example =
    await_approval_cut (client [] cut) (lit "MO") (got (lit "TD hi\r\n\r\n") ∷ []) refl
      (omega arith) (λ e. cc) (omega arith) (client-Holds [] cut) refl

abbrev started : Machine Client
started = record (client [] []) { globals = initial }
