-- ===== src/Cli/Tests/Invariants.antt =====
-- The invariant, on a client with one user.
use me2u.Base.{[], ◌∷◌, ◌≡◌, false, All}
use me2u.CString.{lit}
use me2u.System.{got, woke, timed_out, ok, ◌>>◌}
use me2u.Cli.Chat.{any_children_replied, chat_prepare, chat_select}
use me2u.Cli.Main.{converse}
use me2u.Cli.Invariant.{IsValid}
use me2u.Cli.Invariant.Loop.{IsUnasked, any_children_replied-chat_select}
use me2u.Cli.Invariant.Login.{converse-IsValid}
use me2u.Cli.Tests.Data.{client, client-IsValid, eve}

converse-IsValid_example :
    IsValid 3
      (converse 3
        (woke (3 ∷ []) ∷ timed_out ∷ [])
        (client (eve ∷ []) (got (lit "U2EM\r\n\r\n") ∷ []))).0
converse-IsValid_example =
    converse-IsValid 3 (woke (3 ∷ []) ∷ timed_out ∷ [])
      (client (eve ∷ []) (got (lit "U2EM\r\n\r\n") ∷ []))
      (client-IsValid (got (lit "U2EM\r\n\r\n") ∷ []))

any_children_replied-chat_select_example :
    let woken =
      ((chat_prepare 3 false >> chat_select (woke (0 ∷ 5 ∷ []))) (client (eve ∷ []) [])).0 in
    All (IsUnasked woken.globals.rset) woken.globals.users
    × (any_children_replied 3 woken ≡ (woken, ok tt))
any_children_replied-chat_select_example =
    any_children_replied-chat_select 3 false (woke (0 ∷ 5 ∷ [])) (client (eve ∷ []) [])
      (client-IsValid [])
