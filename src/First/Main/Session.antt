-- ===== src/First/Main/Session.antt =====
-- A whole run of the first version.
use me2u.Base.{ℕ, List, [], ◌∷◌, ◌++◌}
use me2u.CString.{Bytes, lit}
use me2u.System.{Machine, Read, got, Selected, woke}
use me2u.First.Protocol.{ending}
use me2u.First.Strings.{First}
use me2u.First.Talk.{Event}
use me2u.First.Talk.Run.{reads_of, selects_of}

abbrev named : Bytes → Machine First → Machine First
named name m = record m { globals = record m.globals { current_user_name = name } }

-- The selects of a session: four rounds of the login, the conversation, and the server's last word.
abbrev pub session_selects : ℕ → List Event → List Selected → List Selected
session_selects sockfd es rest =
    woke (sockfd ∷ [])
    ∷ woke (sockfd ∷ [])
    ∷ woke (sockfd ∷ [])
    ∷ woke (sockfd ∷ [])
    ∷ (selects_of sockfd es ++ woke (sockfd ∷ []) ∷ rest)

abbrev pub session_reads : Bytes → List Event → List Read → List Read
session_reads text es rs =
    got (lit "U2EM\r\n\r\n")
    ∷ got (lit "MAI\r\n\r\n")
    ∷ got (lit "MOTD " ++ text ++ ending)
    ∷ (reads_of es ++ got (lit "EYB\r\n\r\n") ∷ rs)
