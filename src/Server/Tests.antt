-- ===== src/Server/Tests.antt =====
-- The server's theorems on two users, and on threads that run into each other.
use me2u.Base.{ℕ, ◌≡◌, ◌≢◌, ap, refl, true, List, [], ◌∷◌, arith}
use me2u.CString.{Bytes, lit}
use me2u.System.{Machine, Effect, wrote, closed, got, ok, crashed}
use me2u.Server.{
  User, Server, approve, on_iam, iam_seen, on_data, handle_user, send, check_user_exists,
}
use me2u.Server.Promise.{named, Request, hello, registers, lists, says, leaves, served}
use me2u.Server.Distinct.{AreDistinct}
use me2u.Server.Names.{rests, round, Runs-AreDistinct}
use me2u.Server.Sound.{rests, request, Orderly-served}
use me2u.Server.Threads.{request_reads, served_all, AreProper, handle_user_session}
use me2u.Server.Failures.{handle_user-leaves, on_data-joined, on_data-gone}
use me2u.Server.Race.{on_iam-iam_seen}

abbrev amy : User
amy = record { name = lit "amy"; conn = 7; addr = 1 }

abbrev joe : User
joe = record { name = lit "joe"; conn = 8; addr = 2 }

abbrev server : List User → Machine Server
server users = record {
  os = record { reads = []; spawns = []; trace = [] };
  globals = record { users = users; closed_conns = [] };
}

abbrev both : Machine Server
both = server (amy ∷ joe ∷ [])

-- Joe logs in beside Amy, asks for the users, writes to Amy and to nobody, and leaves.
abbrev visit : List Request
visit =
    hello
    ∷ registers (lit "joe")
    ∷ lists
    ∷ says (lit "amy") (lit "hi")
    ∷ says (lit "bob") (lit "hi")
    ∷ leaves
    ∷ []

abbrev visit_effects : List Effect
visit_effects =
    wrote 8 (lit "U2EM\r\n\r\n")
    ∷ wrote 8 (lit "MAI\r\n\r\n")
    ∷ wrote 8 (lit "MOTD Hello Human \r\n\r\n")
    ∷ wrote 8 (lit "UTSIL  amy joe\r\n\r\n")
    ∷ wrote 7 (lit "FROM joe hi\r\n\r\n")
    ∷ wrote 8 (lit "EDNE bob\r\n\r\n")
    ∷ wrote 8 (lit "EYB\r\n\r\n")
    ∷ closed 8
    ∷ wrote 7 (lit "UOFF joe\r\n\r\n")
    ∷ []

visit_replies : (served_all joe visit (server (amy ∷ []))).os.trace ≡ visit_effects
visit_replies = refl

not_joe : amy.name ≢ lit "joe"
not_joe e = absurd (omega (arith, ap first_byte e))
  where
    first_byte : Bytes → ℕ
    first_byte [] = 0
    first_byte (c ∷ s) = c

visit-AreProper : AreProper joe visit (server (amy ∷ []))
visit-AreProper = (
  tt,
  omega arith,
  refl,
  (refl, tt),
  (
    (refl, omega arith, (not_joe, tt)),
    omega arith,
    refl,
    (refl, tt),
    (
      tt,
      omega arith,
      refl,
      (refl, (refl, tt)),
      (
        (omega arith, omega arith, omega arith, refl),
        omega arith,
        refl,
        (refl, (refl, tt)),
        (
          (omega arith, omega arith, omega arith, refl),
          omega arith,
          refl,
          (refl, (refl, tt)),
          ((refl, ((omega arith), tt)), omega arith, refl, (refl, (refl, tt)), tt),
        ),
      ),
    ),
  ),
)

handle_user_session_example :
    handle_user 8 2 (request_reads visit) (server (amy ∷ []))
    ≡ (served_all joe visit (server (amy ∷ [])), crashed)
handle_user_session_example = handle_user_session joe visit (server (amy ∷ [])) refl visit-AreProper

-- Amy and Joe register, and then Joe's name is asked for again.
Runs-AreDistinct_example :
    AreDistinct
      (on_data 9 3
        (lit "IAM joe\r\n\r\n")
        (on_data 8 2 (lit "IAM joe\r\n\r\n") (server (amy ∷ []))).0).0.globals.users
Runs-AreDistinct_example =
    Runs-AreDistinct (server (amy ∷ []))
      (on_data 9 3 (lit "IAM joe\r\n\r\n")
        (on_data 8 2 (lit "IAM joe\r\n\r\n") (server (amy ∷ []))).0).0
      (round 8 2 (lit "IAM joe\r\n\r\n") (round 9 3 (lit "IAM joe\r\n\r\n") rests)) (tt, tt)

on_iam-iam_seen_example :
    let between = on_iam 8 2 (lit "bob") both in
    let after = iam_seen both.globals.users 9 3 (lit "bob") between.0 in
    (between.1 ≡ ok true)
    × (after.1 ≡ ok true)
    × (named (lit "bob") after.0.globals.users
        ≡ record { name = lit "bob"; conn = 8; addr = 2 }
          ∷ record { name = lit "bob"; conn = 9; addr = 3 }
          ∷ [])
unfolding check_user_exists
on_iam-iam_seen_example = on_iam-iam_seen both (lit "bob") 8 2 9 3 refl refl refl

handle_user-leaves_example :
    handle_user 8 2 (got (lit "BYE\r\n\r\n") ∷ got [] ∷ []) both ≡ (served joe leaves both, crashed)
handle_user-leaves_example =
    handle_user-leaves joe (got []) [] both (refl, ((omega arith), tt)) refl (refl, (refl, tt))

on_data-joined_example :
    on_data 8 2 (lit "TO amy hi\r\n\r\nLISTU\r\n\r\n") both
    ≡ (served joe (says (lit "amy") (lit "hiLISTU")) both, ok true)
on_data-joined_example =
    on_data-joined joe (lit "amy") (lit "hi") lists both
      ((omega arith), (omega arith), (omega arith), refl) (omega arith) refl (refl, (refl, tt))

-- Amy has sent what the server does not know: her connection is closed, and she is still listed.
abbrev half_gone : Machine Server
half_gone = record both { globals = record { users = amy ∷ joe ∷ []; closed_conns = 7 ∷ [] } }

on_data-unknown : (on_data 7 1 (lit "HI\r\n\r\n") both).0.globals ≡ half_gone.globals
unfolding on_data me2u.Server.on_text me2u.Server.close me2u.Server.remove_ending
on_data-unknown = refl

on_data-gone_example : on_data 8 2 (lit "TO amy hi\r\n\r\n") half_gone ≡ (half_gone, crashed)
on_data-gone_example =
    on_data-gone joe amy [] (lit "amy") (lit "hi") half_gone
      ((omega arith), (omega arith), (omega arith), refl) refl refl

-- Joe registers beside Amy, and then writes to her.
abbrev with_joe : Machine Server
with_joe = (on_data 8 2 (lit "IAM joe\r\n\r\n") (server (amy ∷ []))).0

Orderly-served_example :
    on_data 8 2 (lit "TO amy hi\r\n\r\n") with_joe
    ≡ (served joe (says (lit "amy") (lit "hi")) with_joe, ok true)
unfolding on_data me2u.Server.on_text me2u.Server.on_iam me2u.Server.iam_seen approve send
    me2u.Server.remove_ending me2u.Server.check_user_exists
Orderly-served_example =
    Orderly-served (server (amy ∷ [])) with_joe joe (says (lit "amy") (lit "hi"))
      (request joe (registers (lit "joe"))
        (refl, refl, omega arith, (not_joe, tt), (((omega arith), (omega arith)), tt)) rests)
      ((tt, tt), (refl, tt)) ((1, refl), omega arith, omega arith, omega arith)
