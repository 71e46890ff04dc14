-- ===== src/Cli/Main/Start.antt =====
-- The program's command line.
use me2u.Base.{◌<◌, ◌≡◌, List, [], ◌∷◌, some, length, take, lt→ltb}
use me2u.CString.{Bytes, NoZero}
use me2u.CString.Laws.{strlen-NoZero}
use me2u.System.{Machine, Selected, ok, exited, reported, traced}
use me2u.Protocol.{maxline, min}
use me2u.Cli.State.{Client}
use me2u.Cli.Buffer.{increase_full_buf}
use me2u.Cli.Main.{Network, main, initial, usage, print_usage, set_name}

-- The program's state behind its first allocation.
abbrev pub allocated : Machine Client → Machine Client
allocated m = record m {
  globals = record m.globals { full_buf = some []; max_size_of_full_buf = maxline };
}

pub increase_full_buf-initial :
    (m : Machine Client) → m.globals ≡ initial → increase_full_buf m ≡ (allocated m, ok tt)
unfolding increase_full_buf
increase_full_buf-initial m e = simp e

-- With fewer than three arguments, and so with `-h` alone, the usage is shown and the program ends
-- with `EXIT_FAILURE`, without any access to the network.
pub main-usage :
    (net : Network) (argv : List Bytes) (selects : List Selected) (m : Machine Client)
    → m.globals ≡ initial
    → length argv < 4
    → main net argv selects m ≡ (traced (allocated m) (reported usage ∷ []), exited 1)
unfolding main print_usage
main-usage net argv selects m e few =
    simp (increase_full_buf-initial m e, lt→ltb (length argv) 4 few)

-- The name of the command line, cut to the 20 bytes of the field that keeps it.
pub set_name_lem :
    (name : Bytes) (m : Machine Client)
    → NoZero name
    → set_name name m ≡ (
      record m {
        globals = record m.globals { current_user_name = take (min 20 (length name)) name };
      },
      ok tt,
    )
unfolding set_name
set_name_lem name m nz = simp (strlen-NoZero name nz)
