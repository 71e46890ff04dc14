-- ===== src/Cli/Tests/Data.antt =====
-- The inputs of the runs.
use me2u.Base.{refl, List, [], ◌∷◌, some, true, arith}
use me2u.CString.{lit}
use me2u.System.{Machine, Read, Spawn}
use me2u.Protocol.{maxline}
use me2u.Cli.State.{User, Client}
use me2u.Cli.Buffer.Framing.{Holds}
use me2u.Cli.Invariant.{IsValid}
use me2u.Cli.Main.{Network, initial}

abbrev pub net : Network
net = record { socket = some 3; inet_pton = λ _. true; connect = λ _ _. true }

abbrev pub window : Spawn
window = record { rd = 4; wrt = 5; pid = some 77 }

abbrev pub eve : User
eve = record {
  username = lit "eve";
  to_cnt = 0;
  ot_cnt = 0;
  rd = 4;
  wrt = 5;
  active = true;
  pid = 77;
}

-- The client with those users, on these reads, and with one window to be opened.
abbrev pub client : List User → List Read → Machine Client
client users reads = record {
  os = record { reads = reads; spawns = window ∷ []; trace = [] };
  globals = record initial {
    full_buf = some [];
    max_size_of_full_buf = maxline;
    users = users;
    current_user_name = lit "bob";
  };
}

pub client-Holds : (users : List User) (reads : List Read) → Holds (client users reads).globals []
client-Holds users reads = record {
  text_is = refl;
  no_zero = tt;
  has_room = omega arith;
  size_ge = omega arith;
}

pub client-IsValid : (reads : List Read) → IsValid 3 (client (eve ∷ []) reads)
client-IsValid reads = record {
  text = [];
  holds = client-Holds (eve ∷ []) reads;
  fits = omega arith;
  registry = record {
    named = (omega arith, tt);
    distinct = (tt, tt);
    apart = ((λ e. omega arith), tt);
  };
  asked = λ fd e. cc;
  fresh = (omega arith, tt);
}
