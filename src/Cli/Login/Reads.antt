-- ===== src/Cli/Login/Reads.antt =====
-- One read of the login procedure.
use me2u.Base.{◌≤◌, ◌<◌, ◌≡◌, refl, ◌≢◌, List, [], ◌∷◌, ◌++◌, some, length, take_all}
use me2u.CString.{Bytes, cstr, strlen, overlay}
use me2u.System.{Machine, Read, got, ok, exited, reported}
use me2u.Protocol.{maxline, ending}
use me2u.Cli.State.{Client}
use me2u.Cli.Buffer.Framing.{Holds, with_text}
use me2u.Cli.Buffer.Messages.{process_string-some}
use me2u.Cli.Login.{store_read, read_message, read_count}

-- The machine after the bytes `b` have been read.
abbrev pub after_got : Machine Client → Bytes → List Read → Machine Client
after_got m b rs = record m {
  os = record m.os { reads = rs };
  globals = record m.globals { read_buf = overlay b m.globals.read_buf };
}

store_read_lem :
    (b : Bytes) (m : Machine Client)
    → length b ≤ maxline
    → store_read (got b) m
      ≡ (record m { globals = record m.globals { read_buf = overlay b m.globals.read_buf } }, ok tt)
unfolding store_read
store_read_lem b m le = simp (take_all maxline b le)

read_count_lem : (b : Bytes) → length b ≤ maxline → read_count (got b) ≡ length b
unfolding read_count
read_count_lem b le = simp (take_all maxline b le)

-- A read that completes a message.
pub read_message-some :
    (e : Bytes) (m : Machine Client) (t b msg : Bytes) (rs : List Read)
    → m.os.reads ≡ got b ∷ rs
    → b ≢ []
    → length b ≤ maxline
    → Holds m.globals t
    → strlen (overlay b m.globals.read_buf) < maxline
    → t ++ cstr (overlay b m.globals.read_buf) ≡ msg ++ ending
    → read_message e m ≡ (with_text (after_got m b rs) [] maxline, ok (length b, some msg))
unfolding read_message
read_message-some e m t [] msg rs script ne le h short whole = absurd (ne refl)
read_message-some e m t (c ∷ b) msg rs script ne le h short whole = simp (
  script,
  store_read_lem (c ∷ b) (record m { os = record m.os { reads = rs } }) le,
  read_count_lem (c ∷ b) le,
  process_string-some (after_got m (c ∷ b) rs) t (overlay (c ∷ b) m.globals.read_buf) msg h short
      whole,
)

-- At the end of the file the program ends, with the message of the place.
pub read_message-eof :
    (e : Bytes) (m : Machine Client) (rs : List Read)
    → m.os.reads ≡ got [] ∷ rs
    → read_message e m ≡ (
      record m { os = record m.os { reads = rs; trace = m.os.trace ++ reported e ∷ [] } },
      exited 1,
    )
unfolding read_message
read_message-eof e m rs script = simp script
