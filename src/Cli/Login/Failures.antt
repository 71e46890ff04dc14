-- ===== src/Cli/Login/Failures.antt =====
-- The login procedures that fail: a name that is taken, and two ways in which a correct server is
-- refused, by how its messages fall into reads.
use me2u.Base.{
  ◌+◌, ◌≤◌, ◌<◌, ◌≡◌, refl, ap, ◌∙◌, ◌≢◌, false, List, [], ◌∷◌, ◌++◌, some, arith, length,
  length-append,
}
use me2u.CString.{Bytes, lit, cstr, strlen, strcmp_eq, strncmp_eq, overlay, NoZero}
use me2u.CString.Laws.{cstr-NoZero, strlen-NoZero, NoZero-append}
use me2u.System.{Machine, Read, got, ok, exited, wrote, traced}
use me2u.Protocol.{
  maxline, ending, server_user_taken, server_user_approve, server_motd, username_taken,
}
use me2u.Cli.State.{Client}
use me2u.Cli.Buffer.Framing.{Holds, with_text}
use me2u.Cli.Login.{read_message, await_motd, await_approval, on_motd, on_approval}
use me2u.Cli.Login.Reads.{after_got, read_message-some}
use me2u.Cli.Login.Rounds.{after_message}
use me2u.Cli.Login.Outcomes.{whole_read, empty_after, approval}

-- Where the name is taken the client shows "Username Taken" and ends with `EXIT_FAILURE`.
pub await_approval_taken :
    (m : Machine Client) (rs : List Read)
    → m.os.reads ≡ got (server_user_taken ++ ending) ∷ rs
    → Holds m.globals []
    → m.globals.read_buf ≡ []
    → await_approval m ≡ (
      traced (after_message m (server_user_taken ++ ending) rs) (wrote 1 username_taken ∷ []),
      exited 1,
    )
unfolding await_approval on_approval strcmp_eq
await_approval_taken m rs script h clear = simp (
    whole_read (lit "Server exited prematurely while username approval is in proces") m
      server_user_taken rs script (omega arith) (omega arith) h (rw clear (omega arith)))

-- Where the approval and more of what the server sends arrive in one read that fits the buffer,
-- the client refuses them as one message, and ends with `EXIT_FAILURE`.
pub await_approval_joined :
    (m : Machine Client) (more : Bytes) (rs : List Read)
    → m.os.reads ≡ got (approval ++ more ++ ending) ∷ rs
    → NoZero more
    → length more + 11 < maxline
    → Holds m.globals []
    → m.globals.read_buf ≡ []
    → (await_approval m).1 ≡ exited 1
unfolding await_approval on_approval strcmp_eq
await_approval_joined m more rs script nz lt h clear = simp (
    whole_read (lit "Server exited prematurely while username approval is in proces") m
      (approval ++ more) rs script (NoZero-append approval more (omega arith) nz) (omega arith) h
      (rw clear (omega arith)))

-- What three bytes at most make of the approval over which they are read, without its end.
abbrev pub stale_message : Bytes → Bytes
stale_message [] = server_user_approve
stale_message (a ∷ []) = a ∷ lit "AI"
stale_message (a ∷ b ∷ []) = a ∷ b ∷ lit "I"
stale_message (a ∷ b ∷ c ∷ d) = a ∷ b ∷ c ∷ []

overlay-approval : (f : Bytes) → length f ≤ 3 → overlay f approval ≡ stale_message f ++ ending
overlay-approval [] le = refl
overlay-approval (a ∷ []) le = refl
overlay-approval (a ∷ b ∷ []) le = refl
overlay-approval (a ∷ b ∷ c ∷ []) le = refl
overlay-approval (a ∷ b ∷ c ∷ d ∷ e) le = absurd (omega arith)

NoZero-stale_message : (f : Bytes) → NoZero f → length f ≤ 3 → NoZero (stale_message f)
NoZero-stale_message [] nz le = omega arith
NoZero-stale_message (a ∷ []) nz le = (nz.0, omega arith)
NoZero-stale_message (a ∷ b ∷ []) nz le = (nz.0, (nz.1.0, omega arith))
NoZero-stale_message (a ∷ b ∷ c ∷ d) nz le = (nz.0, (nz.1.0, (nz.1.1.0, tt)))

length-stale_message : (f : Bytes) → length (stale_message f) ≡ 3
length-stale_message [] = refl
length-stale_message (a ∷ []) = refl
length-stale_message (a ∷ b ∷ []) = refl
length-stale_message (a ∷ b ∷ c ∷ d) = refl

-- A message of three bytes is no message of the day.
short_motd : (s : Bytes) → NoZero s → length s ≡ 3 → strncmp_eq 4 s server_motd ≡ false
unfolding strncmp_eq
short_motd [] nz e = absurd (omega arith)
short_motd (a ∷ []) nz e = absurd (omega arith)
short_motd (a ∷ b ∷ []) nz e = absurd (omega arith)
short_motd (a ∷ b ∷ c ∷ []) nz e = ground arith
short_motd (a ∷ b ∷ c ∷ d ∷ r) nz e = absurd (omega arith)

stale_read :
    (e : Bytes) (m : Machine Client) (f : Bytes) (rs : List Read)
    → m.os.reads ≡ got f ∷ rs
    → NoZero f
    → f ≢ []
    → length f ≤ 3
    → Holds m.globals []
    → m.globals.read_buf ≡ approval
    → read_message e m
      ≡ (with_text (after_got m f rs) [] maxline, ok (length f, some (stale_message f)))
stale_read e m f rs script nz ne le h old =
    let msg = stale_message f in
    let over : overlay f m.globals.read_buf ≡ msg ++ ending =
      ap (overlay f) old ∙ overlay-approval f le in
    let string : NoZero (msg ++ ending) =
      NoZero-append msg ending (NoZero-stale_message f nz le) (omega arith) in
    let n = length-append msg ending in
    let size : strlen (overlay f m.globals.read_buf) < maxline =
      rw over (omega (arith, strlen-NoZero (msg ++ ending) string, length-stale_message f)) in
    read_message-some e m [] f msg rs script ne (omega arith) h size
      (ap cstr over ∙ cstr-NoZero (msg ++ ending) string)

-- Where the approval is read, and in the same round no more than three bytes of the message of the
-- day, the end of the approval still stands behind them in `read_buf` and is taken for theirs: the
-- client refuses the message, and ends with `EXIT_FAILURE`.
pub await_approval_cut :
    (m : Machine Client) (f : Bytes) (rs : List Read)
    → m.os.reads ≡ got approval ∷ got f ∷ rs
    → NoZero f
    → f ≢ []
    → length f ≤ 3
    → Holds m.globals []
    → m.globals.read_buf ≡ []
    → (await_approval m).1 ≡ exited 1
unfolding await_approval on_approval await_motd on_motd strcmp_eq
await_approval_cut m f rs script nz ne le h clear =
    let after = after_message m approval (got f ∷ rs) in
    simp (
      whole_read (lit "Server exited prematurely while username approval is in proces") m
          server_user_approve (got f ∷ rs) script (omega arith) (omega arith) h
          (rw clear (omega arith)),
      stale_read (lit "Server exited prevaturely before MOTD") after f rs refl nz ne le
          (empty_after m approval (got f ∷ rs)) refl,
      short_motd (stale_message f) (NoZero-stale_message f nz le) (length-stale_message f),
    )
