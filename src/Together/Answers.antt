-- ===== src/Together/Answers.antt =====
-- The server's other answers, and what a client does on them.
use me2u.Base.{
  ℕ, ◌≡◌, ◌≢◌, refl, sym, ap, ◌∙◌, Bool, true, List, [], ◌∷◌, ◌++◌, some, map, All, append-nil,
  append_assoc, arith, if◌then◌else◌, ne→==,
}
use me2u.CString.{Bytes, lit, NoZero, split_spaces, strtok_spaces}
use me2u.CString.Laws.{cstr-NoZero, NoZero-append}
use me2u.System.{Machine, wrote, ok, traced}
use me2u.Protocol.{ending}
use me2u.Cli.State.{Client}
use me2u.Cli.Conversation.{Talk, listed, nobody, lines_of, event_bytes}
use me2u.Cli.Conversation.View.{observed}
use me2u.Server.{User, Server, on_data}
use me2u.Server.Text.{NoBlank}
use me2u.Server.Promise.{lists, says, names_of, named, said_to, IsOpen, IsProper}
use me2u.Server.Handlers.{on_data-served}
use me2u.Together.{Ready, client_run}
use me2u.Together.Chats.{client_run-play}

-- A name that a client can read: not empty, and without blanks and zeros.
abbrev pub IsName : Bytes → Type 0
IsName name = (name ≢ []) × NoBlank name × NoZero name

split_spaces-names :
    (x : ℕ) (w : Bytes) (us : List User)
    → split_spaces (x ∷ w) (names_of us) ≡ (x ∷ w) ∷ split_spaces [] (names_of us)
unfolding split_spaces
split_spaces-names x w [] = refl
split_spaces-names x w (u ∷ us) = refl

split_spaces-word :
    (x : ℕ) (w name : Bytes) (us : List User)
    → NoBlank name
    → split_spaces (x ∷ w) (name ++ names_of us) ≡ (x ∷ w ++ name) ∷ split_spaces [] (names_of us)
unfolding split_spaces
split_spaces-word x w [] us h =
    split_spaces-names x w us
    ∙ ap (λ v. (x ∷ v) ∷ split_spaces [] (names_of us)) (sym (append-nil w))
split_spaces-word x w (c ∷ name) us (ne, h) = rw (ne→== c b' ' ne) (
    split_spaces-word x (w ++ c ∷ []) name us h
    ∙ ap (λ v. (x ∷ v) ∷ split_spaces [] (names_of us)) (append_assoc w (c ∷ []) name))

split_spaces-first :
    (name : Bytes) (us : List User)
    → name ≢ []
    → NoBlank name
    → split_spaces [] (name ++ names_of us) ≡ name ∷ split_spaces [] (names_of us)
unfolding split_spaces
split_spaces-first [] us ne h = absurd (ne refl)
split_spaces-first (c ∷ name) us ne (no_blank, h) =
    ap (λ (b : Bool). split_spaces (if b then [] else c ∷ []) (name ++ names_of us))
      (ne→== c b' ' no_blank)
    ∙ split_spaces-word c [] name us h

split_spaces-names_of :
    (us : List User)
    → All (λ u. IsName u.name) us
    → split_spaces [] (names_of us) ≡ map (λ u. u.name) us
unfolding split_spaces
split_spaces-names_of [] h = refl
split_spaces-names_of (u ∷ us) ((some_bytes, word, nz), h) =
    split_spaces-first u.name us some_bytes word ∙ ap (λ v. u.name ∷ v) (split_spaces-names_of us h)

names_of-NoZero : (us : List User) → All (λ u. IsName u.name) us → NoZero (names_of us)
names_of-NoZero [] h = tt
names_of-NoZero (u ∷ us) ((some_bytes, word, nz), h) =
    ((omega arith), NoZero-append u.name (names_of us) nz (names_of-NoZero us h))

-- The client takes the server's list apart into the names.
strtok_spaces-names_of :
    (us : List User)
    → All (λ u. IsName u.name) us
    → strtok_spaces (names_of us) ≡ map (λ u. u.name) us
unfolding strtok_spaces
strtok_spaces-names_of us h =
    ap (split_spaces []) (cstr-NoZero (names_of us) (names_of-NoZero us h))
    ∙ split_spaces-names_of us h

-- `LISTU`: the server sends the names, and the client shows exactly these, in the order of the server's
-- list, each on a line of its own. The names are not empty and have no blank and no zero; no connection
-- is closed; and the answer comes in one read that fits the client's buffer.
pub list_together :
    (srv : Machine Server) (a : User) (sockfd : ℕ) (m : Machine Client) (t : Talk)
    → All (λ u. IsName u.name) srv.globals.users
    → All (IsOpen srv.globals.closed_conns) srv.globals.users
    → IsOpen srv.globals.closed_conns a
    → Ready sockfd m t (listed (names_of srv.globals.users))
    → let answer = listed (names_of srv.globals.users) in
      (on_data a.conn a.addr (lit "LISTU\r\n\r\n") srv
        ≡ (traced srv (wrote a.conn (event_bytes answer) ∷ []), ok true))
      × (observed (client_run sockfd t answer m).0.os.trace
          ≡ observed m.os.trace ++ lines_of (map (λ u. u.name) srv.globals.users))
list_together srv a sockfd m t named_all all mine r =
    let answer = listed (names_of srv.globals.users) in
    let shown = lines_of (map (λ u. u.name) srv.globals.users) in
    let (end, view, out) = client_run-play {t' = t} answer shown r (
      ap (λ ws. some (t, lines_of ws ++ [])) (strtok_spaces-names_of srv.globals.users named_all)
      ∙ ap (λ fx. some (t, fx)) (append-nil shown)) in
    (on_data-served srv a all mine lists tt, out)

-- `/chat` to nobody: the server tells the sender so, and the client says it with the name, which no user
-- has. No connection is closed, and the answer comes in one read that fits the client's buffer.
pub nobody_together :
    (srv : Machine Server) (a : User) (name text : Bytes) (sockfd : ℕ) (m : Machine Client)
    (t : Talk)
    → IsProper srv.globals.users a (says name text)
    → named name srv.globals.users ≡ []
    → All (IsOpen srv.globals.closed_conns) srv.globals.users
    → IsOpen srv.globals.closed_conns a
    → Ready sockfd m t (nobody name)
    → (on_data a.conn a.addr (lit "TO " ++ (name ++ b' ' ∷ text) ++ ending) srv
        ≡ (traced srv (wrote a.conn (event_bytes (nobody name)) ∷ []), ok true))
      × (observed (client_run sockfd t (nobody name) m).0.os.trace
          ≡ observed m.os.trace
            ++ wrote 1 (lit "No, user = ") ∷ wrote 1 name ∷ wrote 1 (lit " exists.\n") ∷ [])
nobody_together srv a name text sockfd m t p none_named all mine r =
    let (end, view, out) =
      client_run-play {t' = t} (nobody name)
        (wrote 1 (lit "No, user = ") ∷ wrote 1 name ∷ wrote 1 (lit " exists.\n") ∷ []) r refl in
    (
      on_data-served srv a all mine (says name text) p
          ∙ ap (λ us. (traced srv (said_to a name text us ∷ []), ok true)) none_named,
      out,
    )
