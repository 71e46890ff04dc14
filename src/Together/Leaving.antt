-- ===== src/Together/Leaving.antt =====
-- A user's leave, as another user sees it.
use me2u.Base.{
  ℕ, zero, suc, ◌≡◌, ◌≢◌, refl, sym, subst, ap, ◌∙◌, true, List, [], ◌∷◌, ◌++◌, some, get_elem?,
  map, All-map, ne→==, Bool-cases, inl, inr, ◌==◌,
}
use me2u.CString.{Bytes, lit}
use me2u.System.{Machine, wrote, closed, ok}
use me2u.Protocol.{ending}
use me2u.Cli.State.{Client}
use me2u.Cli.Conversation.{Talk, gone, event_bytes}
use me2u.Cli.Conversation.View.{observed, View}
use me2u.Server.{User, Server, on_data, without}
use me2u.Server.Promise.{leaves, replies, served, post}
use me2u.Server.Sound.{
  IsSound, IsUser, IsOther, AreOthers, All-get, on_data-allowed, without-AreOthers,
}
use me2u.Together.{inbox, Ready, client_run}
use me2u.Together.Wires.{inbox_self, inbox-other, inbox-append, inbox-others}
use me2u.Together.Chats.{client_run-play}

-- Who has another address stays on the list.
without-IsUser :
    (us : List User) (addr k : ℕ) (b : User)
    → b.addr ≢ addr
    → get_elem? us k ≡ some b
    → IsUser (without us addr) b
without-IsUser [] addr k b ne e = absurd (cc e)
without-IsUser (u ∷ us) addr zero b ne e =
    let same : u ≡ b = cc e in
    rw (ne→== u.addr addr (subst (λ v. v.addr ≢ addr) (sym same) ne)) (zero, e)
without-IsUser (u ∷ us) addr (suc k) b ne e = elim (Bool-cases (u.addr == addr)) [
  | inl here ↦ rw here (k, e)
  | inr other ↦ let (j, found) = without-IsUser us addr k b ne e in rw other (suc j, found)
]

-- A message to each user reaches each of them once.
inbox-IsUser :
    (us : List User) (k : ℕ) (b : User) (bytes : Bytes)
    → AreOthers us
    → get_elem? us k ≡ some b
    → inbox b.conn (map (λ u. post u bytes) us) ≡ (bytes ++ ending) ∷ []
inbox-IsUser [] k b bytes h e = absurd (cc e)
inbox-IsUser (u ∷ us) zero b bytes (apart, h) e =
    let same : u ≡ b = cc e in
    subst (λ v. inbox v.conn (map (λ w. post w bytes) (u ∷ us)) ≡ (bytes ++ ending) ∷ []) same
      (inbox_self u.conn (bytes ++ ending) (map (λ w. post w bytes) us)
        ∙ ap (λ bs. (bytes ++ ending) ∷ bs)
            (inbox-others u.conn bytes us (All-map us (λ v o. o.1) apart)))
inbox-IsUser (u ∷ us) (suc k) b bytes (apart, h) e =
    let (ne, ne_conn) = All-get (IsOther u) us k b apart e in
    inbox-other b.conn u.conn (bytes ++ ending) (map (λ w. post w bytes) us)
      (λ same. ne_conn (sym same))
    ∙ inbox-IsUser us k b bytes h e

-- `BYE` from one user: the server serves it as promised, every other user is sent exactly one message on
-- it, and that user's client shows the name of who has left, keeps its windows, and sends nothing. The
-- users' connections are open, no two of them or of the addresses are the same, and the message comes in
-- one read that fits the client's buffer.
pub leave_together :
    (srv : Machine Server) (a b : User) (sockfd : ℕ) (m : Machine Client) (t : Talk)
    → IsSound srv
    → IsUser srv.globals.users a
    → IsUser srv.globals.users b
    → IsOther a b
    → Ready sockfd m t (gone a.name)
    → (on_data a.conn a.addr (lit "BYE" ++ ending) srv ≡ (served a leaves srv, ok true))
      × (inbox b.conn (served a leaves srv).os.trace
          ≡ inbox b.conn srv.os.trace ++ event_bytes (gone a.name) ∷ [])
      × View sockfd (client_run sockfd t (gone a.name) m).0 t
      × (observed (client_run sockfd t (gone a.name) m).0.os.trace
          ≡ observed m.os.trace
            ++ wrote 1 (lit "Client closed with the name of = ") ∷ wrote 1 a.name ∷ [])
leave_together srv a b sockfd m t sound a_in (k, b_in) (ne, ne_conn) r =
    let rest = without srv.globals.users a.addr in
    let off = lit "UOFF " ++ a.name in
    let others = map (λ u. post u off) rest in
    let (j, found) = without-IsUser srv.globals.users a.addr k b ne b_in in
    let (end, view, out) =
      client_run-play {t' = t} (gone a.name)
        (wrote 1 (lit "Client closed with the name of = ") ∷ wrote 1 a.name ∷ []) r refl in
    (
      on_data-allowed srv sound a leaves a_in,
      inbox-append b.conn srv.os.trace (replies srv.globals.users a leaves)
          ∙ ap (λ xs. inbox b.conn srv.os.trace ++ xs)
              (inbox-other b.conn a.conn (lit "EYB" ++ ending) (closed a.conn ∷ others)
                  (λ same. ne_conn (sym same))
                ∙ inbox-IsUser rest j b off (without-AreOthers srv.globals.users a.addr sound.0)
                    found),
      view,
      out,
    )
