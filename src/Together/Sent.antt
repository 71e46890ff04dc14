-- ===== src/Together/Sent.antt =====
-- What a client sends to the server in a conversation.
use me2u.Base.{
  ℕ, ◌≡◌, ◌≢◌, refl, sym, subst, ap, ap₂, ◌∙◌, false, List, [], ◌∷◌, ◌++◌, Option, some, none, All,
  All-append, Bool-cases, inl, inr,
}
use me2u.CString.{Bytes, lit, strcmp_eq, strtok_spaces}
use me2u.System.{Effect, wrote, spawned, shut_wr, Spawn}
use me2u.Protocol.{ending}
use me2u.Cli.Text.{help_string}
use me2u.Cli.Conversation.{
  Talk, Event, listed, delivered, nobody, said, gone, asks_help, asks_list, chats, quits, quiet,
  deliver_to, open_window, forked_window, deliver, window_of, and_then, play, respond, lines_of,
  receipt,
}
use me2u.Cli.Conversation.Refinement.{play_on-some}
use me2u.Cli.Conversation.Messages.{if_open-some}
use me2u.Cli.Conversation.Server.{and_then-some}
use me2u.Together.{inbox}
use me2u.Together.Wires.{inbox_self, inbox-other, inbox-append}
use me2u.Together.Visits.{IsApart, outbox}

window_of-apart :
    (sockfd : ℕ) (name : Bytes) (ws : List (Bytes × ℕ)) (fd : ℕ)
    → All (λ w. w.1 ≢ sockfd) ws
    → window_of name ws ≡ some fd
    → fd ≢ sockfd
window_of-apart sockfd name [] fd h e = absurd (cc e)
window_of-apart sockfd name ((other, k) ∷ ws) fd (ne, h) e =
    elim (Bool-cases (strcmp_eq other name)) [
      | inl same ↦ let it : k ≡ fd = cc (rw same at e) in subst (λ x. x ≢ sockfd) it ne
      | inr differs ↦ window_of-apart sockfd name ws fd h (rw differs at e)
    ]

-- These effects send nothing on the socket, and the windows stay apart from it.
abbrev Silent : ℕ → Talk → List Effect → Type 0
Silent sockfd t fx = (inbox sockfd fx ≡ []) × IsApart sockfd t

forked-Silent :
    (sockfd : ℕ) (name text : Bytes) (t t' : Talk) (p : Spawn) (ps : List Spawn) (pid : Option ℕ)
    (fx : List Effect)
    → All (λ w. w.1 ≢ sockfd) t.windows
    → p.wrt ≢ sockfd
    → All (λ q. q.wrt ≢ sockfd) ps
    → forked_window name text t p ps pid ≡ some (t', fx)
    → Silent sockfd t' fx
forked-Silent sockfd name text t t' p ps none fx hs ne rest e = absurd (cc e)
forked-Silent sockfd name text t t' p ps (some child) fx hs ne rest e =
    let opened : Talk = record t { windows = t.windows ++ (name, p.wrt) ∷ []; spawns = ps } in
    let same : opened ≡ t' = cc e in
    let effects : spawned name p.rd p.wrt ∷ wrote p.wrt text ∷ [] ≡ fx = cc e in
    (
      subst (λ es. inbox sockfd es ≡ []) effects (inbox-other sockfd p.wrt text [] ne),
      subst (IsApart sockfd) same
          (All-append (λ w. w.1 ≢ sockfd) t.windows ((name, p.wrt) ∷ []) hs (ne, tt), rest),
    )

open-Silent :
    (sockfd : ℕ) (name text : Bytes) (t t' : Talk) (ps : List Spawn) (fx : List Effect)
    → All (λ w. w.1 ≢ sockfd) t.windows
    → All (λ q. q.wrt ≢ sockfd) ps
    → open_window name text t ps ≡ some (t', fx)
    → Silent sockfd t' fx
open-Silent sockfd name text t t' [] fx hs rest e = absurd (cc e)
open-Silent sockfd name text t t' (p ∷ ps) fx hs (ne, rest) e =
    forked-Silent sockfd name text t t' p ps p.pid fx hs ne rest e

deliver_to-Silent :
    (sockfd : ℕ) (name text : Bytes) (t t' : Talk) (o : Option ℕ) (fx : List Effect)
    → IsApart sockfd t
    → window_of name t.windows ≡ o
    → deliver_to name text t o ≡ some (t', fx)
    → Silent sockfd t' fx
deliver_to-Silent sockfd name text t t' none fx (hs, rest) h e =
    open-Silent sockfd name text t t' t.spawns fx hs rest e
deliver_to-Silent sockfd name text t t' (some fd) fx (hs, rest) h e =
    let same : t ≡ t' = cc e in
    let effects : wrote fd text ∷ [] ≡ fx = cc e in
    (
      subst (λ es. inbox sockfd es ≡ []) effects
          (inbox-other sockfd fd text [] (window_of-apart sockfd name t.windows fd hs h)),
      subst (IsApart sockfd) same (hs, rest),
    )

lines_of-inbox : (sockfd : ℕ) (ws : List Bytes) → 1 ≢ sockfd → inbox sockfd (lines_of ws) ≡ []
lines_of-inbox sockfd [] ne = refl
lines_of-inbox sockfd (w ∷ ws) ne =
    inbox-other sockfd 1 w (wrote 1 (b'\n' ∷ []) ∷ lines_of ws) ne
    ∙ inbox-other sockfd 1 (b'\n' ∷ []) (lines_of ws) ne
    ∙ lines_of-inbox sockfd ws ne

-- Exactly these bytes are sent, and the windows stay apart from the socket.
abbrev pub Sends : ℕ → Talk → List Effect → List Bytes → Type 0
Sends sockfd t fx bs = (inbox sockfd fx ≡ bs) × IsApart sockfd t

Sends-some :
    (sockfd : ℕ) (t t' : Talk) (es fx : List Effect) (bs : List Bytes)
    → ◌≡◌ {A = Option (Talk × List Effect)} (some (t, es)) (some (t', fx))
    → Sends sockfd t es bs
    → Sends sockfd t' fx bs
Sends-some sockfd t t' es fx bs e (out, apart) =
    let same : t ≡ t' = cc e in
    let effects : es ≡ fx = cc e in
    (subst (λ es. inbox sockfd es ≡ bs) effects out, subst (IsApart sockfd) same apart)

deliver-Sends :
    (sockfd : ℕ) (name text b : Bytes) (t t' : Talk) (fx : List Effect)
    → IsApart sockfd t
    → and_then (deliver name text t) (wrote sockfd b ∷ []) ≡ some (t', fx)
    → Sends sockfd t' fx (b ∷ [])
deliver-Sends sockfd name text b t t' fx apart e =
    let (gx, sent, whole) = and_then-some (deliver name text t) (wrote sockfd b ∷ []) t' fx e in
    let (silent, later) =
      deliver_to-Silent sockfd name text t t' (window_of name t.windows) gx apart refl sent in
    (
      ap (inbox sockfd) (sym whole)
          ∙ inbox-append sockfd gx (wrote sockfd b ∷ [])
          ∙ ap (λ xs. xs ++ inbox sockfd (wrote sockfd b ∷ [])) silent
          ∙ inbox_self sockfd b [],
      later,
    )

receipt-Sends :
    (sockfd : ℕ) (t t' : Talk) (o : Option ℕ) (fx : List Effect)
    → IsApart sockfd t
    → receipt t o ≡ some (t', fx)
    → Sends sockfd t' fx []
receipt-Sends sockfd t t' none fx apart e = absurd (cc e)
receipt-Sends sockfd t t' (some fd) fx apart e = Sends-some sockfd t t' [] fx [] e (refl, apart)

respond-Sends :
    (sockfd : ℕ) (e : Event) (t t' : Talk) (fx : List Effect)
    → 1 ≢ sockfd
    → IsApart sockfd t
    → respond sockfd e t ≡ some (t', fx)
    → Sends sockfd t' fx (outbox (e ∷ []))
respond-Sends sockfd (listed names) t t' fx ne apart e =
    Sends-some sockfd t t' (lines_of (strtok_spaces names)) fx [] e
      (lines_of-inbox sockfd (strtok_spaces names) ne, apart)
respond-Sends sockfd (delivered name) t t' fx ne apart e =
    receipt-Sends sockfd t t' (window_of name t.windows) fx apart e
respond-Sends sockfd (nobody name) t t' fx ne apart e =
    let last = wrote 1 (lit " exists.\n") ∷ [] in
    Sends-some sockfd t t' (wrote 1 (lit "No, user = ") ∷ wrote 1 name ∷ last) fx [] e (
      inbox-other sockfd 1 (lit "No, user = ") (wrote 1 name ∷ last) ne
          ∙ inbox-other sockfd 1 name last ne
          ∙ inbox-other sockfd 1 (lit " exists.\n") [] ne,
      apart,
    )
respond-Sends sockfd (said name text) t t' fx ne apart e =
    deliver-Sends sockfd name text (lit "MORF " ++ (name ++ b' ' ∷ text) ++ ending) t t' fx apart e
respond-Sends sockfd (gone name) t t' fx ne apart e =
    let first = lit "Client closed with the name of = " in
    Sends-some sockfd t t' (wrote 1 first ∷ wrote 1 name ∷ []) fx [] e
      (inbox-other sockfd 1 first (wrote 1 name ∷ []) ne ∙ inbox-other sockfd 1 name [] ne, apart)
respond-Sends sockfd asks_help t t' fx ne apart e =
    let (on, now) = if_open-some t t' (some (t, wrote 1 help_string ∷ [])) fx e in
    Sends-some sockfd t t' (wrote 1 help_string ∷ []) fx [] now
      (inbox-other sockfd 1 help_string [] ne, apart)
respond-Sends sockfd asks_list t t' fx ne apart e =
    let asked = lit "LISTU\r\n\r\n" in
    let (on, now) = if_open-some t t' (some (t, wrote sockfd asked ∷ [])) fx e in
    Sends-some sockfd t t' (wrote sockfd asked ∷ []) fx (asked ∷ []) now
      (inbox_self sockfd asked [], apart)
respond-Sends sockfd (chats name text) t t' fx ne apart e =
    let b = lit "TO " ++ (name ++ b' ' ∷ text) ++ ending in
    let (on, now) = if_open-some t t' (and_then (deliver name text t) (wrote sockfd b ∷ [])) fx e in
    deliver-Sends sockfd name text b t t' fx apart now
respond-Sends sockfd quits t t' fx ne apart e =
    let bye = lit "BYE\r\n\r\n" in
    let shut : Talk = record t { input = false } in
    let es = wrote sockfd bye ∷ shut_wr sockfd ∷ [] in
    let (on, now) = if_open-some t t' (some (shut, es)) fx e in
    Sends-some sockfd shut t' es fx (bye ∷ []) now
      (inbox_self sockfd bye (shut_wr sockfd ∷ []), apart)
respond-Sends sockfd quiet t t' fx ne apart e = Sends-some sockfd t t' [] fx [] e (refl, apart)

outbox-cons : (e : Event) (es : List Event) → outbox (e ∷ []) ++ outbox es ≡ outbox (e ∷ es)
outbox-cons (listed names) es = refl
outbox-cons (delivered name) es = refl
outbox-cons (nobody name) es = refl
outbox-cons (said name text) es = refl
outbox-cons (gone name) es = refl
outbox-cons asks_help es = refl
outbox-cons asks_list es = refl
outbox-cons (chats name text) es = refl
outbox-cons quits es = refl
outbox-cons quiet es = refl

-- What a conversation sends on the socket.
pub play-Sends :
    (sockfd : ℕ) (es : List Event) (t t' : Talk) (fx : List Effect)
    → 1 ≢ sockfd
    → IsApart sockfd t
    → play sockfd es t ≡ some (t', fx)
    → Sends sockfd t' fx (outbox es)
play-Sends sockfd [] t t' fx ne apart e = Sends-some sockfd t t' [] fx [] e (refl, apart)
play-Sends sockfd (e ∷ es) t t' fx ne apart played =
    let (t1, before, after, first, others, whole) =
      play_on-some (respond sockfd e t) (play sockfd es) t' fx played in
    let (now, still) = respond-Sends sockfd e t t1 before ne apart first in
    let (later, end) = play-Sends sockfd es t1 t' after ne still others in
    (
      ap (inbox sockfd) (sym whole)
          ∙ inbox-append sockfd before after
          ∙ ap₂ (λ xs ys. xs ++ ys) now later
          ∙ outbox-cons e es,
      end,
    )
