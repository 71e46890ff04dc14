-- ===== src/Together/Session.antt =====
-- A whole visit: the two programs run on each other.
use me2u.Base.{ℕ, ◌≡◌, ◌≢◌, refl, sym, ap, ◌∙◌, List, [], ◌∷◌, ◌++◌, some, All, All-map, append-nil}
use me2u.CString.{Bytes, lit}
use me2u.System.{Machine, Effect, wrote, closed, exited, crashed}
use me2u.Protocol.{ending}
use me2u.Cli.State.{Client}
use me2u.Cli.Login.Outcomes.{hello_reply, approval, motd}
use me2u.Cli.Conversation.{Talk, Event, play}
use me2u.Cli.Conversation.Arrivals.{events_of}
use me2u.Cli.Conversation.View.{observed}
use me2u.Cli.Invariant.{ApartSpawn}
use me2u.Cli.Main.{Network, main, initial}
use me2u.Cli.Main.Session.{
  Session, IsSession, arguments, session_reads, session_selects, first_talk, greetings,
  main_session,
}
use me2u.Server.{User, Server, handle_user}
use me2u.Server.Threads.{request_reads, served_all, thread_end, AreProper, handle_user_session}
use me2u.Together.{inbox, arrive}
use me2u.Together.Wires.{inbox_self, inbox-other, inbox-append}
use me2u.Together.Visits.{
  Line, help, list, writes, visit_events, visit_requests, from_server, at_once, visit_session,
  IsForOthers, outbox, request_texts, IsApart, requests_of,
}
use me2u.Together.Sent.{play-Sends}
use me2u.Together.Replies.{outbox-visit, request_texts-reads, visit-inbox}

events_of-at_once : (es : List Event) → events_of (at_once es) ≡ es
events_of-at_once [] = refl
events_of-at_once (e ∷ es) = ap (◌∷◌ e) (events_of-at_once es)

-- Those of the client's reads that come from its socket, in a session that ends with `EYB`.
abbrev pub socket_messages : Session → List Bytes
socket_messages s =
    hello_reply
    ∷ approval
    ∷ motd s.text
    ∷ (from_server (events_of s.arrivals) ++ lit "EYB\r\n\r\n" ∷ [])

-- What the client writes in a visit.
abbrev pub written : Session → List Effect → List Effect
written s fx = greetings s ++ fx ++ closed s.sockfd ∷ []

written-inbox :
    (s : Session) (us : List User) (ls : List Line) (fx : List Effect)
    → 1 ≢ s.sockfd
    → inbox s.sockfd fx ≡ outbox (visit_events us ls)
    → inbox s.sockfd (written s fx) ≡ request_texts (visit_requests s.name ls)
written-inbox s us ls fx ne out =
    let iam = lit "IAM " ++ s.name ++ ending in
    let shown = s.text ++ 0 ∷ 0 ∷ 0 ∷ 0 ∷ 0 ∷ 0 ∷ [] in
    let talk = fx ++ closed s.sockfd ∷ [] in
    inbox_self s.sockfd (lit "ME2U\r\n\r\n") (wrote s.sockfd iam ∷ wrote 1 shown ∷ talk)
    ∙ ap (◌∷◌ (lit "ME2U\r\n\r\n")) (
        inbox_self s.sockfd iam (wrote 1 shown ∷ talk)
        ∙ ap (◌∷◌ iam) (
            inbox-other s.sockfd 1 shown talk ne
            ∙ inbox-append s.sockfd fx (closed s.sockfd ∷ [])
            ∙ append-nil (inbox s.sockfd fx)
            ∙ out
            ∙ outbox-visit us ls))

-- The last request of a visit is a leave.
requests_of-end : (ls : List Line) → thread_end (requests_of ls) ≡ crashed
requests_of-end [] = refl
requests_of-end (help ∷ ls) = requests_of-end ls
requests_of-end (list ∷ ls) = requests_of-end ls
requests_of-end (writes name text ∷ ls) = requests_of-end ls

visit-end : (name : Bytes) (ls : List Line) → thread_end (visit_requests name ls) ≡ crashed
visit-end name ls = requests_of-end ls

-- A whole visit, the user's client and the server's thread each on what the other writes. The client, on
-- the server's messages and lines of its user that end with `/logout`, ends with code 0, and is observed to
-- write what `play` gives. The thread, on just the messages of these writes that go to the socket, serves
-- the requests of the lines one after the other, and ends with the exception that `recv` raises on the
-- connection that it has closed itself. What it sends on this connection is what the
-- client reads from its socket: the greeting, the approval and the message of the day, the answer to each
-- line, and the farewell, in this order, with nothing lost and nothing else. No window is told to
-- close, and one is opened for the receiver of a text whether that user is there or not. The lines ask for help, for the
-- users, or write to other users, there or not; each message comes in one read and each answer before the
-- next line; meanwhile nobody else comes, goes or writes. The client starts with its initial variables and
-- connects; the name is free, fits its field and does not begin with '-'; every window that is needed can be
-- opened; the requests are proper and fit the buffers, have no zero, and names are words; no connection of a
-- user is closed; and the socket is neither 0 nor 1, nor a descriptor of a pipe.
pub visit_together :
    (net : Network) (hostaddr port program : Bytes) (sockfd : ℕ) (m : Machine Client)
    (srv : Machine Server) (me : User) (ls : List Line) (t : Talk) (fx : List Effect)
    → m.globals ≡ initial
    → m.os.reads
      ≡ session_reads (visit_session sockfd hostaddr port me (srv.globals.users ++ me ∷ []) ls) []
    → All (ApartSpawn sockfd) m.os.spawns
    → 1 ≢ sockfd
    → IsSession net (visit_session sockfd hostaddr port me (srv.globals.users ++ me ∷ []) ls)
    → AreProper me (visit_requests me.name ls) srv
    → All (IsForOthers me (srv.globals.users ++ me ∷ [])) ls
    → play sockfd (visit_events (srv.globals.users ++ me ∷ []) ls) (first_talk m.os.spawns)
      ≡ some (t, fx)
    → let us = srv.globals.users ++ me ∷ [] in
      let s = visit_session sockfd hostaddr port me us ls in
      let client = main net (arguments program s) (session_selects s []) m in
      let thread = handle_user me.conn me.addr (arrive (inbox sockfd (written s fx))) srv in
      (client.1 ≡ exited 0)
      × (observed client.0.os.trace ≡ observed m.os.trace ++ written s fx)
      × (thread ≡ (served_all me (visit_requests me.name ls) srv, crashed))
      × (inbox me.conn thread.0.os.trace ≡ inbox me.conn srv.os.trace ++ socket_messages s)
visit_together net hostaddr port program sockfd m srv me ls t fx fresh script fresh_pipes ne h
      proper apart played =
    let us = srv.globals.users ++ me ∷ [] in
    let s = visit_session sockfd hostaddr port me us ls in
    let reqs = visit_requests me.name ls in
    let (code, shown) = main_session net s program [] [] m t fx fresh script fresh_pipes h (
      ap (λ es. play sockfd es (first_talk m.os.spawns)) (events_of-at_once (visit_events us ls))
      ∙ played) in
    let windows_apart : IsApart sockfd (first_talk m.os.spawns) =
      (tt, All-map m.os.spawns (λ p a. a.1.1) fresh_pipes) in
    let (out, still) =
      play-Sends sockfd (visit_events us ls) (first_talk m.os.spawns) t fx ne windows_apart
        played in
    let heard : arrive (inbox sockfd (written s fx)) ≡ request_reads reqs =
      ap arrive (written-inbox s us ls fx ne out) ∙ request_texts-reads reqs in
    let served_it : handle_user me.conn me.addr (arrive (inbox sockfd (written s fx))) srv
        ≡ (served_all me reqs srv, crashed) =
      ap (λ rs. handle_user me.conn me.addr rs srv) heard
      ∙ handle_user_session me reqs srv proper.2 proper
      ∙ ap (λ r. (served_all me reqs srv, r)) (visit-end me.name ls) in
    (
      code,
      shown,
      served_it,
      ap (λ r. inbox me.conn r.0.os.trace) served_it
          ∙ visit-inbox me ls srv proper apart
          ∙ ap
              (λ es.
                inbox me.conn srv.os.trace
                ++ (hello_reply
                    ∷ approval
                    ∷ motd (lit "Hello Human ")
                    ∷ (from_server es ++ lit "EYB\r\n\r\n" ∷ [])))
              (sym (events_of-at_once (visit_events us ls))),
    )
