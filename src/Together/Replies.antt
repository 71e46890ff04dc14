-- ===== src/Together/Replies.antt =====
-- What the server sends to a user's client in a visit, and what it is asked.
use me2u.Base.{◌≡◌, ◌≢◌, refl, sym, ap, ◌∙◌, List, [], ◌∷◌, ◌++◌, map, All, append_assoc}
use me2u.CString.{Bytes, lit}
use me2u.System.{Machine, closed, got}
use me2u.Protocol.{ending}
use me2u.Cli.Conversation.{
  Event, listed, delivered, nobody, said, gone, asks_help, asks_list, chats, quits, quiet,
  event_bytes,
}
use me2u.Server.{User, Server, without}
use me2u.Server.Promise.{
  Request, hello, registers, lists, says, leaves, request_bytes, named, said_to, post, replies,
  served, names_of,
}
use me2u.Server.Threads.{request_reads, served_all, AreProper}
use me2u.Together.{inbox, arrive}
use me2u.Together.Wires.{inbox_self, inbox-other, inbox-append, inbox-others}
use me2u.Together.Visits.{
  Line, help, list, writes, reply_to, visit_events, requests_of, visit_requests, from_server,
  IsForOthers, outbox, request_texts,
}

from_server-append :
    (es fs : List Event) → from_server (es ++ fs) ≡ from_server es ++ from_server fs
from_server-append [] fs = refl
from_server-append (listed names ∷ es) fs =
    ap (◌∷◌ (event_bytes (listed names))) (from_server-append es fs)
from_server-append (delivered name ∷ es) fs =
    ap (◌∷◌ (event_bytes (delivered name))) (from_server-append es fs)
from_server-append (nobody name ∷ es) fs =
    ap (◌∷◌ (event_bytes (nobody name))) (from_server-append es fs)
from_server-append (said name text ∷ es) fs =
    ap (◌∷◌ (event_bytes (said name text))) (from_server-append es fs)
from_server-append (gone name ∷ es) fs =
    ap (◌∷◌ (event_bytes (gone name))) (from_server-append es fs)
from_server-append (asks_help ∷ es) fs = from_server-append es fs
from_server-append (asks_list ∷ es) fs = from_server-append es fs
from_server-append (chats name text ∷ es) fs = from_server-append es fs
from_server-append (quits ∷ es) fs = from_server-append es fs
from_server-append (quiet ∷ es) fs = from_server-append es fs

-- What the user types is what the server's thread reads.
pub outbox-visit :
    (us : List User) (ls : List Line) → outbox (visit_events us ls) ≡ request_texts (requests_of ls)
outbox-visit us [] = refl
outbox-visit us (help ∷ ls) = outbox-visit us ls
outbox-visit us (list ∷ ls) = ap (◌∷◌ (lit "LISTU\r\n\r\n")) (outbox-visit us ls)
outbox-visit us (writes name text ∷ ls) =
    ap (◌∷◌ ((request_bytes (says name text)) ++ ending))
      (unanswered (named name us) ∙ outbox-visit us ls)
  where
    unanswered :
        (vs : List User)
        → outbox (reply_to name vs ++ visit_events us ls) ≡ outbox (visit_events us ls)
    unanswered [] = refl
    unanswered (v ∷ vs) = refl

pub request_texts-reads : (rs : List Request) → arrive (request_texts rs) ≡ request_reads rs
request_texts-reads [] = refl
request_texts-reads (r ∷ rs) = ap (◌∷◌ (got (request_bytes r ++ ending))) (request_texts-reads rs)

module _ (me : User) where
  said_to-inbox :
      (name text : Bytes) (us : List User)
      → All (λ u. u.conn ≢ me.conn) us
      → inbox me.conn (said_to me name text us ∷ []) ≡ from_server (reply_to name us)
  said_to-inbox name text [] h = inbox_self me.conn (lit "EDNE " ++ name ++ ending) []
  said_to-inbox name text (u ∷ us) (ne, h) =
      inbox-other me.conn u.conn (lit "FROM " ++ me.name ++ b' ' ∷ text ++ ending) [] ne

  -- What one message sends, in front of the rest.
  served-inbox :
      (m : Machine Server) (r : Request) (bs rest : List Bytes)
      → inbox me.conn (replies m.globals.users me r) ≡ bs
      → inbox me.conn (served me r m).os.trace ++ rest ≡ inbox me.conn m.os.trace ++ (bs ++ rest)
  served-inbox m r bs rest h =
      ap (λ xs. xs ++ rest)
        (inbox-append me.conn m.os.trace (replies m.globals.users me r)
          ∙ ap (λ xs. inbox me.conn m.os.trace ++ xs) h)
      ∙ append_assoc (inbox me.conn m.os.trace) bs rest

  -- What the server answers on the requests of a visit, behind the login.
  answers-inbox :
      (ls : List Line) (m : Machine Server)
      → AreProper me (requests_of ls) m
      → All (IsForOthers me m.globals.users) ls
      → inbox me.conn (served_all me (requests_of ls) m).os.trace
        ≡ inbox me.conn m.os.trace
          ++ (from_server (visit_events m.globals.users ls) ++ lit "EYB\r\n\r\n" ∷ [])
  answers-inbox [] m (p, fits, mine, all, later) h =
      let others = map (λ u. post u (lit "UOFF " ++ me.name)) (without m.globals.users me.addr) in
      inbox-append me.conn m.os.trace (replies m.globals.users me leaves)
      ∙ ap (λ xs. inbox me.conn m.os.trace ++ xs)
          (inbox_self me.conn (lit "EYB\r\n\r\n") (closed me.conn ∷ others)
            ∙ ap (◌∷◌ (lit "EYB\r\n\r\n")) (
                inbox-others me.conn (lit "UOFF " ++ me.name) (without m.globals.users me.addr)
                  p.1))
  answers-inbox (help ∷ ls) m p (h, hs) = answers-inbox ls m p hs
  answers-inbox (list ∷ ls) m (p, fits, mine, all, later) (h, hs) =
      let answer = event_bytes (listed (names_of m.globals.users)) in
      answers-inbox ls (served me lists m) later hs
      ∙ served-inbox m lists (answer ∷ [])
          (from_server (visit_events m.globals.users ls) ++ lit "EYB\r\n\r\n" ∷ [])
          (inbox_self me.conn answer [])
  answers-inbox (writes name text ∷ ls) m (p, fits, mine, all, later) (h, hs) =
      let us = m.globals.users in
      let reply = reply_to name (named name us) in
      let more = from_server (visit_events us ls) in
      answers-inbox ls (served me (says name text) m) later hs
      ∙ served-inbox m (says name text) (from_server reply) (more ++ lit "EYB\r\n\r\n" ∷ [])
          (said_to-inbox name text (named name us) h)
      ∙ ap (λ xs. inbox me.conn m.os.trace ++ xs)
          (sym (append_assoc (from_server reply) more (lit "EYB\r\n\r\n" ∷ []))
            ∙ ap (λ xs. xs ++ lit "EYB\r\n\r\n" ∷ [])
                (sym (from_server-append reply (visit_events us ls))))

  -- The same with the login in front.
  pub visit-inbox :
      (ls : List Line) (srv : Machine Server)
      → AreProper me (visit_requests me.name ls) srv
      → All (IsForOthers me (srv.globals.users ++ me ∷ [])) ls
      → inbox me.conn (served_all me (visit_requests me.name ls) srv).os.trace
        ≡ inbox me.conn srv.os.trace
          ++ (lit "U2EM\r\n\r\n"
              ∷ lit "MAI\r\n\r\n"
              ∷ lit "MOTD Hello Human \r\n\r\n"
              ∷ (from_server (visit_events (srv.globals.users ++ me ∷ []) ls)
                  ++ lit "EYB\r\n\r\n" ∷ []))
  visit-inbox ls srv (p, fits, mine, all, (p2, fits2, mine2, all2, later)) h =
      let us = srv.globals.users ++ me ∷ [] in
      let more = from_server (visit_events us ls) ++ lit "EYB\r\n\r\n" ∷ [] in
      let approval = lit "MAI\r\n\r\n" in
      let motd = lit "MOTD Hello Human \r\n\r\n" in
      let met = served me hello srv in
      answers-inbox ls (served me (registers me.name) met) later h
      ∙ served-inbox met (registers me.name) (approval ∷ motd ∷ []) more (
          inbox_self me.conn approval (post me (lit "MOTD Hello Human ") ∷ [])
          ∙ ap (◌∷◌ approval) (inbox_self me.conn motd []))
      ∙ served-inbox srv hello (lit "U2EM\r\n\r\n" ∷ []) (approval ∷ motd ∷ more)
          (inbox_self me.conn (lit "U2EM\r\n\r\n") [])
