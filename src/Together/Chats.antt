-- ===== src/Together/Chats.antt =====
-- A chat line on its way: from a client, by the server and another client, to a window.
use me2u.Base.{
  Bool, ℕ, ◌≡◌, ◌≢◌, refl, sym, ap, ◌∙◌, true, false, List, [], ◌∷◌, ◌++◌, some, none,
  if◌then◌else◌, ne→==, All-map, map, All, append-nil, arith,
}
use me2u.CString.{Bytes, lit}
use me2u.System.{Machine, Effect, wrote, got, ok, waiting, woke, traced}
use me2u.Protocol.{ending, stdin_fd}
use me2u.Cli.State.{Client}
use me2u.Cli.Conversation.{
  Talk, Event, said, chats, play, event_bytes, event_reads, window_of, deliver_to, and_then,
  play_on,
}
use me2u.Cli.Conversation.View.{observed, View}
use me2u.Cli.Conversation.Refinement.{chat_loop-play}
use me2u.Cli.Conversation.Arrivals.{Arrival}
use me2u.Server.{User, Server, eq_text, user_at, on_data}
use me2u.Server.Text.{NoReturn, NoReturn-append, NoBlank}
use me2u.Server.Promise.{named, says, confirms, IsOpen, post, said_to}
use me2u.Server.Sends.{named-other, traced_nil}
use me2u.Server.Handlers.{on_data-served}
use me2u.Window.{Window, recv_msg_c, window_loop}
use me2u.Window.Screen.{received, shown, window_loop_lem, IsLine, AreSmall}
use me2u.Together.{Ready, client_run}

-- A client on one event.
pub client_run-play :
    {sockfd : ℕ} {m : Machine Client} {t t' : Talk} (e : Event) (fx : List Effect)
    → Ready sockfd m t e
    → play sockfd (e ∷ []) t ≡ some (t', fx)
    → ((client_run sockfd t e m).1 ≡ waiting)
      × View sockfd (client_run sockfd t e m).0 t'
      × (observed (client_run sockfd t e m).0.os.trace ≡ observed m.os.trace ++ fx)
client_run-play {sockfd} {m} {t} {t'} e fx r p =
    chat_loop-play sockfd (at_once ∷ []) m t t' fx r.view r.valid
      (r.reads ∙ sym (append-nil (event_reads e))) (r.fits, tt) r.other p
  where
    at_once : Arrival
    at_once = record { event = e; parts = [] }

-- A text with a blank is nobody's name.
blank-other : (word name text : Bytes) → NoBlank word → eq_text word (name ++ b' ' ∷ text) ≡ false
blank-other [] [] text h = refl
blank-other [] (c ∷ name) text h = refl
blank-other (x ∷ word) [] text (ne, h) = ground (arith, ne→== x b' ' ne)
blank-other (x ∷ word) (c ∷ name) text (ne, h) = ground (arith, blank-other word name text h)

named-blank :
    (us : List User) (name text : Bytes)
    → All (λ u. NoBlank u.name) us
    → named (name ++ b' ' ∷ text) us ≡ []
named-blank [] name text h = refl
named-blank (u ∷ us) name text (word, h) =
    named-other u us (name ++ b' ' ∷ text) (blank-other u.name name text word)
    ∙ named-blank us name text h

module _ {sockfd : ℕ} {m : Machine Client} {t : Talk} {name : Bytes} {window : ℕ} where
  -- The client of the sender.
  chats-run :
      (text : Bytes)
      → Ready sockfd m t (chats name text)
      → window_of name t.windows ≡ some window
      → t.input ≡ true
      → ((client_run sockfd t (chats name text) m).1 ≡ waiting)
        × View sockfd (client_run sockfd t (chats name text) m).0 t
        × (observed (client_run sockfd t (chats name text) m).0.os.trace
            ≡ observed m.os.trace
              ++ wrote window text
                ∷ wrote sockfd (lit "TO " ++ (name ++ b' ' ∷ text) ++ ending)
                ∷ [])
  chats-run text r known input =
      let fx =
        wrote window text ∷ wrote sockfd (lit "TO " ++ (name ++ b' ' ∷ text) ++ ending) ∷ [] in
      client_run-play (chats name text) fx r (
        ap
          (λ b.
            play_on
              (if b
                then and_then (deliver_to name text t (window_of name t.windows))
                    (wrote sockfd (lit "TO " ++ (name ++ b' ' ∷ text) ++ ending) ∷ [])
                else none)
              (play sockfd []))
          input
        ∙ ap
            (λ o.
              play_on
                (and_then (deliver_to name text t o)
                  (wrote sockfd (lit "TO " ++ (name ++ b' ' ∷ text) ++ ending) ∷ []))
                (play sockfd []))
            known)

  -- The client of the receiver.
  said-run :
      (text : Bytes)
      → Ready sockfd m t (said name text)
      → window_of name t.windows ≡ some window
      → ((client_run sockfd t (said name text) m).1 ≡ waiting)
        × View sockfd (client_run sockfd t (said name text) m).0 t
        × (observed (client_run sockfd t (said name text) m).0.os.trace
            ≡ observed m.os.trace
              ++ wrote window text
                ∷ wrote sockfd (lit "MORF " ++ (name ++ b' ' ∷ text) ++ ending)
                ∷ [])
  said-run text r known =
      let fx =
        wrote window text ∷ wrote sockfd (lit "MORF " ++ (name ++ b' ' ∷ text) ++ ending) ∷ [] in
      client_run-play (said name text) fx r (
        ap
          (λ o.
            play_on
              (and_then (deliver_to name text t o)
                (wrote sockfd (lit "MORF " ++ (name ++ b' ' ∷ text) ++ ending) ∷ []))
              (play sockfd []))
          known)

-- The server knows the two users, the second as the first of its name, at their addresses; all their
-- connections are open, and their names are words.
pub record Linked (srv : Machine Server) (a b : User) : Type 0 where
  pub a_at : user_at srv.globals.users a.addr ≡ some a
  pub b_at : user_at srv.globals.users b.addr ≡ some b
  pub others : List User
  pub b_first : named b.name srv.globals.users ≡ b ∷ others
  pub words : All (λ u. NoBlank u.name × NoReturn u.name) srv.globals.users
  pub a_word : NoBlank a.name × NoReturn a.name
  pub b_word : NoBlank b.name × NoReturn b.name
  pub all_open : All (IsOpen srv.globals.closed_conns) srv.globals.users
  pub a_open : IsOpen srv.globals.closed_conns a
  pub b_open : IsOpen srv.globals.closed_conns b

module _ {srv : Machine Server} {a b : User} (l : Linked srv a b) where
  -- The server hands the text on.
  server-delivers :
      (text : Bytes)
      → NoReturn text
      → on_data a.conn a.addr (lit "TO " ++ (b.name ++ b' ' ∷ text) ++ ending) srv
        ≡ (traced srv (wrote b.conn (event_bytes (said a.name text)) ∷ []), ok true)
  server-delivers text one =
      on_data-served srv a l.all_open l.a_open (says b.name text)
        (l.b_word.0, l.b_word.1, one, l.a_at)
      ∙ ap (λ us. (traced srv (said_to a b.name text us ∷ []), ok true)) l.b_first

  -- The receipt carries the text too, and the server finds nobody of that name.
  server-forgets :
      (text : Bytes)
      → NoReturn text
      → on_data b.conn b.addr (lit "MORF " ++ (a.name ++ b' ' ∷ text) ++ ending) srv
        ≡ (srv, ok true)
  server-forgets text one =
      on_data-served srv b l.all_open l.b_open (confirms (a.name ++ b' ' ∷ text))
        (NoReturn-append a.name (b' ' ∷ text) l.a_word.1 ((omega arith), one), l.b_at)
      ∙ ap (λ us. (traced srv (map (λ u. post u (lit "OT " ++ b.name)) us), ok true))
          (named-blank srv.globals.users a.name text
            (All-map srv.globals.users (λ u w. w.0) l.words))
      ∙ ap (λ n. (n, ok true)) (traced_nil srv)

Linked-traced :
    {srv : Machine Server} {a b : User} (es : List Effect)
    → Linked srv a b
    → Linked (traced srv es) a b
Linked-traced es l = record {
  a_at = l.a_at;
  b_at = l.b_at;
  others = l.others;
  b_first = l.b_first;
  words = l.words;
  a_word = l.a_word;
  b_word = l.b_word;
  all_open = l.all_open;
  a_open = l.a_open;
  b_open = l.b_open;
}

-- A chat line on its way, each program on what the one before has written: the client of the sender
-- writes it to the server; the server writes it, with the sender's name, to the receiver and to nobody
-- else; the client of the receiver writes the text to the window that it has for the sender; and that
-- window shows it. The receipt that this client sends goes no further: it carries the text, so the server
-- finds nobody of that name, and sends nothing. Both users are on the server's list with words for names,
-- no connection is closed, both clients have a window for the other, each message comes in one read, fits
-- the buffers, and has no zero and no carriage return, the window's descriptor is
-- not its input, and its descriptors fit the sets.
pub chat_together :
    (srv : Machine Server) (a b : User) (sa sb wa wb : ℕ) (ma mb : Machine Client) (ta tb : Talk)
    (w : Machine Window) (can_write : ℕ → Bool) (text : Bytes)
    → Linked srv a b
    → Ready sa ma ta (chats b.name text)
    → window_of b.name ta.windows ≡ some wa
    → ta.input ≡ true
    → Ready sb mb tb (said a.name text)
    → window_of a.name tb.windows ≡ some wb
    → w.os.reads ≡ got text ∷ []
    → IsLine text
    → w.globals.rd ≢ stdin_fd
    → AreSmall w
    → NoReturn text
    → let sent = lit "TO " ++ (b.name ++ b' ' ∷ text) ++ ending in
      let handed_on = event_bytes (said a.name text) in
      let receipt = lit "MORF " ++ (a.name ++ b' ' ∷ text) ++ ending in
      let after = traced srv (wrote b.conn handed_on ∷ []) in
      (observed (client_run sa ta (chats b.name text) ma).0.os.trace
        ≡ observed ma.os.trace ++ wrote wa text ∷ wrote sa sent ∷ [])
      × (on_data a.conn a.addr sent srv ≡ (after, ok true))
      × (observed (client_run sb tb (said a.name text) mb).0.os.trace
          ≡ observed mb.os.trace ++ wrote wb text ∷ wrote sb receipt ∷ [])
      × ((window_loop can_write (woke (w.globals.rd ∷ []) ∷ []) w).0.os.trace
          ≡ w.os.trace ++ shown recv_msg_c (lit "> ") text)
      × (on_data b.conn b.addr receipt after ≡ (after, ok true))
chat_together srv a b sa sb wa wb ma mb ta tb w can_write text l ra known_a input rb known_b reads
      line apart small one =
    let (end_a, view_a, out_a) = chats-run text ra known_a input in
    let (end_b, view_b, out_b) = said-run text rb known_b in
    let handed_on = wrote b.conn (event_bytes (said a.name text)) ∷ [] in
    let (screen, end_w) =
      window_loop_lem can_write (received text ∷ []) w reads (line, tt) apart small in
    (
      out_a,
      server-delivers l text one,
      out_b,
      screen,
      server-forgets (Linked-traced handed_on l) text one,
    )
