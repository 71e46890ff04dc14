-- ===== src/Together/Receipts.antt =====
-- The receipt of the first version, hw1_client/src/client.c, on its way to the sender of a text.
use me2u.Base.{
  false, drop, ℕ, ◌≡◌, ◌≢◌, refl, sym, ap, ◌∙◌, Bool, true, List, [], ◌∷◌, ◌++◌, some, map, ne→==,
  ltb, length, if◌then◌else◌, append-nil, arith, Bool-cases, inl, inr, ◌+◌, append_assoc,
}
use me2u.CString.{Bytes, lit, NoZero, strlen, strncmp_eq, strtok_spaces, split_spaces}
use me2u.CString.Laws.{NoZero-append, cstr-NoZero}
use me2u.System.{
  M, Machine, Result, ok, exited, crashed, waiting, Effect, wrote, overrun, traced, access, write,
  continue_with, pure,
}
use me2u.Protocol.{ending}
use me2u.First.Protocol.{server_list_user, confirm_msg_to, confirm_msg_from, msg_from}
use me2u.First.Strings.{First}
use me2u.First.Strings.Prefix.{starts_with-append, starts_with-other, strlen-filled}
use me2u.First.Chat.{on_buf, show_from, confirm_name, word_is_last}
use me2u.Cli.State.{Client}
use me2u.Cli.Conversation.{Talk, delivered, said, event_bytes, window_of, play, play_on, receipt}
use me2u.Cli.Conversation.View.{observed, View}
use me2u.Server.{User, Server, on_data}
use me2u.Server.Promise.{confirms, named, post}
use me2u.Server.Sound.{IsSound, IsUser, on_data-allowed}
use me2u.Together.Chats.{client_run-play}
use me2u.Together.Answers.{IsName}
use me2u.Together.{inbox, Ready, client_run}
use me2u.Together.Wires.{inbox_self, inbox-other, inbox-append}
use me2u.Server.Text.{NoReturn, NoBlank}

split_spaces-on :
    (x : ℕ) (w name text : Bytes)
    → NoBlank name
    → split_spaces (x ∷ w) (name ++ b' ' ∷ text) ≡ (x ∷ w ++ name) ∷ split_spaces [] text
unfolding split_spaces
split_spaces-on x w [] text h = ap (λ v. (x ∷ v) ∷ split_spaces [] text) (sym (append-nil w))
split_spaces-on x w (c ∷ name) text (ne, h) = rw (ne→== c b' ' ne) (
    split_spaces-on x (w ++ c ∷ []) name text h
    ∙ ap (λ v. (x ∷ v) ∷ split_spaces [] text) (append_assoc w (c ∷ []) name))

-- The name is the first word behind the verb.
strtok_spaces-name :
    (name text : Bytes)
    → name ≢ []
    → NoBlank name
    → NoZero (name ++ b' ' ∷ text)
    → strtok_spaces (name ++ b' ' ∷ text) ≡ name ∷ split_spaces [] text
unfolding strtok_spaces split_spaces
strtok_spaces-name [] text ne h nz = absurd (ne refl)
strtok_spaces-name (c ∷ name) text ne (no_blank, h) nz =
    ap (split_spaces []) (cstr-NoZero (c ∷ (name ++ b' ' ∷ text)) nz)
    ∙ ap (λ (b : Bool). split_spaces (if b then [] else c ∷ []) (name ++ b' ' ∷ text))
        (ne→== c b' ' no_blank)
    ∙ split_spaces-on c [] name text h

on_buf-from :
    (sockfd : ℕ) (rest : Bytes) (m : Machine First)
    → NoZero rest
    → on_buf sockfd (lit "FROM " ++ rest) m
      ≡ continue_with (show_from sockfd (lit "FROM " ++ rest) m) (λ _. pure true)
unfolding on_buf strncmp_eq
on_buf-from sockfd rest m nz =
    let buf = lit "FROM " ++ rest in
    let line = NoZero-append (lit "FROM ") rest (omega arith) nz in
    simp (
      strlen-filled b'F' (lit "ROM " ++ rest) line,
      starts_with-other buf (lit "\r\n") (omega arith) refl,
      starts_with-other buf (lit "\r\n\r\n") (omega arith) refl,
      starts_with-other buf server_list_user (omega arith) refl,
      starts_with-other buf confirm_msg_to (omega arith) refl,
      starts_with-append msg_from (b' ' ∷ rest) line (omega arith),
    )

-- A step that goes on, and sends these bytes on the socket.
record Puts {A : Type 0} (sockfd : ℕ) (m : Machine First) (a : A) (bs : List Bytes)
    (r : Machine First × Result A) : Type 0 where
  result : r.1 ≡ ok a
  sent : inbox sockfd r.0.os.trace ≡ inbox sockfd m.os.trace ++ bs

Puts-traced :
    {A : Type 0} {a : A} (sockfd : ℕ) (m : Machine First) (es : List Effect) (bs : List Bytes)
    → inbox sockfd es ≡ bs
    → Puts sockfd m a bs (traced m es, ok a)
Puts-traced sockfd m es bs h = record {
  result = refl;
  sent = inbox-append sockfd m.os.trace es ∙ ap (λ xs. inbox sockfd m.os.trace ++ xs) h;
}

access-Puts : (sockfd size upto : ℕ) (m : Machine First) → Puts sockfd m tt [] (access size upto m)
access-Puts sockfd size upto m = elim (Bool-cases (ltb size upto)) [
  | inl over ↦ rw over (Puts-traced sockfd m (overrun size upto ∷ []) [] refl)
  | inr within ↦
      rw within (record { result = refl; sent = sym (append-nil (inbox sockfd m.os.trace)) })
]

continue-Puts :
    {A B : Type 0} {a : A} {b : B} (sockfd : ℕ) (m : Machine First) (bs cs : List Bytes)
    (r : Machine First × Result A) (f : A → M First B)
    → Puts sockfd m a bs r
    → ((n : Machine First) → Puts sockfd n b cs (f a n))
    → Puts sockfd m b (bs ++ cs) (continue_with r f)
continue-Puts {a} sockfd m bs cs (n, ok a') f h k =
    let same : a' ≡ a = cc (h.result) in
    let later = k n in
    rw same (record {
      result = later.result;
      sent = later.sent ∙ ap (λ xs. xs ++ cs) h.sent ∙ append_assoc (inbox sockfd m.os.trace) bs cs;
    })
continue-Puts sockfd m bs cs (n, exited c) f h k = cc (h.result)
continue-Puts sockfd m bs cs (n, crashed) f h k = cc (h.result)
continue-Puts sockfd m bs cs (n, waiting) f h k = cc (h.result)

confirm_name-Puts :
    (sockfd : ℕ) (name : Bytes) (words : List Bytes) (m : Machine First)
    → Puts sockfd m tt ((lit "MORF " ++ name ++ ending) ∷ []) (confirm_name sockfd (name ∷ words) m)
unfolding confirm_name
confirm_name-Puts sockfd name words m =
    let size = strlen confirm_msg_from + length name + 5 in
    let reply = lit "MORF " ++ name ++ ending in
    continue-Puts sockfd m [] (reply ∷ []) (access size (length reply + 1) m)
      (λ _. write sockfd reply) (access-Puts sockfd size (length reply + 1) m)
      (λ n.
        Puts-traced sockfd n (wrote sockfd reply ∷ []) (reply ∷ []) (inbox_self sockfd reply []))

show_from-Puts :
    (sockfd : ℕ) (name text : Bytes) (m : Machine First)
    → IsName name
    → NoZero text
    → 1 ≢ sockfd
    → Puts sockfd m tt
        ((lit "MORF " ++ name ++ ending) ∷ [])
        (show_from sockfd (lit "FROM " ++ (name ++ b' ' ∷ text)) m)
unfolding show_from
show_from-Puts sockfd name text m (some_bytes, word, nz) nzt ne =
    let rest = name ++ b' ' ∷ text in
    let buf = lit "FROM " ++ rest in
    let reply = (lit "MORF " ++ name ++ ending) ∷ [] in
    let upto = if word_is_last false rest then 5 + length rest + 1 else 0 in
    let line : NoZero rest = NoZero-append name (b' ' ∷ text) nz ((omega arith), nzt) in
    continue-Puts sockfd m [] reply (access (length buf) upto m)
      (λ _ n.
        continue_with (write 1 (drop 4 buf) n) (λ _. confirm_name sockfd (strtok_spaces rest)))
      (access-Puts sockfd (length buf) upto m)
      (λ n.
        continue-Puts sockfd n [] reply (write 1 (drop 4 buf) n)
          (λ _. confirm_name sockfd (strtok_spaces rest))
          (Puts-traced sockfd n (wrote 1 (drop 4 buf) ∷ []) []
            (inbox-other sockfd 1 (drop 4 buf) [] ne))
          (λ k.
            rw (strtok_spaces-name name text some_bytes word line)
              (confirm_name-Puts sockfd name (split_spaces [] text) k)))

on_buf-Puts :
    (sockfd : ℕ) (name text : Bytes) (m : Machine First)
    → IsName name
    → NoZero text
    → 1 ≢ sockfd
    → Puts sockfd m true
        ((lit "MORF " ++ name ++ ending) ∷ [])
        (on_buf sockfd (lit "FROM " ++ (name ++ b' ' ∷ text)) m)
on_buf-Puts sockfd name text m (some_bytes, word, nz) nzt ne =
    let rest = name ++ b' ' ∷ text in
    let reply = (lit "MORF " ++ name ++ ending) ∷ [] in
    let line : NoZero rest = NoZero-append name (b' ' ∷ text) nz ((omega arith), nzt) in
    rw (on_buf-from sockfd rest m line) (
      continue-Puts sockfd m reply [] (show_from sockfd (lit "FROM " ++ rest) m) (λ _. pure true)
        (show_from-Puts sockfd name text m (some_bytes, word, nz) nzt ne)
        (λ n. record { result = refl; sent = sym (append-nil (inbox sockfd n.os.trace)) }))

-- A text comes to a client of the first version: its answer, with the name alone, is passed on by the server
-- to the sender and to nobody else, and the sender's client takes it as a receipt: it keeps its windows, shows
-- and sends nothing, and goes on. Both users are on the server's list, where connections are open and no two
-- of them or of the addresses are the same; the sender is the only user of the name, which is not empty and
-- has no blank, no carriage return and no zero; the text has no zero; the sender's client has a window for the
-- receiver, and the receipt comes in one read that fits its buffer; the socket of the other is not 1.
pub receipt_together :
    (srv : Machine Server) (a b : User) (sa sb window : ℕ) (ma : Machine Client)
    (mb : Machine First) (ta : Talk) (text : Bytes)
    → IsSound srv
    → IsUser srv.globals.users b
    → named a.name srv.globals.users ≡ a ∷ []
    → IsName a.name
    → NoReturn a.name
    → NoZero text
    → 1 ≢ sb
    → Ready sa ma ta (delivered b.name)
    → window_of b.name ta.windows ≡ some window
    → let came = event_bytes (said a.name text) in
      let receipt = lit "MORF " ++ a.name ++ ending in
      let told = event_bytes (delivered b.name) in
      ((on_buf sb came mb).1 ≡ ok true)
      × (inbox sb (on_buf sb came mb).0.os.trace ≡ inbox sb mb.os.trace ++ receipt ∷ [])
      × (on_data b.conn b.addr receipt srv ≡ (traced srv (wrote a.conn told ∷ []), ok true))
      × ((client_run sa ta (delivered b.name) ma).1 ≡ waiting)
      × View sa (client_run sa ta (delivered b.name) ma).0 ta
      × (observed (client_run sa ta (delivered b.name) ma).0.os.trace ≡ observed ma.os.trace)
receipt_together srv a b sa sb window ma mb ta text sound b_in only name_a clean nzt ne r known =
    let whole : event_bytes (said a.name text)
        ≡ lit "FROM " ++ (a.name ++ b' ' ∷ (text ++ ending)) =
      ap (lit "FROM " ++◌) (append_assoc a.name (b' ' ∷ text) ending) in
    let answered : Puts sb mb true ((lit "MORF " ++ a.name ++ ending) ∷ [])
        (on_buf sb (event_bytes (said a.name text)) mb) =
      rw whole (
        on_buf-Puts sb a.name (text ++ ending) mb name_a
          (NoZero-append text ending nzt (omega arith)) ne) in
    let (end, view, out) =
      client_run-play {t' = ta} (delivered b.name) [] r
        (ap (λ o. play_on (receipt ta o) (play sa [])) known) in
    (
      answered.result,
      answered.sent,
      on_data-allowed srv sound b (confirms a.name) (b_in, clean)
          ∙ ap (λ us. (traced srv (map (λ u. post u (lit "OT " ++ b.name)) us), ok true)) only,
      end,
      view,
      out ∙ append-nil (observed ma.os.trace),
    )
