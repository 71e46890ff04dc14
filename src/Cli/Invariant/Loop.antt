-- ===== src/Cli/Invariant/Loop.antt =====
-- The main loop as a whole: the invariant holds throughout, and the windows are never heard.
use me2u.Base.{
  ℕ, ◌≡◌, refl, ◌⊎◌, inl, inr, Bool, true, false, List, [], ◌∷◌, arith, elem, All, All-map,
  Bool-cases, ◌&&◌, ◌||◌,
}
use me2u.System.{Machine, Selected, ◌>>◌, block, ok, pure}
use me2u.System.Keeps.{Keeps, >>=-Keeps, >>-Keeps, if-Keeps}
use me2u.Protocol.{stdin_fd}
use me2u.Cli.State.{User, Client}
use me2u.Cli.Chat.{
  Flow, proceed, next, leave, chat_answer, chat_round, chat_loop, regular_chat, after_server,
  any_children_replied, replies, chat_prepare, chat_select,
}
use me2u.Cli.Invariant.{IsValid, Apart, ApartUser}
use me2u.Cli.Invariant.Steps.{pure-Keeps}
use me2u.Cli.Invariant.Chat.{
  server_ready-Keeps, input_ready-Keeps, chat_prepare-Keeps, chat_select-Keeps,
}

not-elem-Apart :
    (sockfd fd : ℕ) (set : List ℕ)
    → ((k : ℕ) → elem k set ≡ true → (k ≡ stdin_fd) ⊎ (k ≡ sockfd))
    → Apart sockfd fd
    → elem fd set ≡ false
not-elem-Apart sockfd fd set asked a = ground (arith, asked fd)

not-ready :
    (sockfd : ℕ) (u : User) (set : List ℕ)
    → ((k : ℕ) → elem k set ≡ true → (k ≡ stdin_fd) ⊎ (k ≡ sockfd))
    → ApartUser sockfd u
    → (u.active && (elem u.rd set || elem u.wrt set)) ≡ false
not-ready sockfd u set asked a = elim (Bool-cases u.active) [
  | inl active ↦ rw (
    active,
    not-elem-Apart sockfd u.rd set asked (a active).0,
    not-elem-Apart sockfd u.wrt set asked (a active).1,
  )
  | inr gone ↦ rw gone
]

replies-idle :
    (sockfd : ℕ) (us : List User) (set : List ℕ) (m : Machine Client)
    → ((k : ℕ) → elem k set ≡ true → (k ≡ stdin_fd) ⊎ (k ≡ sockfd))
    → All (ApartUser sockfd) us
    → replies sockfd set us m ≡ (m, ok us)
unfolding replies
replies-idle sockfd [] set m asked a = refl
replies-idle sockfd (u ∷ us) set m asked a =
    simp (not-ready sockfd u set asked a.0, replies-idle sockfd us set m asked a.1)

pub any_children_replied-idle :
    (sockfd : ℕ) (m : Machine Client)
    → IsValid sockfd m
    → any_children_replied sockfd m ≡ (m, ok tt)
unfolding any_children_replied
any_children_replied-idle sockfd m v =
    simp (replies-idle sockfd m.globals.users m.globals.rset m v.asked v.registry.apart)

-- Neither descriptor of an open window is in the set.
abbrev pub IsUnasked : List ℕ → User → Type 0
IsUnasked set u = u.active ≡ true → (elem u.rd set ≡ false) × (elem u.wrt set ≡ false)

all-IsUnasked :
    (sockfd : ℕ) (us : List User) (set : List ℕ)
    → ((k : ℕ) → elem k set ≡ true → (k ≡ stdin_fd) ⊎ (k ≡ sockfd))
    → All (ApartUser sockfd) us
    → All (IsUnasked set) us
all-IsUnasked sockfd us set asked a =
    All-map us
      (λ u apart active. (
        not-elem-Apart sockfd u.rd set asked (apart active).0,
        not-elem-Apart sockfd u.wrt set asked (apart active).1,
      ))
      a

-- A round asks for no window: from a valid state, behind the `FD_SET`s of the round and of
-- `set_fd_for_childs`, and behind `select`, whatever that answers, neither descriptor of an open window is
-- in the set, and `any_children_replied` then reads no window and changes nothing.
pub any_children_replied-chat_select :
    (sockfd : ℕ) (stdineof : Bool) (s : Selected) (m : Machine Client)
    → IsValid sockfd m
    → let woken = ((chat_prepare sockfd stdineof >> chat_select s) m).0 in
      All (IsUnasked woken.globals.rset) woken.globals.users
      × (any_children_replied sockfd woken ≡ (woken, ok tt))
any_children_replied-chat_select sockfd stdineof s m v =
    let woken = ((chat_prepare sockfd stdineof >> chat_select s) m).0 in
    let still : IsValid sockfd woken =
      (>>-Keeps (chat_prepare-Keeps {sockfd = sockfd} stdineof)
          (chat_select-Keeps {sockfd = sockfd} s)).apply
        m v in
    (
      all-IsUnasked sockfd woken.globals.users woken.globals.rset still.asked still.registry.apart,
      any_children_replied-idle sockfd woken still,
    )

module _ {sockfd : ℕ} where
  any_children_replied-Keeps : Keeps (IsValid sockfd) (any_children_replied sockfd)
  any_children_replied-Keeps = record { apply = λ m v. rw (any_children_replied-idle sockfd m v) v }

  after_server-Keeps :
      (stdineof : Bool) (flow : Flow) → Keeps (IsValid sockfd) (after_server sockfd stdineof flow)
  unfolding after_server
  after_server-Keeps stdineof leave = pure-Keeps _
  after_server-Keeps stdineof next = pure-Keeps _
  after_server-Keeps stdineof proceed = record {
    apply = λ m v.
        (if-Keeps (elem stdin_fd m.globals.rset)
            (λ _. >>=-Keeps (input_ready-Keeps sockfd stdineof) (λ eof. pure-Keeps (next, eof)))
            (λ _. >>-Keeps any_children_replied-Keeps (pure-Keeps (next, stdineof)))).apply
          m v;
  }

  chat_answer-Keeps : (stdineof : Bool) → Keeps (IsValid sockfd) (chat_answer sockfd stdineof)
  unfolding chat_answer
  chat_answer-Keeps stdineof = record {
    apply = λ m v.
        (>>=-Keeps
            (if-Keeps (elem sockfd m.globals.rset) (λ _. server_ready-Keeps sockfd stdineof)
              (λ _. pure-Keeps proceed))
            (after_server-Keeps stdineof)).apply
          m v;
  }

  pub chat_round-Keeps :
      (stdineof : Bool) (s : Selected) → Keeps (IsValid sockfd) (chat_round sockfd stdineof s)
  unfolding chat_round
  chat_round-Keeps stdineof s =
      >>-Keeps (chat_prepare-Keeps stdineof)
        (>>-Keeps (chat_select-Keeps s) (chat_answer-Keeps stdineof))

  block-Keeps : Keeps (IsValid sockfd) (block {A = Unit {0}})
  block-Keeps = record { apply = λ m v. v }

  chat_loop-Keeps :
      (selects : List Selected) (stdineof : Bool)
      → Keeps (IsValid sockfd) (chat_loop sockfd stdineof selects)
  unfolding chat_loop
  chat_loop-Keeps [] stdineof = >>-Keeps (chat_prepare-Keeps stdineof) block-Keeps
  chat_loop-Keeps (s ∷ rest) stdineof =
      >>=-Keeps (chat_round-Keeps stdineof s) λ end. again end.0 end.1 (chat_loop-Keeps rest end.1)
    where
      again :
          (flow : Flow) (eof : Bool)
          → Keeps (IsValid sockfd) (chat_loop sockfd eof rest)
          → Keeps (IsValid sockfd) (elim flow [ leave ↦ pure tt | _ ↦ chat_loop sockfd eof rest ])
      again leave eof k = pure-Keeps tt
      again next eof k = k
      again proceed eof k = k

  -- Whatever the server sends, the user types and the system answers, the main loop leaves the
  -- variables valid.
  pub regular_chat-Keeps :
      (selects : List Selected) → Keeps (IsValid sockfd) (regular_chat sockfd selects)
  unfolding regular_chat
  regular_chat-Keeps selects = record {
    apply = λ m v. (chat_loop-Keeps selects false).apply _ (record {
      text = v.text;
      holds = v.holds;
      fits = v.fits;
      registry = v.registry;
      asked = λ fd e. cc;
      fresh = v.fresh;
    });
  }
