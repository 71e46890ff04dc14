-- ===== src/Cli/Conversation/View.antt =====
-- How the client's variables show a conversation, and what a part of the program does to it.
use me2u.Base.{
  ℕ, ◌<◌, ◌≡◌, refl, ap, ◌∙◌, List, [], ◌∷◌, ◌++◌, append_assoc, append-nil, ltb, Bool-cases, inl,
  inr,
}
use me2u.CString.{Bytes}
use me2u.System.{
  M, Machine, Result, ok, exited, crashed, waiting, continue_with, Effect, wrote, overrun, underrun,
  shut_wr, closed, reported, spawned, traced, access,
}
use me2u.Cli.State.{User, Client}
use me2u.Cli.Buffer.Framing.{Holds}
use me2u.Cli.Conversation.{Talk}

-- What the other programs can observe: writes, new windows and the end of a stream. The accesses out
-- of bounds and the reports on the client's own terminal are left out.
abbrev pub observed : List Effect → List Effect
observed [] = []
observed (wrote fd b ∷ es) = wrote fd b ∷ observed es
observed (overrun a b ∷ es) = observed es
observed (underrun a ∷ es) = observed es
observed (shut_wr fd ∷ es) = shut_wr fd ∷ observed es
observed (closed fd ∷ es) = closed fd ∷ observed es
observed (reported b ∷ es) = observed es
observed (spawned b r w ∷ es) = spawned b r w ∷ observed es

pub observed-append : (es fs : List Effect) → observed (es ++ fs) ≡ observed es ++ observed fs
observed-append [] fs = refl
observed-append (wrote fd b ∷ es) fs = ap (◌∷◌ (wrote fd b)) (observed-append es fs)
observed-append (overrun a b ∷ es) fs = observed-append es fs
observed-append (underrun a ∷ es) fs = observed-append es fs
observed-append (shut_wr fd ∷ es) fs = ap (◌∷◌ (shut_wr fd)) (observed-append es fs)
observed-append (closed fd ∷ es) fs = ap (◌∷◌ (closed fd)) (observed-append es fs)
observed-append (reported b ∷ es) fs = observed-append es fs
observed-append (spawned b r w ∷ es) fs = ap (◌∷◌ (spawned b r w)) (observed-append es fs)

-- The windows of the users, active or not.
abbrev pub windows_of : List User → List (Bytes × ℕ)
windows_of [] = []
windows_of (u ∷ us) = (u.username, u.wrt) ∷ windows_of us

pub windows_of-append : (us vs : List User) → windows_of (us ++ vs) ≡ windows_of us ++ windows_of vs
windows_of-append [] vs = refl
windows_of-append (u ∷ us) vs = ap (◌∷◌ (u.username, u.wrt)) (windows_of-append us vs)

-- The client shows the conversation `t`, with this text in the buffer, and `select` may report the
-- socket.
pub record ViewIn (sockfd : ℕ) (m : Machine Client) (t : Talk) (text : Bytes) : Type 0 where
  pub windows : windows_of m.globals.users ≡ t.windows
  pub spawns : m.os.spawns ≡ t.spawns
  pub holds : Holds m.globals text
  pub below : sockfd < m.globals.maxfdpl

-- The same with an empty buffer.
abbrev pub View : ℕ → Machine Client → Talk → Type 0
View sockfd m t = ViewIn sockfd m t []

-- The run `r` from `m` returns `a`, shows `t` in the end, reads nothing more, and has the observed
-- effects `fx`.
pub record Answer {A : Type 0} (sockfd : ℕ) (m : Machine Client) (t : Talk) (fx : List Effect)
    (a : A) (r : Machine Client × Result A) : Type 0 where
  pub result : r.1 ≡ ok a
  pub view : View sockfd r.0 t
  pub reads : r.0.os.reads ≡ m.os.reads
  pub shown : observed r.0.os.trace ≡ observed m.os.trace ++ fx

module _ {sockfd : ℕ} {m : Machine Client} {t : Talk} where
  pub Answer-pure : {A : Type 0} (a : A) → View sockfd m t → Answer sockfd m t [] a (m, ok a)
  Answer-pure a v = record { result = refl; view = v; reads = refl; shown = rw append-nil }

  pub Answer-traced :
      {A : Type 0} (a : A) (es : List Effect)
      → View sockfd m t
      → Answer sockfd m t (observed es) a (traced m es, ok a)
  Answer-traced a es v = record {
    result = refl;
    view = record { windows = v.windows; spawns = v.spawns; holds = v.holds; below = v.below };
    reads = refl;
    shown = observed-append m.os.trace es;
  }

  pub Answer-access :
      (size upto : ℕ) → View sockfd m t → Answer sockfd m t [] tt (access size upto m)
  Answer-access size upto v = elim (Bool-cases (ltb size upto)) [
    | inl over ↦ rw over (Answer-traced tt (overrun size upto ∷ []) v)
    | inr within ↦ rw within (Answer-pure tt v)
  ]

  pub Answer-eq :
      {A : Type 0} {a : A} {r : Machine Client × Result A} {fx gx : List Effect}
      → fx ≡ gx
      → Answer sockfd m t fx a r
      → Answer sockfd m t gx a r
  Answer-eq e h = record {
    result = h.result;
    view = h.view;
    reads = h.reads;
    shown = h.shown ∙ ap (observed m.os.trace ++◌) e;
  }

  pub >>=-Answer :
      {A B : Type 0} {t' : Talk} {fx gx : List Effect} {x : A} {y : B}
      (r : Machine Client × Result A) (f : A → M Client B)
      → Answer sockfd m t fx x r
      → ((m' : Machine Client)
          → m'.os.reads ≡ m.os.reads
          → View sockfd m' t
          → Answer sockfd m' t' gx y (f x m'))
      → Answer sockfd m t' (fx ++ gx) y (continue_with r f)
  >>=-Answer {fx} {gx} {x} (m', ok x') f h k =
      let same : x' ≡ x = cc (h.result) in
      let next = k m' h.reads h.view in
      rw same (record {
        result = next.result;
        view = next.view;
        reads = next.reads ∙ h.reads;
        shown = next.shown ∙ ap (◌++ gx) h.shown ∙ append_assoc (observed m.os.trace) fx gx;
      })
  >>=-Answer (m', exited c) f h k = cc (h.result)
  >>=-Answer (m', crashed) f h k = cc (h.result)
  >>=-Answer (m', waiting) f h k = cc (h.result)
