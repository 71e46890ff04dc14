-- ===== src/Server/Race.antt =====
-- Two threads of hw1_server/server.py that ask for the same name at the same time.
use me2u.Base.{
  ℕ, ◌≡◌, refl, ap, ap₂, ◌∙◌, true, false, List, [], ◌∷◌, ◌++◌, elem, Bool-cases, inl, inr,
}
use me2u.CString.{Bytes}
use me2u.System.{Machine, ok}
use me2u.Server.{User, Server, eq_text, check_user_exists, on_iam, iam_seen}
use me2u.Server.Text.{eq_text_refl}
use me2u.Server.Promise.{named}
use me2u.Server.Sends.{named-same}
use me2u.Server.Handlers.{approve-served}

named-append :
    (us vs : List User) (name : Bytes) → named name (us ++ vs) ≡ named name us ++ named name vs
named-append [] vs name = refl
named-append (u ∷ us) vs name = elim (Bool-cases (eq_text u.name name)) [
  | inl same ↦ rw same (ap (λ ws. u ∷ ws) (named-append us vs name))
  | inr other ↦ rw other (named-append us vs name)
]

check_user_exists-named :
    (us : List User) (name : Bytes) → check_user_exists us name ≡ false → named name us ≡ []
unfolding check_user_exists
check_user_exists-named [] name h = refl
check_user_exists-named (u ∷ us) name h = elim (Bool-cases (eq_text u.name name)) [
  | inl same ↦ cc (rw same at h)
  | inr other ↦ rw other (check_user_exists-named us name (rw other at h))
]

approved :
    (m : Machine Server) (seen : List User) (name : Bytes) (conn addr : ℕ)
    → check_user_exists seen name ≡ false
    → elem conn m.globals.closed_conns ≡ false
    → ((iam_seen seen conn addr name m).1 ≡ ok true)
      × ((iam_seen seen conn addr name m).0.globals ≡ record m.globals {
        users = m.globals.users ++ record { name = name; conn = conn; addr = addr } ∷ [];
      })
unfolding iam_seen
approved m seen name conn addr free stands =
    rw (free, approve-served m conn addr name stands) (refl, refl)

-- A race for a name: one thread has tested it and found it free, and before it adds its user another
-- thread runs its whole branch on `IAM` for the same name. Both go on as approved, and the list has two
-- users of that name. The connections are open.
pub on_iam-iam_seen :
    (m : Machine Server) (name : Bytes) (conn1 addr1 conn2 addr2 : ℕ)
    → check_user_exists m.globals.users name ≡ false
    → elem conn1 m.globals.closed_conns ≡ false
    → elem conn2 m.globals.closed_conns ≡ false
    → let between = on_iam conn1 addr1 name m in
      let after = iam_seen m.globals.users conn2 addr2 name between.0 in
      (between.1 ≡ ok true)
      × (after.1 ≡ ok true)
      × (named name after.0.globals.users
          ≡ record { name = name; conn = conn1; addr = addr1 }
            ∷ record { name = name; conn = conn2; addr = addr2 }
            ∷ [])
unfolding on_iam
on_iam-iam_seen m name conn1 addr1 conn2 addr2 free stands1 stands2 =
    let first : User = record { name = name; conn = conn1; addr = addr1 } in
    let second : User = record { name = name; conn = conn2; addr = addr2 } in
    let users = m.globals.users in
    let (ok1, vars1) = approved m users name conn1 addr1 free stands1 in
    let n = (iam_seen users conn1 addr1 name m).0 in
    let still : elem conn2 n.globals.closed_conns ≡ false = rw vars1 stands2 in
    let (ok2, vars2) = approved n users name conn2 addr2 free still in
    let grown : n.globals.users ≡ users ++ first ∷ [] = ap (λ (g : Server). g.users) vars1 in
    (
      ok1,
      ok2,
      ap (λ (g : Server). named name g.users) vars2
          ∙ named-append n.globals.users (second ∷ []) name
          ∙ ap (λ us. named name us ++ named name (second ∷ [])) grown
          ∙ ap (λ ws. ws ++ named name (second ∷ []))
              (named-append users (first ∷ []) name
                ∙ ap (λ ws. ws ++ named name (first ∷ []))
                    (check_user_exists-named users name free))
          ∙ ap₂ (λ xs ys. xs ++ ys) (named-same first [] name (eq_text_refl name))
              (named-same second [] name (eq_text_refl name)),
    )
