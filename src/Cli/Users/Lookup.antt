-- ===== src/Cli/Users/Lookup.antt =====
-- What `find_user` finds.
use me2u.Base.{
  ℕ, suc, ◌+◌, ◌≡◌, refl, subst, true, false, List, [], ◌∷◌, ◌++◌, Option, none, some, arith, ltb,
  length, get_elem?, if◌then◌else◌, Bool-cases, All, inl, inr, append-nil, append_assoc,
}
use me2u.CString.{Bytes, strcmp_eq, strcmp_reads}
use me2u.System.{traced, Machine, Effect, ok, overrun}
use me2u.Cli.State.{User, Client}
use me2u.Cli.Users.{find_from, find_user}

-- The index of the first user of that name, from the index `i` on.
abbrev pub position : ℕ → Bytes → List User → Option ℕ
position i name [] = none
position i name (u ∷ us) =
    let rest = position (suc i) name us in if strcmp_eq u.username name then some i else rest

-- What the loop adds to the trace: one effect for each block that is read behind its end.
abbrev pub search_trace : Bytes → List User → List Effect
search_trace name [] = []
search_trace name (u ∷ us) =
    let rest = search_trace name us in
    let read = strcmp_reads u.username name in
    let here = if ltb (length u.username) read then overrun (length u.username) read ∷ [] else [] in
    here ++ (if strcmp_eq u.username name then [] else rest)

find_from_lem :
    (us : List User) (i : ℕ) (name : Bytes) (m : Machine Client)
    → find_from i name us m ≡ (traced m (search_trace name us), ok (position i name us))
unfolding find_from
find_from_lem [] i name m = rw append-nil
find_from_lem (u ∷ us) i name m =
    let read = strcmp_reads u.username name in
    let over = overrun (length u.username) read ∷ [] in
    elim (Bool-cases (ltb (length u.username) read)) [
      | inl long ↦ elim (Bool-cases (strcmp_eq u.username name)) [
        | inl found ↦ simp (long, found)
        | inr other ↦
            simp (long, other, find_from_lem us (suc i) name (traced m over), append_assoc)
      ]
      | inr short ↦ elim (Bool-cases (strcmp_eq u.username name)) [
        | inl found ↦ simp (short, found, append-nil)
        | inr other ↦ simp (short, other, find_from_lem us (suc i) name m)
      ]
    ]

-- `find_user` returns the first user whose name is the one asked for, and changes nothing; of
-- the names up to there, it reads one byte behind each that is the beginning of the one asked for.
pub find_user_lem :
    (name : Bytes) (m : Machine Client)
    → find_user name m
      ≡ (traced m (search_trace name m.globals.users), ok (position 0 name m.globals.users))
unfolding find_user
find_user_lem name m = find_from_lem m.globals.users 0 name m

position_found :
    (us : List User) (i k : ℕ) (name : Bytes)
    → position i name us ≡ some k
    → (j : ℕ) × (u : User) × (k ≡ i + j)
      × (get_elem? us j ≡ some u)
      × (strcmp_eq u.username name ≡ true)
position_found [] i k name e = cc
position_found (u ∷ us) i k name e = elim (Bool-cases (strcmp_eq u.username name)) [
  | inl found ↦ (0, u, ground arith, refl, found)
  | inr other ↦
      let (j, v, at, got, same) = position_found us (suc i) k name (rw other at e) in
      (suc j, v, omega arith, got, same)
]

pub position-none :
    (us : List User) (i : ℕ) (name : Bytes)
    → position i name us ≡ none
    → All (λ u. strcmp_eq u.username name ≡ false) us
position-none [] i name e = tt
position-none (u ∷ us) i name e = elim (Bool-cases (strcmp_eq u.username name)) [
  | inl found ↦ cc (rw found at e)
  | inr other ↦ (other, position-none us (suc i) name (rw other at e))
]

-- An index that is found belongs to a user of that name.
pub position-get_elem? :
    (us : List User) (k : ℕ) (name : Bytes)
    → position 0 name us ≡ some k
    → (u : User) × (get_elem? us k ≡ some u) × (strcmp_eq u.username name ≡ true)
position-get_elem? us k name e =
    let (j, u, at, got, same) = position_found us 0 k name e in
    (u, subst (λ n. get_elem? us n ≡ some u) {x = j} {y = k} (omega arith) got, same)
