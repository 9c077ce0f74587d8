-- ===== src/Storage/Descendants/Sound.antt =====
-- The recursive query finds nothing but descendants, and inserting users keeps the order on which
-- its bound stands.
use hsa.Prelude.{
  ℕ, zero, suc, Bool, true, List, [], ◌∷◌, ◌++◌, map, select, exists, In, ◌==◌, ◌||◌, ◌⊎◌, ◌≡◌, inl,
  inr, refl, sym, ap, subst, ◌∙◌, arith, Bool-cases,
}
use hsa.Domain.User.{Uuid}
use hsa.Storage.Rows.{UserRow}
use hsa.Storage.Descendants.{id_of, is_invited_by, invited, chain}
use hsa.Storage.Descendants.Laws.{member, turn, turn-invited, Descends, itself, through}

member-++ :
    (x : Uuid) (xs ys : List Uuid)
    → member x (xs ++ ys) ≡ true
    → (member x xs ≡ true) ⊎ (member x ys ≡ true)
unfolding exists
member-++ x [] ys h = inr h
member-++ x (y ∷ xs) ys h = elim (Bool-cases (y == x)) [
  | inl e ↦ inl (ground arith)
  | inr e ↦ elim (member-++ x xs ys (ground arith)) [ inl m ↦ inl (ground arith) | inr m ↦ inr m ]
]

-- A row that passes the test and has this id.
abbrev Source : (UserRow → Bool) → List UserRow → Uuid → Type 0
Source p users x = (u : UserRow) × In u users × (p u ≡ true) × (u.id ≡ x)

select-Source :
    (p : UserRow → Bool) (users : List UserRow) (x : Uuid)
    → member x (map id_of (select p users)) ≡ true
    → Source p users x
unfolding exists select
select-Source p [] x h = absurd (ground arith)
select-Source p (v ∷ users) x h = elim (Bool-cases (p v)) [
  | inl e ↦ elim (Bool-cases (v.id == x)) [
    | inl same ↦ (v, inl refl, e, ground arith)
    | inr other ↦
        let (u, at, passes, is_x) = select-Source p users x (ground arith) in
        (u, inr at, passes, is_x)
  ]
  | inr e ↦
      let (u, at, passes, is_x) = select-Source p users x (ground arith) in
      (u, inr at, passes, is_x)
]

invited-Source :
    (users : List UserRow) (ids : List Uuid) (x : Uuid)
    → member x (invited users ids) ≡ true
    → (c : Uuid) × (member c ids ≡ true) × Source (is_invited_by c) users x
unfolding exists invited
invited-Source users [] x h = absurd (ground arith)
invited-Source users (c ∷ ids) x h =
    elim (member-++ x (map id_of (select (is_invited_by c) users)) (invited users ids) h) [
      | inl here ↦ (c, ground arith, select-Source (is_invited_by c) users x here)
      | inr there ↦
          let (d, at, source) = invited-Source users ids x there in (d, ground arith, source)
    ]

chain-turns :
    (users : List UserRow) (fuel : ℕ) (ids : List Uuid) (x : Uuid)
    → member x (chain users fuel ids) ≡ true
    → (k : ℕ) × (member x (turn users k ids) ≡ true)
unfolding chain
chain-turns users zero ids x h = (0, h)
chain-turns users (suc fuel) ids x h =
    elim (member-++ x ids (chain users fuel (invited users ids)) h) [
      | inl here ↦ (0, here)
      | inr there ↦
          let (k, at) = chain-turns users fuel (invited users ids) x there in
          (suc k, ap (member x) (sym (turn-invited users k ids)) ∙ at)
    ]

exists-Source :
    (p : UserRow → Bool) (users : List UserRow) (u : UserRow)
    → In u users
    → p u ≡ true
    → exists p users ≡ true
unfolding exists
exists-Source p [] u h k = absurd h
exists-Source p (v ∷ users) u (inl e) k = ap (λ b. b || exists p users) (ap p (sym e) ∙ k)
exists-Source p (v ∷ users) u (inr e) k = ground (arith, exists-Source p users u e k)

turn-Descends :
    (users : List UserRow) (root : Uuid) (k : ℕ) (x : Uuid)
    → member x (turn users k (map id_of (select (λ u. u.id == root) users))) ≡ true
    → Descends users root k x
turn-Descends users root zero x h =
    let (u, at, is_root, is_x) = select-Source (λ u. u.id == root) users x h in
    let same : root ≡ x = ground arith in
    subst (Descends users root 0) same
      (itself (exists-Source (λ u. u.id == root) users u at is_root))
turn-Descends users root (suc k) x h =
    let (c, before, (u, at, by, is_x)) = invited-Source users (turn users k _) x h in
    subst (Descends users root (suc k)) is_x (through u at by (turn-Descends users root k c before))

-- Whatever the bound, only descendants are found.
pub chain_sound :
    (users : List UserRow) (root : Uuid) (fuel : ℕ) (x : Uuid)
    → member x (chain users fuel (map id_of (select (λ u. u.id == root) users))) ≡ true
    → (n : ℕ) × Descends users root n x
chain_sound users root fuel x h =
    let (k, at) = chain-turns users fuel _ x h in (k, turn-Descends users root k x at)
