-- ===== src/Storage/Descendants/Laws.antt =====
-- The recursive query finds every descendant, where each user was inserted after the one that
-- invited it.
use hsa.Prelude.{
  ℕ, zero, suc, ◌≤◌, ◌<◌, Bool, true, not, List, [], ◌∷◌, ◌++◌, map, length, select, exists, In,
  All, ltb, ◌==◌, ◌||◌, if◌then◌else◌, ◌≡◌, inl, inr, refl, sym, ap, subst, ◌∙◌, arith, Bool-cases,
}
use hsa.Domain.User.{Uuid}
use hsa.Storage.Rows.{UserRow}
use hsa.Storage.Descendants.{id_of, is_invited_by, invited, chain}

abbrev pub member : Uuid → List Uuid → Bool
member x ids = exists (λ y. y == x) ids

-- The users that come from `root` by this many invitations.
pub data Descends (users : List UserRow) (root : Uuid) : ℕ → Uuid → Type 0 where
  itself : exists (λ u. u.id == root) users ≡ true → Descends users root 0 root
  through :
      {n : ℕ} {c : Uuid} (u : UserRow)
      → In u users
      → is_invited_by c u ≡ true
      → Descends users root n c
      → Descends users root (suc n) u.id

-- Where a user stands in the table.
unfoldable pub position : Uuid → List UserRow → ℕ
position id [] = 0
position id (u ∷ us) = if u.id == id then 0 else suc (position id us)

-- A user that was invited stands after the one that invited it.
abbrev pub stands_after : List UserRow → UserRow → Bool
stands_after users u =
    not u.invited_by.valid || ltb (position u.invited_by.uuid users) (position u.id users)

abbrev pub IsOrdered : List UserRow → Type 0
IsOrdered users = All (λ u. stands_after users u ≡ true) users

member-++_left : (x : Uuid) (xs ys : List Uuid) → member x xs ≡ true → member x (xs ++ ys) ≡ true
unfolding exists
member-++_left x [] ys h = cc
member-++_left x (y ∷ xs) ys h = ground (arith, member-++_left x xs ys)

member-++_right : (x : Uuid) (xs ys : List Uuid) → member x ys ≡ true → member x (xs ++ ys) ≡ true
unfolding exists
member-++_right x [] ys h = h
member-++_right x (y ∷ xs) ys h = ground (arith, member-++_right x xs ys)

member-select :
    (p : UserRow → Bool) (users : List UserRow) (u : UserRow)
    → In u users
    → p u ≡ true
    → member u.id (map id_of (select p users)) ≡ true
unfolding exists select
member-select p [] u h k = absurd h
member-select p (v ∷ users) u (inl e) k =
    subst (λ w. member u.id (map id_of (select p (w ∷ users))) ≡ true) e (rw k (ground arith))
member-select p (v ∷ users) u (inr e) k = elim (Bool-cases (p v)) [
  | inl t ↦ rw t (member-++_right u.id (v.id ∷ []) _ (member-select p users u e k))
  | inr f ↦ rw f (member-select p users u e k)
]

member-invited :
    (users : List UserRow) (ids : List Uuid) (c : Uuid) (u : UserRow)
    → In u users
    → is_invited_by c u ≡ true
    → member c ids ≡ true
    → member u.id (invited users ids) ≡ true
unfolding exists invited
member-invited users [] c u h k m = absurd (ground arith)
member-invited users (d ∷ ids) c u h k m = elim (Bool-cases (d == c)) [
  | inl e ↦ member-++_left u.id _ _ (member-select (is_invited_by d) users u h (ground arith))
  | inr f ↦
      member-++_right u.id (map id_of (select (is_invited_by d) users)) _
        (member-invited users ids c u h k (ground arith))
]

-- What the turn of this number reads, `ids` being turn 0.
abbrev pub turn : List UserRow → ℕ → List Uuid → List Uuid
turn users zero ids = ids
turn users (suc k) ids = invited users (turn users k ids)

pub turn-invited :
    (users : List UserRow) (k : ℕ) (ids : List Uuid)
    → turn users k (invited users ids) ≡ invited users (turn users k ids)
turn-invited users zero ids = refl
turn-invited users (suc k) ids = ap (invited users) (turn-invited users k ids)

chain-turn :
    (users : List UserRow) (fuel k : ℕ) (ids : List Uuid) (x : Uuid)
    → k ≤ fuel
    → member x (turn users k ids) ≡ true
    → member x (chain users fuel ids) ≡ true
unfolding chain
chain-turn users zero zero ids x h m = m
chain-turn users zero (suc k) ids x h m = absurd (omega arith)
chain-turn users (suc fuel) zero ids x h m = member-++_left x ids _ m
chain-turn users (suc fuel) (suc k) ids x h m = member-++_right x ids _ (
    chain-turn users fuel k (invited users ids) x (omega arith)
      (ap (member x) (turn-invited users k ids) ∙ m))

pub All-In :
    (P : UserRow → Type 0) (users : List UserRow) (u : UserRow) → All P users → In u users → P u
All-In P [] u h k = absurd k
All-In P (v ∷ users) u h (inl e) = subst P (sym e) h.0
All-In P (v ∷ users) u h (inr e) = All-In P users u h.1 e

pub position-length : (id : Uuid) (users : List UserRow) → position id users ≤ length users
unfolding position
position-length id [] = omega arith
position-length id (u ∷ users) = ground (arith, position-length id users)

invited-position :
    (users : List UserRow) (u : UserRow) (c : Uuid)
    → stands_after users u ≡ true
    → is_invited_by c u ≡ true
    → position c users < position u.id users
invited-position users u c h k =
    let e : u.invited_by.uuid ≡ c = ground arith in
    subst (λ i. position i users < position u.id users) e (ground arith)

-- No descendant is farther from the root than its place in the table.
Descends-position :
    (users : List UserRow) (root : Uuid) {n : ℕ} {x : Uuid}
    → IsOrdered users
    → Descends users root n x
    → n ≤ position x users
Descends-position users root h (itself here) = omega arith
Descends-position users root h (through {n} {c} u in_users by before) =
    let far = Descends-position users root {n = n} {x = c} h before in
    let near =
      invited-position users u c (All-In (λ v. stands_after users v ≡ true) users u h in_users)
        by in
    omega arith

member-root :
    (root : Uuid) (users : List UserRow)
    → exists (λ u. u.id == root) users ≡ true
    → member root (map id_of (select (λ u. u.id == root) users)) ≡ true
unfolding exists select
member-root root [] h = h
member-root root (u ∷ users) h = elim (Bool-cases (u.id == root)) [
  | inl e ↦ rw e (ground arith)
  | inr e ↦ rw e (member-root root users (ground arith))
]

Descends-turn :
    (users : List UserRow) (root : Uuid) {n : ℕ} {x : Uuid}
    → Descends users root n x
    → member x (turn users n (map id_of (select (λ u. u.id == root) users))) ≡ true
Descends-turn users root (itself here) = member-root root users here
Descends-turn users root (through {n} {c} u in_users by before) =
    member-invited users (turn users n (map id_of (select (λ u. u.id == root) users))) c u in_users
      by (Descends-turn users root {n = n} {x = c} before)

-- In an ordered table the bound on the turns is enough: every descendant is found.
pub chain-Descends :
    (users : List UserRow) (root : Uuid) {n : ℕ} {x : Uuid}
    → IsOrdered users
    → Descends users root n x
    → member x (chain users (length users) (map id_of (select (λ u. u.id == root) users))) ≡ true
chain-Descends users root {n} {x} h d =
    let far = Descends-position users root h d in
    let near = position-length x users in
    chain-turn users (length users) n _ x (omega arith) (Descends-turn users root d)
