-- ===== src/Storage/Descendants/Order.antt =====
-- Inserting users keeps the table in the order on which the bound of the recursive query stands.
use hsa.Prelude.{
  suc, ◌<◌, true, false, List, [], ◌∷◌, ◌++◌, length, exists, In, All, ◌==◌, ◌⊎◌, ◌≢◌, ◌≡◌, inl,
  inr, refl, sym, subst, arith, Bool-cases,
}
use hsa.Failure.{ok}
use hsa.Domain.User.{Uuid}
use hsa.Storage.Rows.{UserRow, Db}
use hsa.Storage.Queries.{save_user, user_exists}
use hsa.Storage.Descendants.Laws.{position, stands_after, IsOrdered, All-In}

position-++ :
    (x : Uuid) (xs ys : List UserRow)
    → position x xs < length xs
    → position x (xs ++ ys) ≡ position x xs
unfolding position
position-++ x [] ys h = absurd (omega arith)
position-++ x (u ∷ xs) ys h = ground (arith, position-++ x xs ys)

position-In : (xs : List UserRow) (u : UserRow) → In u xs → position u.id xs < length xs
unfolding position
position-In [] u h = absurd h
position-In (v ∷ xs) u (inl e) =
    subst (λ (w : UserRow). position u.id (w ∷ xs) < suc (length xs)) e (ground arith)
position-In (v ∷ xs) u (inr e) = ground (arith, position-In xs u e)

position-known :
    (x : Uuid) (xs : List UserRow) → exists (λ u. u.id == x) xs ≡ true → position x xs < length xs
unfolding position exists
position-known x [] h = absurd (ground arith)
position-known x (u ∷ xs) h = ground (arith, position-known x xs)

position-fresh :
    (p : UserRow) (xs : List UserRow)
    → exists (λ u. u.id == p.id) xs ≡ false
    → position p.id (xs ++ p ∷ []) ≡ length xs
unfolding position exists
position-fresh p [] h = ground arith
position-fresh p (u ∷ xs) h = ground (arith, position-fresh p xs)

All-of : (P : UserRow → Type 0) (xs : List UserRow) → ((u : UserRow) → In u xs → P u) → All P xs
All-of P [] f = tt
All-of P (u ∷ xs) f = (f u (inl refl), All-of P xs (λ v at. f v (inr at)))

In-snoc : (xs : List UserRow) (p u : UserRow) → In u (xs ++ p ∷ []) → In u xs ⊎ (u ≡ p)
In-snoc [] p u (inl e) = inr e
In-snoc [] p u (inr e) = absurd e
In-snoc (v ∷ xs) p u (inl e) = inl (inl e)
In-snoc (v ∷ xs) p u (inr e) = elim (In-snoc xs p u e) [
  | inl at ↦ inl (inr at)
  | inr same ↦ inr same
]

stands_after-old :
    (xs ys : List UserRow) (u : UserRow)
    → In u xs
    → stands_after xs u ≡ true
    → stands_after (xs ++ ys) u ≡ true
stands_after-old xs ys u at h = elim (Bool-cases u.invited_by.valid) [
  | inl e ↦
      let before : position u.invited_by.uuid xs < position u.id xs = ground arith in
      let here = position-In xs u at in
      let same₁ = position-++ u.id xs ys here in
      let same₂ = position-++ u.invited_by.uuid xs ys (omega arith) in ground arith
  | inr e ↦ ground arith
]

stands_after-new :
    (xs : List UserRow) (p : UserRow)
    → exists (λ u. u.id == p.id) xs ≡ false
    → (p.invited_by.valid ≡ false) ⊎ (exists (λ u. u.id == p.invited_by.uuid) xs ≡ true)
    → stands_after (xs ++ p ∷ []) p ≡ true
stands_after-new xs p fresh (inl root) = ground arith
stands_after-new xs p fresh (inr known) =
    let here = position-fresh p xs fresh in
    let before = position-known p.invited_by.uuid xs known in
    let same = position-++ p.invited_by.uuid xs (p ∷ []) before in ground arith

save_user-eq-ok :
    (p : UserRow) (d : Db) {d' : Db}
    → p.invited_by.uuid ≢ p.id
    → save_user p d ≡ ok (tt, d')
    → (d' ≡ record d { users = d.users ++ p ∷ [] })
      × (user_exists d p.id ≡ false)
      × ((p.invited_by.valid ≡ false) ⊎ (user_exists d p.invited_by.uuid ≡ true))
unfolding save_user
save_user-eq-ok p d other h = (ground arith, ground arith, ground arith)

-- A user that was inserted, and did not name itself as the one that invited it, leaves the table in
-- order.
pub save_user-IsOrdered :
    (p : UserRow) (d : Db) {d' : Db}
    → IsOrdered d.users
    → p.invited_by.uuid ≢ p.id
    → save_user p d ≡ ok (tt, d')
    → IsOrdered d'.users
save_user-IsOrdered p d {d'} ordered other h =
    let (d_is, fresh, known) = save_user-eq-ok p d other h in
    let users : List UserRow = d.users ++ p ∷ [] in
    let all : IsOrdered users =
      All-of (λ u. stands_after users u ≡ true) users
        (λ u at. elim (In-snoc d.users p u at) [
          | inl old ↦
              stands_after-old d.users (p ∷ []) u old
                (All-In (λ v. stands_after d.users v ≡ true) d.users u ordered old)
          | inr new ↦
              subst (λ v. stands_after users v ≡ true) (sym new)
                (stands_after-new d.users p fresh known)
        ]) in
    subst (λ (x : Db). IsOrdered x.users) (sym d_is) all
