-- ===== src/Application/BootstrapRoot/Laws.antt =====
-- What the bootstrap of the root user finds and writes.
use hsa.Prelude.{
  Option, none, some, Bool, true, false, List, [], ◌∷◌, ◌++◌, find_first, exists, not, ◌≡◌, ◌⊎◌,
  inl, inr, refl, sym, ap, subst, ◌∙◌, arith, Bool-cases, if_true, if_false,
}
use hsa.Failure.{Error, sentinel, Result, ok, err, panic, errors_is, not_found, root_already_exists}
use hsa.Domain.User.{User, Uuid, Time, admin, new_root}
use hsa.Storage.Rows.{UserRow, Db, ptr_to_null_uuid}
use hsa.Storage.Queries.{find_root_user, save_user}
use hsa.Storage.Queries.Laws.{one_row-eq-ok}
use hsa.Storage.Users
use hsa.Storage.Users.{row_to_user, user_to_row, find_root}
use hsa.Application.BootstrapRoot.{create_root, after_find, execute}
use hsa.Runtime.{Env, World, M, ◌>>=◌, map_err, statement}
use hsa.Runtime.Laws.{
  >>=-eq-ok, map_err-eq-ok, lift-eq-ok, pure-eq-ok, statement-eq-ok, time_now-eq-ok, new_id-eq-ok,
}

abbrev pub lookup_root : Db → Option UserRow
lookup_root d = find_first (λ u. not u.invited_by.valid) d.users

abbrev pub root_user : Uuid → Time → User
root_user id now = record { id = id; role = admin; invited_by = none; created_at = now }

new_root-eq-ok : (id : Uuid) (now : Time) {u : User} → new_root id now ≡ ok u → u ≡ root_user id now
unfolding new_root
new_root-eq-ok id now h = ground arith

-- A root row is inserted only where there is none.
save_root-eq-ok :
    (u : User) (d : Db) {d' : Db}
    → u.invited_by ≡ none
    → save_user (user_to_row u) d ≡ ok (tt, d')
    → (exists (λ (r : UserRow). not r.invited_by.valid) d.users ≡ false)
      × (d' ≡ record d { users = d.users ++ user_to_row u ∷ [] })
unfolding save_user user_to_row ptr_to_null_uuid
save_root-eq-ok u d root h = (ground arith, ground arith)

find_first-none :
    (p : UserRow → Bool) (users : List UserRow) → exists p users ≡ false → find_first p users ≡ none
unfolding find_first exists
find_first-none p [] h = refl
find_first-none p (u ∷ users) h = ground (arith, find_first-none p users)

find_first-snoc :
    (p : UserRow → Bool) (users : List UserRow) (u : UserRow)
    → exists p users ≡ false
    → p u ≡ true
    → find_first p (users ++ u ∷ []) ≡ some u
unfolding find_first exists
find_first-snoc p [] u h k = ground arith
find_first-snoc p (v ∷ users) u h k = ground (arith, find_first-snoc p users u)

-- What a call has done: it found the root, or made one where there was none.
abbrev pub Bootstraps : User → Option Error → Db → Db → Type 0
Bootstraps u e before after =
    ((r : UserRow) × (lookup_root before ≡ some r)
      × (row_to_user r ≡ ok u)
      × (e ≡ some (sentinel root_already_exists))
      × (after ≡ before))
    ⊎ ((lookup_root before ≡ none)
        × (lookup_root after ≡ some (user_to_row u))
        × (e ≡ none)
        × (after ≡ record before { users = before.users ++ user_to_row u ∷ [] }))

made_root :
    (u : User) (d : Db) {d' : Db}
    → u.invited_by ≡ none
    → save_user (user_to_row u) d ≡ ok (tt, d')
    → Bootstraps u none d d'
unfolding user_to_row ptr_to_null_uuid
made_root u d root h =
    let (fresh, written) = save_root-eq-ok u d root h in
    let is_root : not (user_to_row u).invited_by.valid ≡ true =
      ap (λ o. not (ptr_to_null_uuid o).valid) root in
    inr (
      find_first-none (λ r. not r.invited_by.valid) d.users fresh,
      ap lookup_root written
          ∙ find_first-snoc (λ r. not r.invited_by.valid) d.users (user_to_row u) fresh is_root,
      refl,
      written,
    )

module _ (env : Env) where
  create_root-eq-ok :
      (w : World) {u : User} {e : Option Error} {w' : World}
      → create_root env w ≡ (ok (u, e), w')
      → Bootstraps u e w.db w'.db
  unfolding create_root Users.save
  create_root-eq-ok w {u} {e} {w'} h =
      let (now, w₁, clock, rest₁) = >>=-eq-ok _ _ w h in
      let (id, w₂, drawn, rest₂) = >>=-eq-ok _ _ w₁ rest₁ in
      let (root, w₃, made, rest₃) = >>=-eq-ok _ _ w₂ rest₂ in
      let (unit, w₄, saved, end) = >>=-eq-ok _ _ w₃ rest₃ in
      let (_, same₁) = time_now-eq-ok env w clock in
      let (_, same₂) = new_id-eq-ok env w₁ drawn in
      let (made_is, same₃) = lift-eq-ok _ w₂ made in
      let (given, same₄) = pure-eq-ok (root, none) w₄ end in
      let start : w₃.db ≡ w.db = ap (λ (v : World). v.db) same₃ ∙ same₂ ∙ same₁ in
      let is_root : root.invited_by ≡ none =
        ap (λ (k : User). k.invited_by) (new_root-eq-ok id now made_is) in
      let done = made_root root w₃.db is_root (statement-eq-ok env _ w₃ saved) in
      subst (λ (p : User × Option Error). Bootstraps p.0 p.1 w.db w'.db) given
        (subst (λ d. Bootstraps root none d w'.db) start
          (subst (Bootstraps root none w₃.db) (sym same₄) done))

  find_root-eq-ok :
      (w : World) {u : User} {w' : World}
      → find_root env w ≡ (ok u, w')
      → (r : UserRow) × (lookup_root w.db ≡ some r) × (row_to_user r ≡ ok u) × (w'.db ≡ w.db)
  unfolding find_root find_root_user
  find_root-eq-ok w h =
      let (row, w₁, read, kept) = >>=-eq-ok _ _ w h in
      let (found, same) = one_row-eq-ok _ _ (statement-eq-ok env _ w (map_err-eq-ok _ _ w read)) in
      let (given, end) = lift-eq-ok (row_to_user row) w₁ kept in
      (row, found, given, ap (λ v. v.db) end ∙ same)

  find_root-keeps : (w : World) → (find_root env w).1.db ≡ w.db
  unfolding find_root ◌>>=◌ map_err statement find_root_user
  find_root-keeps w = ground arith

  after_find-eq-ok :
      (p : Result User × World) {u : User} {e : Option Error} {w' : World}
      → after_find env p ≡ (ok (u, e), w')
      → ((p ≡ (ok u, w')) × (e ≡ some (sentinel root_already_exists)))
        ⊎ (create_root env p.1 ≡ (ok (u, e), w'))
  unfolding after_find
  after_find-eq-ok (ok existing, v) h = inl (cc, cc)
  after_find-eq-ok (err e', v) h = elim (Bool-cases (errors_is e' not_found)) [
    | inl t ↦ inr (sym (ap (λ (m : M (User × Option Error)). m v) (if_true _ _ _ t)) ∙ h)
    | inr f ↦
        let k = sym (ap (λ (m : M (User × Option Error)). m v) (if_false _ _ _ f)) ∙ h in absurd cc
  ]
  after_find-eq-ok (panic q, v) h = absurd cc

  -- A bootstrap that returned a user either found it as the root of the table, wrote nothing and
  -- returned the error that says so beside it, or found no root and added the returned user as the
  -- table's root, with no other change.
  pub bootstrap-Bootstraps :
      (w : World) {u : User} {e : Option Error} {w' : World}
      → execute env w ≡ (ok (u, e), w')
      → Bootstraps u e w.db w'.db
  unfolding execute
  bootstrap-Bootstraps w {u} {e} {w'} h = elim (after_find-eq-ok (find_root env w) h) [
    | inl (found, says) ↦
        let (r, at, is_u, same) = find_root-eq-ok w found in inl (r, at, is_u, says, same)
    | inr created ↦
        subst (λ d. Bootstraps u e d w'.db) (find_root-keeps w)
          (create_root-eq-ok (find_root env w).1 created)
  ]
