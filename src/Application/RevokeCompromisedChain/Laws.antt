-- ===== src/Application/RevokeCompromisedChain/Laws.antt =====
-- What revoking a compromised chain ends.
use hsa.Prelude.{
  ℕ, true, List, [], ◌∷◌, map, length, select, exists, ◌==◌, ◌≡◌, refl, sym, ap, subst, ◌∙◌, arith,
  Bool-cases, if_false, inl, inr,
}
use hsa.Failure.{ok}
use hsa.Failure.Laws.{ok-injective, ok_pair-injective}
use hsa.Domain.User.{Uuid, Time}
use hsa.Storage.Rows.{RefreshTokenRow, Db}
use hsa.Storage.Queries.{token_is_active}
use hsa.Storage.Sessions.Laws.{HasDistinctIds}
use hsa.Storage.Descendants.{id_of, chain, some_ids, list_descendant_user_ids, descendants}
use hsa.Storage.Descendants.Laws.{member, Descends, IsOrdered, chain-Descends}
use hsa.Application.RevokeAllUserSessions.Total.{NoneActive, revoke_all_ends_sessions}
use hsa.Application.RevokeCompromisedChain.{execute}
use hsa.Runtime.{Env, World, Context}
use hsa.Runtime.Laws.{>>=-eq-ok, map_err-eq-ok, statement-eq-ok, lift-eq-ok}

some_ids-eq-ok : (ids : List Uuid) {out : List Uuid} → some_ids ids ≡ ok out → out ≡ ids
unfolding some_ids
some_ids-eq-ok [] h = absurd (ground arith)
some_ids-eq-ok (x ∷ ids) h = sym (ok-injective h)

descendants-eq-ok :
    (env : Env) (root : Uuid) (w : World) {ids : List Uuid} {w' : World}
    → descendants env root w ≡ (ok ids, w')
    → (ids
        ≡ chain w.db.users (length w.db.users) (map id_of (select (λ u. u.id == root) w.db.users)))
      × (w'.db ≡ w.db)
unfolding descendants list_descendant_user_ids
descendants-eq-ok env root w h =
    let (ids, w₁, read, rest) = >>=-eq-ok _ _ w h in
    let (ids_is, same) = ok_pair-injective (statement-eq-ok env _ w (map_err-eq-ok _ _ w read)) in
    let (given, end) = lift-eq-ok (some_ids ids) w₁ rest in
    (some_ids-eq-ok ids given ∙ sym ids_is, ap (λ (v : World). v.db) end ∙ sym same)

widen :
    (ids : List Uuid) (x : Uuid) (t : Time) (r : RefreshTokenRow)
    → member x ids ≡ true
    → token_is_active (x ∷ []) t r ≡ true
    → token_is_active ids t r ≡ true
unfolding exists
widen ids x t r m h =
    let same : x ≡ r.user_id = ground arith in
    let at : member r.user_id ids ≡ true = ap (λ y. member y ids) (sym same) ∙ m in ground arith

-- Where none of the users has an active session, one of them has none.
one-NoneActive :
    (ids : List Uuid) (x : Uuid) (t : Time) (rows : List RefreshTokenRow)
    → member x ids ≡ true
    → NoneActive ids t rows
    → NoneActive (x ∷ []) t rows
unfolding select
one-NoneActive ids x t [] m h = refl
one-NoneActive ids x t (r ∷ rows) m h = elim (Bool-cases (token_is_active ids t r)) [
  | inl e ↦ absurd (ground arith)
  | inr e ↦ elim (Bool-cases (token_is_active (x ∷ []) t r)) [
    | inl k ↦ absurd (ground (arith, widen ids x t r m k))
    | inr k ↦ if_false _ _ _ k ∙ one-NoneActive ids x t rows m (sym (if_false _ _ _ e) ∙ h)
  ]
]

-- After a successful call no user that descends from the compromised one by invitations, itself
-- included, has an active session at the time of the revocation. Every user of the table was inserted
-- after the one that invited it, and session ids are distinct.
pub revoke_chain_ends_sessions :
    (env : Env) (ctx : Context) (root : Uuid) (w : World) {w' : World} {n : ℕ} {x : Uuid}
    → IsOrdered w.db.users
    → HasDistinctIds w.db.refresh_tokens
    → Descends w.db.users root n x
    → execute env ctx root w ≡ (ok tt, w')
    → (step : ℕ) × NoneActive (x ∷ []) (env.clock step) w'.db.refresh_tokens
unfolding execute
revoke_chain_ends_sessions env ctx root w {w'} {n} {x} ordered distinct descends h =
    let (ids, w₁, read, revoked) = >>=-eq-ok _ _ w h in
    let (ids_is, same) = descendants-eq-ok env root w read in
    let (ended, _, _) =
      revoke_all_ends_sessions env ctx ids (env.clock w₁.step) w₁ {w' = w'} (omega arith)
        (subst (λ (d : Db). HasDistinctIds d.refresh_tokens) (sym same) distinct) revoked in
    (
      w₁.step,
      one-NoneActive ids x (env.clock w₁.step) w'.db.refresh_tokens
          (ap (member x) ids_is ∙ chain-Descends w.db.users root ordered descends) ended,
    )
