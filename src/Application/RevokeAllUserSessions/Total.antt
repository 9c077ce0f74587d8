-- ===== src/Application/RevokeAllUserSessions/Total.antt =====
-- The sessions of the users after `RevokeAllUserSessions.Execute`, and everything else.
use hsa.Prelude.{
  ℕ, suc, ◌≤◌, Bool, true, false, some, none, List, [], ◌∷◌, map, select, exists, ltb, ◌≡◌, ◌≢◌,
  refl, sym, ap, subst, ◌∙◌, arith, Bool-cases, inl, inr, ◌⊎◌,
}
use hsa.Failure.{ok}
use hsa.Domain.User.{Uuid, Time}
use hsa.Storage.Rows.{RefreshTokenRow, Db}
use hsa.Storage.Queries.{token_is_active}
use hsa.Storage.Sessions.Laws.{HasDistinctIds, mark_if}
use hsa.Application.RevokeAllUserSessions.{execute}
use hsa.Application.RevokeAllUserSessions.Laws.{revoke_rows, execute-eq-ok}
use hsa.Runtime.{Env, World, Context}

-- No row is an active session of one of the users at `t`.
abbrev pub NoneActive : List Uuid → Time → List RefreshTokenRow → Type 0
NoneActive users t rows = select (token_is_active users t) rows ≡ []

mark_if-inactive :
    (users : List Uuid) (now t : Time) (r : RefreshTokenRow)
    → now ≤ t
    → token_is_active users t (mark_if (token_is_active users now) now r) ≡ false
mark_if-inactive users now t r h =
    elim (Bool-cases (exists (λ u. hsa.Prelude.◌==◌ u r.user_id) users)) [
      | inl e ↦ ground arith
      | inr e ↦ ground arith
    ]

NoneActive-revoke_rows :
    (users : List Uuid) (now t : Time) (rows : List RefreshTokenRow)
    → now ≤ t
    → NoneActive users t (revoke_rows users now rows)
unfolding select
NoneActive-revoke_rows users now t [] h = refl
NoneActive-revoke_rows users now t (r ∷ rows) h =
    rw (mark_if-inactive users now t r h) (NoneActive-revoke_rows users now t rows h)

-- The rows that are not active sessions of the users are the same as before.
abbrev pub KeepsOthers : List Uuid → Time → List RefreshTokenRow → List RefreshTokenRow → Type 0
KeepsOthers users now [] [] = Unit
KeepsOthers users now (r ∷ rows) (s ∷ rest) =
    (token_is_active users now r ≡ true ⊎ s ≡ r) × KeepsOthers users now rows rest
KeepsOthers users now _ _ = ⊥

mark_if-keeps :
    (users : List Uuid) (now : Time) (r : RefreshTokenRow)
    → token_is_active users now r ≡ true ⊎ mark_if (token_is_active users now) now r ≡ r
mark_if-keeps users now r = elim (Bool-cases (token_is_active users now r)) [
  | inl e ↦ inl e
  | inr e ↦ inr (rw e refl)
]

KeepsOthers-revoke_rows :
    (users : List Uuid) (now : Time) (rows : List RefreshTokenRow)
    → KeepsOthers users now rows (revoke_rows users now rows)
KeepsOthers-revoke_rows users now [] = tt
KeepsOthers-revoke_rows users now (r ∷ rows) =
    (mark_if-keeps users now r, KeepsOthers-revoke_rows users now rows)

-- After a successful call none of the users has an active session, at any time from the call on;
-- every row that was not an active session of theirs is as before, no row was added or dropped, and
-- no other table was touched. Session ids are distinct before the call.
pub revoke_all_ends_sessions :
    (env : Env) (ctx : Context) (users : List Uuid) (t : Time) (w : World) {w' : World}
    → env.clock w.step ≤ t
    → HasDistinctIds w.db.refresh_tokens
    → execute env ctx users w ≡ (ok tt, w')
    → NoneActive users t w'.db.refresh_tokens
      × KeepsOthers users (env.clock w.step) w.db.refresh_tokens w'.db.refresh_tokens
      × (w'.db ≡ record w.db { refresh_tokens = w'.db.refresh_tokens })
revoke_all_ends_sessions env ctx users t w {w'} later distinct h =
    let now : Time = env.clock w.step in
    let rows : List RefreshTokenRow = revoke_rows users now w.db.refresh_tokens in
    let done : w'.db ≡ record w.db { refresh_tokens = rows } =
      execute-eq-ok env ctx users w distinct h in
    let table : w'.db.refresh_tokens ≡ rows = ap (λ (d : Db). d.refresh_tokens) done in
    (
      subst (NoneActive users t) (sym table)
          (NoneActive-revoke_rows users now t w.db.refresh_tokens later),
      subst (KeepsOthers users now w.db.refresh_tokens) (sym table)
          (KeepsOthers-revoke_rows users now w.db.refresh_tokens),
      done ∙ ap (λ l. record w.db { refresh_tokens = l }) (sym table),
    )
