-- ===== src/Application/FinishLogin/Handling.antt =====
-- `handleClone` and the lookup before it: what they do, and that they succeed where no statement
-- fails.
use hsa.Prelude.{
  ℕ, none, some, true, Bool-cases, inl, inr, [], ◌∷◌, Bytes, ◌==◌, leb, not, ◌&&◌, ◌≡◌, sym, ap,
  ap₂, subst, ◌∙◌, arith,
}
use hsa.Failure.{ok}
use hsa.Domain.User.{Time}
use hsa.Domain.Credential
use hsa.Domain.Credential.{Credential, is_revoked, set_sign_count}
use hsa.Storage.Rows.{CredentialRow, Db}
use hsa.Storage.Queries.{one_row, find_credential_by_external_id}
use hsa.Storage.Credentials
use hsa.Storage.Credentials.{row_to_credential, credential_to_row}
use hsa.Storage.Credentials.Laws.{
  lookup_external, put_credential, save-eq-ok as credential_save-eq-ok,
}
use hsa.Storage.Credentials.Lookup.{has_credential, save_known}
use hsa.Storage.Sessions.Laws.{HasDistinctIds}
use hsa.Application.SessionIssuer.{SessionConfig}
use hsa.Application.RevokeAllUserSessions.Total.{NoneActive, revoke_all_ends_sessions}
use hsa.Application.RevokeAllUserSessions.Success.{revoke_all-Succeeds}
use hsa.Application.FinishLogin.{counted, check_credential, find_credential, handle_clone}
use hsa.Runtime.{Env, World, Context, tick}
use hsa.Runtime.Laws.{>>=-eq-ok, lift-eq-ok}
use hsa.Runtime.Forward.{
  NoFaults, Succeeds, >>=-of_ok, >>=-Succeeds, map_err-of_ok, statement-of_ok,
}

-- A credential with this counter, revoked then.
abbrev pub revoked_credential : Time → Credential → Credential
revoked_credential now c = record c { revoked_at = some now }

pub revoke-eq-ok :
    (now : Time) (c : Credential) {c' : Credential}
    → Credential.revoke now c ≡ ok c'
    → c' ≡ revoked_credential now c
unfolding Credential.revoke is_revoked
revoke-eq-ok now c h = ground arith

pub revoke_unrevoked :
    (now : Time) (c : Credential)
    → c.revoked_at ≡ none
    → Credential.revoke now c ≡ ok (revoked_credential now c)
unfolding Credential.revoke is_revoked
revoke_unrevoked now c h = ground arith

-- The counter aside, the credential is as it was found.
pub counted_is :
    (n : ℕ) (c : Credential)
    → (m : ℕ) × (counted c (set_sign_count n c) ≡ record c { sign_count = m })
unfolding set_sign_count
counted_is n c = elim (Bool-cases (leb n c.sign_count && not (c.sign_count == 0))) [
  | inl e ↦ (c.sign_count, ground arith)
  | inr e ↦ (n, ground arith)
]

module _ (env : Env) (cfg : SessionConfig) where
  -- The two writes of `handleClone`.
  pub handle_clone-eq-ok :
      (ctx : Context) (c : Credential) (now : Time) (w : World) {w' : World}
      → HasDistinctIds w.db.refresh_tokens
      → handle_clone env cfg ctx c now w ≡ (ok tt, w')
      → (step : ℕ) × NoneActive (c.user_id ∷ []) (env.clock step) w'.db.refresh_tokens
        × (w'.db.credentials ≡ (put_credential (revoked_credential now c) w.db).credentials)
  unfolding handle_clone
  handle_clone-eq-ok ctx c now w {w'} distinct h =
      let (revoked, w₁, marked, rest₁) = >>=-eq-ok _ _ w h in
      let (unit, w₂, saved, rest₂) = >>=-eq-ok _ _ w₁ rest₁ in
      let (marks, same₁) = lift-eq-ok _ w marked in
      let is_revoked_now = revoke-eq-ok now c marks in
      let stored : w₂.db ≡ put_credential (revoked_credential now c) w.db =
        credential_save-eq-ok env revoked w₁ saved
        ∙ ap₂ (λ k (v : World). put_credential k v.db) is_revoked_now same₁ in
      let (ended, _, only) =
        revoke_all_ends_sessions env ctx (revoked.user_id ∷ []) (env.clock w₂.step) w₂ {w' = w'}
          (omega arith) (subst (λ (d : Db). HasDistinctIds d.refresh_tokens) (sym stored) distinct)
          rest₂ in
      (
        w₂.step,
        subst
            (λ (k : Credential).
              NoneActive (k.user_id ∷ []) (env.clock w₂.step) w'.db.refresh_tokens)
            is_revoked_now ended,
        ap (λ (d : Db). d.credentials) only ∙ ap (λ (d : Db). d.credentials) stored,
      )

module _ (env : Env) (calm : NoFaults env) (cfg : SessionConfig) where
  pub handle_clone-Succeeds :
      (ctx : Context) (c : Credential) (now : Time) (w : World)
      → HasDistinctIds w.db.refresh_tokens
      → c.revoked_at ≡ none
      → has_credential c.id w.db.credentials ≡ true
      → Succeeds (handle_clone env cfg ctx c now) w
  unfolding handle_clone Credentials.save
  handle_clone-Succeeds ctx c now w distinct live known =
      >>=-Succeeds _ _ w (ap (λ r. (r, w)) (revoke_unrevoked now c live)) (
        >>=-Succeeds _ _ w
          (statement-of_ok env _ w calm (save_known (revoked_credential now c) w.db known))
          (revoke_all-Succeeds env calm ctx (c.user_id ∷ []) _ distinct))

  pub check_credential_live :
      (c : Credential) (w : World) → c.revoked_at ≡ none → check_credential env cfg c w ≡ (ok c, w)
  unfolding check_credential is_revoked
  check_credential_live c w live = ground arith

  pub find_credential-of_live :
      (x : Bytes) (w : World) (r : CredentialRow)
      → lookup_external x w.db.credentials ≡ some r
      → r.revoked_at ≡ none
      → find_credential env cfg x w ≡ (ok (row_to_credential r), tick w)
  unfolding find_credential Credentials.find_by_external_id find_credential_by_external_id
      row_to_credential
  find_credential-of_live x w r here live =
      >>=-of_ok _ _ w (
        map_err-of_ok _ _ w (
          >>=-of_ok _ _ w
            (map_err-of_ok _ _ w (statement-of_ok env _ w calm (ap (λ o. one_row o w.db) here)))))
      ∙ check_credential_live (row_to_credential r) (tick w) live
