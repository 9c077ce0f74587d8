-- ===== src/Application/FinishLogin/Laws.antt =====
-- What a login that returned tokens has read and written.
use hsa.Prelude.{
  ℕ, String, none, some, false, Bool-cases, inl, inr, Option, ◌≡◌, ◌≢◌, sym, ap, ap₂, if_true,
  if_false, some-injective, ◌⊎◌, ◌<◌, subst, ◌∙◌,
}
use hsa.Failure.{ok}
use hsa.Domain.User.{Time}
use hsa.Domain.Credential.{Credential}
use hsa.Storage.Rows.{CredentialRow, Db}
use hsa.Storage.Credentials.{row_to_credential}
use hsa.Storage.Credentials.Laws.{lookup_external}
use hsa.Storage.Transaction.Laws.{run_in_transaction-eq-ok}
use hsa.Crypto.{generate_hash}
use hsa.Application.Auth.{AuthenticationResult, Authenticator, KeepsDb, Answers}
use hsa.Application.SessionIssuer.{SessionConfig}
use hsa.Application.FinishLogin.{LoginInput, LoginOutput, settle, login_tx, handle_clone, execute}
use hsa.Application.FinishLogin.Reads.{
  set_sign_count-eq-ok, is_suspect, find_credential-eq-ok, logged_in, open_session-eq-ok,
  login_outcome-eq-ok, not_suspect,
}
use hsa.Runtime.{Env, World, Context, M, pure, ◌>>◌}
use hsa.Runtime.Laws.{>>=-eq-ok, pure-eq-ok, time_now-eq-ok}

module _ (env : Env) (cfg : SessionConfig) where
  handle_clone-none :
      (ctx : Context) (c : Credential) (now : Time) (w : World) {out : LoginOutput} {w' : World}
      → (handle_clone env cfg ctx c now >> pure {A = Option LoginOutput} none) w
        ≢ (ok (some out), w')
  handle_clone-none ctx c now w h =
      let (unit, w₁, done, end) = >>=-eq-ok _ _ w h in
      let (given, _) = pure-eq-ok {A = Option LoginOutput} none w₁ end in cc

  settle-eq-ok :
      (ctx : Context) (input : LoginInput) (result : AuthenticationResult) (now : Time)
      (c : Credential) (w : World) {out : LoginOutput} {w' : World}
      → settle env cfg ctx input result now c w ≡ (ok (some out), w')
      → (step : ℕ) × (hash : String) × (is_suspect result c ≡ false)
        × (generate_hash env out.refresh_token ≡ ok hash)
        × (w'.db
            ≡ logged_in env cfg input
                (record c { sign_count = result.new_sign_count })
                now
                (env.fresh_id step)
                hash
                w.db)
  unfolding settle
  settle-eq-ok ctx input result now c w {out} {w'} h = elim (Bool-cases (is_suspect result c)) [
    | inl e ↦ absurd (
        handle_clone-none ctx _ now w {out = out} {w' = w'}
          (sym (ap (λ (m : M (Option LoginOutput)). m w) (if_true _ _ _ e)) ∙ h))
    | inr e ↦
        let (out', c', step, hash, is_out, signed, hashed, written) =
          open_session-eq-ok env cfg ctx input _ now w
            (sym (ap (λ (m : M (Option LoginOutput)). m w) (if_false _ _ _ e)) ∙ h) in
        let (_, is_c) = set_sign_count-eq-ok result.new_sign_count c signed in
        (
          step,
          hash,
          e,
          ap (λ (o : LoginOutput). generate_hash env o.refresh_token) (some-injective is_out)
              ∙ hashed,
          written ∙ ap (λ k. logged_in env cfg input k now (env.fresh_id step) hash w.db) is_c,
        )
  ]

  login_tx-eq-ok :
      (ctx : Context) (input : LoginInput) (result : AuthenticationResult) (now : Time) (w : World)
      {out : LoginOutput} {w' : World}
      → login_tx env cfg ctx input result now w ≡ (ok (some out), w')
      → (r : CredentialRow) × (step : ℕ) × (hash : String) × (lookup_external result.external_id
            w.db.credentials
          ≡ some r)
        × (r.revoked_at ≡ none)
        × (is_suspect result (row_to_credential r) ≡ false)
        × (generate_hash env out.refresh_token ≡ ok hash)
        × (w'.db
            ≡ logged_in env cfg input
                (record (row_to_credential r) { sign_count = result.new_sign_count })
                now
                (env.fresh_id step)
                hash
                w.db)
  unfolding login_tx
  login_tx-eq-ok ctx input result now w h =
      let (c, w₁, found, rest) = >>=-eq-ok _ _ w h in
      let (r, here, live, is_r, same) = find_credential-eq-ok env cfg result.external_id w found in
      let (step, hash, clear, hashed, written) = settle-eq-ok ctx input result now c w₁ rest in
      (
        r,
        step,
        hash,
        here,
        live,
        ap (is_suspect result) (sym is_r) ∙ clear,
        hashed,
        written
            ∙ ap₂
                (λ (k : Credential).
                  logged_in env cfg input (record k { sign_count = result.new_sign_count }) now
                    (env.fresh_id step) hash)
                is_r same,
      )

  -- A login that returned tokens was by a credential of the table which is not revoked, with an
  -- answer that the authenticator gives on this database, without a warning and with a counter that
  -- is in order. It saved the counter and one new session of the credential's user, under a fresh id
  -- and with the hash of the raw token returned, and wrote nothing else. The authenticator is taken
  -- to write nothing itself.
  pub login_opens_session :
      (a : Authenticator) (ctx : Context) (input : LoginInput) (w : World) {out : LoginOutput}
      {w' : World}
      → KeepsDb (a.finish ctx input.challenge_token input.authentication_response)
      → execute env cfg a ctx input w ≡ (ok out, w')
      → (result : AuthenticationResult) × (r : CredentialRow) × (step : ℕ) × (hash : String)
        × (Answers (a.finish ctx input.challenge_token input.authentication_response) w.db result)
        × (lookup_external result.external_id w.db.credentials ≡ some r)
        × (r.revoked_at ≡ none)
        × (result.clone_warning ≡ false)
        × (r.sign_count ≡ 0 ⊎ r.sign_count < result.new_sign_count)
        × (generate_hash env out.refresh_token ≡ ok hash)
        × (w'.db
            ≡ logged_in env cfg input
                (record (row_to_credential r) { sign_count = result.new_sign_count })
                (env.clock w.step)
                (env.fresh_id step)
                hash
                w.db)
  unfolding execute
  login_opens_session a ctx input w keeps h =
      let (now, w₁, clock, rest₁) = >>=-eq-ok _ _ w h in
      let (result, w₂, answered, rest₂) = >>=-eq-ok _ _ w₁ rest₁ in
      let (outcome, w₃, tx, rest₃) = >>=-eq-ok _ _ w₂ rest₂ in
      let (is_out, same₃) = login_outcome-eq-ok env cfg outcome w₃ rest₃ in
      let (tx_ctx, w₄, w₅, _, begun, body, ended) = run_in_transaction-eq-ok _ env ctx _ w₂ tx in
      let (time, same₁) = time_now-eq-ok env w clock in
      let (r, step, hash, here, live, clear, hashed, written) =
        login_tx-eq-ok tx_ctx input result now w₄ (body ∙ ap (λ o. (ok o, w₅)) is_out) in
      let start : w₄.db ≡ w.db = begun ∙ keeps w₁ w₂ result answered ∙ same₁ in
      let (silent, grown) = not_suspect env cfg result r clear in
      (
        result,
        r,
        step,
        hash,
        (w₁, w₂, same₁, answered),
        subst (λ (d : Db). lookup_external result.external_id d.credentials ≡ some r) start here,
        live,
        silent,
        grown,
        hashed,
        same₃
            ∙ ended
            ∙ written
            ∙ ap₂
                (λ t.
                  logged_in env cfg input
                    (record (row_to_credential r) { sign_count = result.new_sign_count }) t
                    (env.fresh_id step) hash)
                time start,
      )
