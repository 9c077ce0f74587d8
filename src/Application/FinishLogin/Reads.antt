-- ===== src/Application/FinishLogin/Reads.antt =====
-- What the steps of a login have read and written, where they returned a value.
use hsa.Prelude.{
  ℕ, Bool, String, none, some, false, List, [], ◌∷◌, Option, ◌||◌, leb, not, ◌==◌, ◌&&◌, ◌≡◌, sym,
  ap, ◌⊎◌, ◌<◌, ◌∙◌, arith,
}
use hsa.Failure.{Result, ok, errors_is}
use hsa.Domain.User.{Uuid, Time}
use hsa.Domain.Credential.{Credential, is_revoked, set_sign_count}
use hsa.Storage.Rows.{CredentialRow, Db}
use hsa.Storage.Credentials.{row_to_credential}
use hsa.Storage.Credentials.Laws.{
  lookup_external, put_credential, save-eq-ok as credential_save-eq-ok, find_by_external_id-eq-ok,
}
use hsa.Storage.Keys.Laws.{find_by_credential_id-eq-ok}
use hsa.Crypto.{generate_hash}
use hsa.Application.Auth.{AuthenticationResult}
use hsa.Application.SessionIssuer.{SessionConfig}
use hsa.Application.SessionIssuer.Laws.{with_tokens, opened_session, issue-eq-ok}
use hsa.Application.FinishLogin.{
  LoginInput, LoginOutput, check_credential, find_credential, open_session, is_regression,
  login_outcome,
}
use hsa.Runtime.{Env, World, Context}
use hsa.Runtime.Laws.{>>=-eq-ok, map_err-eq-ok, lift-eq-ok, pure-eq-ok}

-- What SetSignCount accepts: the counter is not in use, or it has grown.
pub set_sign_count-eq-ok :
    (n : ℕ) (c : Credential) {c' : Credential}
    → set_sign_count n c ≡ ok c'
    → ((leb n c.sign_count && not (c.sign_count == 0)) ≡ false) × (c' ≡ record c { sign_count = n })
unfolding set_sign_count
set_sign_count-eq-ok n c h = (ground arith, ground arith)

-- The flag under which the transaction takes the credential for a clone.
abbrev pub is_suspect : AuthenticationResult → Credential → Bool
is_suspect result c = result.clone_warning || is_regression (set_sign_count result.new_sign_count c)

module _ (env : Env) (cfg : SessionConfig) where
  pub check_credential-eq-ok :
      (c : Credential) (w : World) {c' : Credential} {w' : World}
      → check_credential env cfg c w ≡ (ok c', w')
      → (c.revoked_at ≡ none) × (c' ≡ c) × (w'.db ≡ w.db)
  unfolding check_credential is_revoked
  check_credential-eq-ok c w h = (ground arith, ground arith, ground arith)

  pub find_credential-eq-ok :
      (x : List ℕ) (w : World) {c : Credential} {w' : World}
      → find_credential env cfg x w ≡ (ok c, w')
      → (r : CredentialRow) × (lookup_external x w.db.credentials ≡ some r)
        × (r.revoked_at ≡ none)
        × (c ≡ row_to_credential r)
        × (w'.db ≡ w.db)
  unfolding find_credential row_to_credential
  find_credential-eq-ok x w h =
      let (found, w₁, read, rest) = >>=-eq-ok _ _ w h in
      let (r, here, is_r, same₁) = find_by_external_id-eq-ok env x w (map_err-eq-ok _ _ w read) in
      let (live, same, same₂) = check_credential-eq-ok found w₁ rest in
      (r, here, ap (λ (c : Credential). c.revoked_at) (sym is_r) ∙ live, same ∙ is_r, same₂ ∙ same₁)

  -- The session that a login opens, on the database with the credential's new counter.
  abbrev pub logged_in : LoginInput → Credential → Time → Uuid → String → Db → Db
  logged_in input c now id hash d =
      with_tokens
        (opened_session id c.user_id hash input.device_info input.ip_address cfg.refresh_ttl now
          ∷ [])
        (put_credential c d)

  pub open_session-eq-ok :
      (ctx : Context) (input : LoginInput) (signed : Result Credential) (now : Time) (w : World)
      {o : Option LoginOutput} {w' : World}
      → open_session env cfg ctx input signed now w ≡ (ok o, w')
      → (out : LoginOutput) × (c : Credential) × (step : ℕ) × (hash : String) × (o ≡ some out)
        × (signed ≡ ok c)
        × (generate_hash env out.refresh_token ≡ ok hash)
        × (w'.db ≡ logged_in input c now (env.fresh_id step) hash w.db)
  unfolding open_session
  open_session-eq-ok ctx input signed now w h =
      let (c, w₁, given, rest₁) = >>=-eq-ok _ _ w h in
      let (unit, w₂, saved, rest₂) = >>=-eq-ok _ _ w₁ rest₁ in
      let (keys, w₃, listed, rest₃) = >>=-eq-ok _ _ w₂ rest₂ in
      let ((access, refresh), w₄, issued, end) = >>=-eq-ok _ _ w₃ rest₃ in
      let (is_c, same₁) = lift-eq-ok signed w given in
      let same₂ = credential_save-eq-ok env c w₁ saved in
      let same₃ = find_by_credential_id-eq-ok env c.id w₂ listed in
      let (step, hash, hashed, written) =
        issue-eq-ok env cfg ctx c.user_id input.device_info input.ip_address now w₃ issued in
      let (out_is, same₄) = pure-eq-ok _ w₄ end in
      (
        _,
        c,
        step,
        hash,
        sym out_is,
        is_c,
        hashed,
        same₄
            ∙ written
            ∙ ap
                (with_tokens (
                  opened_session (env.fresh_id step) c.user_id hash input.device_info
                    input.ip_address cfg.refresh_ttl now
                  ∷ []))
                (same₃ ∙ same₂ ∙ ap (λ (v : World). put_credential c v.db) same₁),
      )

  pub login_outcome-eq-ok :
      (o : Option LoginOutput) (w : World) {out : LoginOutput} {w' : World}
      → login_outcome env cfg o w ≡ (ok out, w')
      → (o ≡ some out) × (w'.db ≡ w.db)
  login_outcome-eq-ok none w h = absurd (ground arith)
  login_outcome-eq-ok (some out) w h = let (same, kept) = pure-eq-ok out w h in (ap some same, kept)

  pub not_suspect :
      (result : AuthenticationResult) (r : CredentialRow)
      → is_suspect result (row_to_credential r) ≡ false
      → (result.clone_warning ≡ false) × (r.sign_count ≡ 0 ⊎ r.sign_count < result.new_sign_count)
  unfolding row_to_credential set_sign_count errors_is
  not_suspect result r h = (ground arith, ground arith)
