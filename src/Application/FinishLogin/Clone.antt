-- ===== src/Application/FinishLogin/Clone.antt =====
-- A login with a credential that looks cloned: what it revokes stays revoked.
use hsa.Prelude.{
  ℕ, none, some, true, [], ◌∷◌, Option, Bytes, if_true, ◌≡◌, refl, sym, ap, subst, ◌∙◌,
}
use hsa.Failure.{sentinel, ok, err, credential_clone_suspected}
use hsa.Domain.User.{Uuid, Time}
use hsa.Domain.Credential.{Credential, set_sign_count}
use hsa.Storage.Rows.{CredentialRow, Db}
use hsa.Storage.Credentials.{row_to_credential, credential_to_row}
use hsa.Storage.Credentials.Laws.{lookup_external, put_credential}
use hsa.Storage.Credentials.Lookup.{
  has_credential, HasDistinctCredentials, has_credential-lookup, lookup_external-save,
}
use hsa.Storage.Sessions.Laws.{HasDistinctIds}
use hsa.Storage.Transaction.Laws.{run_in_transaction-eq-ok}
use hsa.Storage.Transaction.Forward.{run_in_transaction-Succeeds}
use hsa.Application.Auth.{AuthenticationResult, Authenticator}
use hsa.Application.SessionIssuer.{SessionConfig}
use hsa.Application.RevokeAllUserSessions.Total.{NoneActive}
use hsa.Application.FinishLogin.{
  LoginInput, LoginOutput, counted, settle, login_tx, login_outcome, execute,
}
use hsa.Application.FinishLogin.Reads.{is_suspect}
use hsa.Runtime.{Env, World, Context, M, time_now, tick}
use hsa.Runtime.Laws.{>>=-eq-ok, pure-eq-ok}
use hsa.Runtime.Forward.{NoFaults, Succeeds, >>=-of_ok, >>=-Succeeds}
use hsa.Application.FinishLogin.Handling.{
  revoked_credential, counted_is, handle_clone-eq-ok, handle_clone-Succeeds,
  find_credential-of_live,
}

module _ (env : Env) (calm : NoFaults env) (cfg : SessionConfig) where
  -- What the transaction of a login does to the credential that it takes for a clone.
  abbrev pub Revokes : Bytes → Uuid → Time → Db → Type 0
  Revokes x user now d =
      (step : ℕ) × NoneActive (user ∷ []) (env.clock step) d.refresh_tokens
      × (r : CredentialRow) × (lookup_external x d.credentials ≡ some r)
      × (r.revoked_at ≡ some now)

  settle_clone-Succeeds :
      (ctx : Context) (input : LoginInput) (result : AuthenticationResult) (now : Time)
      (c : Credential) (w : World)
      → HasDistinctIds w.db.refresh_tokens
      → c.revoked_at ≡ none
      → has_credential c.id w.db.credentials ≡ true
      → is_suspect result c ≡ true
      → Succeeds (settle env cfg ctx input result now c) w
  unfolding settle
  settle_clone-Succeeds ctx input result now c w distinct live known suspect =
      let (m, is_c) = counted_is result.new_sign_count c in
      let (unit, w₁, done) =
        handle_clone-Succeeds env calm cfg ctx (counted c (set_sign_count result.new_sign_count c))
          now w distinct (ap (λ (k : Credential). k.revoked_at) is_c ∙ live)
          (ap (λ (k : Credential). has_credential k.id w.db.credentials) is_c ∙ known) in
      (
        none,
        w₁,
        ap (λ (m : M (Option LoginOutput)). m w) (if_true _ _ _ suspect) ∙ >>=-of_ok _ _ w done,
      )

  settle_clone-eq-ok :
      (ctx : Context) (input : LoginInput) (result : AuthenticationResult) (now : Time)
      (r : CredentialRow) (w : World) {o : Option LoginOutput} {w' : World}
      → HasDistinctIds w.db.refresh_tokens
      → HasDistinctCredentials w.db.credentials
      → lookup_external result.external_id w.db.credentials ≡ some r
      → is_suspect result (row_to_credential r) ≡ true
      → settle env cfg ctx input result now (row_to_credential r) w ≡ (ok o, w')
      → (o ≡ none) × Revokes result.external_id r.user_id now w'.db
  unfolding settle row_to_credential credential_to_row
  settle_clone-eq-ok ctx input result now r w {o} {w'} distinct keyed here suspect h =
      let c : Credential =
        counted (row_to_credential r)
          (set_sign_count result.new_sign_count (row_to_credential r)) in
      let (unit, w₁, done, end) =
        >>=-eq-ok _ _ w
          (sym (ap (λ (m : M (Option LoginOutput)). m w) (if_true _ _ _ suspect)) ∙ h) in
      let (is_none, kept) = pure-eq-ok {A = Option LoginOutput} none w₁ end in
      let (step, ended, written) = handle_clone-eq-ok env cfg ctx c now w distinct done in
      let (m, is_c) = counted_is result.new_sign_count (row_to_credential r) in
      let table : w₁.db.credentials
          ≡ (put_credential
              (revoked_credential now (record (row_to_credential r) { sign_count = m }))
              w.db).credentials =
        written ∙ ap (λ k. (put_credential (revoked_credential now k) w.db).credentials) is_c in
      (
        sym is_none,
        (
          step,
          subst (λ (d : Db). NoneActive (r.user_id ∷ []) (env.clock step) d.refresh_tokens)
              (sym kept)
              (subst
                (λ (k : Credential).
                  NoneActive (k.user_id ∷ []) (env.clock step) w₁.db.refresh_tokens)
                is_c ended),
          _,
          ap (λ (d : Db). lookup_external result.external_id d.credentials) kept
              ∙ ap (lookup_external result.external_id) table
              ∙ lookup_external-save result.external_id m (some now) w.db.credentials r keyed here,
          refl,
        ),
      )

  login_tx_clone-Succeeds :
      (ctx : Context) (input : LoginInput) (result : AuthenticationResult) (now : Time)
      (r : CredentialRow) (w : World)
      → HasDistinctIds w.db.refresh_tokens
      → lookup_external result.external_id w.db.credentials ≡ some r
      → r.revoked_at ≡ none
      → is_suspect result (row_to_credential r) ≡ true
      → Succeeds (login_tx env cfg ctx input result now) w
  unfolding login_tx row_to_credential
  login_tx_clone-Succeeds ctx input result now r w distinct here live suspect =
      >>=-Succeeds _ _ w (find_credential-of_live env calm cfg result.external_id w r here live) (
        settle_clone-Succeeds ctx input result now (row_to_credential r) (tick w) distinct live
          (has_credential-lookup result.external_id w.db.credentials r here) suspect)

  login_tx_clone-eq-ok :
      (ctx : Context) (input : LoginInput) (result : AuthenticationResult) (now : Time)
      (r : CredentialRow) (w : World) {o : Option LoginOutput} {w' : World}
      → HasDistinctIds w.db.refresh_tokens
      → HasDistinctCredentials w.db.credentials
      → lookup_external result.external_id w.db.credentials ≡ some r
      → r.revoked_at ≡ none
      → is_suspect result (row_to_credential r) ≡ true
      → login_tx env cfg ctx input result now w ≡ (ok o, w')
      → (o ≡ none) × Revokes result.external_id r.user_id now w'.db
  unfolding login_tx
  login_tx_clone-eq-ok ctx input result now r w {o} {w'} distinct keyed here live suspect h =
      settle_clone-eq-ok ctx input result now r (tick w) {o = o} {w' = w'} distinct keyed here
        suspect
        (sym (
            >>=-of_ok _ _ w (find_credential-of_live env calm cfg result.external_id w r here live))
          ∙ h)

  -- Where no statement fails: when the authenticator's answer is by a stored, unrevoked credential
  -- and warns of a clone or has a counter that went back, the login returns the clone error, and
  -- afterwards the credential is revoked as of the start of the login, and its user has no active
  -- session at the moment of the revocation. Ids are distinct in both tables.
  pub clone_stays_revoked :
      (a : Authenticator) (ctx : Context) (input : LoginInput) (w w₁ : World)
      (result : AuthenticationResult) (r : CredentialRow)
      → HasDistinctIds w.db.refresh_tokens
      → HasDistinctCredentials w.db.credentials
      → a.finish ctx input.challenge_token input.authentication_response (tick w) ≡ (ok result, w₁)
      → w₁.db ≡ w.db
      → lookup_external result.external_id w.db.credentials ≡ some r
      → r.revoked_at ≡ none
      → is_suspect result (row_to_credential r) ≡ true
      → (w' : World) × (execute env cfg a ctx input w
          ≡ (err (sentinel credential_clone_suspected), w'))
        × Revokes result.external_id r.user_id (env.clock w.step) w'.db
  unfolding execute time_now
  clone_stays_revoked a ctx input w w₁ result r distinct keyed answered kept here live suspect =
      let now : Time = env.clock w.step in
      let at_start : (v : World) → v.db ≡ w.db → HasDistinctIds v.db.refresh_tokens =
        λ v same. subst (λ (d : Db). HasDistinctIds d.refresh_tokens) (sym same) distinct in
      let found : (v : World)
          → v.db ≡ w.db
          → lookup_external result.external_id v.db.credentials ≡ some r =
        λ v same. ap (λ (d : Db). lookup_external result.external_id d.credentials) same ∙ here in
      let (o, w₂, tx) =
        run_in_transaction-Succeeds env calm ctx (λ c. login_tx env cfg c input result now) w₁
          (λ c v same.
            login_tx_clone-Succeeds c input result now r v (at_start v (same ∙ kept))
              (found v (same ∙ kept)) live suspect) in
      let (tx_ctx, w₃, w₄, _, begun, body, ended) = run_in_transaction-eq-ok _ env ctx _ w₁ tx in
      let start : w₃.db ≡ w.db = begun ∙ kept in
      let (is_none, revokes) =
        login_tx_clone-eq-ok tx_ctx input result now r w₃ (at_start w₃ start)
          (subst (λ (d : Db). HasDistinctCredentials d.credentials) (sym start) keyed)
          (found w₃ start) live suspect body in
      (
        w₂,
        >>=-of_ok _ _ w refl
            ∙ >>=-of_ok _ _ (tick w) answered
            ∙ >>=-of_ok _ _ w₁ tx
            ∙ ap (λ k. login_outcome env cfg k w₂) is_none,
        subst (Revokes result.external_id r.user_id now) (sym ended) revokes,
      )
