-- ===== src/Application/RefreshAccessToken/Answers.antt =====
-- What the refresh of a revoked token reports where no statement fails.
use hsa.Prelude.{
  String, str_eq, some, true, false, [], ◌∷◌, find_first, ◌≡◌, refl, ap, ◌∙◌, if_true,
}
use hsa.Failure.{sentinel, ok, err, refresh_token_reuse_detected}
use hsa.Domain.User.{Time}
use hsa.Domain.Session.{RefreshToken, is_revoked}
use hsa.Storage.Rows.{RefreshTokenRow}
use hsa.Storage.Queries.{one_row, find_refresh_token_by_token_hash}
use hsa.Storage.Sessions
use hsa.Storage.Sessions.{row_to_session}
use hsa.Storage.Sessions.Laws.{HasDistinctIds}
use hsa.Storage.Transaction.Forward.{run_in_transaction-of_err}
use hsa.Application.SessionIssuer.{SessionConfig}
use hsa.Application.RevokeAllUserSessions.Success.{revoke_all-Succeeds}
use hsa.Application.RefreshAccessToken.{
  not_found_to_refresh_token_not_found, check_refresh_token, validate_refresh_token, execute,
}
use hsa.Application.RefreshAccessToken.Laws.{IsStored}
use hsa.Runtime.{Env, World, Context, M, map_err, tick, time_now}
use hsa.Runtime.Forward.{NoFaults, >>=-of_ok, >>=-of_err, map_err-of_ok, statement-of_ok}

module _ (env : Env) (calm : NoFaults env) (cfg : SessionConfig) where
  find_by_token_hash-of_stored :
      (hash : String) (w : World) (r : RefreshTokenRow)
      → find_first (λ t. str_eq t.token_hash hash) w.db.refresh_tokens ≡ some r
      → map_err not_found_to_refresh_token_not_found (Sessions.find_by_token_hash env hash) w
        ≡ (ok (row_to_session r), tick w)
  unfolding Sessions.find_by_token_hash find_refresh_token_by_token_hash
  find_by_token_hash-of_stored hash w r here = map_err-of_ok _ _ w (
      >>=-of_ok _ _ w
        (map_err-of_ok _ _ w (statement-of_ok env _ w calm (ap (λ o. one_row o w.db) here))))

  check-of_revoked :
      (ctx : Context) (now : Time) (old : RefreshToken) (w : World)
      → HasDistinctIds w.db.refresh_tokens
      → is_revoked old ≡ true
      → (w₁ : World) × (check_refresh_token env cfg ctx now old w
          ≡ (err (sentinel refresh_token_reuse_detected), w₁))
  unfolding check_refresh_token
  check-of_revoked ctx now old w distinct revoked =
      let (unit, w₁, done) = revoke_all-Succeeds env calm ctx (old.user_id ∷ []) w distinct in
      (w₁, ap (λ (m : M RefreshToken). m w) (if_true _ _ _ revoked) ∙ >>=-of_ok _ _ w done)

  validate-of_revoked :
      (ctx : Context) (raw : String) (now : Time) (w : World) (r : RefreshTokenRow)
      → HasDistinctIds w.db.refresh_tokens
      → IsStored env raw w.db r
      → is_revoked (row_to_session r) ≡ true
      → (w₁ : World) × (validate_refresh_token env cfg ctx raw now w
          ≡ (err (sentinel refresh_token_reuse_detected), w₁))
  unfolding validate_refresh_token
  validate-of_revoked ctx raw now w r distinct (hash, made, here) revoked =
      let (w₁, done) = check-of_revoked ctx now (row_to_session r) (tick w) distinct revoked in
      (
        w₁,
        >>=-of_ok _ _ w (ap (λ h. (h, w)) made)
            ∙ >>=-of_ok _ _ w (find_by_token_hash-of_stored hash w r here)
            ∙ done,
      )

  -- An outermost refresh with a token that is stored as revoked reports the reuse, and leaves the
  -- database as it was. Session ids are distinct, and no statement fails.
  pub reuse_is_reported :
      (ctx : Context) (raw : String) (w : World) (r : RefreshTokenRow)
      → ctx.in_tx ≡ false
      → HasDistinctIds w.db.refresh_tokens
      → IsStored env raw w.db r
      → is_revoked (row_to_session r) ≡ true
      → (w' : World) × (execute env cfg ctx raw w
          ≡ (err (sentinel refresh_token_reuse_detected), w'))
        × (w'.db ≡ w.db)
  unfolding execute time_now
  reuse_is_reported ctx raw w r outer distinct known revoked =
      let (w₁, done) =
        validate-of_revoked _ raw (env.clock (tick w).step) (tick (tick w)) r distinct known
          revoked in
      (
        _,
        run_in_transaction-of_err env calm ctx _ w outer
            (>>=-of_ok _ _ (tick w) refl ∙ >>=-of_err _ _ _ done),
        refl,
      )
