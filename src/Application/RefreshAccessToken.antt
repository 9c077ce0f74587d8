-- ===== src/Application/RefreshAccessToken.antt =====
-- internal/application/refresh_access_token.go
pub mod Laws
pub mod Reuse
pub mod Answers
use hsa.Prelude.{not, String, [], ◌∷◌, if◌then◌else◌}
use hsa.Failure.{
  Error, sentinel, errors_is, not_found, refresh_token_not_found, refresh_token_invalid,
  refresh_token_reuse_detected,
}
use hsa.Domain.User.{Time}
use hsa.Domain.Session.{RefreshToken, is_revoked, is_valid}
use hsa.Storage.Transaction.{run_in_transaction}
use hsa.Storage.Sessions
use hsa.Crypto.{generate_hash}
use hsa.Application.SessionIssuer.{SessionConfig, rotate}
use hsa.Application.RevokeAllUserSessions
use hsa.Runtime.{Env, Context, M, pure, raise, lift, ◌>>=◌, ◌>>◌, map_err, time_now}

abbrev pub not_found_to_refresh_token_not_found : Error → Error
not_found_to_refresh_token_not_found e =
    if errors_is e not_found then sentinel refresh_token_not_found else e

module _ (env : Env) (cfg : SessionConfig) where
  -- The checks on the stored token, once it is found.
  unfoldable pub check_refresh_token : Context → Time → RefreshToken → M RefreshToken
  check_refresh_token ctx now old =
      if is_revoked old
      then RevokeAllUserSessions.execute env ctx (old.user_id ∷ [])
        >> raise (sentinel refresh_token_reuse_detected)
      else if not (is_valid old now)
      then raise (sentinel refresh_token_invalid)
      else pure old

  unfoldable pub validate_refresh_token : Context → String → Time → M RefreshToken
  validate_refresh_token ctx raw now = do
    hash ← lift (generate_hash env raw)
    old ← map_err not_found_to_refresh_token_not_found (Sessions.find_by_token_hash env hash)
    check_refresh_token ctx now old

  -- `Execute`: the new access token and the new raw refresh token.
  unfoldable pub execute : Context → String → M (String × String)
  execute ctx raw = run_in_transaction env ctx (λ tx_ctx. do
    now ← time_now env
    old ← validate_refresh_token tx_ctx raw now
    rotate env cfg tx_ctx old now)
