-- ===== src/Application/RevokeSession.antt =====
-- internal/application/revoke_session.go
pub mod Laws
pub mod Answers
use hsa.Prelude.{not, [], ◌∷◌, ◌==◌, if◌then◌else◌}
use hsa.Failure.{
  Error, sentinel, Result, ok, err, panic, errors_is, not_found, session_not_found,
  session_forbidden, token_already_revoked,
}
use hsa.Domain.User.{Uuid, Time}
use hsa.Domain.Session
use hsa.Domain.Session.{RefreshToken}
use hsa.Storage.Transaction.{run_in_transaction}
use hsa.Storage.Sessions
use hsa.Runtime.{Env, Context, M, pure, raise, lift, ◌>>=◌, map_err, time_now}

abbrev pub not_found_to_session_not_found : Error → Error
not_found_to_session_not_found e = if errors_is e not_found then sentinel session_not_found else e

module _ (env : Env) where
  -- What follows `rt.Revoke(now)`: a token that is revoked already is no error.
  unfoldable pub save_revoked : Result RefreshToken → M (Unit {0})
  save_revoked (ok revoked) = Sessions.save env (revoked ∷ [])
  save_revoked (err e) = if errors_is e token_already_revoked then pure tt else raise e
  save_revoked (panic p) = lift (panic p)

  -- What follows the lookup: only the owner may revoke the session.
  unfoldable pub revoke_own : (requesting_user_id : Uuid) → Time → RefreshToken → M (Unit {0})
  revoke_own requesting_user_id now rt =
      if not (rt.user_id == requesting_user_id)
      then raise (sentinel session_forbidden)
      else save_revoked (Session.revoke now rt)

  unfoldable pub execute :
      Context → (session_id : Uuid) → (requesting_user_id : Uuid) → M (Unit {0})
  execute ctx session_id requesting_user_id = do
    now ← time_now env
    run_in_transaction env ctx (λ tx_ctx. do
      rt ← map_err not_found_to_session_not_found (Sessions.find_by_id env session_id)
      revoke_own requesting_user_id now rt)
