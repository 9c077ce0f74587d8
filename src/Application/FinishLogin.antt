-- ===== src/Application/FinishLogin.antt =====
-- internal/application/finish_login.go. The variable `cloneDetected`, which the closure of the
-- transaction sets, is the `none` that the transaction returns.
pub mod Reads
pub mod Laws
pub mod Handling
pub mod Clone
use hsa.Prelude.{
  String, Option, none, some, Bool, true, false, List, [], ◌∷◌, map, Bytes, ◌||◌, if◌then◌else◌,
}
use hsa.Failure.{
  Error, sentinel, Result, ok, err, panic, errors_is, not_found, credential_not_found,
  credential_revoked, credential_clone_suspected, sign_count_regression,
}
use hsa.Domain.User.{Uuid, Time}
use hsa.Domain.Session.{Addr}
use hsa.Domain.Credential
use hsa.Domain.Credential.{Credential, is_revoked, set_sign_count}
use hsa.Domain.Key.{Scope, WrappedKey}
use hsa.Storage.Transaction.{run_in_transaction}
use hsa.Storage.Credentials
use hsa.Storage.Keys
use hsa.Application.Auth.{AuthenticationResult, Authenticator}
use hsa.Application.SessionIssuer.{SessionConfig, issue}
use hsa.Application.RevokeAllUserSessions
use hsa.Runtime.{Env, Context, M, pure, raise, lift, ◌>>=◌, ◌>>◌, map_err, time_now}

pub record LoginInput : Type 0 where
  pub challenge_token : String
  pub authentication_response : Bytes
  pub device_info : String
  pub ip_address : Addr

pub record WrappedKeyOutput : Type 0 where
  pub scope : Scope
  pub wrapped_dek : Bytes
  pub wrap_algorithm : String

abbrev pub wrapped_key_to_output : WrappedKey → WrappedKeyOutput
wrapped_key_to_output k = record {
  scope = k.scope;
  wrapped_dek = k.wrapped_dek;
  wrap_algorithm = k.wrap_algorithm;
}

pub record LoginOutput : Type 0 where
  pub access_token : String
  pub refresh_token : String
  pub wrapped_keys : List WrappedKeyOutput

abbrev pub not_found_to_credential_not_found : Error → Error
not_found_to_credential_not_found e =
    if errors_is e not_found then sentinel credential_not_found else e

-- `errors.Is(signErr, credential.ErrSignCountRegression)`
abbrev pub is_regression : Result Credential → Bool
is_regression (ok c) = false
is_regression (err e) = errors_is e sign_count_regression
is_regression (panic p) = false

-- The credential after `SetSignCount`, which leaves it alone where it returns an error.
abbrev pub counted : Credential → Result Credential → Credential
counted cred (ok c) = c
counted cred (err e) = cred
counted cred (panic p) = cred

module _ (env : Env) (cfg : SessionConfig) where
  unfoldable pub check_credential : Credential → M Credential
  check_credential cred = if is_revoked cred then raise (sentinel credential_revoked) else pure cred

  unfoldable pub find_credential : Bytes → M Credential
  find_credential external_id = do
    cred ←
        map_err not_found_to_credential_not_found (Credentials.find_by_external_id env external_id)
    check_credential cred

  unfoldable pub handle_clone : Context → Credential → Time → M (Unit {0})
  handle_clone ctx cred now = do
    revoked ← lift (Credential.revoke now cred)
    Credentials.save env revoked
    RevokeAllUserSessions.execute env ctx (revoked.user_id ∷ [])

  -- The rest of the transaction, where no clone is suspected.
  unfoldable pub open_session :
      Context → LoginInput → Result Credential → Time → M (Option LoginOutput)
  open_session ctx input signed now = do
    cred ← lift signed
    Credentials.save env cred
    keys ← Keys.find_by_credential_id env cred.id
    (access, refresh) ← issue env cfg ctx cred.user_id input.device_info input.ip_address now
    pure (
        some (record {
          access_token = access;
          refresh_token = refresh;
          wrapped_keys = map wrapped_key_to_output keys;
        }))

  -- What the transaction does with the credential that it found.
  unfoldable pub settle :
      Context → LoginInput → AuthenticationResult → Time → Credential → M (Option LoginOutput)
  settle ctx input result now cred =
      let signed = set_sign_count result.new_sign_count cred in
      if result.clone_warning || is_regression signed
      then handle_clone ctx (counted cred signed) now >> pure none
      else open_session ctx input signed now

  unfoldable pub login_tx :
      Context → LoginInput → AuthenticationResult → Time → M (Option LoginOutput)
  login_tx ctx input result now = do
    cred ← find_credential result.external_id
    settle ctx input result now cred

  abbrev pub login_outcome : Option LoginOutput → M LoginOutput
  login_outcome none = raise (sentinel credential_clone_suspected)
  login_outcome (some out) = pure out

  unfoldable pub execute : Authenticator → Context → LoginInput → M LoginOutput
  execute authenticator ctx input = do
    now ← time_now env
    result ← authenticator.finish ctx input.challenge_token input.authentication_response
    outcome ← run_in_transaction env ctx (λ tx_ctx. login_tx tx_ctx input result now)
    login_outcome outcome
