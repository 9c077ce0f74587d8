-- ===== src/Application/SessionIssuer.antt =====
-- internal/application/session_issuer.go: issuing and rotating the pair of tokens.
pub mod Laws
pub mod Steps
use hsa.Prelude.{ℕ, String, [], ◌∷◌}
use hsa.Domain.User.{Uuid, Time}
use hsa.Domain.Session
use hsa.Domain.Session.{Addr, RefreshToken}
use hsa.Storage.Transaction.{run_in_transaction}
use hsa.Storage.Users
use hsa.Storage.Sessions
use hsa.Crypto.{generate_token, issue_access_token}
use hsa.Runtime.{Env, Context, M, pure, lift, ◌>>=◌, ◌>>◌, new_id}

-- The lifetimes of the session configuration.
pub record SessionConfig : Type 0 where
  pub refresh_ttl : ℕ
  pub access_ttl : ℕ

abbrev pub refresh_token_length : ℕ
refresh_token_length = 32

module _ (env : Env) (cfg : SessionConfig) where
  unfoldable pub issue_access : Uuid → M String
  issue_access user_id = do
    u ← Users.find_by_id env user_id
    issue_access_token env user_id u.role cfg.access_ttl

  -- `SessionIssuer.Issue`: the access token and the raw refresh token.
  unfoldable pub issue : Context → Uuid → String → Addr → Time → M (String × String)
  issue ctx user_id device_info ip_address now = do
    (raw_refresh, refresh_hash) ← generate_token env refresh_token_length
    session_id ← new_id env
    rt ←
        lift
          (Session.new session_id user_id refresh_hash device_info ip_address cfg.refresh_ttl now)
    access ←
        run_in_transaction env ctx (λ tx_ctx. Sessions.save env (rt ∷ []) >> issue_access user_id)
    pure (access, raw_refresh)

  -- `SessionIssuer.Rotate`: the old token is revoked and saved with its successor.
  unfoldable pub rotate : Context → RefreshToken → Time → M (String × String)
  rotate ctx old now = do
    (raw_refresh, refresh_hash) ← generate_token env refresh_token_length
    generated_id ← new_id env
    new_rt ← lift (Session.rotate generated_id refresh_hash now old)
    revoked ← lift (Session.revoke now old)
    access ← run_in_transaction env ctx (λ tx_ctx. do
      access ← issue_access old.user_id
      Sessions.save env (revoked ∷ new_rt ∷ [])
      pure access)
    pure (access, raw_refresh)
