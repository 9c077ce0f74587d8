-- ===== src/Application/RevokeCompromisedChain.antt =====
-- internal/application/revoke_compromised_chain.go
pub mod Laws
use hsa.Domain.User.{Uuid}
use hsa.Storage.Descendants.{descendants}
use hsa.Application.RevokeAllUserSessions
use hsa.Runtime.{Env, Context, M, ◌>>=◌}

module _ (env : Env) where
  unfoldable pub execute : Context → (compromised_user_id : Uuid) → M (Unit {0})
  execute ctx compromised_user_id = do
    user_ids ← descendants env compromised_user_id
    RevokeAllUserSessions.execute env ctx user_ids
