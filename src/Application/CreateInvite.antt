-- ===== src/Application/CreateInvite.antt =====
-- internal/application/create_invite.go
pub mod Laws
use hsa.Prelude.{ℕ, String}
use hsa.Domain.User.{Uuid, Time}
use hsa.Domain.Invite
use hsa.Domain.Invite.{Policy, can_issue}
use hsa.Storage.Transaction.{run_in_transaction}
use hsa.Storage.Invites
use hsa.Crypto.{generate_token}
use hsa.Runtime.{Env, Context, M, pure, lift, ◌>>=◌, ◌>>◌, time_now, new_id}

abbrev pub invite_code_length : ℕ
invite_code_length = 32

module _ (env : Env) (policy : Policy) (ttl : ℕ) where
  unfoldable pub create_tx : Uuid → Time → M (String × Time)
  create_tx created_by now = do
    active ← Invites.count_active_by_user env created_by now
    lift (can_issue policy active)
    (raw_code, hash) ← generate_token env invite_code_length
    id ← new_id env
    inv ← lift (Invite.new id created_by hash ttl now)
    Invites.save env inv
    pure (raw_code, inv.expires_at)

  -- `Execute`: the raw code and when it expires.
  unfoldable pub execute : Context → (created_by : Uuid) → M (String × Time)
  execute ctx created_by = do
    now ← time_now env
    run_in_transaction env ctx (λ tx_ctx. create_tx created_by now)
