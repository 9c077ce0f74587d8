-- ===== src/Storage/Invites.antt =====
-- internal/infrastructure/storage/invite_repository.go
pub mod Laws
use hsa.Prelude.{ℕ, String}
use hsa.Domain.User.{Uuid, Time}
use hsa.Domain.Invite.{Invite}
use hsa.Storage.Rows.{InviteRow, null_uuid_to_ptr, ptr_to_null_uuid}
use hsa.Storage.Queries.{
  find_invite_by_code_hash, find_invite_by_id_for_update, save_invite, lock_user_by_id,
  count_active_invites_by_user,
}
use hsa.Storage.Users.{no_rows_to_not_found}
use hsa.Runtime.{Env, M, pure, ◌>>=◌, ◌>>◌, map_err, statement}

unfoldable pub row_to_invite : InviteRow → Invite
unfolding null_uuid_to_ptr
row_to_invite row = record {
  id = row.id;
  created_by = row.created_by;
  code_hash = row.code_hash;
  used_by = null_uuid_to_ptr row.used_by;
  used_at = row.used_at;
  expires_at = row.expires_at;
  created_at = row.created_at;
}

unfoldable pub invite_to_row : Invite → InviteRow
unfolding ptr_to_null_uuid
invite_to_row i = record {
  id = i.id;
  created_by = i.created_by;
  code_hash = i.code_hash;
  used_by = ptr_to_null_uuid i.used_by;
  used_at = i.used_at;
  expires_at = i.expires_at;
  created_at = i.created_at;
}

module _ (env : Env) where
  unfoldable pub find_by_code_hash : String → M Invite
  find_by_code_hash hash = do
    row ← map_err no_rows_to_not_found (statement env (find_invite_by_code_hash hash))
    pure (row_to_invite row)

  unfoldable pub find_by_id : Uuid → M Invite
  find_by_id id = do
    row ← map_err no_rows_to_not_found (statement env (find_invite_by_id_for_update id))
    pure (row_to_invite row)

  unfoldable pub save : Invite → M (Unit {0})
  save i = statement env (save_invite (invite_to_row i))

  unfoldable pub count_active_by_user : Uuid → Time → M ℕ
  count_active_by_user user now = do
    statement env (lock_user_by_id user)
    statement env (count_active_invites_by_user user now)
