-- ===== src/Storage/Sessions.antt =====
-- internal/infrastructure/storage/session_repository.go
pub mod Laws
pub mod Status
pub mod Reads
pub mod Lookup
use hsa.Prelude.{String, List, map}
use hsa.Domain.User.{Uuid, Time}
use hsa.Domain.Session.{RefreshToken}
use hsa.Storage.Rows.{RefreshTokenRow}
use hsa.Storage.Queries.{
  find_refresh_token_by_token_hash, find_refresh_token_by_id_for_update,
  list_active_refresh_tokens_by_user_ids, save_refresh_tokens,
}
use hsa.Storage.Users.{no_rows_to_not_found}
use hsa.Runtime.{Env, M, pure, ◌>>=◌, map_err, statement}

unfoldable pub row_to_session : RefreshTokenRow → RefreshToken
row_to_session row = record {
  id = row.id;
  user_id = row.user_id;
  token_hash = row.token_hash;
  device_info = row.device_info;
  ip_address = row.ip_address;
  expires_at = row.expires_at;
  revoked_at = row.revoked_at;
  created_at = row.created_at;
}

-- The parameters of one statement of the batch.
unfoldable pub session_to_row : RefreshToken → RefreshTokenRow
session_to_row t = record {
  id = t.id;
  user_id = t.user_id;
  token_hash = t.token_hash;
  device_info = t.device_info;
  ip_address = t.ip_address;
  expires_at = t.expires_at;
  revoked_at = t.revoked_at;
  created_at = t.created_at;
}

module _ (env : Env) where
  unfoldable pub find_by_token_hash : String → M RefreshToken
  find_by_token_hash hash = do
    row ← map_err no_rows_to_not_found (statement env (find_refresh_token_by_token_hash hash))
    pure (row_to_session row)

  unfoldable pub find_by_id : Uuid → M RefreshToken
  find_by_id id = do
    row ← map_err no_rows_to_not_found (statement env (find_refresh_token_by_id_for_update id))
    pure (row_to_session row)

  unfoldable pub find_active_by_user_ids : List Uuid → Time → M (List RefreshToken)
  find_active_by_user_ids users now = do
    rows ← statement env (list_active_refresh_tokens_by_user_ids users now)
    pure (map row_to_session rows)

  unfoldable pub save : List RefreshToken → M (Unit {0})
  save tokens = statement env (save_refresh_tokens (map session_to_row tokens))
