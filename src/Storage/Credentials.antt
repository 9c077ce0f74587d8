-- ===== src/Storage/Credentials.antt =====
-- internal/infrastructure/storage/credential_repository.go
pub mod Laws
pub mod Lookup
use hsa.Prelude.{List, map, Bytes}
use hsa.Domain.User.{Uuid}
use hsa.Domain.Credential.{Credential}
use hsa.Storage.Rows.{CredentialRow}
use hsa.Storage.Queries.{
  find_credential_by_external_id, list_credentials_by_user_id, save_credential,
}
use hsa.Storage.Users.{no_rows_to_not_found}
use hsa.Runtime.{Env, M, pure, ◌>>=◌, map_err, statement}

unfoldable pub row_to_credential : CredentialRow → Credential
row_to_credential row = record {
  id = row.id;
  external_id = row.external_id;
  user_id = row.user_id;
  public_key = row.public_key;
  sign_count = row.sign_count;
  transports = row.transports;
  created_at = row.created_at;
  revoked_at = row.revoked_at;
}

unfoldable pub credential_to_row : Credential → CredentialRow
credential_to_row c = record {
  id = c.id;
  external_id = c.external_id;
  user_id = c.user_id;
  public_key = c.public_key;
  sign_count = c.sign_count;
  transports = c.transports;
  created_at = c.created_at;
  revoked_at = c.revoked_at;
}

module _ (env : Env) where
  unfoldable pub find_by_external_id : Bytes → M Credential
  find_by_external_id x = do
    row ← map_err no_rows_to_not_found (statement env (find_credential_by_external_id x))
    pure (row_to_credential row)

  unfoldable pub find_by_user_id : Uuid → M (List Credential)
  find_by_user_id user_id = do
    rows ← statement env (list_credentials_by_user_id user_id)
    pure (map row_to_credential rows)

  unfoldable pub save : Credential → M (Unit {0})
  save c = statement env (save_credential (credential_to_row c))
