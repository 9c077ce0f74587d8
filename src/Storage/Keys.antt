-- ===== src/Storage/Keys.antt =====
-- internal/infrastructure/storage/wrapped_key_repository.go
pub mod Laws
use hsa.Prelude.{String, str_eq, List, [], ◌∷◌, map, ◌==◌, if◌then◌else◌}
use hsa.Failure.{Result, ok, fails, not_found}
use hsa.Domain.User.{Uuid}
use hsa.Domain.Key.{Scope, scope_main, scope_decoy, WrappedKey}
use hsa.Storage.Rows.{WrappedKeyRow}
use hsa.Storage.Queries.{save_wrapped_keys, list_wrapped_keys_by_credential_id}
use hsa.Storage.Users.{no_rows_to_not_found}
use hsa.Runtime.{Env, M, lift, ◌>>=◌, map_err, statement}

unfoldable pub scope_to_pg : Scope → String
scope_to_pg s = if s == scope_main then "main" else "decoy"

unfoldable pub scope_from_pg : String → Scope
scope_from_pg s = if str_eq s "main" then scope_main else scope_decoy

unfoldable pub wrapped_key_to_row : WrappedKey → WrappedKeyRow
unfolding scope_to_pg
wrapped_key_to_row k = record {
  id = k.id;
  user_id = k.user_id;
  credential_id = k.credential_id;
  scope = scope_to_pg k.scope;
  wrapped_dek = k.wrapped_dek;
  wrap_algorithm = k.wrap_algorithm;
  created_at = k.created_at;
}

unfoldable pub row_to_wrapped_key : WrappedKeyRow → WrappedKey
unfolding scope_from_pg
row_to_wrapped_key row = record {
  id = row.id;
  user_id = row.user_id;
  credential_id = row.credential_id;
  scope = scope_from_pg row.scope;
  wrapped_dek = row.wrapped_dek;
  wrap_algorithm = row.wrap_algorithm;
  created_at = row.created_at;
}

-- No row is an error, as it is for the finders of one row.
unfoldable pub rows_to_wrapped_keys : List WrappedKeyRow → Result (List WrappedKey)
unfolding row_to_wrapped_key
rows_to_wrapped_keys [] = fails not_found
rows_to_wrapped_keys (r ∷ rs) = ok (map row_to_wrapped_key (r ∷ rs))

module _ (env : Env) where
  unfoldable pub save : List WrappedKey → M (Unit {0})
  save keys = statement env (save_wrapped_keys (map wrapped_key_to_row keys))

  unfoldable pub find_by_credential_id : Uuid → M (List WrappedKey)
  find_by_credential_id id = do
    rows ← map_err no_rows_to_not_found (statement env (list_wrapped_keys_by_credential_id id))
    lift (rows_to_wrapped_keys rows)
