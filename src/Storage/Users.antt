-- ===== src/Storage/Users.antt =====
-- internal/infrastructure/storage/user_repository.go
pub mod Laws
use hsa.Prelude.{if◌then◌else◌}
use hsa.Failure.{Error, sentinel, Result, ok, err, panic, errors_is, not_found, no_rows}
use hsa.Domain.User.{User, Uuid, role_string, role_from_string}
use hsa.Storage.Rows.{UserRow, null_uuid_to_ptr, ptr_to_null_uuid}
use hsa.Storage.Queries.{find_user_by_id, find_root_user, save_user}
use hsa.Runtime.{Env, M, lift, ◌>>=◌, map_err, statement}

-- `errors.Is(err, pgx.ErrNoRows)` in every finder.
abbrev pub no_rows_to_not_found : Error → Error
no_rows_to_not_found e = if errors_is e no_rows then sentinel not_found else e

unfoldable pub user_to_row : User → UserRow
unfolding ptr_to_null_uuid
user_to_row u = record {
  id = u.id;
  role = role_string u.role;
  invited_by = ptr_to_null_uuid u.invited_by;
  created_at = u.created_at;
}

unfoldable pub row_to_user : UserRow → Result User
unfolding role_from_string null_uuid_to_ptr
row_to_user row = elim (role_from_string row.role) [
  | ok role ↦ ok (record {
    id = row.id;
    role = role;
    invited_by = null_uuid_to_ptr row.invited_by;
    created_at = row.created_at;
  })
  | err e ↦ err e
  | panic p ↦ panic p
]

module _ (env : Env) where
  unfoldable pub save : User → M (Unit {0})
  save u = statement env (save_user (user_to_row u))

  unfoldable pub find_by_id : Uuid → M User
  find_by_id id = do
    row ← map_err no_rows_to_not_found (statement env (find_user_by_id id))
    lift (row_to_user row)

  unfoldable pub find_root : M User
  find_root = do
    row ← map_err no_rows_to_not_found (statement env find_root_user)
    lift (row_to_user row)
