-- ===== src/Storage/Queries.antt =====
-- The statements of internal/infrastructure/storage/pg (query.sql.go, batch.go, copyfrom.go), as
-- functions on the tables. A statement that breaks a primary key, a unique index or a foreign key
-- of schema.sql fails as a whole; no constraint there is deferrable, so each is checked when the
-- statement ends. `FOR UPDATE` and the advisory lock order concurrent transactions and change no row.
pub mod Laws
use hsa.Prelude.{
  ℕ, String, str_eq, Option, none, some, Bool, true, false, List, [], ◌∷◌, ◌++◌, Bytes, bytes_eq,
  length, find_first, exists, select, upsert, ltb, not, ◌==◌, ◌&&◌, ◌||◌, if◌then◌else◌,
}
use hsa.Failure.{Error, opaque, Result, ok, err, fails, no_rows}
use hsa.Domain.User.{Uuid, Time}
use hsa.Storage.Rows.{
  UserRow, CredentialRow, InviteRow, RefreshTokenRow, WrappedKeyRow, NullUuid, Db,
}

-- The errors of the server, by their SQLSTATE.
abbrev pub unique_violation : Error
unique_violation = opaque 23505

abbrev pub foreign_key_violation : Error
foreign_key_violation = opaque 23503

abbrev pub Query : Type 0 → Type 0
Query A = Db → Result (A × Db)

-- `:one`, of the first row that matches.
abbrev pub one_row : {A : Type 0} → Option A → Query A
one_row none d = fails no_rows
one_row (some r) d = ok (r, d)

abbrev pub user_exists : Db → Uuid → Bool
user_exists d id = exists (λ u. u.id == id) d.users

-- A nullable foreign key to `users`.
abbrev pub null_user_exists : Db → NullUuid → Bool
null_user_exists d n = not n.valid || user_exists d n.uuid

unfoldable pub find_user_by_id : Uuid → Query UserRow
find_user_by_id id d = one_row (find_first (λ u. u.id == id) d.users) d

unfoldable pub find_root_user : Query UserRow
find_root_user d = one_row (find_first (λ u. not u.invited_by.valid) d.users) d

-- `idx_users_single_root` allows one row whose `invited_by` is null.
unfoldable pub save_user : UserRow → Query (Unit {0})
save_user u d =
    if user_exists d u.id
    then err unique_violation
    else if not u.invited_by.valid && exists (λ r. not r.invited_by.valid) d.users
    then err unique_violation
    else if not (null_user_exists d u.invited_by || u.invited_by.uuid == u.id)
    then err foreign_key_violation
    else ok (tt, record d { users = d.users ++ u ∷ [] })

unfoldable pub find_credential_by_external_id : Bytes → Query CredentialRow
find_credential_by_external_id x d =
    one_row (find_first (λ c. bytes_eq c.external_id x) d.credentials) d

-- `ORDER BY created_at`: rows of one time stay in the order of the table.
unfoldable pub insert_by_created : CredentialRow → List CredentialRow → List CredentialRow
insert_by_created c [] = c ∷ []
insert_by_created c (r ∷ rows) =
    if ltb r.created_at c.created_at then r ∷ insert_by_created c rows else c ∷ r ∷ rows

unfoldable pub order_by_created : List CredentialRow → List CredentialRow
order_by_created [] = []
order_by_created (c ∷ rows) = insert_by_created c (order_by_created rows)

unfoldable pub list_credentials_by_user_id : Uuid → Query (List CredentialRow)
list_credentials_by_user_id id d =
    ok (order_by_created (select (λ c. c.user_id == id) d.credentials), d)

abbrev pub merge_credential : CredentialRow → CredentialRow → CredentialRow
merge_credential p c = record c { sign_count = p.sign_count; revoked_at = p.revoked_at }

unfoldable pub save_credential : CredentialRow → Query (Unit {0})
save_credential p d =
    let old = exists (λ c. c.id == p.id) d.credentials in
    if not old && exists (λ c. bytes_eq c.external_id p.external_id) d.credentials
    then err unique_violation
    else if not old && not (user_exists d p.user_id)
    then err foreign_key_violation
    else ok (
      tt,
      record d { credentials = upsert (λ c. c.id == p.id) (merge_credential p) p d.credentials },
    )

unfoldable pub find_invite_by_code_hash : String → Query InviteRow
find_invite_by_code_hash h d = one_row (find_first (λ i. str_eq i.code_hash h) d.invites) d

unfoldable pub find_invite_by_id_for_update : Uuid → Query InviteRow
find_invite_by_id_for_update id d = one_row (find_first (λ i. i.id == id) d.invites) d

abbrev pub is_null : {A : Type 0} → Option A → Bool
is_null none = true
is_null (some _) = false

-- The `WHERE` of `CountActiveInvitesByUser`.
abbrev pub invite_is_active : Uuid → Time → InviteRow → Bool
invite_is_active user now i = i.created_by == user && (is_null i.used_at && ltb now i.expires_at)

unfoldable pub count_active_invites_by_user : Uuid → Time → Query ℕ
count_active_invites_by_user user now d =
    ok (length (select (invite_is_active user now) d.invites), d)

abbrev pub merge_invite : InviteRow → InviteRow → InviteRow
merge_invite p i = record i { used_by = p.used_by; used_at = p.used_at }

unfoldable pub save_invite : InviteRow → Query (Unit {0})
save_invite p d =
    let old = exists (λ i. i.id == p.id) d.invites in
    if not old && exists (λ i. str_eq i.code_hash p.code_hash) d.invites
    then err unique_violation
    else if not old && not (user_exists d p.created_by)
    then err foreign_key_violation
    else if not (null_user_exists d p.used_by)
    then err foreign_key_violation
    else ok (tt, record d { invites = upsert (λ i. i.id == p.id) (merge_invite p) p d.invites })

unfoldable pub find_refresh_token_by_token_hash : String → Query RefreshTokenRow
find_refresh_token_by_token_hash h d =
    one_row (find_first (λ t. str_eq t.token_hash h) d.refresh_tokens) d

unfoldable pub find_refresh_token_by_id_for_update : Uuid → Query RefreshTokenRow
find_refresh_token_by_id_for_update id d = one_row (find_first (λ t. t.id == id) d.refresh_tokens) d

-- The `WHERE` of `ListActiveRefreshTokensByUserIDs`.
abbrev pub token_is_active : List Uuid → Time → RefreshTokenRow → Bool
token_is_active users now t =
    exists (λ u. u == t.user_id) users && (is_null t.revoked_at && ltb now t.expires_at)

unfoldable pub list_active_refresh_tokens_by_user_ids :
    List Uuid → Time → Query (List RefreshTokenRow)
list_active_refresh_tokens_by_user_ids users now d =
    ok (select (token_is_active users now) d.refresh_tokens, d)

abbrev pub merge_refresh_token : RefreshTokenRow → RefreshTokenRow → RefreshTokenRow
merge_refresh_token p t = record t { revoked_at = p.revoked_at }

-- One statement of the batch `SaveRefreshTokens`.
unfoldable pub save_refresh_token : RefreshTokenRow → Query (Unit {0})
save_refresh_token p d =
    let old = exists (λ t. t.id == p.id) d.refresh_tokens in
    if not old && exists (λ t. str_eq t.token_hash p.token_hash) d.refresh_tokens
    then err unique_violation
    else if not old && not (user_exists d p.user_id)
    then err foreign_key_violation
    else ok (
      tt,
      record d {
        refresh_tokens = upsert (λ t. t.id == p.id) (merge_refresh_token p) p d.refresh_tokens;
      },
    )

abbrev pub then_query : {A : Type 0} → Result (Unit {0} × Db) → Query A → Result (A × Db)
then_query (ok (_, d)) q = q d
then_query (err e) q = err e
then_query (Result.panic p) q = Result.panic p

-- The batch stops at the first statement that fails, and nothing of it stays.
unfoldable pub save_refresh_tokens : List RefreshTokenRow → Query (Unit {0})
save_refresh_tokens [] d = ok (tt, d)
save_refresh_tokens (p ∷ ps) d = then_query (save_refresh_token p d) (save_refresh_tokens ps)

unfoldable pub list_wrapped_keys_by_credential_id : Uuid → Query (List WrappedKeyRow)
list_wrapped_keys_by_credential_id id d = ok (select (λ k. k.credential_id == id) d.wrapped_keys, d)

-- One row of `COPY wrapped_keys FROM`, under `idx_wrapped_keys_credential_scope` too.
unfoldable pub copy_wrapped_key : WrappedKeyRow → Query (Unit {0})
copy_wrapped_key p d =
    if exists (λ k. k.id == p.id) d.wrapped_keys
    then err unique_violation
    else if exists (λ k. k.credential_id == p.credential_id && str_eq k.scope p.scope)
        d.wrapped_keys
    then err unique_violation
    else if not (user_exists d p.user_id && exists (λ c. c.id == p.credential_id) d.credentials)
    then err foreign_key_violation
    else ok (tt, record d { wrapped_keys = d.wrapped_keys ++ p ∷ [] })

unfoldable pub save_wrapped_keys : List WrappedKeyRow → Query (Unit {0})
save_wrapped_keys [] d = ok (tt, d)
save_wrapped_keys (p ∷ ps) d = then_query (copy_wrapped_key p d) (save_wrapped_keys ps)

-- `pg_advisory_xact_lock` of the user's id.
unfoldable pub lock_user_by_id : Uuid → Query (Unit {0})
lock_user_by_id id d = ok (tt, d)
