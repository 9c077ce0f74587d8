-- ===== src/Storage/Rows.antt =====
-- The row types of internal/infrastructure/storage/pg/models.go, and the tables of schema.sql as
-- lists of rows in the order of insertion. A `TIMESTAMPTZ` column keeps whole microseconds; times
-- are taken to be such, so that a stored time is read back as it was.
use hsa.Prelude.{ℕ, String, Option, none, some, Bool, true, false, List, Bytes}
use hsa.Domain.User.{Uuid, Time, nil_uuid}
use hsa.Domain.Session.{Addr}

-- `uuid.NullUUID`
pub record NullUuid : Type 0 where
  pub uuid : Uuid
  pub valid : Bool

unfoldable pub null_uuid_to_ptr : NullUuid → Option Uuid
null_uuid_to_ptr n = elim (n.valid) [ true ↦ some n.uuid | false ↦ none ]

unfoldable pub ptr_to_null_uuid : Option Uuid → NullUuid
ptr_to_null_uuid none = record { uuid = nil_uuid; valid = false }
ptr_to_null_uuid (some id) = record { uuid = id; valid = true }

pub record UserRow : Type 0 where
  pub id : Uuid
  pub role : String
  pub invited_by : NullUuid
  pub created_at : Time

pub record CredentialRow : Type 0 where
  pub id : Uuid
  pub external_id : Bytes
  pub user_id : Uuid
  pub public_key : Bytes
  pub sign_count : ℕ
  pub transports : List String
  pub created_at : Time
  pub revoked_at : Option Time

pub record InviteRow : Type 0 where
  pub id : Uuid
  pub created_by : Uuid
  pub code_hash : String
  pub used_by : NullUuid
  pub used_at : Option Time
  pub expires_at : Time
  pub created_at : Time

pub record RefreshTokenRow : Type 0 where
  pub id : Uuid
  pub user_id : Uuid
  pub token_hash : String
  pub device_info : String
  pub ip_address : Addr
  pub expires_at : Time
  pub revoked_at : Option Time
  pub created_at : Time

pub record WrappedKeyRow : Type 0 where
  pub id : Uuid
  pub user_id : Uuid
  pub credential_id : Uuid
  pub scope : String
  pub wrapped_dek : Bytes
  pub wrap_algorithm : String
  pub created_at : Time

pub record Db : Type 0 where
  pub users : List UserRow
  pub credentials : List CredentialRow
  pub invites : List InviteRow
  pub refresh_tokens : List RefreshTokenRow
  pub wrapped_keys : List WrappedKeyRow
