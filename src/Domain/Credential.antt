-- ===== src/Domain/Credential.antt =====
-- internal/domain/credential: the WebAuthn credential (credential.go). `signCount` is a uint32;
-- it is only compared and assigned, so no arithmetic can wrap.
pub mod Laws
use hsa.Prelude.{
  ℕ, String, Option, none, some, Bool, true, false, List, Bytes, is_empty, leb, not, ◌==◌, ◌&&◌,
  if◌then◌else◌,
}
use hsa.Failure.{
  Result, ok, fails, wrap_invalid, credential_id_required, external_id_required, user_id_required,
  public_key_required, credential_already_revoked, sign_count_regression,
}
use hsa.Domain.User.{Uuid, Time, nil_uuid}

pub record Credential : Type 0 where
  pub id : Uuid
  pub external_id : Bytes
  pub user_id : Uuid
  pub public_key : Bytes
  pub sign_count : ℕ
  pub transports : List String
  pub created_at : Time
  pub revoked_at : Option Time

unfoldable pub new : Uuid → Bytes → Uuid → Bytes → List String → Time → Result Credential
new id external_id user_id public_key transports created_at = wrap_invalid (
    if id == nil_uuid
    then fails credential_id_required
    else if is_empty external_id
    then fails external_id_required
    else if user_id == nil_uuid
    then fails user_id_required
    else if is_empty public_key
    then fails public_key_required
    else ok (record {
      id = id;
      external_id = external_id;
      user_id = user_id;
      public_key = public_key;
      sign_count = 0;
      transports = transports;
      created_at = created_at;
      revoked_at = none;
    }))

unfoldable pub is_revoked : Credential → Bool
is_revoked c = elim (c.revoked_at) [ none ↦ false | some _ ↦ true ]

unfoldable pub revoke : Time → Credential → Result Credential
unfolding is_revoked
revoke now c =
    if is_revoked c
    then fails credential_already_revoked
    else ok (record c { revoked_at = some now })

-- An error leaves the credential alone.
unfoldable pub set_sign_count : ℕ → Credential → Result Credential
set_sign_count n c =
    if leb n c.sign_count && not (c.sign_count == 0)
    then fails sign_count_regression
    else ok (record c { sign_count = n })
