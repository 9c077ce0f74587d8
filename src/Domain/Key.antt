-- ===== src/Domain/Key.antt =====
-- internal/domain/key: the wrapped data encryption key (key.go) and its policy (policy.go).
use hsa.Prelude.{ℕ, String, str_eq, Bool, Bytes, is_empty, ltb, not, ◌==◌, ◌||◌, if◌then◌else◌}
use hsa.Failure.{
  Result, ok, fails, wrap_invalid, key_id_required, user_id_required, scope_invalid,
  wrapped_dek_required, wrap_algorithm_required, too_many_wrapped_keys,
}
use hsa.Domain.User.{Uuid, Time, nil_uuid}

-- `type Scope byte`: any byte is a `Scope`, and two of them are valid.
abbrev pub Scope : Type 0
Scope = ℕ

abbrev pub scope_main : Scope
scope_main = 0

abbrev pub scope_decoy : Scope
scope_decoy = 1

unfoldable pub scope_to_string : Scope → String
scope_to_string s = if s == scope_main then "main" else "decoy"

unfoldable pub scope_from_string : String → Scope
scope_from_string s = if str_eq s "main" then scope_main else scope_decoy

unfoldable pub scope_valid : Scope → Bool
scope_valid s = s == scope_main || s == scope_decoy

pub record WrappedKey : Type 0 where
  pub id : Uuid
  pub user_id : Uuid
  pub credential_id : Uuid
  pub scope : Scope
  pub wrapped_dek : Bytes
  pub wrap_algorithm : String
  pub created_at : Time

-- The third test returns the user package's error, as the source does.
unfoldable pub new : Uuid → Uuid → Uuid → Scope → Bytes → String → Time → Result WrappedKey
unfolding scope_valid
new id user_id credential_id scope wrapped_dek wrap_algorithm created_at = wrap_invalid (
    if id == nil_uuid
    then fails key_id_required
    else if user_id == nil_uuid
    then fails user_id_required
    else if credential_id == nil_uuid
    then fails user_id_required
    else if not (scope_valid scope)
    then fails scope_invalid
    else if is_empty wrapped_dek
    then fails wrapped_dek_required
    else if str_eq wrap_algorithm ""
    then fails wrap_algorithm_required
    else ok (record {
      id = id;
      user_id = user_id;
      credential_id = credential_id;
      scope = scope;
      wrapped_dek = wrapped_dek;
      wrap_algorithm = wrap_algorithm;
      created_at = created_at;
    }))

-- `Policy{maxWrappedKeys}`
pub record Policy : Type 0 where
  pub max_wrapped_keys : ℕ

unfoldable pub validate_count : Policy → (count : ℕ) → Result (Unit {0})
validate_count p count = if ltb p.max_wrapped_keys count then fails too_many_wrapped_keys else ok tt
