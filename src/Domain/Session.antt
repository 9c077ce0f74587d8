-- ===== src/Domain/Session.antt =====
-- internal/domain/session: the refresh token (session.go).
pub mod Laws
use hsa.Prelude.{
  ℕ, ◌+◌, String, str_eq, Option, none, some, Bool, true, false, ltb, not, ◌==◌, ◌&&◌,
  if◌then◌else◌,
}
use hsa.Failure.{
  Result, ok, fails, wrap_invalid, token_id_required, user_id_required, token_hash_required,
  ip_address_required, token_already_revoked,
}
use hsa.Domain.User.{Uuid, Time, nil_uuid}

-- `netip.Addr`: the zero value is the invalid address, the others are numbers of 32 and 128 bits,
-- an IPv6 address with its zone.
pub data Addr : Type 0 where
  invalid : Addr
  v4 : ℕ → Addr
  v6 : ℕ → String → Addr

abbrev pub addr_is_valid : Addr → Bool
addr_is_valid invalid = false
addr_is_valid (v4 _) = true
addr_is_valid (v6 _ _) = true

pub record RefreshToken : Type 0 where
  pub id : Uuid
  pub user_id : Uuid
  pub token_hash : String
  pub device_info : String
  pub ip_address : Addr
  pub expires_at : Time
  pub revoked_at : Option Time
  pub created_at : Time

unfoldable pub new :
    Uuid → Uuid → String → String → Addr → (ttl : ℕ) → (now : Time) → Result RefreshToken
new id user_id token_hash device_info ip_address ttl now = wrap_invalid (
    if id == nil_uuid
    then fails token_id_required
    else if user_id == nil_uuid
    then fails user_id_required
    else if str_eq token_hash ""
    then fails token_hash_required
    else if not (addr_is_valid ip_address)
    then fails ip_address_required
    else ok (record {
      id = id;
      user_id = user_id;
      token_hash = token_hash;
      device_info = device_info;
      ip_address = ip_address;
      expires_at = now + ttl;
      revoked_at = none;
      created_at = now;
    }))

unfoldable pub is_revoked : RefreshToken → Bool
is_revoked t = elim (t.revoked_at) [ none ↦ false | some _ ↦ true ]

unfoldable pub is_valid : RefreshToken → Time → Bool
unfolding is_revoked
is_valid t now = not (is_revoked t) && ltb now t.expires_at

-- `Revoke` returns an error and leaves the token alone, or the token as it is left.
unfoldable pub revoke : Time → RefreshToken → Result RefreshToken
unfolding is_revoked
revoke now t =
    if is_revoked t then fails token_already_revoked else ok (record t { revoked_at = some now })

unfoldable pub rotate : Uuid → String → Time → RefreshToken → Result RefreshToken
rotate id token_hash now t = wrap_invalid (
    if id == nil_uuid
    then fails token_id_required
    else if str_eq token_hash ""
    then fails token_hash_required
    else ok (record {
      id = id;
      user_id = t.user_id;
      token_hash = token_hash;
      device_info = t.device_info;
      ip_address = t.ip_address;
      expires_at = t.expires_at;
      revoked_at = none;
      created_at = now;
    }))
