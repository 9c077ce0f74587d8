-- ===== src/Domain/Session/Laws.antt =====
-- What a successful operation on a refresh token has done.
use hsa.Prelude.{ℕ, ◌+◌, String, none, some, true, ◌≡◌, arith, ltb}
use hsa.Failure.{ok}
use hsa.Domain.User.{Uuid, Time}
use hsa.Domain.Session.{Addr, RefreshToken, new, is_valid, revoke, rotate}

pub revoke-eq-ok :
    (now : Time) (t : RefreshToken) {r : RefreshToken}
    → revoke now t ≡ ok r
    → (t.revoked_at ≡ none) × (r ≡ record t { revoked_at = some now })
unfolding revoke
revoke-eq-ok now t h = (ground arith, ground arith)

pub rotate-eq-ok :
    (id : Uuid) (hash : String) (now : Time) (t : RefreshToken) {r : RefreshToken}
    → rotate id hash now t ≡ ok r
    → r ≡ record t { id = id; token_hash = hash; revoked_at = none; created_at = now }
unfolding rotate
rotate-eq-ok id hash now t h = ground arith

pub new-eq-ok :
    (id user : Uuid) (hash device : String) (ip : Addr) (ttl : ℕ) (now : Time) {r : RefreshToken}
    → new id user hash device ip ttl now ≡ ok r
    → r ≡ record {
      id = id;
      user_id = user;
      token_hash = hash;
      device_info = device;
      ip_address = ip;
      expires_at = now + ttl;
      revoked_at = none;
      created_at = now;
    }
unfolding new
new-eq-ok id user hash device ip ttl now h = ground arith

-- A valid token is neither revoked nor expired.
pub is_valid-eq-true :
    (t : RefreshToken) (now : Time)
    → is_valid t now ≡ true
    → (t.revoked_at ≡ none) × (ltb now t.expires_at ≡ true)
unfolding is_valid
is_valid-eq-true t now h = (ground arith, ground arith)
