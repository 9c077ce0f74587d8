-- ===== src/Crypto.antt =====
-- internal/infrastructure/crypto: hashing and random tokens (secret_manager.go) and access tokens
-- (token_issuer.go). HMAC-SHA256, base 32, the random source, the texts of UUIDs and the PASETO
-- signature are the operations of `Env`. The pool holds only what its `New` made, so its type assertion succeeds, and
-- `hash.Hash.Write` never returns an error.
pub mod Claims
pub mod Laws
pub mod Tokens
pub mod Untouched
use hsa.Prelude.{ℕ, ◌+◌, String, ltb, if◌then◌else◌}
use hsa.Failure.{opaque, Result, ok, err, panic}
use hsa.Domain.User.{Uuid, Time, Role, role_string}
use hsa.Crypto.Claims.{Token, new_token, set_expiration, set_string}
use hsa.Runtime.{Env, M, pure, lift, ◌>>=◌, tick, time_now}

-- `errors.New("crypto: invalid length")`, which nothing compares with.
abbrev pub invalid_length : hsa.Failure.Error
invalid_length = opaque 1

abbrev pub max_random_length : ℕ
max_random_length = 1048576

module _ (env : Env) where
  unfoldable pub generate_random_base32 : ℕ → M String
  generate_random_base32 n w =
      if ltb max_random_length n then (err invalid_length, w) else elim (env.rand_read w.step n) [
        | ok buf ↦ (ok (env.base32 buf), tick w)
        | err e ↦ (err e, tick w)
        | panic p ↦ (panic p, tick w)
      ]

  unfoldable pub generate_hash : String → Result String
  generate_hash raw = ok (env.base32 (env.hmac raw))

  -- The raw token and its hash.
  unfoldable pub generate_token : ℕ → M (String × String)
  generate_token n = do
    raw ← generate_random_base32 n
    hash ← lift (generate_hash raw)
    pure (raw, hash)

  -- The claims that `IssueAccessToken` sets, in its order.
  unfoldable pub access_token : Uuid → Role → (expires : Time) → Token
  access_token user role expires =
      set_string "role" (role_string role)
        (set_string "user_id" (env.uuid_string user) (set_expiration expires new_token))

  unfoldable pub issue_access_token : Uuid → Role → (ttl : ℕ) → M String
  issue_access_token user role ttl = do
    now ← time_now env
    pure (env.v4_sign (access_token user role (now + ttl)))
