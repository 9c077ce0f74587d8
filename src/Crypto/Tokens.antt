-- ===== src/Crypto/Tokens.antt =====
-- internal/infrastructure/crypto: checking access tokens (token_verifier.go) and the challenge
-- tokens (token_codec.go). PASETO, JSON and the texts of UUIDs are parameters. A parser checks the
-- expiration by the clock, as the rule that `paseto.NewParser` gives it.
pub mod Reading
pub mod Laws
pub mod Challenge
use hsa.Prelude.{ℕ, ◌+◌, String, Option, none, some}
use hsa.Failure.{
  Error, sentinel, opaque, wrap, Result, ok, err, panic, token_malformed, token_expired,
}
use hsa.Domain.User.{Uuid, Time, Role, role_from_string}
use hsa.Crypto.Claims.{Token, new_token, set_expiration, set_string}
use hsa.Runtime.{Env, M, pure, lift, ◌>>=◌, time_now}

-- What a parser of the library returns: the token's claims, a `paseto.RuleError`, or another error.
pub data Parsed (C : Type 0) : Type 0 where
  claims : C → Parsed C
  rule_error : ℕ → Parsed C
  unreadable : ℕ → Parsed C

-- `token.GetString` of a parsed token, `none` where it returns an error.
abbrev pub GetString : Type 0
GetString = String → Option String

-- `ParseV4Public` under the service's key at this time, and `uuid.Parse`.
pub record Paseto : Type 0 where
  pub parse_public : Time → String → Parsed GetString
  pub parse_uuid : String → Option Uuid

-- The library's side of the challenges: JSON, and `V4Encrypt` and `ParseV4Local` under the service's
-- key.
pub record Sealing (P : Type 0) : Type 0 where
  pub marshal : P → Result String
  pub unmarshal : String → Result P
  pub encrypt : Token → String
  pub parse_local : Time → String → Parsed GetString

-- The claims that `Encode` sets.
unfoldable pub challenge_token : (raw : String) → (expires : Time) → Token
challenge_token raw expires = set_string "payload" raw (set_expiration expires new_token)

-- `errors.Join(ErrTokenExpired, err)` for a failed rule, and `ErrTokenMalformed` otherwise.
abbrev pub parsed : {C : Type 0} → Parsed C → Result C
parsed (claims c) = ok c
parsed (rule_error n) = err (wrap (sentinel token_expired) (opaque n))
parsed (unreadable n) = err (sentinel token_malformed)

-- `if err != nil { return ErrTokenMalformed }`
abbrev pub or_malformed : {A : Type 0} → Option A → Result A
or_malformed none = err (sentinel token_malformed)
or_malformed (some a) = ok a

abbrev pub known_role : Result Role → Result Role
known_role (ok role) = ok role
known_role (err e) = err (sentinel token_malformed)
known_role (panic p) = panic p

module _ (env : Env) where
  -- `AccessTokenVerifier.Verify`
  unfoldable pub verify : Paseto → String → M (Uuid × Role)
  verify lib token_str = do
    now ← time_now env
    token ← lift (parsed (lib.parse_public now token_str))
    raw ← lift (or_malformed (token "user_id"))
    user_id ← lift (or_malformed (lib.parse_uuid raw))
    raw_role ← lift (or_malformed (token "role"))
    role ← lift (known_role (role_from_string raw_role))
    pure (user_id, role)

  -- `TokenCodec.Encode`
  unfoldable pub encode : {P : Type 0} → Sealing P → P → (ttl : ℕ) → M String
  encode lib payload ttl = do
    raw ← lift (lib.marshal payload)
    now ← time_now env
    pure (lib.encrypt (challenge_token raw (now + ttl)))

  -- `TokenCodec.Decode`
  unfoldable pub decode : {P : Type 0} → Sealing P → String → M P
  decode lib token_str = do
    now ← time_now env
    token ← lift (parsed (lib.parse_local now token_str))
    raw ← lift (or_malformed (token "payload"))
    lift (lib.unmarshal raw)
