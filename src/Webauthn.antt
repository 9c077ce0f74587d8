-- ===== src/Webauthn.antt =====
-- internal/infrastructure/auth/webauthn: what the two adapters ask of go-webauthn, JSON and UUIDs,
-- which are outside the repository, and the codec of their challenges.
pub mod Authenticator
pub mod Registrator
pub mod Login
pub mod SignIn
pub mod Binding
use hsa.Prelude.{ℕ, String, Bool, List, Bytes}
use hsa.Failure.{Result, ok, err, panic}
use hsa.Domain.User.{Uuid}
use hsa.Crypto.Tokens
use hsa.Crypto.Tokens.{Sealing}
use hsa.Runtime.{Env, World, M}

-- `gowebauthn.Credential`, as far as the adapters write and read it.
pub record LibCredential : Type 0 where
  pub id : Bytes
  pub public_key : Bytes
  pub sign_count : ℕ
  pub clone_warning : Bool
  pub transport : List String

pub record WebauthnUser : Type 0 where
  pub id : Uuid
  pub credentials : List LibCredential

-- A call inside which a variable of the caller is written: `var userID user.UserID`.
abbrev pub V : Type 0 → Type 0
V A = Uuid × World → Result A × (Uuid × World)

-- The library, over its session data, the options for the browser and the two kinds of parsed
-- responses. A number is that of the effects so far, by which random bytes and clocks differ.
pub record Library (S O R C : Type 0) : Type 0 where
  pub begin_discoverable_login : ℕ → Result (O × S)
  pub begin_registration : ℕ → WebauthnUser → Result (O × S)
  -- `json.Marshal` of the options.
  pub marshal_options : O → Result Bytes
  pub parse_request_response : Bytes → Result R
  pub parse_creation_response : Bytes → Result C
  pub validate_passkey_login :
      (handler : (raw_id : Bytes) → (user_handle : Bytes) → V WebauthnUser)
      → S
      → R
      → V LibCredential
  pub create_credential : ℕ → WebauthnUser → S → C → Result LibCredential
  -- `uuid.FromBytes`
  pub uuid_from_bytes : Bytes → Result Uuid

-- `ChallengeCodec`
pub record ChallengeCodec (P : Type 0) : Type 0 where
  pub encode : P → (ttl : ℕ) → M String
  pub decode : String → M P

-- The `TokenCodec` as a `ChallengeCodec`.
unfoldable pub token_codec : Env → {P : Type 0} → Sealing P → ChallengeCodec P
token_codec env lib = record { encode = Tokens.encode env lib; decode = Tokens.decode env lib }
