-- ===== src/Application/Auth.antt =====
-- internal/application/auth.go: what the use cases ask of WebAuthn. The implementations stand on a
-- library outside the repository, so that the use cases take them as parameters.
use hsa.Prelude.{ℕ, String, Bool, List, Bytes, ◌≡◌}
use hsa.Domain.User.{Uuid}
use hsa.Runtime.{World, Context, M}
use hsa.Failure.{ok}
use hsa.Storage.Rows.{Db}

pub record RegistrationResult : Type 0 where
  pub user_id : Uuid
  pub invite_id : Uuid
  pub external_id : Bytes
  pub public_key : Bytes
  pub transports : List String
  pub initial_sign_count : ℕ

-- `Begin` returns the challenge token and the options for the browser.
pub record Registrator : Type 0 where
  pub begin : Context → (candidate_user_id : Uuid) → (invite_id : Uuid) → M (String × Bytes)
  pub finish : Context → String → Bytes → M RegistrationResult

pub record AuthenticationResult : Type 0 where
  pub user_id : Uuid
  pub external_id : Bytes
  pub new_sign_count : ℕ
  pub clone_warning : Bool

pub record Authenticator : Type 0 where
  pub begin : Context → M (String × Bytes)
  pub finish : Context → String → Bytes → M AuthenticationResult

-- A call that returned a value has left the database alone.
abbrev pub KeepsDb : {A : Type 0} → M A → Type 0
KeepsDb {A} m = (w w' : World) (a : A) → m w ≡ (ok a, w') → w'.db ≡ w.db

-- The value is what the call may return, on some state with this database.
abbrev pub Answers : {A : Type 0} → M A → Db → A → Type 0
Answers {A} m d a = (w : World) × (w' : World) × (w.db ≡ d) × (m w ≡ (ok a, w'))
