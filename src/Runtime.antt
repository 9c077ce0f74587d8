-- ===== src/Runtime.antt =====
-- The state that a use case runs on, and the monad it runs in: Go's `(value, error)` results,
-- panics included, over the database. Every effect whose outcome the program does not decide (the
-- clock, a random read, a failing statement) is answered by `Env` at the number of effects so far.
pub mod Laws
pub mod Forward
use hsa.Prelude.{ℕ, suc, String, Option, none, some, Bool, Bytes}
use hsa.Failure.{Error, Result, ok, err, panic}
use hsa.Domain.User.{Uuid, Time}
use hsa.Storage.Rows.{Db}
use hsa.Crypto.Claims.{Token}

-- What is not under the repository's control.
pub record Env : Type 0 where
  pub clock : ℕ → Time
  -- `some e` where the statement, `BEGIN`, `COMMIT` or `ROLLBACK` made at this step fails by `e`.
  pub fault : ℕ → Option Error
  pub fresh_id : ℕ → Uuid
  -- `rand.Read` of a buffer of the given length.
  pub rand_read : ℕ → ℕ → Result Bytes
  -- HMAC-SHA256 under the service's key, and unpadded base 32.
  pub hmac : String → Bytes
  pub base32 : Bytes → String
  -- The text of a UUID, and `V4Sign` under the service's key.
  pub uuid_string : Uuid → String
  pub v4_sign : Token → String

pub record World : Type 0 where
  pub db : Db
  pub step : ℕ

-- `context.Context`, of which the storage reads whether it carries a transaction.
pub record Context : Type 0 where
  pub in_tx : Bool

abbrev pub M : Type 0 → Type 0
M A = World → Result A × World

abbrev pub tick : World → World
tick w = record w { step = suc w.step }

abbrev pub pure : {A : Type 0} → A → M A
pure a w = (ok a, w)

abbrev pub raise : {A : Type 0} → Error → M A
raise e w = (err e, w)

-- A result computed without effects.
abbrev pub lift : {A : Type 0} → Result A → M A
lift r w = (r, w)

-- What follows a call: the rest on its value, or its error or panic passed on.
abbrev pub resume : {A B : Type 0} → (A → M B) → Result A × World → Result B × World
resume f (ok a, w) = f a w
resume f (err e, w) = (err e, w)
resume f (panic p, w) = (panic p, w)

infixl 5 ◌>>=◌ ◌>>◌
unfoldable pub ◌>>=◌ : {A B : Type 0} → M A → (A → M B) → M B
◌>>=◌ m f w = resume f (m w)

abbrev pub ◌>>◌ : {B : Type 0} → M (Unit {0}) → M B → M B
m >> k = m >>= λ _. k

-- `if err != nil { return f(err) }`: the error of a call is replaced.
abbrev pub replace_err : {A : Type 0} → (Error → Error) → Result A × World → Result A × World
replace_err f (ok a, w) = (ok a, w)
replace_err f (err e, w) = (err (f e), w)
replace_err f (panic p, w) = (panic p, w)

unfoldable pub map_err : {A : Type 0} → (Error → Error) → M A → M A
map_err f m w = replace_err f (m w)

module _ (env : Env) where
  unfoldable pub time_now : M Time
  time_now w = (ok (env.clock w.step), tick w)

  -- `IDGenerator.NewID`
  unfoldable pub new_id : M Uuid
  new_id w = (ok (env.fresh_id w.step), tick w)

  -- One statement, which runs on the database or fails as a whole.
  unfoldable pub statement : {A : Type 0} → (Db → Result (A × Db)) → M A
  statement q w = elim (env.fault w.step) [
    | some e ↦ (err e, tick w)
    | none ↦ elim (q w.db) [
      | ok (a, d) ↦ (ok a, record { db = d; step = suc w.step })
      | err e ↦ (err e, tick w)
      | panic p ↦ (panic p, tick w)
    ]
  ]
