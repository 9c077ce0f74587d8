-- ===== src/Crypto/Tokens/Reading.antt =====
-- What the library documents of a token that it signed or encrypted itself.
use hsa.Prelude.{ℕ, String, some, true, false, ◌≡◌}
use hsa.Domain.User.{Time}
use hsa.Crypto.Claims.{Token, text_of, in_time, is_private}
use hsa.Crypto.Tokens.{Parsed, claims, rule_error, GetString}

-- A token is read with the texts that were set in it while it is in time, and is the failure of a
-- rule after that.
pub record ReadsOwn (make : Token → String) (parse : Time → String → Parsed GetString)
    : Type 0 where
  pub rule : ℕ
  pub opens :
      (token : Token) (now : Time)
      → is_private token ≡ true
      → in_time now token ≡ true
      → (get : GetString) × (parse now (make token) ≡ claims get)
        × ((name : String) (v : String) → text_of token name ≡ some v → get name ≡ some v)
  pub expires :
      (token : Token) (now : Time)
      → is_private token ≡ true
      → in_time now token ≡ false
      → parse now (make token) ≡ rule_error rule
