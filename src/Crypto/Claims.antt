-- ===== src/Crypto/Claims.antt =====
-- What the service puts into a PASETO token: the calls that it makes on a `paseto.Token`, which the
-- signature is made of, and what the library documents of the claims that they set.
use hsa.Prelude.{
  ◌*◌, ◌/◌, String, str_eq, Option, none, some, Bool, true, false, List, [], ◌∷◌, leb, not, ◌&&◌,
  if◌then◌else◌,
}
use hsa.Domain.User.{Time}

pub data Claim : Type 0 where
  expiration : Time → Claim
  text : (name : String) → (value : String) → Claim

-- The calls, the newest first.
abbrev pub Token : Type 0
Token = List Claim

abbrev pub new_token : Token
new_token = []

-- `SetExpiration`
abbrev pub set_expiration : Time → Token → Token
set_expiration t token = expiration t ∷ token

-- `SetString`
abbrev pub set_string : (name : String) → (value : String) → Token → Token
set_string name value token = text name value ∷ token

-- What `GetString` gives back of a token: the newest text of this name.
unfoldable pub text_of : Token → String → Option String
text_of [] name = none
text_of (expiration t ∷ token) name = text_of token name
text_of (text n v ∷ token) name = if str_eq n name then some v else text_of token name

-- Times are kept as texts of RFC 3339, in whole seconds.
abbrev pub to_seconds : Time → Time
to_seconds t = t / 1000000000 * 1000000000

-- The rule of `NewParser`: the token has an expiration, and it is not past.
unfoldable pub in_time : (now : Time) → Token → Bool
in_time now [] = false
in_time now (expiration t ∷ token) = leb now (to_seconds t)
in_time now (text n v ∷ token) = in_time now token

-- No text has the name under which the expiration is kept.
unfoldable pub is_private : Token → Bool
is_private [] = true
is_private (expiration t ∷ token) = is_private token
is_private (text n v ∷ token) = not (str_eq n "exp") && is_private token
