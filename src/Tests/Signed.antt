-- ===== src/Tests/Signed.antt =====
-- A toy signature for the tests: the claims of a token, written out.
use Prim.Native.Char.{code}
use Prim.Native.String.{String}
use hsa.Prelude.{
  ℕ, zero, suc, ◌*◌, ◌/◌, some, [], ◌∷◌, length, leb, ◌==◌, if◌then◌else◌, ◌≡◌, refl, ap, ◌∙◌,
  arith, if_true, if_false, ◌+◌,
}
use hsa.Domain.User.{Time}
use hsa.Crypto.Claims.{expiration, text, Token, text_of, to_seconds, in_time}
use hsa.Crypto.Tokens.{Parsed, claims, rule_error, GetString, Paseto}
use hsa.Crypto.Tokens.Laws.{Opens}
use hsa.Crypto.Tokens.Reading.{ReadsOwn}
use hsa.Tests.Fixtures.{env}
use hsa.Tests.Sealed.{plus, dot, seal, unseal, unseal-seal, escape, unescape, unescape-escape}
use hsa.Runtime.{Env}

unfoldable pub write : Token → String
write [] = ""
write (expiration t ∷ token) = String.◌∷◌ plus (seal (t / 1000000000) (write token))
write (text n v ∷ token) = String.◌∷◌ dot (escape n (escape v (write token)))

-- This many claims.
unfoldable pub read : ℕ → String → Token
read zero s = []
read (suc n) String.[] = []
read (suc n) (String.◌∷◌ c s) =
    let (seconds, after) = unseal s in
    let (name, more) = unescape s in
    let (value, last) = unescape more in
    let timed = read n after in
    let named = read n last in
    if code c == 43 then expiration (seconds * 1000000000) ∷ timed else text name value ∷ named

unfoldable pub rounded : Token → Token
rounded [] = []
rounded (expiration t ∷ token) = expiration (to_seconds t) ∷ rounded token
rounded (text n v ∷ token) = text n v ∷ rounded token

read-write : (token : Token) → read (length token) (write token) ≡ rounded token
unfolding read write rounded
read-write [] = refl
read-write (expiration t ∷ token) =
    rw (unseal-seal (t / 1000000000) (write token))
      (ap (λ rest. expiration (to_seconds t) ∷ rest) (read-write token))
read-write (text n v ∷ token) =
    rw (unescape-escape n (escape v (write token)), unescape-escape v (write token))
      (ap (λ rest. text n v ∷ rest) (read-write token))

text_of-rounded :
    (token : Token) (name : String) → text_of (rounded token) name ≡ text_of token name
unfolding text_of rounded
text_of-rounded [] name = refl
text_of-rounded (expiration t ∷ token) name = text_of-rounded token name
text_of-rounded (text n v ∷ token) name = rw (text_of-rounded token name) refl

to_seconds-twice : (t : Time) → to_seconds (to_seconds t) ≡ to_seconds t
to_seconds-twice t = omega arith

in_time-rounded : (now : Time) (token : Token) → in_time now (rounded token) ≡ in_time now token
unfolding in_time rounded
in_time-rounded now [] = refl
in_time-rounded now (expiration t ∷ token) = ap (leb now) (to_seconds-twice t)
in_time-rounded now (text n v ∷ token) = in_time-rounded now token

abbrev open_token : Time → Token → Parsed GetString
open_token now token = if in_time now token then claims (text_of token) else rule_error 0

abbrev read_counted : ℕ × String → Token
read_counted (n, s) = read n s

-- The clock of the fixtures, in seconds.
abbrev pub signing : Env
signing = record env {
  clock = λ n. (100 + n) * 1000000000;
  uuid_string = λ user. seal user "";
  v4_sign = λ token. seal (length token) (write token);
}

abbrev pub paseto : Paseto
paseto = record {
  parse_public = λ now s. open_token now (read_counted (unseal s));
  parse_uuid = λ s. some (unseal s).0;
}

read-v4_sign : (token : Token) → read_counted (unseal (signing.v4_sign token)) ≡ rounded token
read-v4_sign token = ap read_counted (unseal-seal (length token) (write token)) ∙ read-write token

opened :
    (token : Token) (now : Time)
    → paseto.parse_public now (signing.v4_sign token)
      ≡ (if in_time now token then claims (text_of (rounded token)) else rule_error 0)
opened token now =
    ap (open_token now) (read-v4_sign token)
    ∙ ap (λ b. if b then claims (text_of (rounded token)) else rule_error 0)
        (in_time-rounded now token)

pub signing-ReadsOwn : ReadsOwn signing.v4_sign paseto.parse_public
signing-ReadsOwn = record {
  rule = 0;
  opens = λ token now private live. (
    text_of (rounded token),
    opened token now ∙ if_true _ _ _ live,
    λ name v h. text_of-rounded token name ∙ h,
  );
  expires = λ token now private late. opened token now ∙ if_false _ _ _ late;
}

pub signing-Opens : Opens signing paseto
signing-Opens = record {
  named = λ user. ap (λ p. some p.0) (unseal-seal user "");
  own = signing-ReadsOwn;
}
