-- ===== src/Http/Auth.antt =====
-- internal/presentation/http/auth_middleware.go, over context.go: a context is its entries, and a
-- lookup is by the equality of keys.
pub mod Laws
use hsa.Prelude.{
  ℕ, ◌==◌, Option, none, some, Bool, true, false, String, str_eq, List, [], ◌∷◌, exists, is_empty,
  not, ◌&&◌, if◌then◌else◌,
}
use hsa.Failure.{
  Error, sentinel, Result, ok, err, panic, errors_is, token_expired, token_malformed,
  unauthenticated, forbidden,
}
use hsa.Domain.User.{Uuid, Role, role_string}
use hsa.Domain.Session.{Addr}

-- A key of a context. Keys are equal where their types and values are: `ctxKey` is a struct without
-- fields, so that it has one value; a key of another package is of another type.
pub data Key : Type 0 where
  ctx_key : Key
  foreign : ℕ → Key

abbrev pub key_eq : Key → Key → Bool
key_eq ctx_key ctx_key = true
key_eq ctx_key (foreign n) = false
key_eq (foreign m) ctx_key = false
key_eq (foreign m) (foreign n) = m == n

abbrev pub user_id_context_key : Key
user_id_context_key = ctx_key

abbrev pub client_ip_key : Key
client_ip_key = ctx_key

-- A value, of the type that a type assertion asks for.
pub data Value : Type 0 where
  user : Uuid → Value
  address : Addr → Value
  other : ℕ → Value

-- The entries of a context, the newest first.
abbrev pub RequestContext : Type 0
RequestContext = List (Key × Value)

-- `context.WithValue`
abbrev pub with_value : RequestContext → Key → Value → RequestContext
with_value ctx key v = (key, v) ∷ ctx

-- `ctx.Value(key)`: the newest value with an equal key.
unfoldable pub value : RequestContext → Key → Option Value
value [] key = none
value ((k, v) ∷ ctx) key = if key_eq k key then some v else value ctx key

unfoldable pub with_user_id : RequestContext → Uuid → RequestContext
with_user_id ctx id = with_value ctx user_id_context_key (user id)

unfoldable pub with_client_ip : RequestContext → Addr → RequestContext
with_client_ip ctx ip = with_value ctx client_ip_key (address ip)

abbrev pub as_user : Option Value → Option Uuid
as_user none = none
as_user (some (user id)) = some id
as_user (some (address ip)) = none
as_user (some (other n)) = none

abbrev pub as_address : Option Value → Option Addr
as_address none = none
as_address (some (user id)) = none
as_address (some (address ip)) = some ip
as_address (some (other n)) = none

unfoldable pub user_id_from_context : RequestContext → Option Uuid
user_id_from_context ctx = as_user (value ctx user_id_context_key)

unfoldable pub client_ip_from_context : RequestContext → Option Addr
client_ip_from_context ctx = as_address (value ctx client_ip_key)

unfoldable pub role_allowed : Role → List String → Bool
role_allowed role required = exists (λ r. str_eq r (role_string role)) required

-- What a failed verification is answered with.
abbrev pub verify_error : Error → Error
verify_error e =
    if errors_is e token_expired
    then sentinel unauthenticated
    else if errors_is e token_malformed
    then sentinel unauthenticated
    else e

abbrev admit : RequestContext → List String → Uuid × Role → Result RequestContext
admit ctx roles (user_id, role) =
    if not (is_empty roles) && not (role_allowed role roles)
    then err (sentinel forbidden)
    else ok (with_user_id ctx user_id)

-- `HandleBearerAuth`, on what `Verify` returned for the token and the roles of the operation. An
-- error leaves the context alone.
unfoldable pub handle_bearer_auth :
    RequestContext
    → (verified : Result (Uuid × Role)) → (roles : List String) → Result RequestContext
handle_bearer_auth ctx (ok p) roles = admit ctx roles p
handle_bearer_auth ctx (err e) roles = err (verify_error e)
handle_bearer_auth ctx (panic p) roles = panic p
