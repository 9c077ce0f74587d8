-- ===== src/Http/Operations.antt =====
-- api/http/oas_security_gen.go and the four operations of oas_handlers_gen.go that need a bearer
-- token: the token is looked for and checked, the parameters are decoded, and the handler runs. Each
-- has one requirement of one scheme, so that its bit set is whether the token was accepted. The
-- library of the generator is a parameter, also for the parameters of a path. No middleware is
-- configured, and writing an answer out is not modelled.
pub mod Endpoints
pub mod Laws
pub mod Open
use hsa.Prelude.{
  ℕ, String, Option, none, some, Bool, true, false, List, [], ◌∷◌, ◌&&◌, if◌then◌else◌,
}
use hsa.Failure.{Error, Result, ok, err, panic}
use hsa.Domain.User.{Uuid, Role}
use hsa.Crypto.Tokens.{Paseto, verify}
use hsa.Http.Auth.{RequestContext, handle_bearer_auth}
use hsa.Http.Server.{ServerError, Answer, error_handler}
use hsa.Runtime.{Env, World, M}

-- The operations that need a token.
pub data OperationName : Type 0 where
  admin_users_user_id_revoke_chain_post_operation : OperationName
  auth_verify_get_operation : OperationName
  invites_post_operation : OperationName
  sessions_session_id_delete_operation : OperationName

-- `operationRolesBearerAuth`
unfoldable pub operation_roles_bearer_auth : OperationName → List String
operation_roles_bearer_auth admin_users_user_id_revoke_chain_post_operation = "admin" ∷ []
operation_roles_bearer_auth auth_verify_get_operation = "admin" ∷ "member" ∷ []
operation_roles_bearer_auth invites_post_operation = "admin" ∷ "member" ∷ []
operation_roles_bearer_auth sessions_session_id_delete_operation = "admin" ∷ "member" ∷ []

-- `strings.Cut` at a space, `strings.EqualFold`, whether an error is `ErrSkipServerSecurity`, and
-- the code and text of a `DecodeParamsError`.
pub record Ogen : Type 0 where
  pub cut_space : String → Option (String × String)
  pub equal_fold : String → String → Bool
  pub is_skip : Error → Bool
  pub params_error : ℕ × String

-- What the request has led to: the handler's response, or an answer of the error handler.
pub data Served (R : Type 0) : Type 0 where
  response : R → Served R
  refused : Answer → Served R

abbrev pub refuse_internal : {R : Type 0} → Served R
refuse_internal = refused (error_handler (record { security = none; size = none; coded = none }))

-- An error of a handler is none of those that the error handler looks for.
abbrev pub handled : {R : Type 0} → Result R × World → Result (Served R) × World
handled (ok r, w) = (ok (response r), w)
handled (err e, w) = (ok refuse_internal, w)
handled (panic p, w) = (panic p, w)

module _ (lib : Ogen) where
  -- A turn of the loop over the values of the header.
  abbrev pub value_of : (prefix : String) → Option (String × String) → Option String → Option String
  value_of prefix none rest = rest
  value_of prefix (some (scheme, value)) rest =
      if lib.equal_fold scheme prefix then some value else rest

  unfoldable pub find_authorization : List String → (prefix : String) → Option String
  find_authorization [] prefix = none
  find_authorization (v ∷ vs) prefix =
      value_of prefix (lib.cut_space v) (find_authorization vs prefix)

  -- The context of an accepted token; none where there is no token or the scheme is skipped.
  abbrev pub accepted : Result RequestContext → Result (Option RequestContext)
  accepted (ok ctx) = ok (some ctx)
  accepted (err e) = if lib.is_skip e then ok none else err e
  accepted (panic p) = panic p

  abbrev pub check_roles :
      OperationName
      → RequestContext
      → Result (Uuid × Role) × World
      → Result (Option RequestContext) × World
  check_roles operation ctx (r, w) =
      (accepted (handle_bearer_auth ctx r (operation_roles_bearer_auth operation)), w)

  module _ (env : Env) (paseto : Paseto) where
    abbrev pub with_token :
        OperationName → RequestContext → Option String → M (Option RequestContext)
    with_token operation ctx none w = (ok none, w)
    with_token operation ctx (some token) w = check_roles operation ctx (verify env paseto token w)

    -- `securityBearerAuth`
    unfoldable pub security_bearer_auth :
        OperationName → RequestContext → (authorization : List String) → M (Option RequestContext)
    security_bearer_auth operation ctx authorization =
        with_token operation ctx (find_authorization authorization "Bearer")

    abbrev pub refuse_security : {R : Type 0} → Option Error → Served R
    refuse_security e =
        refused (error_handler (record { security = some e; size = none; coded = none }))

    abbrev pub refuse_params : {R : Type 0} → Served R
    refuse_params =
        refused
          (error_handler (record { security = none; size = none; coded = some lib.params_error }))

    module _ {P R : Type 0} (params : Option P) (handler : RequestContext → P → M R) where
      abbrev pub run_handler : Option P → RequestContext → M (Served R)
      run_handler none ctx w = (ok refuse_params, w)
      run_handler (some p) ctx w = handled (handler ctx p w)

      abbrev pub after_security : Result (Option RequestContext) × World → Result (Served R) × World
      after_security (ok (some ctx), w) = run_handler params ctx w
      after_security (ok none, w) = (ok (refuse_security none), w)
      after_security (err e, w) = (ok (refuse_security (some e)), w)
      after_security (panic p, w) = (panic p, w)

      -- The `handle...Request` of an operation, with what the decoder of its parameters returns.
      unfoldable pub handle_request :
          OperationName → RequestContext → (authorization : List String) → M (Served R)
      handle_request operation ctx authorization w =
          after_security (security_bearer_auth operation ctx authorization w)
