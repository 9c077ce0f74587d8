-- ===== src/Http/Operations/Open.antt =====
-- api/http/oas_handlers_gen.go: the operations that need no token. The decoders of the bodies are
-- parameters: the handler runs on what they return.
use hsa.Prelude.{ℕ, String, Option, none, some}
use hsa.Failure.{ok}
use hsa.Domain.Key
use hsa.Application.Auth.{Authenticator, Registrator}
use hsa.Application.SessionIssuer.{SessionConfig}
use hsa.Http.Auth.{RequestContext}
use hsa.Http.Requests.{LoginPostReq, LoginRes, ChallengeRes, RegistrationCompletePostReq}
use hsa.Http.Handler.{
  RefreshRes, login_begin_post, login_post, registration_begin_post, registration_complete_post,
  token_refresh_post,
}
use hsa.Http.Server.{error_handler}
use hsa.Http.Operations.{Served, refused, handled}
use hsa.Runtime.{Env, M}

-- A body, or a `DecodeRequestError`: the text of the `MaxBytesError` in it, if any, and its code and
-- text.
pub data Decoded (Q : Type 0) : Type 0 where
  body : Q → Decoded Q
  unread : (size : Option String) → (coded : ℕ × String) → Decoded Q

abbrev pub handle_body : {Q R : Type 0} → (Q → M R) → Decoded Q → M (Served R)
handle_body handler (body q) w = handled (handler q w)
handle_body handler (unread size coded) w =
    (ok (refused (error_handler (record { security = none; size = size; coded = some coded }))), w)

module _ (env : Env) where
  unfoldable pub handle_login_begin_post_request : Authenticator → M (Served ChallengeRes)
  handle_login_begin_post_request a w = handled (login_begin_post env a w)

  unfoldable pub handle_login_post_request :
      SessionConfig → Authenticator → RequestContext → Decoded LoginPostReq → M (Served LoginRes)
  handle_login_post_request cfg a ctx = handle_body (login_post env cfg a ctx)

  unfoldable pub handle_registration_begin_post_request :
      Registrator → Decoded String → M (Served ChallengeRes)
  handle_registration_begin_post_request r = handle_body (registration_begin_post env r)

  unfoldable pub handle_registration_complete_post_request :
      SessionConfig
      → Key.Policy
      → Registrator
      → RequestContext
      → Decoded RegistrationCompletePostReq
      → M (Served RefreshRes)
  handle_registration_complete_post_request cfg policy r ctx =
      handle_body (registration_complete_post env cfg policy r ctx)

  unfoldable pub handle_token_refresh_post_request :
      SessionConfig → Decoded String → M (Served RefreshRes)
  handle_token_refresh_post_request cfg = handle_body (token_refresh_post env cfg)
