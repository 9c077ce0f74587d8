-- ===== src/Http/Errors.antt =====
-- internal/presentation/http/errors.go: the registry of each endpoint. A response is the status of
-- its generated type with the code and the message of its body.
use hsa.Prelude.{String, [], ◌∷◌}
use hsa.Failure.{
  Error, unauthenticated, too_many_active, validation, not_found, invite_already_used,
  invite_expired, wrapped_keys_required, invite_not_found, client_ip_unavailable,
  credential_not_found, credential_revoked, credential_clone_suspected, refresh_token_not_found,
  refresh_token_invalid, refresh_token_reuse_detected, session_not_found, session_forbidden,
}
use hsa.Errkit.{Registry, on_is, default, new}

pub data Status : Type 0 where
  bad_request unauthorized forbidden_status missing conflict internal_server_error : Status

pub data Code : Type 0 where
  validation_error unauthorized_code : Code
  invite_missing invite_over invite_used invite_limit_exceeded keys_required : Code
  credential_missing credential_withdrawn clone_suspected : Code
  token_missing token_invalid token_reused : Code
  session_missing session_of_other forbidden_code internal_error : Code

pub record Response : Type 0 where
  pub status : Status
  pub code : Code
  pub message : String

abbrev pub new_error_response : Status → Code → String → Error → Response
new_error_response status code message e = record {
  status = status;
  code = code;
  message = message;
}

abbrev pub internal : Error → Response
internal = new_error_response internal_server_error internal_error "internal server error"

unfoldable pub verify_errors : Registry Response
verify_errors = new (
    on_is
      (new_error_response unauthorized unauthorized_code
        "invalid access token or access token expired")
      unauthenticated
    ∷ default internal
    ∷ [])

unfoldable pub invites_errors : Registry Response
invites_errors = new (
    on_is (new_error_response unauthorized unauthorized_code "unauthorized") unauthenticated
    ∷ on_is (new_error_response conflict invite_limit_exceeded "active invite limit exceeded")
        too_many_active
    ∷ on_is (new_error_response conflict validation_error "invalid request") validation
    ∷ default internal
    ∷ [])

unfoldable pub registration_begin_errors : Registry Response
registration_begin_errors = new (
    on_is (new_error_response bad_request validation_error "invalid registration request")
      validation
    ∷ on_is (new_error_response missing invite_missing "invite not found") not_found
    ∷ on_is (new_error_response conflict invite_used "invite already used") invite_already_used
    ∷ on_is (new_error_response conflict invite_over "invite expired") invite_expired
    ∷ default internal
    ∷ [])

unfoldable pub registration_complete_errors : Registry Response
registration_complete_errors = new (
    on_is (new_error_response bad_request keys_required "at least one wrapped key is required")
      wrapped_keys_required
    ∷ on_is (new_error_response missing invite_missing "invite not found") invite_not_found
    ∷ on_is (new_error_response conflict invite_used "invite already used") invite_already_used
    ∷ on_is (new_error_response conflict invite_over "invite expired") invite_expired
    ∷ on_is internal client_ip_unavailable
    ∷ default internal
    ∷ [])

unfoldable pub login_begin_errors : Registry Response
login_begin_errors = new (default internal ∷ [])

unfoldable pub login_errors : Registry Response
login_errors = new (
    on_is (new_error_response bad_request validation_error "invalid login request") validation
    ∷ on_is (new_error_response unauthorized credential_missing "credential not found")
        credential_not_found
    ∷ on_is (new_error_response unauthorized credential_withdrawn "credential revoked")
        credential_revoked
    ∷ on_is (new_error_response unauthorized clone_suspected "credential clone suspected")
        credential_clone_suspected
    ∷ default internal
    ∷ [])

unfoldable pub refresh_errors : Registry Response
refresh_errors = new (
    on_is (new_error_response unauthorized token_missing "refresh token not found")
      refresh_token_not_found
    ∷ on_is (new_error_response unauthorized token_invalid "refresh token expired or revoked")
        refresh_token_invalid
    ∷ on_is (new_error_response unauthorized token_reused "refresh token reuse detected")
        refresh_token_reuse_detected
    ∷ default internal
    ∷ [])

unfoldable pub revoke_chain_errors : Registry Response
revoke_chain_errors = new (default internal ∷ [])

unfoldable pub revoke_session_errors : Registry Response
revoke_session_errors = new (
    on_is (new_error_response missing session_missing "session not found") session_not_found
    ∷ on_is (new_error_response forbidden_status session_of_other "session belongs to another user")
        session_forbidden
    ∷ default internal
    ∷ [])
