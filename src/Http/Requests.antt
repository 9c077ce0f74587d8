-- ===== src/Http/Requests.antt =====
-- internal/presentation/http/handler.go: what the endpoints take and answer, of the types that are
-- generated from api/, and the conversions to and from the use cases.
use hsa.Prelude.{Option, none, some, String, List, map, Bytes}
use hsa.Domain.User.{Uuid, Time}
use hsa.Domain.Session.{Addr}
use hsa.Domain.Key.{scope_to_string, scope_from_string}
use hsa.Application.FinishInviteRegistration.{WrappedKeyInput, RegistrationInput}
use hsa.Application.FinishLogin.{LoginInput, LoginOutput, WrappedKeyOutput}
use hsa.Http.Errors.{Response}

pub data VerifyRes : Type 0 where
  verified : (x_auth_user : Uuid) → VerifyRes
  verify_failed : Response → VerifyRes

pub data RevokeChainRes : Type 0 where
  chain_revoked : RevokeChainRes
  chain_failed : Response → RevokeChainRes

pub data InvitesRes : Type 0 where
  invited : (code : String) → (expires_at : Time) → InvitesRes
  invite_failed : Response → InvitesRes

pub data ChallengeRes : Type 0 where
  challenge : (challenge_token : String) → (options : Bytes) → ChallengeRes
  challenge_failed : Response → ChallengeRes

-- `LoginPostReq`, with an optional device info.
pub record LoginPostReq : Type 0 where
  pub challenge_token : String
  pub authentication_response : Bytes
  pub device_info : Option String

-- `req.DeviceInfo.Or("")`
abbrev pub or_empty : Option String → String
or_empty none = ""
or_empty (some s) = s

pub record ApiWrappedKey : Type 0 where
  pub scope : String
  pub wrapped_dek : Bytes
  pub wrap_algorithm : String

abbrev pub key_to_api : WrappedKeyOutput → ApiWrappedKey
key_to_api wk = record {
  scope = scope_to_string wk.scope;
  wrapped_dek = wk.wrapped_dek;
  wrap_algorithm = wk.wrap_algorithm;
}

pub data LoginRes : Type 0 where
  logged : (access_token : String) → (refresh_token : String) → List ApiWrappedKey → LoginRes
  login_failed : Response → LoginRes

abbrev pub login_answer : LoginOutput → LoginRes
login_answer out = logged out.access_token out.refresh_token (map key_to_api out.wrapped_keys)

abbrev pub login_input : LoginPostReq → Addr → LoginInput
login_input req ip = record {
  challenge_token = req.challenge_token;
  authentication_response = req.authentication_response;
  device_info = or_empty req.device_info;
  ip_address = ip;
}

pub record RegistrationCompletePostReq : Type 0 where
  pub challenge_token : String
  pub registration_response : Bytes
  pub wrapped_keys : List ApiWrappedKey
  pub device_info : Option String

abbrev pub key_from_api : ApiWrappedKey → WrappedKeyInput
key_from_api wk = record {
  scope = scope_from_string wk.scope;
  wrapped_dek = wk.wrapped_dek;
  wrap_algorithm = wk.wrap_algorithm;
}

abbrev pub registration_input : RegistrationCompletePostReq → Addr → RegistrationInput
registration_input req ip = record {
  challenge_token = req.challenge_token;
  registration_response = req.registration_response;
  wrapped_keys = map key_from_api req.wrapped_keys;
  device_info = or_empty req.device_info;
  ip_address = ip;
}
