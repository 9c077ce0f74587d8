-- ===== src/Tests/Calls.antt =====
-- A run of several calls against one session.
use hsa.Prelude.{ℕ, ◌+◌, none, some, false, [], ◌∷◌, ◌==◌, ◌≡◌, refl, arith}
use hsa.Domain.Session.{v4}
use hsa.Application.Auth.{RegistrationResult, AuthenticationResult}
use hsa.Application.FinishLogin.{LoginInput}
use hsa.Application.Calls.{
  Call, begin_login, login, refresh, revoke_session, revoke_all, revoke_chain, Service, calls,
}
use hsa.Application.Calls.Laws.{LeaveDb, calls-Moves}
use hsa.Storage.Sessions.Status.{status, Moves}
use hsa.Tests.Fixtures.{env, cfg, outside, two_sessions}
use hsa.Runtime.{pure}

abbrev accepted : AuthenticationResult
accepted = record {
  user_id = 1;
  external_id = 5 ∷ 6 ∷ [];
  new_sign_count = 5;
  clone_warning = false;
}

abbrev registered : RegistrationResult
registered = record {
  user_id = 2;
  invite_id = 50;
  external_id = 7 ∷ [];
  public_key = 8 ∷ [];
  transports = [];
  initial_sign_count = 0;
}

abbrev service : Service
service = record {
  sessions = cfg;
  invites = record { max_active = 3; unlimited = false };
  invite_ttl = 60;
  keys = record { max_wrapped_keys = 4 };
  authenticator = record {
    begin = λ ctx. pure ("challenge", []);
    finish = λ ctx token response. pure accepted;
  };
  registrator = record {
    begin = λ ctx user invite. pure ("challenge", []);
    finish = λ ctx token response. pure registered;
  };
}

abbrev attempt : LoginInput
attempt = record {
  challenge_token = "challenge";
  authentication_response = [];
  device_info = "phone";
  ip_address = v4 10;
}

-- A login, a refresh of the session 20, its reuse, and the end of the user's sessions.
abbrev visits : hsa.Prelude.List Call
visits =
    begin_login
    ∷ login attempt
    ∷ refresh "first"
    ∷ refresh "first"
    ∷ revoke_session 20 1
    ∷ revoke_all (1 ∷ [])
    ∷ revoke_chain 1
    ∷ []

fresh_ids-other : (n : ℕ) → (env.fresh_id n == 20) ≡ false
fresh_ids-other n = ground arith

service-LeaveDb : LeaveDb service outside
service-LeaveDb = record {
  begins_login = λ w. refl;
  finishes_login = λ token response w. refl;
  begins_registration = λ user invite w. refl;
  finishes_registration = λ token response w. refl;
}

calls-Moves_example :
    Moves
      (status 20 two_sessions.db.refresh_tokens)
      (status 20 (calls env service outside visits two_sessions).db.refresh_tokens)
calls-Moves_example =
    calls-Moves env service outside 20 fresh_ids-other service-LeaveDb visits two_sessions
