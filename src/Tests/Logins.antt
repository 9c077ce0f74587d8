-- ===== src/Tests/Logins.antt =====
-- Logging in, inviting and registering on concrete tables.
use hsa.Prelude.{
  ℕ, ◌+◌, ◌≤◌, ◌<◌, ◌⊎◌, String, none, some, true, false, [], ◌∷◌, find_first, exists, select,
  upsert, bytes_eq, ◌≡◌, ◌≢◌, refl, arith,
}
use hsa.Failure.{sentinel, err, ok, errors_is, credential_clone_suspected}
use hsa.Domain.User.{role_from_string}
use hsa.Domain.Session
use hsa.Domain.Invite
use hsa.Domain.Credential
use hsa.Domain.Credential.{set_sign_count}
use hsa.Storage.Rows.{CredentialRow, null_uuid_to_ptr, ptr_to_null_uuid}
use hsa.Storage.Queries.{
  find_user_by_id, save_refresh_token, save_refresh_tokens, find_credential_by_external_id,
  save_credential, list_wrapped_keys_by_credential_id, lock_user_by_id,
  count_active_invites_by_user, save_invite,
}
use hsa.Storage.Transaction.{run_in_transaction, run_in_tx, end_tx, commit}
use hsa.Storage.Users
use hsa.Storage.Sessions
use hsa.Storage.Sessions.{session_to_row}
use hsa.Storage.Credentials
use hsa.Storage.Credentials.{row_to_credential, credential_to_row}
use hsa.Storage.Credentials.Laws.{lookup_external}
use hsa.Storage.Credentials.Lookup.{HasDistinctCredentials}
use hsa.Storage.Keys
use hsa.Storage.Invites
use hsa.Storage.Invites.Laws.{put_invite}
use hsa.Storage.Sessions.Laws.{HasDistinctIds}
use hsa.Crypto.{generate_random_base32, generate_hash, generate_token, issue_access_token}
use hsa.Application.Auth.{AuthenticationResult, Authenticator, Registrator, KeepsDb, Answers}
use hsa.Application.SessionIssuer
use hsa.Application.FinishLogin
use hsa.Application.FinishLogin.{LoginInput, LoginOutput}
use hsa.Application.FinishLogin.Reads.{logged_in, is_suspect}
use hsa.Application.FinishLogin.Laws.{login_opens_session}
use hsa.Application.FinishLogin.Clone.{Revokes, clone_stays_revoked}
use hsa.Application.CreateInvite
use hsa.Application.CreateInvite.Laws.{new_invite, active_count, create_invite_keeps_limit}
use hsa.Application.FinishInviteRegistration
use hsa.Application.FinishInviteRegistration.{RegistrationInput}
use hsa.Application.FinishInviteRegistration.Laws.{registration_never_succeeds}
use hsa.Tests.Fixtures.{env, cfg, outside, phone, two_sessions}
use hsa.Domain.Session.{v4}
use hsa.Http.Auth.{value, with_client_ip, client_ip_from_context}
use hsa.Http.Requests.{LoginPostReq}
use hsa.Http.Operations.{response}
use hsa.Http.Operations.Open.{body, handle_login_post_request}
use hsa.Http.Handler.Login.{cloned, login_endpoint_reports_clone}
use hsa.Runtime.{World, pure, tick, ◌>>=◌, map_err, statement, time_now, new_id}

-- An authenticator that accepts every answer, as the fixture's phone with this counter.
abbrev answer : ℕ → AuthenticationResult
answer n = record {
  user_id = 1;
  external_id = 5 ∷ 6 ∷ [];
  new_sign_count = n;
  clone_warning = false;
}

abbrev authenticator : ℕ → Authenticator
authenticator n = record {
  begin = λ ctx. pure ("challenge", []);
  finish = λ ctx token response. pure (answer n);
}

authenticator-KeepsDb : (n : ℕ) → KeepsDb ((authenticator n).finish outside "challenge" [])
authenticator-KeepsDb n w w' a h = ground arith

abbrev input : LoginInput
input = record {
  challenge_token = "challenge";
  authentication_response = [];
  device_info = "phone";
  ip_address = v4 10;
}

abbrev after_login : World
after_login = (FinishLogin.execute env cfg (authenticator 5) outside input two_sessions).1

abbrev login_output : LoginOutput
login_output = record {
  access_token = "access";
  refresh_token = "second";
  wrapped_keys = record { scope = 0; wrapped_dek = 7 ∷ []; wrap_algorithm = "aes" } ∷ [];
}

login_run :
    FinishLogin.execute env cfg (authenticator 5) outside input two_sessions
    ≡ (ok login_output, after_login)
unfolding FinishLogin.execute run_in_transaction run_in_tx end_tx commit ◌>>=◌ time_now map_err
    statement errors_is FinishLogin.login_tx FinishLogin.find_credential
    FinishLogin.check_credential FinishLogin.settle FinishLogin.open_session
    Credentials.find_by_external_id find_credential_by_external_id find_first bytes_eq
    row_to_credential Credential.is_revoked set_sign_count Credentials.save credential_to_row
    save_credential exists upsert Keys.find_by_credential_id list_wrapped_keys_by_credential_id
    select Keys.rows_to_wrapped_keys Keys.row_to_wrapped_key Keys.scope_from_pg SessionIssuer.issue
    generate_token generate_random_base32 generate_hash new_id Session.new
    SessionIssuer.issue_access Users.find_by_id find_user_by_id Users.row_to_user role_from_string
    null_uuid_to_ptr issue_access_token Sessions.save session_to_row save_refresh_tokens
    save_refresh_token
login_run = refl

login_opens_session_example :
    (result : AuthenticationResult) × (r : CredentialRow) × (step : ℕ) × (hash : String) × Answers
      ((authenticator 5).finish outside "challenge" [])
      two_sessions.db
      result
    × (lookup_external result.external_id two_sessions.db.credentials ≡ some r)
    × (r.revoked_at ≡ none)
    × (result.clone_warning ≡ false)
    × (r.sign_count ≡ 0 ⊎ r.sign_count < result.new_sign_count)
    × (generate_hash env "second" ≡ ok hash)
    × (after_login.db
        ≡ logged_in env cfg input
            (record (row_to_credential r) { sign_count = result.new_sign_count })
            100
            (env.fresh_id step)
            hash
            two_sessions.db)
login_opens_session_example =
    login_opens_session env cfg (authenticator 5) outside input two_sessions
      (authenticator-KeepsDb 5) login_run

two_sessions-HasDistinctIds : HasDistinctIds two_sessions.db.refresh_tokens
unfolding exists
two_sessions-HasDistinctIds = (refl, (refl, tt))

credentials-HasDistinctCredentials : HasDistinctCredentials two_sessions.db.credentials
unfolding exists
credentials-HasDistinctCredentials = (refl, tt)

phone_found : lookup_external (5 ∷ 6 ∷ []) two_sessions.db.credentials ≡ some phone
unfolding find_first bytes_eq
phone_found = refl

replay-is_suspect : is_suspect (answer 4) (row_to_credential phone) ≡ true
unfolding set_sign_count row_to_credential errors_is
replay-is_suspect = refl

clone_stays_revoked_example :
    (w : World) × (FinishLogin.execute env cfg (authenticator 4) outside input two_sessions
      ≡ (err (sentinel credential_clone_suspected), w))
    × Revokes env (λ n. refl) cfg (5 ∷ 6 ∷ []) 1 100 w.db
clone_stays_revoked_example =
    clone_stays_revoked env (λ n. refl) cfg (authenticator 4) outside input two_sessions
      (tick two_sessions) (answer 4) phone two_sessions-HasDistinctIds
      credentials-HasDistinctCredentials refl refl phone_found refl replay-is_suspect

abbrev invited : World
invited = (CreateInvite.execute env (Invite.new_policy 1) 700 outside 1 two_sessions).1

create_run :
    CreateInvite.execute env (Invite.new_policy 1) 700 outside 1 two_sessions
    ≡ (ok ("second", 800), invited)
unfolding CreateInvite.execute CreateInvite.create_tx run_in_transaction run_in_tx end_tx commit
    ◌>>=◌ time_now statement Invites.count_active_by_user lock_user_by_id
    count_active_invites_by_user select Invite.can_issue generate_token generate_random_base32
    generate_hash new_id Invite.new Invites.save Invites.invite_to_row ptr_to_null_uuid save_invite
    exists upsert
create_run = refl

create_invite_keeps_limit_example :
    (step : ℕ) × (hash : String) × (generate_hash env "second" ≡ ok hash)
    × (800 ≡ 100 + 700)
    × (invited.db ≡ put_invite (new_invite (env.fresh_id step) 1 hash 800 100) two_sessions.db)
    × (false ≡ true
        ⊎ (active_count 1 100 two_sessions.db < 1) × (active_count 1 100 invited.db ≤ 1))
create_invite_keeps_limit_example =
    create_invite_keeps_limit env (Invite.new_policy 1) 700 outside 1 two_sessions create_run

abbrev registrator : Registrator
registrator = record {
  begin = λ ctx user invite. pure ("challenge", []);
  finish = λ ctx token response. pure (record {
    user_id = 2;
    invite_id = 1005;
    external_id = 3 ∷ [];
    public_key = 4 ∷ [];
    transports = [];
    initial_sign_count = 0;
  });
}

abbrev registration : RegistrationInput
registration = record {
  challenge_token = "challenge";
  registration_response = [];
  wrapped_keys = record { scope = 0; wrapped_dek = 7 ∷ []; wrap_algorithm = "aes" } ∷ [];
  device_info = "laptop";
  ip_address = v4 11;
}

registration_never_succeeds_example :
    FinishInviteRegistration.execute env cfg
      (record { max_wrapped_keys = 2 })
      registrator
      outside
      registration
      invited
    ≢ (ok ("access", "second"), invited)
registration_never_succeeds_example =
    registration_never_succeeds env cfg (record { max_wrapped_keys = 2 }) registrator outside
      registration invited

abbrev login_req : LoginPostReq
login_req = record {
  challenge_token = "challenge";
  authentication_response = [];
  device_info = none;
}

known_ip : client_ip_from_context (with_client_ip [] (v4 10)) ≡ some (v4 10)
unfolding client_ip_from_context value with_client_ip
known_ip = refl

login_endpoint_reports_clone_example :
    (w : World) × (handle_login_post_request env cfg
        (authenticator 4)
        (with_client_ip [] (v4 10))
        (body login_req)
        two_sessions
      ≡ (ok (response cloned), w))
    × Revokes env (λ n. refl) cfg (5 ∷ 6 ∷ []) 1 100 w.db
login_endpoint_reports_clone_example =
    login_endpoint_reports_clone env (λ n. refl) cfg (authenticator 4) (with_client_ip [] (v4 10))
      (v4 10) login_req two_sessions (tick two_sessions) (answer 4) phone
      two_sessions-HasDistinctIds credentials-HasDistinctCredentials known_ip refl refl phone_found
      refl replay-is_suspect
