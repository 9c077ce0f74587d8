-- ===== src/Tests/Passkeys.antt =====
-- The adapters over a toy WebAuthn, which accepts the first credential of the user that it is given.
use hsa.Prelude.{
  ℕ, String, none, some, false, List, [], ◌∷◌, map, Bytes, In, find_first, exists, select, upsert,
  bytes_eq, leb, if◌then◌else◌, ◌≡◌, refl, sym, ap, subst, inl, arith,
}
use hsa.Failure.{opaque, Result, ok, err, panic, errors_is}
use hsa.Failure.Laws.{ok-injective}
use hsa.Domain.User.{Uuid, Time, role_from_string}
use hsa.Domain.Session
use hsa.Domain.Session.{v4}
use hsa.Domain.Credential
use hsa.Domain.Credential.{set_sign_count}
use hsa.Storage.Rows.{CredentialRow, null_uuid_to_ptr}
use hsa.Storage.Queries.{
  find_user_by_id, save_refresh_token, save_refresh_tokens, find_credential_by_external_id,
  save_credential, list_wrapped_keys_by_credential_id, list_credentials_by_user_id,
  order_by_created, insert_by_created,
}
use hsa.Storage.Transaction.{run_in_transaction, run_in_tx, end_tx, commit}
use hsa.Storage.Users
use hsa.Storage.Sessions
use hsa.Storage.Sessions.{session_to_row}
use hsa.Storage.Credentials
use hsa.Storage.Credentials.{row_to_credential, credential_to_row}
use hsa.Storage.Keys
use hsa.Crypto.{generate_random_base32, generate_hash, generate_token, issue_access_token}
use hsa.Crypto.Tokens.{
  Parsed, claims, rule_error, GetString, Sealing, challenge_token, encode, decode,
}
use hsa.Crypto.Claims.{text_of, in_time}
use hsa.Crypto.Tokens.Challenge.{Reads}
use hsa.Application.Auth.{AuthenticationResult, RegistrationResult, Authenticator}
use hsa.Application.SessionIssuer
use hsa.Application.FinishLogin
use hsa.Application.FinishLogin.{LoginInput, LoginOutput}
use hsa.Application.FinishLogin.Reads.{logged_in}
use hsa.Webauthn.{LibCredential, WebauthnUser, Library, token_codec}
use hsa.Webauthn.Authenticator.{
  finish, LoginChallengePayload, to_webauthn_credential, get_validate_func, new_authenticator,
}
use hsa.Webauthn.Registrator
use hsa.Webauthn.Registrator.{ChallengePayload}
use hsa.Webauthn.Login.{ChecksPasskey}
use hsa.Webauthn.SignIn.{HasDistinctExternalIds, login_opens_own_session}
use hsa.Webauthn.Binding.{registration_is_bound}
use hsa.Tests.Fixtures.{env, cfg, outside, two_sessions}
use hsa.Tests.Sealed.{seal, unseal, unseal-seal, escape, unescape}
use hsa.Tests.Signed.{read, write, signing, paseto, signing-ReadsOwn}
use hsa.Runtime.{World, ◌>>=◌, map_err, statement, time_now, new_id}

abbrev pick_from : List LibCredential → Uuid × World → Result LibCredential × (Uuid × World)
pick_from [] x = (err (opaque 3), x)
pick_from (c ∷ cs) x = (ok (record c { sign_count = 5 }), x)

abbrev pick : Result WebauthnUser × (Uuid × World) → Result LibCredential × (Uuid × World)
pick (ok u, x) = pick_from u.credentials x
pick (err e, x) = (err e, x)
pick (panic p, x) = (panic p, x)

abbrev first_byte : Bytes → Result Uuid
first_byte [] = err (opaque 4)
first_byte (b ∷ bs) = ok b

abbrev webauthn : Library (Unit {0}) (Unit {0}) (Unit {0}) (Unit {0})
webauthn = record {
  begin_discoverable_login = λ n. ok (tt, tt);
  begin_registration = λ n u. ok (tt, tt);
  marshal_options = λ o. ok [];
  parse_request_response = λ b. ok tt;
  parse_creation_response = λ b. ok tt;
  validate_passkey_login = λ handler s r x. pick (handler [] (1 ∷ []) x);
  create_credential = λ n u s c. ok (record {
    id = 3 ∷ [];
    public_key = 4 ∷ [];
    sign_count = 0;
    clone_warning = false;
    transport = [];
  });
  uuid_from_bytes = first_byte;
}

pick_from-eq-ok :
    (cs : List LibCredential) (x : Uuid × World) {c : LibCredential} {x' : Uuid × World}
    → pick_from cs x ≡ (ok c, x')
    → (x ≡ x') × In c.id (map (λ (k : LibCredential). k.id) cs)
pick_from-eq-ok [] x h = absurd (ground arith)
pick_from-eq-ok (k ∷ ks) x {c} {x'} h =
    let same : record k { sign_count = 5 } ≡ c = ok-injective (ap (λ p. p.0) h) in
    (ap (λ p. p.1) h, inl (sym (ap (λ (l : LibCredential). l.id) same)))

pick-eq-ok :
    (p : Result WebauthnUser × (Uuid × World)) {c : LibCredential} {x' : Uuid × World}
    → pick p ≡ (ok c, x')
    → (u : WebauthnUser) × (p ≡ (ok u, x'))
      × In c.id (map (λ (k : LibCredential). k.id) u.credentials)
pick-eq-ok (ok u, x) h =
    let (same, among) = pick_from-eq-ok u.credentials x h in (u, ap (λ y. (ok u, y)) same, among)
pick-eq-ok (err e, x) h = absurd (ground arith)
pick-eq-ok (panic p, x) h = absurd (ground arith)

webauthn-ChecksPasskey : ChecksPasskey webauthn
webauthn-ChecksPasskey handler s r x x' c h =
    let (u, handled, among) = pick-eq-ok (handler [] (1 ∷ []) x) h in
    ([], 1 ∷ [], u, handled, among)

abbrev open_local : Time → ℕ × String → Parsed GetString
open_local now (expires, raw) = if leb now expires then claims (λ name. some raw) else rule_error 0

abbrev login_sealing : Sealing (LoginChallengePayload (Unit {0}))
login_sealing = record {
  marshal = λ p. ok "session";
  unmarshal = λ s. ok (record { session_data = tt });
  encrypt = λ token. "";
  parse_local = λ now token. open_local now (unseal token);
}

abbrev own_input : LoginInput
own_input = record {
  challenge_token = seal 400 "session";
  authentication_response = [];
  device_info = "phone";
  ip_address = v4 10;
}

abbrev passkeys : Authenticator
passkeys = new_authenticator env webauthn (token_codec env login_sealing) 300

abbrev after_own : World
after_own = (FinishLogin.execute env cfg passkeys outside own_input two_sessions).1

abbrev own_output : LoginOutput
own_output = record {
  access_token = "access";
  refresh_token = "second";
  wrapped_keys = record { scope = 0; wrapped_dek = 7 ∷ []; wrap_algorithm = "aes" } ∷ [];
}

own_run :
    FinishLogin.execute env cfg passkeys outside own_input two_sessions ≡ (ok own_output, after_own)
unfolding FinishLogin.execute run_in_transaction run_in_tx end_tx commit ◌>>=◌ time_now map_err
    statement errors_is FinishLogin.login_tx FinishLogin.find_credential
    FinishLogin.check_credential FinishLogin.settle FinishLogin.open_session
    Credentials.find_by_external_id find_credential_by_external_id find_first bytes_eq
    row_to_credential Credential.is_revoked set_sign_count Credentials.save credential_to_row
    save_credential exists upsert Keys.find_by_credential_id list_wrapped_keys_by_credential_id
    select Keys.rows_to_wrapped_keys Keys.row_to_wrapped_key Keys.scope_from_pg SessionIssuer.issue
    generate_token generate_random_base32 generate_hash new_id Session.new
    SessionIssuer.issue_access Users.find_by_id find_user_by_id Users.row_to_user role_from_string
    null_uuid_to_ptr issue_access_token Sessions.save session_to_row save_refresh_tokens
    save_refresh_token new_authenticator token_codec finish decode seal unseal get_validate_func
    Credentials.find_by_user_id list_credentials_by_user_id order_by_created insert_by_created
    to_webauthn_credential
own_run = refl

fixture-HasDistinctExternalIds : HasDistinctExternalIds two_sessions.db.credentials
unfolding exists
fixture-HasDistinctExternalIds = (refl, tt)

login_opens_own_session_example :
    (result : AuthenticationResult) × (r : CredentialRow) × (step : ℕ) × (hash : String) × In r
      two_sessions.db.credentials
    × (r.user_id ≡ result.user_id)
    × (r.external_id ≡ result.external_id)
    × (r.revoked_at ≡ none)
    × (result.clone_warning ≡ false)
    × (generate_hash env "second" ≡ ok hash)
    × (after_own.db
        ≡ logged_in env cfg own_input
            (record (row_to_credential r) {
              sign_count = result.new_sign_count;
              user_id = result.user_id;
            })
            100
            (env.fresh_id step)
            hash
            two_sessions.db)
login_opens_own_session_example =
    login_opens_own_session env cfg webauthn login_sealing 300 outside own_input two_sessions
      webauthn-ChecksPasskey fixture-HasDistinctExternalIds own_run

abbrev payload_of : ℕ × String → ChallengePayload (Unit {0})
payload_of (invite, rest) = record {
  session_data = tt;
  invite_id = invite;
  user_id = (unseal rest).0;
}

abbrev registration_sealing : Sealing (ChallengePayload (Unit {0}))
registration_sealing = record {
  marshal = λ p. ok (seal p.invite_id (seal p.user_id ""));
  unmarshal = λ s. ok (payload_of (unseal s));
  encrypt = signing.v4_sign;
  parse_local = paseto.parse_public;
}

registration_sealing-Reads : Reads registration_sealing
registration_sealing-Reads = record {
  unmarshals = λ p raw h.
      subst (λ s. registration_sealing.unmarshal s ≡ ok p) (ok-injective h)
        (rw (unseal-seal p.invite_id (seal p.user_id ""), unseal-seal p.user_id "") refl);
  own = signing-ReadsOwn;
}

abbrev registration_token : String
registration_token = signing.v4_sign (challenge_token (seal 7 (seal 2 "")) 401000000000)

abbrev after_begin : World
after_begin =
    (Registrator.begin webauthn (token_codec signing registration_sealing) 300000000000 outside 2 7
      two_sessions).1

abbrev after_finish : World
after_finish =
    (Registrator.finish webauthn (token_codec signing registration_sealing) 300000000000 outside
      registration_token [] after_begin).1

abbrev registered : RegistrationResult
registered = record {
  user_id = 2;
  invite_id = 7;
  external_id = 3 ∷ [];
  public_key = 4 ∷ [];
  transports = [];
  initial_sign_count = 0;
}

begin_run :
    Registrator.begin webauthn
      (token_codec signing registration_sealing)
      300000000000
      outside
      2
      7
      two_sessions
    ≡ (ok (registration_token, []), after_begin)
unfolding Registrator.begin token_codec encode challenge_token ◌>>=◌ time_now seal
begin_run = refl

finish_run :
    Registrator.finish webauthn
      (token_codec signing registration_sealing)
      300000000000
      outside
      registration_token
      []
      after_begin
    ≡ (ok registered, after_finish)
unfolding Registrator.finish Registrator.begin token_codec encode decode challenge_token ◌>>=◌
    time_now map_err seal unseal escape unescape read write text_of in_time
finish_run = refl

registration_is_bound_example : (registered.user_id ≡ 2) × (registered.invite_id ≡ 7)
registration_is_bound_example =
    registration_is_bound signing webauthn registration_sealing 300000000000
      registration_sealing-Reads outside outside 2 7 [] two_sessions after_begin begin_run
      finish_run
