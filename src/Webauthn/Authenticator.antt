-- ===== src/Webauthn/Authenticator.antt =====
-- internal/infrastructure/auth/webauthn/authenticator.go
use hsa.Prelude.{ℕ, String, List, [], map, Bytes, false}
use hsa.Failure.{sentinel, Result, ok, err, panic, challenge_expired, user_handle_invalid}
use hsa.Domain.User.{Uuid, nil_uuid}
use hsa.Domain.Credential.{Credential}
use hsa.Storage.Credentials
use hsa.Application.Auth
use hsa.Application.Auth.{AuthenticationResult}
use hsa.Webauthn.{LibCredential, WebauthnUser, V, Library, ChallengeCodec}
use hsa.Runtime.{Env, World, Context, M, pure, lift, ◌>>=◌, map_err, tick}

pub record LoginChallengePayload (S : Type 0) : Type 0 where
  pub session_data : S

unfoldable pub to_webauthn_credential : Credential → LibCredential
to_webauthn_credential c = record {
  id = c.external_id;
  public_key = c.public_key;
  sign_count = c.sign_count;
  clone_warning = false;
  transport = [];
}

-- The variable of the caller, from its zero value on, and what it holds in the end.
abbrev pub read_variable : {A : Type 0} → Result A × (Uuid × World) → Result (A × Uuid) × World
read_variable (ok a, (out, w)) = (ok (a, out), w)
read_variable (err e, (out, w)) = (err e, w)
read_variable (panic p, (out, w)) = (panic p, w)

abbrev pub with_variable : {A : Type 0} → V A → M (A × Uuid)
with_variable v w = read_variable (v (nil_uuid, w))

abbrev pub found_for :
    Uuid → Result (List Credential) × World → Result WebauthnUser × (Uuid × World)
found_for id (ok creds, w) =
    (ok (record { id = id; credentials = map to_webauthn_credential creds }), (id, w))
found_for id (err e, w) = (err e, (id, w))
found_for id (panic p, w) = (panic p, (id, w))

-- `BeginDiscoverableLogin` and `BeginRegistration`: one effect, of the library's random source.
abbrev pub draw : {A : Type 0} → (ℕ → Result A) → M A
draw f w = (f w.step, tick w)

module _ (env : Env) {S O R C : Type 0} (wa : Library S O R C) where
  abbrev pub handle_candidate : Result Uuid → V WebauthnUser
  handle_candidate (ok id) (out, w) = found_for id (Credentials.find_by_user_id env id w)
  handle_candidate (err e) x = (err (sentinel user_handle_invalid), x)
  handle_candidate (panic p) x = (panic p, x)

  -- The closure of `getValidateFunc`, with `user.NewUserID`.
  unfoldable pub get_validate_func : (raw_id : Bytes) → (user_handle : Bytes) → V WebauthnUser
  get_validate_func raw_id user_handle = handle_candidate (wa.uuid_from_bytes user_handle)

  module _ (challenge : ChallengeCodec (LoginChallengePayload S)) (ttl : ℕ) where
    unfoldable pub begin : Context → M (String × Bytes)
    begin ctx = do
      (options, session_data) ← draw wa.begin_discoverable_login
      token ← challenge.encode (record { session_data = session_data }) ttl
      opts_json ← lift (wa.marshal_options options)
      pure (token, opts_json)

    unfoldable pub finish : Context → String → Bytes → M AuthenticationResult
    finish ctx challenge_token response = do
      payload ← map_err (λ e. sentinel challenge_expired) (challenge.decode challenge_token)
      parsed ← lift (wa.parse_request_response response)
      (cred, user_id) ←
          with_variable (wa.validate_passkey_login get_validate_func payload.session_data parsed)
      pure (record {
        user_id = user_id;
        external_id = cred.id;
        new_sign_count = cred.sign_count;
        clone_warning = cred.clone_warning;
      })

    -- The adapter as the use cases take it.
    unfoldable pub new_authenticator : Auth.Authenticator
    new_authenticator = record { begin = begin; finish = finish }
