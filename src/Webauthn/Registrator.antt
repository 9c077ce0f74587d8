-- ===== src/Webauthn/Registrator.antt =====
-- internal/infrastructure/auth/webauthn/registrator.go. What `parsePRFExtension` finds is only
-- written to the log.
use hsa.Prelude.{ℕ, String, [], Bytes}
use hsa.Failure.{sentinel, challenge_expired}
use hsa.Domain.User.{Uuid}
use hsa.Application.Auth
use hsa.Application.Auth.{RegistrationResult}
use hsa.Webauthn.{WebauthnUser, Library, ChallengeCodec}
use hsa.Webauthn.Authenticator.{draw}
use hsa.Runtime.{Context, M, pure, lift, ◌>>=◌, map_err}

pub record ChallengePayload (S : Type 0) : Type 0 where
  pub session_data : S
  pub invite_id : Uuid
  pub user_id : Uuid

abbrev pub webauthn_user : Uuid → WebauthnUser
webauthn_user id = record { id = id; credentials = [] }

module _ {S O R C : Type 0} (wa : Library S O R C) where
  module _ (challenge : ChallengeCodec (ChallengePayload S)) (ttl : ℕ) where
    unfoldable pub begin :
        Context → (candidate_user_id : Uuid) → (invite_id : Uuid) → M (String × Bytes)
    begin ctx candidate_user_id invite_id = do
      (options, session_data) ←
          draw (λ n. wa.begin_registration n (webauthn_user candidate_user_id))
      token ←
          challenge.encode
            (record {
              session_data = session_data;
              invite_id = invite_id;
              user_id = candidate_user_id;
            })
            ttl
      opts_json ← lift (wa.marshal_options options)
      pure (token, opts_json)

    unfoldable pub finish : Context → String → Bytes → M RegistrationResult
    finish ctx challenge_token response = do
      payload ← map_err (λ e. sentinel challenge_expired) (challenge.decode challenge_token)
      parsed ← lift (wa.parse_creation_response response)
      cred ←
          draw (λ n.
            wa.create_credential n (webauthn_user payload.user_id) payload.session_data parsed)
      pure (record {
        user_id = payload.user_id;
        invite_id = payload.invite_id;
        external_id = cred.id;
        public_key = cred.public_key;
        transports = cred.transport;
        initial_sign_count = cred.sign_count;
      })

    -- The adapter as the use cases take it.
    unfoldable pub new_registrator : Auth.Registrator
    new_registrator = record { begin = begin; finish = finish }
