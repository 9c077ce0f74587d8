-- ===== src/Application/FinishInviteRegistration.antt =====
-- internal/application/finish_invite_registration.go
pub mod Laws
use hsa.Prelude.{String, List, [], ◌∷◌, Bytes, length, is_empty, if◌then◌else◌}
use hsa.Failure.{
  Error, sentinel, errors_is, not_found, invite_not_found, creator_not_found, wrapped_keys_required,
}
use hsa.Domain.User
use hsa.Domain.User.{Uuid, Time, User, next_invitee_role}
use hsa.Domain.Invite.{Invite, redeem}
use hsa.Domain.Credential
use hsa.Domain.Credential.{Credential, set_sign_count}
use hsa.Domain.Session.{Addr}
use hsa.Domain.Key
use hsa.Domain.Key.{Scope, WrappedKey, Policy, validate_count}
use hsa.Storage.Transaction.{run_in_transaction}
use hsa.Storage.Users
use hsa.Storage.Invites
use hsa.Storage.Credentials
use hsa.Storage.Keys
use hsa.Application.Auth.{RegistrationResult, Registrator}
use hsa.Application.SessionIssuer.{SessionConfig, issue}
use hsa.Runtime.{Env, Context, M, pure, raise, lift, ◌>>=◌, ◌>>◌, map_err, time_now, new_id}

pub record WrappedKeyInput : Type 0 where
  pub scope : Scope
  pub wrapped_dek : Bytes
  pub wrap_algorithm : String

pub record RegistrationInput : Type 0 where
  pub challenge_token : String
  pub registration_response : Bytes
  pub wrapped_keys : List WrappedKeyInput
  pub device_info : String
  pub ip_address : Addr

abbrev pub not_found_to_invite_not_found : Error → Error
not_found_to_invite_not_found e = if errors_is e not_found then sentinel invite_not_found else e

abbrev pub not_found_to_creator_not_found : Error → Error
not_found_to_creator_not_found e = if errors_is e not_found then sentinel creator_not_found else e

module _ (env : Env) (cfg : SessionConfig) where
  unfoldable pub find_invite_creator : Uuid → M User
  find_invite_creator creator_id =
      map_err not_found_to_creator_not_found (Users.find_by_id env creator_id)

  unfoldable pub redeem_invite : (invite_id : Uuid) → (user_id : Uuid) → Time → M Invite
  redeem_invite invite_id user_id now = do
    inv ← map_err not_found_to_invite_not_found (Invites.find_by_id env invite_id)
    redeemed ← lift (redeem user_id now inv)
    Invites.save env redeemed
    pure redeemed

  unfoldable pub create_user_and_credential :
      RegistrationResult → (creator : User) → Time → M (User × Credential)
  create_user_and_credential res creator now = do
    u ← lift (User.new res.user_id (next_invitee_role creator) creator.id now)
    Users.save env u
    new_cred_id ← new_id env
    made ← lift (Credential.new new_cred_id res.external_id u.id res.public_key res.transports now)
    cred ← lift (set_sign_count res.initial_sign_count made)
    Credentials.save env cred
    pure (u, cred)

  -- The loop that makes the keys.
  unfoldable pub new_wrapped_keys : Uuid → Uuid → Time → List WrappedKeyInput → M (List WrappedKey)
  new_wrapped_keys user_id cred_id now [] = pure []
  new_wrapped_keys user_id cred_id now (wk ∷ wks) = do
    id ← new_id env
    k ← lift (Key.new id user_id cred_id wk.scope wk.wrapped_dek wk.wrap_algorithm now)
    rest ← new_wrapped_keys user_id cred_id now wks
    pure (k ∷ rest)

  unfoldable pub save_wrapped_keys : Uuid → Uuid → List WrappedKeyInput → Time → M (Unit {0})
  save_wrapped_keys user_id cred_id inputs now = do
    wrapped ← new_wrapped_keys user_id cred_id now inputs
    Keys.save env wrapped

  unfoldable pub register_tx :
      RegistrationInput → RegistrationResult → Context → M (String × String)
  register_tx input result ctx = do
    now ← time_now env
    inv ← redeem_invite result.invite_id result.user_id now
    creator ← find_invite_creator inv.created_by
    (u, cred) ← create_user_and_credential result creator now
    save_wrapped_keys u.id cred.id input.wrapped_keys now
    issue env cfg ctx u.id input.device_info input.ip_address now

  -- `Execute`: the access token and the raw refresh token.
  unfoldable pub execute : Policy → Registrator → Context → RegistrationInput → M (String × String)
  execute key_policy registrator ctx input =
      if is_empty input.wrapped_keys then raise (sentinel wrapped_keys_required) else do
        lift (validate_count key_policy (length input.wrapped_keys))
        result ← registrator.finish ctx input.challenge_token input.registration_response
        run_in_transaction env ctx (register_tx input result)
