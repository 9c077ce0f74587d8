-- ===== src/Http/Handler.antt =====
-- internal/presentation/http/handler.go. A use case runs on the request's context, which carries no
-- transaction.
pub mod Laws
pub mod Refresh
pub mod Login
use hsa.Prelude.{ℕ, Option, none, some, String, List, map, Bytes, false}
use hsa.Failure.{Error, sentinel, Result, ok, err, panic, unauthenticated, client_ip_unavailable}
use hsa.Domain.User.{Uuid, Time}
use hsa.Domain.Session.{Addr}
use hsa.Domain.Invite
use hsa.Domain.Key
use hsa.Domain.Key.{scope_to_string, scope_from_string}
use hsa.Errkit.{Registry, handle}
use hsa.Http.Auth.{RequestContext, user_id_from_context, client_ip_from_context}
use hsa.Http.Requests.{
  VerifyRes, verified, verify_failed, RevokeChainRes, chain_revoked, chain_failed, InvitesRes,
  invited, invite_failed, ChallengeRes, challenge, challenge_failed, LoginPostReq, LoginRes, logged,
  login_failed, login_answer, login_input, RegistrationCompletePostReq, registration_input,
}
use hsa.Http.Errors.{
  Response, verify_errors, invites_errors, registration_begin_errors, registration_complete_errors,
  login_begin_errors, login_errors, revoke_chain_errors, revoke_session_errors, refresh_errors,
}
use hsa.Application.Auth.{Registrator, Authenticator}
use hsa.Application.SessionIssuer.{SessionConfig}
use hsa.Application.RevokeSession
use hsa.Application.RefreshAccessToken
use hsa.Application.RevokeCompromisedChain
use hsa.Application.CreateInvite
use hsa.Application.BeginInviteRegistration
use hsa.Application.FinishInviteRegistration
use hsa.Application.FinishInviteRegistration.{WrappedKeyInput, RegistrationInput}
use hsa.Application.FinishLogin
use hsa.Application.FinishLogin.{LoginInput, LoginOutput, WrappedKeyOutput}
use hsa.Runtime.{Env, World, Context, M}

abbrev pub request : Context
request = record { in_tx = false }

-- `SessionsSessionIdDeleteNoContent`, or an error response.
pub data DeleteRes : Type 0 where
  no_content : DeleteRes
  delete_failed : Response → DeleteRes

abbrev pub map_response : {A : Type 0} → (Response → A) → Result Response → Result A
map_response f (ok r) = ok (f r)
map_response f (err e) = err e
map_response f (panic p) = panic p

abbrev pub respond_delete : Result (Unit {0}) × World → Result DeleteRes × World
respond_delete (ok _, w) = (ok no_content, w)
respond_delete (err e, w) = (map_response delete_failed (handle revoke_session_errors e), w)
respond_delete (panic p, w) = (panic p, w)

pub data RefreshRes : Type 0 where
  token_pair : (access_token : String) → (refresh_token : String) → RefreshRes
  refresh_failed : Response → RefreshRes

abbrev pub respond_refresh : Result (String × String) × World → Result RefreshRes × World
respond_refresh (ok (access, refresh), w) = (ok (token_pair access refresh), w)
respond_refresh (err e, w) = (map_response refresh_failed (handle refresh_errors e), w)
respond_refresh (panic p, w) = (panic p, w)

module _ (env : Env) where
  abbrev pub delete_as : Option Uuid → (session_id : Uuid) → M DeleteRes
  delete_as none session_id w =
      (map_response delete_failed (handle revoke_session_errors (sentinel unauthenticated)), w)
  delete_as (some user) session_id w =
      respond_delete (RevokeSession.execute env request session_id user w)

  unfoldable pub sessions_session_id_delete : RequestContext → (session_id : Uuid) → M DeleteRes
  sessions_session_id_delete ctx session_id = delete_as (user_id_from_context ctx) session_id

  unfoldable pub token_refresh_post : SessionConfig → (refresh_token : String) → M RefreshRes
  token_refresh_post cfg refresh_token w =
      respond_refresh (RefreshAccessToken.execute env cfg request refresh_token w)

-- The endpoints that answer with a value `A` on success, made of what the use case returned.
abbrev pub respond :
    {A B : Type 0}
    → Registry Response
    → (Response → A)
    → (B → A)
    → Result B × World
    → Result A × World
respond errors failed success (ok b, w) = (ok (success b), w)
respond errors failed success (err e, w) = (map_response failed (handle errors e), w)
respond errors failed success (panic p, w) = (panic p, w)

abbrev verify_as : Option Uuid → Result VerifyRes
verify_as none = map_response verify_failed (handle verify_errors (sentinel unauthenticated))
verify_as (some user) = ok (verified user)

unfoldable pub auth_verify_get : RequestContext → Result VerifyRes
auth_verify_get ctx = verify_as (user_id_from_context ctx)

module _ (env : Env) where
  -- The role of the caller is checked by the bearer check alone.
  unfoldable pub admin_users_user_id_revoke_chain_post : (user_id : Uuid) → M RevokeChainRes
  admin_users_user_id_revoke_chain_post user_id w =
      respond revoke_chain_errors chain_failed (λ u. chain_revoked)
        (RevokeCompromisedChain.execute env request user_id w)

  abbrev pub invite_as : Invite.Policy → (ttl : ℕ) → Option Uuid → M InvitesRes
  invite_as policy ttl none w =
      (map_response invite_failed (handle invites_errors (sentinel unauthenticated)), w)
  invite_as policy ttl (some user) w =
      respond invites_errors invite_failed (λ p. invited p.0 p.1)
        (CreateInvite.execute env policy ttl request user w)

  unfoldable pub invites_post : Invite.Policy → (ttl : ℕ) → RequestContext → M InvitesRes
  invites_post policy ttl ctx = invite_as policy ttl (user_id_from_context ctx)

  unfoldable pub login_begin_post : Authenticator → M ChallengeRes
  login_begin_post authenticator w =
      respond login_begin_errors challenge_failed (λ p. challenge p.0 p.1)
        (BeginInviteRegistration.begin_login authenticator request w)

  abbrev pub login_from : SessionConfig → Authenticator → LoginPostReq → Option Addr → M LoginRes
  login_from cfg authenticator req none w =
      (map_response login_failed (handle login_errors (sentinel client_ip_unavailable)), w)
  login_from cfg authenticator req (some ip) w =
      respond login_errors login_failed login_answer
        (FinishLogin.execute env cfg authenticator request (login_input req ip) w)

  unfoldable pub login_post :
      SessionConfig → Authenticator → RequestContext → LoginPostReq → M LoginRes
  login_post cfg authenticator ctx req =
      login_from cfg authenticator req (client_ip_from_context ctx)

  unfoldable pub registration_begin_post : Registrator → (invite_code : String) → M ChallengeRes
  registration_begin_post registrator invite_code w =
      respond registration_begin_errors challenge_failed (λ p. challenge p.0 p.1)
        (BeginInviteRegistration.execute env registrator request invite_code w)

  abbrev pub register_from :
      SessionConfig
      → Key.Policy
      → Registrator
      → RegistrationCompletePostReq
      → Option Addr
      → M RefreshRes
  register_from cfg policy registrator req none w = (
    map_response refresh_failed
        (handle registration_complete_errors (sentinel client_ip_unavailable)),
    w,
  )
  register_from cfg policy registrator req (some ip) w =
      respond registration_complete_errors refresh_failed (λ p. token_pair p.0 p.1)
        (FinishInviteRegistration.execute env cfg policy registrator request
          (registration_input req ip) w)

  -- The answer is a `TokenPair`, as that of a refresh.
  unfoldable pub registration_complete_post :
      SessionConfig
      → Key.Policy
      → Registrator
      → RequestContext
      → RegistrationCompletePostReq
      → M RefreshRes
  registration_complete_post cfg policy registrator ctx req =
      register_from cfg policy registrator req (client_ip_from_context ctx)
