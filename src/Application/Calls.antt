-- ===== src/Application/Calls.antt =====
-- The use cases as the calls that a client can make, one after the other.
pub mod Laws
pub mod Steps
pub mod Users
use hsa.Prelude.{ℕ, String, List, [], ◌∷◌}
use hsa.Domain.User.{Uuid}
use hsa.Domain.Invite
use hsa.Domain.Key
use hsa.Application.Auth.{Registrator, Authenticator}
use hsa.Application.SessionIssuer.{SessionConfig}
use hsa.Application.RevokeSession
use hsa.Application.RevokeAllUserSessions
use hsa.Application.RevokeCompromisedChain
use hsa.Application.RefreshAccessToken
use hsa.Application.CreateInvite
use hsa.Application.BeginInviteRegistration
use hsa.Application.FinishInviteRegistration
use hsa.Application.FinishInviteRegistration.{RegistrationInput}
use hsa.Application.FinishLogin
use hsa.Application.FinishLogin.{LoginInput}
use hsa.Application.BootstrapRoot
use hsa.Runtime.{Env, World, Context}

pub data Call : Type 0 where
  begin_login : Call
  login : LoginInput → Call
  refresh : (refresh_token : String) → Call
  revoke_session : (session_id : Uuid) → (user : Uuid) → Call
  revoke_all : List Uuid → Call
  revoke_chain : (compromised_user_id : Uuid) → Call
  create_invite : (created_by : Uuid) → Call
  begin_registration : (invite_code : String) → Call
  register : RegistrationInput → Call
  bootstrap : Call

-- What the calls are configured with.
pub record Service : Type 0 where
  pub sessions : SessionConfig
  pub invites : Invite.Policy
  pub invite_ttl : ℕ
  pub keys : Key.Policy
  pub authenticator : Authenticator
  pub registrator : Registrator

module _ (env : Env) (s : Service) (ctx : Context) where
  -- The state after a call, whatever it returned.
  unfoldable pub call : Call → World → World
  call begin_login w = (BeginInviteRegistration.begin_login s.authenticator ctx w).1
  call (login input) w = (FinishLogin.execute env s.sessions s.authenticator ctx input w).1
  call (refresh raw) w = (RefreshAccessToken.execute env s.sessions ctx raw w).1
  call (revoke_session id user) w = (RevokeSession.execute env ctx id user w).1
  call (revoke_all users) w = (RevokeAllUserSessions.execute env ctx users w).1
  call (revoke_chain user) w = (RevokeCompromisedChain.execute env ctx user w).1
  call (create_invite user) w = (CreateInvite.execute env s.invites s.invite_ttl ctx user w).1
  call (begin_registration code) w =
      (BeginInviteRegistration.execute env s.registrator ctx code w).1
  call (register input) w =
      (FinishInviteRegistration.execute env s.sessions s.keys s.registrator ctx input w).1
  call bootstrap w = (BootstrapRoot.execute env w).1

  unfoldable pub calls : List Call → World → World
  calls [] w = w
  calls (c ∷ cs) w = calls cs (call c w)
