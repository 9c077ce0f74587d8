-- ===== src/Application/Calls/Laws.antt =====
-- What any sequence of calls does to one session: the sessions as an abstract state machine.
use hsa.Prelude.{ℕ, String, Bytes, List, [], ◌∷◌, ◌==◌, false, ◌≡◌, inl, refl}
use hsa.Domain.User.{Uuid}
use hsa.Storage.Preserves.{Preserves}
use hsa.Storage.Sessions.Status.{status, Moves, Moves-trans}
use hsa.Application.RevokeAllUserSessions.Steps.{revoke_all-Preserves}
use hsa.Application.Calls.{
  Call, begin_login, login, refresh, revoke_session, revoke_all, revoke_chain, create_invite,
  begin_registration, register, bootstrap, Service, call, calls,
}
use hsa.Application.Calls.Users.{LeavesDb, login-Preserves, register-Preserves}
use hsa.Application.Calls.Steps.{
  begin_login-Preserves, refresh-Preserves, revoke-Preserves, chain-Preserves, invite-Preserves,
  begin_registration-Preserves, bootstrap-Preserves,
}
use hsa.Runtime.{Env, World, Context}

-- The calls of WebAuthn, which keep their challenges elsewhere.
pub record LeaveDb (s : Service) (ctx : Context) : Type 0 where
  pub begins_login : LeavesDb (s.authenticator.begin ctx)
  pub finishes_login :
      (token : String) (response : Bytes) → LeavesDb (s.authenticator.finish ctx token response)
  pub begins_registration : (user invite : Uuid) → LeavesDb (s.registrator.begin ctx user invite)
  pub finishes_registration :
      (token : String) (response : Bytes) → LeavesDb (s.registrator.finish ctx token response)

module _ (env : Env) (s : Service) (ctx : Context) (id : Uuid)
    (other : (n : ℕ) → (env.fresh_id n == id) ≡ false) (leave : LeaveDb s ctx) where
  call-Moves :
      (c : Call) (w : World)
      → Moves (status id w.db.refresh_tokens) (status id (call env s ctx c w).db.refresh_tokens)
  unfolding call Preserves
  call-Moves begin_login w =
      begin_login-Preserves id env s.sessions other s.authenticator ctx leave.begins_login w
  call-Moves (login input) w =
      login-Preserves id env s.sessions other s.authenticator ctx input
        (leave.finishes_login input.challenge_token input.authentication_response) w
  call-Moves (refresh raw) w = refresh-Preserves id env s.sessions other ctx raw w
  call-Moves (revoke_session session user) w =
      revoke-Preserves id env s.sessions other ctx session user w
  call-Moves (revoke_all users) w = revoke_all-Preserves id env ctx users w
  call-Moves (revoke_chain user) w = chain-Preserves id env s.sessions other ctx user w
  call-Moves (create_invite user) w =
      invite-Preserves id env s.sessions other s.invites s.invite_ttl ctx user w
  call-Moves (begin_registration code) w =
      begin_registration-Preserves id env s.sessions other s.registrator ctx code
        leave.begins_registration w
  call-Moves (register input) w =
      register-Preserves id env s.sessions other s.keys s.registrator ctx input
        (leave.finishes_registration input.challenge_token input.registration_response) w
  call-Moves bootstrap w = bootstrap-Preserves id env s.sessions other w

  -- Whatever calls follow one another, with whatever arguments, failures and results, a session
  -- keeps its status or is revoked, so that a revoked session stays revoked and no call makes it
  -- live again: where the generator of ids gives out none equal to the session's, and the calls of
  -- WebAuthn leave the database alone.
  pub calls-Moves :
      (cs : List Call) (w : World)
      → Moves (status id w.db.refresh_tokens) (status id (calls env s ctx cs w).db.refresh_tokens)
  unfolding calls
  calls-Moves [] w = inl refl
  calls-Moves (c ∷ cs) w =
      Moves-trans (status id w.db.refresh_tokens) (status id (call env s ctx c w).db.refresh_tokens)
        (status id (calls env s ctx (c ∷ cs) w).db.refresh_tokens) (call-Moves c w)
        (calls-Moves cs (call env s ctx c w))
