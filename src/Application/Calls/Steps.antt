-- ===== src/Application/Calls/Steps.antt =====
-- What any sequence of calls does to one session.
use hsa.Prelude.{ℕ, String, none, false, not, if◌then◌else◌, [], ◌∷◌, ◌==◌, ◌≡◌, refl, inr}
use hsa.Failure.{
  Error, Result, ok, err, panic, errors_is, not_found, sentinel, refresh_token_reuse_detected,
  refresh_token_invalid, token_already_revoked, session_forbidden, invite_already_used,
  invite_expired,
}
use hsa.Domain.User.{Uuid, Time, User}
use hsa.Domain.Session
use hsa.Domain.Session.{RefreshToken}
use hsa.Storage.Rows.{Db}
use hsa.Storage.Sessions.{session_to_row}
use hsa.Storage.Sessions.Status.{Steps, save-Preserves}
use hsa.Storage.Untouched.{
  find_root-Preserves, save_user-Preserves, find_by_token_hash-Preserves, find_session-Preserves,
  find_invite_by_hash-Preserves, count_invites-Preserves, save_invite-Preserves,
  descendants-Preserves,
}
use hsa.Storage.Preserves.{
  Preserves, >>=-Preserves, lift-Preserves, pure-Preserves, map_err-Preserves, time_now-Preserves,
  new_id-Preserves, run_in_transaction-Preserves,
}
use hsa.Crypto.Untouched.{generate_token-Preserves}
use hsa.Application.Auth.{Authenticator, Registrator}
use hsa.Application.SessionIssuer.{SessionConfig}
use hsa.Application.SessionIssuer.Steps.{rotate-Preserves}
use hsa.Application.RevokeAllUserSessions.Steps.{revoke-marks, revoke_all-Preserves}
use hsa.Application.RevokeSession
use hsa.Application.RevokeSession.{save_revoked, revoke_own}
use hsa.Application.RevokeCompromisedChain
use hsa.Application.RefreshAccessToken
use hsa.Application.RefreshAccessToken.{check_refresh_token, validate_refresh_token}
use hsa.Application.CreateInvite
use hsa.Application.CreateInvite.{create_tx}
use hsa.Application.BeginInviteRegistration
use hsa.Application.BeginInviteRegistration.{check_invite, begin_login}
use hsa.Application.BootstrapRoot
use hsa.Application.BootstrapRoot.{create_root, after_find}
use hsa.Domain.Invite
use hsa.Application.Calls.Users.{LeavesDb, leaves-Preserves, if-Preserves}
use hsa.Runtime.{Env, World, Context, raise}

module _ (id : Uuid) (env : Env) (cfg : SessionConfig)
    (other : (n : ℕ) → (env.fresh_id n == id) ≡ false) where
  check-Preserves :
      (ctx : Context) (now : Time) (t : RefreshToken)
      → Preserves (Steps id) (check_refresh_token env cfg ctx now t)
  unfolding check_refresh_token
  check-Preserves ctx now t =
      if-Preserves id env cfg other (Session.is_revoked t) _ _
        (>>=-Preserves (Steps id) _ _ (revoke_all-Preserves id env ctx (t.user_id ∷ []))
          (λ u. lift-Preserves (Steps id) (err (sentinel refresh_token_reuse_detected))))
        (if-Preserves id env cfg other (not (Session.is_valid t now)) _ _
          (lift-Preserves (Steps id) (err (sentinel refresh_token_invalid)))
          (pure-Preserves (Steps id) t))

  pub refresh-Preserves :
      (ctx : Context) (raw : String)
      → Preserves (Steps id) (RefreshAccessToken.execute env cfg ctx raw)
  unfolding RefreshAccessToken.execute validate_refresh_token
  refresh-Preserves ctx raw = run_in_transaction-Preserves (Steps id) env ctx _ (λ c.
      >>=-Preserves (Steps id) _ _ (time_now-Preserves (Steps id) env) (λ now.
        >>=-Preserves (Steps id) _ _
          (>>=-Preserves (Steps id) _ _ (lift-Preserves (Steps id) _) (λ hash.
            >>=-Preserves (Steps id) _ _
              (map_err-Preserves (Steps id) _ _ (find_by_token_hash-Preserves id env hash))
              (λ t. check-Preserves c now t)))
          (λ old. rotate-Preserves id env cfg other c old now)))

  save_revoked-Preserves :
      (now : Time) (t : RefreshToken) (r : Result RefreshToken)
      → Session.revoke now t ≡ r
      → Preserves (Steps id) (save_revoked env r)
  unfolding save_revoked session_to_row
  save_revoked-Preserves now t (ok gone) h =
      save-Preserves id env (gone ∷ []) (inr (now, revoke-marks now t h), tt)
  save_revoked-Preserves now t (err e) h =
      if-Preserves id env cfg other (errors_is e token_already_revoked) _ _
        (pure-Preserves (Steps id) tt) (lift-Preserves (Steps id) (err e))
  save_revoked-Preserves now t (panic p) h = lift-Preserves (Steps id) (panic p)

  pub revoke-Preserves :
      (ctx : Context) (session user : Uuid)
      → Preserves (Steps id) (RevokeSession.execute env ctx session user)
  unfolding RevokeSession.execute revoke_own
  revoke-Preserves ctx session user =
      >>=-Preserves (Steps id) _ _ (time_now-Preserves (Steps id) env) (λ now.
        run_in_transaction-Preserves (Steps id) env ctx _ (λ c.
          >>=-Preserves (Steps id) _ _
            (map_err-Preserves (Steps id) _ _ (find_session-Preserves id env session))
            (λ t.
              if-Preserves id env cfg other (not (t.user_id == user)) _ _
                (lift-Preserves (Steps id) (err (sentinel session_forbidden)))
                (save_revoked-Preserves now t (Session.revoke now t) refl))))

  pub chain-Preserves :
      (ctx : Context) (user : Uuid)
      → Preserves (Steps id) (RevokeCompromisedChain.execute env ctx user)
  unfolding RevokeCompromisedChain.execute
  chain-Preserves ctx user =
      >>=-Preserves (Steps id) _ _ (descendants-Preserves id env user)
        (λ users. revoke_all-Preserves id env ctx users)

  pub invite-Preserves :
      (policy : Invite.Policy) (ttl : ℕ) (ctx : Context) (user : Uuid)
      → Preserves (Steps id) (CreateInvite.execute env policy ttl ctx user)
  unfolding CreateInvite.execute create_tx
  invite-Preserves policy ttl ctx user =
      >>=-Preserves (Steps id) _ _ (time_now-Preserves (Steps id) env) (λ now.
        run_in_transaction-Preserves (Steps id) env ctx _ (λ c.
          >>=-Preserves (Steps id) _ _ (count_invites-Preserves id env user now) (λ active.
            >>=-Preserves (Steps id) _ _ (lift-Preserves (Steps id) _) (λ u.
              >>=-Preserves (Steps id) _ _ (generate_token-Preserves (Steps id) env _) (λ p.
                >>=-Preserves (Steps id) _ _ (new_id-Preserves (Steps id) env) (λ new.
                  >>=-Preserves (Steps id) _ _ (lift-Preserves (Steps id) _) (λ inv.
                    >>=-Preserves (Steps id) _ _ (save_invite-Preserves id env inv)
                      (λ v. pure-Preserves (Steps id) _))))))))

  pub check_invite-Preserves :
      (now : Time) (i : Invite.Invite) → Preserves (Steps id) (check_invite env now i)
  unfolding check_invite
  check_invite-Preserves now i =
      if-Preserves id env cfg other (Invite.is_used i) _ _
        (lift-Preserves (Steps id) (err (sentinel invite_already_used)))
        (if-Preserves id env cfg other (Invite.is_expired i now) _ _
          (lift-Preserves (Steps id) (err (sentinel invite_expired))) (pure-Preserves (Steps id) i))

  pub begin_registration-Preserves :
      (r : Registrator) (ctx : Context) (code : String)
      → ((user invite : Uuid) → LeavesDb (r.begin ctx user invite))
      → Preserves (Steps id) (BeginInviteRegistration.execute env r ctx code)
  unfolding BeginInviteRegistration.execute
  begin_registration-Preserves r ctx code leaves =
      >>=-Preserves (Steps id) _ _ (time_now-Preserves (Steps id) env) (λ now.
        >>=-Preserves (Steps id) _ _ (lift-Preserves (Steps id) _) (λ hash.
          >>=-Preserves (Steps id) _ _ (find_invite_by_hash-Preserves id env hash) (λ inv.
            >>=-Preserves (Steps id) _ _ (check_invite-Preserves now inv) (λ checked.
              >>=-Preserves (Steps id) _ _ (new_id-Preserves (Steps id) env) (λ candidate.
                leaves-Preserves id env cfg other (r.begin ctx candidate checked.id)
                  (leaves candidate checked.id))))))

  pub begin_login-Preserves :
      (a : Authenticator) (ctx : Context)
      → LeavesDb (a.begin ctx)
      → Preserves (Steps id) (begin_login a ctx)
  unfolding begin_login
  begin_login-Preserves a ctx leaves = leaves-Preserves id env cfg other (a.begin ctx) leaves

  create_root-Preserves : Preserves (Steps id) (create_root env)
  unfolding create_root
  create_root-Preserves = >>=-Preserves (Steps id) _ _ (time_now-Preserves (Steps id) env) (λ now.
      >>=-Preserves (Steps id) _ _ (new_id-Preserves (Steps id) env) (λ new.
        >>=-Preserves (Steps id) _ _ (lift-Preserves (Steps id) _) (λ root.
          >>=-Preserves (Steps id) _ _ (save_user-Preserves id env root)
            (λ u. pure-Preserves (Steps id) (root, none)))))

  missing-Preserves :
      (e : Error)
      → Preserves (Steps id) (if errors_is e not_found then create_root env else raise e)
  missing-Preserves e =
      if-Preserves id env cfg other (errors_is e not_found) (create_root env) (raise e)
        create_root-Preserves (lift-Preserves (Steps id) (err e))

  after_find-Rel :
      (d : Db) (p : Result User × World)
      → (Steps id).Rel d p.1.db
      → (Steps id).Rel d (after_find env p).1.db
  unfolding Preserves after_find
  after_find-Rel d (ok u, w) h = h
  after_find-Rel d (err e, w) h =
      (Steps id).trans d w.db ((if errors_is e not_found then create_root env else raise e) w).1.db
        h (missing-Preserves e w)
  after_find-Rel d (panic p, w) h = h

  pub bootstrap-Preserves : Preserves (Steps id) (BootstrapRoot.execute env)
  unfolding Preserves BootstrapRoot.execute
  bootstrap-Preserves w =
      after_find-Rel w.db (hsa.Storage.Users.find_root env w) (find_root-Preserves id env w)
