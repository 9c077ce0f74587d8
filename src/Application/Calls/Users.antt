-- ===== src/Application/Calls/Users.antt =====
-- Logging in and registering: what each part does to a session with an id that is not given out
-- again. The calls of WebAuthn are taken to leave the database alone.
use hsa.Prelude.{
  ℕ, Option, none, some, Bool, true, false, List, [], ◌∷◌, Bytes, length, is_empty, ◌==◌, ◌≡◌, sym,
  subst, if◌then◌else◌,
}
use hsa.Failure.{Result, err, sentinel, credential_revoked, wrapped_keys_required}
use hsa.Domain.User.{Uuid, Time, User}
use hsa.Domain.Credential.{Credential, is_revoked, set_sign_count}
use hsa.Domain.Key.{Policy, validate_count}
use hsa.Storage.Sessions.Status.{Steps}
use hsa.Storage.Untouched.{
  find_user-Preserves, save_user-Preserves, find_credential-Preserves, save_credential-Preserves,
  find_invite-Preserves, save_invite-Preserves, save_keys-Preserves, find_keys-Preserves,
}
use hsa.Storage.Preserves.{
  Preserves, >>=-Preserves, lift-Preserves, pure-Preserves, map_err-Preserves, time_now-Preserves,
  new_id-Preserves, run_in_transaction-Preserves,
}
use hsa.Application.Auth.{AuthenticationResult, RegistrationResult, Authenticator, Registrator}
use hsa.Application.SessionIssuer.{SessionConfig}
use hsa.Application.SessionIssuer.Steps.{issue-Preserves}
use hsa.Application.RevokeAllUserSessions.Steps.{revoke_all-Preserves}
use hsa.Application.FinishLogin
use hsa.Application.FinishLogin.{
  LoginInput, LoginOutput, is_regression, counted, check_credential, find_credential, handle_clone,
  open_session, settle, login_tx, login_outcome,
}
use hsa.Application.FinishInviteRegistration
use hsa.Application.FinishInviteRegistration.{
  RegistrationInput, WrappedKeyInput, find_invite_creator, redeem_invite,
  create_user_and_credential, new_wrapped_keys, save_wrapped_keys, register_tx,
}
use hsa.Runtime.{Env, World, Context, M, lift}

-- The adapter's calls leave the database alone, whatever they return.
abbrev pub LeavesDb : {A : Type 0} → M A → Type 0
LeavesDb m = (w : World) → (m w).1.db ≡ w.db

module _ (id : Uuid) (env : Env) (cfg : SessionConfig)
    (other : (n : ℕ) → (env.fresh_id n == id) ≡ false) where
  pub leaves-Preserves : {A : Type 0} (m : M A) → LeavesDb m → Preserves (Steps id) m
  unfolding Preserves
  leaves-Preserves m h w = subst ((Steps id).Rel w.db) (sym (h w)) ((Steps id).same w.db)

  -- A test between two computations.
  pub if-Preserves :
      {A : Type 0} (b : Bool) (m n : M A)
      → Preserves (Steps id) m
      → Preserves (Steps id) n
      → Preserves (Steps id) (if b then m else n)
  if-Preserves true m n hm hn = hm
  if-Preserves false m n hm hn = hn

  find-Preserves : (x : Bytes) → Preserves (Steps id) (find_credential env cfg x)
  unfolding find_credential check_credential
  find-Preserves x =
      >>=-Preserves (Steps id) _ _
        (map_err-Preserves (Steps id) _ _ (find_credential-Preserves id env x))
        (λ c.
          if-Preserves (is_revoked c) _ _
            (lift-Preserves (Steps id) (err (sentinel credential_revoked)))
            (pure-Preserves (Steps id) c))

  clone-Preserves :
      (ctx : Context) (c : Credential) (now : Time)
      → Preserves (Steps id) (handle_clone env cfg ctx c now)
  unfolding handle_clone
  clone-Preserves ctx c now = >>=-Preserves (Steps id) _ _ (lift-Preserves (Steps id) _) (λ gone.
      >>=-Preserves (Steps id) _ _ (save_credential-Preserves id env gone)
        (λ u. revoke_all-Preserves id env ctx (gone.user_id ∷ [])))

  open-Preserves :
      (ctx : Context) (input : LoginInput) (signed : Result Credential) (now : Time)
      → Preserves (Steps id) (open_session env cfg ctx input signed now)
  unfolding open_session
  open-Preserves ctx input signed now =
      >>=-Preserves (Steps id) _ _ (lift-Preserves (Steps id) signed) (λ c.
        >>=-Preserves (Steps id) _ _ (save_credential-Preserves id env c) (λ u.
          >>=-Preserves (Steps id) _ _ (find_keys-Preserves id env c.id) (λ keys.
            >>=-Preserves (Steps id) _ _
              (issue-Preserves id env cfg other ctx c.user_id input.device_info input.ip_address
                now)
              (λ p. pure-Preserves (Steps id) _))))

  settle-Preserves :
      (ctx : Context) (input : LoginInput) (result : AuthenticationResult) (now : Time)
      (c : Credential)
      → Preserves (Steps id) (settle env cfg ctx input result now c)
  unfolding settle
  settle-Preserves ctx input result now c =
      if-Preserves _ _ _
        (>>=-Preserves (Steps id) _ _ (clone-Preserves ctx _ now)
          (λ u. pure-Preserves (Steps id) none))
        (open-Preserves ctx input (set_sign_count result.new_sign_count c) now)

  outcome-Preserves : (o : Option LoginOutput) → Preserves (Steps id) (login_outcome env cfg o)
  outcome-Preserves none = lift-Preserves (Steps id) _
  outcome-Preserves (some out) = pure-Preserves (Steps id) out

  pub login-Preserves :
      (a : Authenticator) (ctx : Context) (input : LoginInput)
      → LeavesDb (a.finish ctx input.challenge_token input.authentication_response)
      → Preserves (Steps id) (FinishLogin.execute env cfg a ctx input)
  unfolding FinishLogin.execute login_tx
  login-Preserves a ctx input leaves =
      >>=-Preserves (Steps id) _ _ (time_now-Preserves (Steps id) env) (λ now.
        >>=-Preserves (Steps id) _ _ (leaves-Preserves _ leaves) (λ result.
          >>=-Preserves (Steps id) _ _
            (run_in_transaction-Preserves (Steps id) env ctx _ (λ c.
              >>=-Preserves (Steps id) _ _ (find-Preserves result.external_id)
                (λ cred. settle-Preserves c input result now cred)))
            (λ o. outcome-Preserves o)))

  invite-Preserves :
      (invite user : Uuid) (now : Time)
      → Preserves (Steps id) (redeem_invite env cfg invite user now)
  unfolding redeem_invite
  invite-Preserves invite user now =
      >>=-Preserves (Steps id) _ _
        (map_err-Preserves (Steps id) _ _ (find_invite-Preserves id env invite))
        (λ inv. >>=-Preserves (Steps id) _ _ (lift-Preserves (Steps id) _) (λ used.
          >>=-Preserves (Steps id) _ _ (save_invite-Preserves id env used)
            (λ u. pure-Preserves (Steps id) used)))

  creator-Preserves : (user : Uuid) → Preserves (Steps id) (find_invite_creator env cfg user)
  unfolding find_invite_creator
  creator-Preserves user = map_err-Preserves (Steps id) _ _ (find_user-Preserves id env user)

  create_user-Preserves :
      (res : RegistrationResult) (creator : User) (now : Time)
      → Preserves (Steps id) (create_user_and_credential env cfg res creator now)
  unfolding create_user_and_credential
  create_user-Preserves res creator now =
      >>=-Preserves (Steps id) _ _ (lift-Preserves (Steps id) _) (λ u.
        >>=-Preserves (Steps id) _ _ (save_user-Preserves id env u) (λ a.
          >>=-Preserves (Steps id) _ _ (new_id-Preserves (Steps id) env) (λ new.
            >>=-Preserves (Steps id) _ _ (lift-Preserves (Steps id) _) (λ made.
              >>=-Preserves (Steps id) _ _ (lift-Preserves (Steps id) _) (λ cred.
                >>=-Preserves (Steps id) _ _ (save_credential-Preserves id env cred)
                  (λ b. pure-Preserves (Steps id) (u, cred)))))))

  new_keys-Preserves :
      (user cred : Uuid) (now : Time) (wks : List WrappedKeyInput)
      → Preserves (Steps id) (new_wrapped_keys env cfg user cred now wks)
  unfolding new_wrapped_keys
  new_keys-Preserves user cred now [] = pure-Preserves (Steps id) []
  new_keys-Preserves user cred now (wk ∷ wks) =
      >>=-Preserves (Steps id) _ _ (new_id-Preserves (Steps id) env) (λ new.
        >>=-Preserves (Steps id) _ _ (lift-Preserves (Steps id) _) (λ k.
          >>=-Preserves (Steps id) _ _ (new_keys-Preserves user cred now wks)
            (λ rest. pure-Preserves (Steps id) (k ∷ rest))))

  register_tx-Preserves :
      (input : RegistrationInput) (result : RegistrationResult) (ctx : Context)
      → Preserves (Steps id) (register_tx env cfg input result ctx)
  unfolding register_tx save_wrapped_keys
  register_tx-Preserves input result ctx =
      >>=-Preserves (Steps id) _ _ (time_now-Preserves (Steps id) env) (λ now.
        >>=-Preserves (Steps id) _ _ (invite-Preserves result.invite_id result.user_id now) (λ inv.
          >>=-Preserves (Steps id) _ _ (creator-Preserves inv.created_by) (λ creator.
            >>=-Preserves (Steps id) _ _ (create_user-Preserves result creator now) (λ p.
              >>=-Preserves (Steps id) _ _
                (>>=-Preserves (Steps id) _ _
                  (new_keys-Preserves p.0.id p.1.id now input.wrapped_keys)
                  (λ wrapped. save_keys-Preserves id env wrapped))
                (λ u.
                  issue-Preserves id env cfg other ctx p.0.id input.device_info input.ip_address
                    now)))))

  pub register-Preserves :
      (policy : Policy) (r : Registrator) (ctx : Context) (input : RegistrationInput)
      → LeavesDb (r.finish ctx input.challenge_token input.registration_response)
      → Preserves (Steps id) (FinishInviteRegistration.execute env cfg policy r ctx input)
  unfolding FinishInviteRegistration.execute
  register-Preserves policy r ctx input leaves =
      if-Preserves (is_empty input.wrapped_keys) _ _
        (lift-Preserves (Steps id) (err (sentinel wrapped_keys_required)))
        (>>=-Preserves (Steps id) (lift (validate_count policy (length input.wrapped_keys))) _
          (lift-Preserves (Steps id) _)
          (λ u.
            >>=-Preserves (Steps id) _ _
              (leaves-Preserves (r.finish ctx input.challenge_token input.registration_response)
                leaves)
              (λ result.
                run_in_transaction-Preserves (Steps id) env ctx _
                  (λ c. register_tx-Preserves input result c))))
