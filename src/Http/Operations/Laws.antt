-- ===== src/Http/Operations/Laws.antt =====
-- Which requests reach the handler of an operation that needs a token.
use hsa.Prelude.{
  String, Option, none, some, Bool, true, false, List, [], if◌then◌else◌, ◌≡◌, ◌⊎◌, refl, ◌∙◌,
  arith, inl, inr, Bool-cases, if_true, if_false,
}
use hsa.Failure.{Error, sentinel, Result, ok, err, panic, errors_is, unauthenticated, forbidden}
use hsa.Domain.User.{Uuid, Role}
use hsa.Storage.Preserves.{
  Change, Preserves, >>=-Preserves, lift-Preserves, pure-Preserves, time_now-Preserves,
}
use hsa.Crypto.Tokens.{Paseto, verify}
use hsa.Crypto.Tokens.Laws.{bearer_answers}
use hsa.Http.Auth.{RequestContext, handle_bearer_auth, role_allowed, user_id_from_context}
use hsa.Http.Auth.Laws.{bearer_auth_grants}
use hsa.Http.Server.{
  Answer, write_unauthorized, write_forbidden, invalid_request, error_handler, answer_security,
}
use hsa.Http.Operations.{
  OperationName, admin_users_user_id_revoke_chain_post_operation, auth_verify_get_operation,
  invites_post_operation, sessions_session_id_delete_operation, operation_roles_bearer_auth, Ogen,
  Served, refused, find_authorization, accepted, refuse_security, run_handler, with_token,
  security_bearer_auth, handled, after_security, handle_request,
}
use hsa.Runtime.{Env, World, M}

abbrev SameDb : Change
SameDb = record { Rel = λ d d'. d' ≡ d; same = λ d. refl; trans = λ a b c h k. k ∙ h }

verify-SameDb :
    (env : Env) (lib : Paseto) (token : String) → Preserves SameDb (verify env lib token)
unfolding verify
verify-SameDb env lib token = >>=-Preserves SameDb _ _ (time_now-Preserves SameDb env) (λ now.
    >>=-Preserves SameDb _ _ (lift-Preserves SameDb _) (λ t.
      >>=-Preserves SameDb _ _ (lift-Preserves SameDb _) (λ raw.
        >>=-Preserves SameDb _ _ (lift-Preserves SameDb _) (λ user.
          >>=-Preserves SameDb _ _ (lift-Preserves SameDb _) (λ raw_role.
            >>=-Preserves SameDb _ _ (lift-Preserves SameDb _)
              (λ role. pure-Preserves SameDb (user, role)))))))

roles_named :
    (operation : OperationName) (role : Role)
    → (operation_roles_bearer_auth operation ≡ [])
      ⊎ (role_allowed role (operation_roles_bearer_auth operation) ≡ true)
    → role_allowed role (operation_roles_bearer_auth operation) ≡ true
unfolding operation_roles_bearer_auth
roles_named operation role (inr h) = h
roles_named admin_users_user_id_revoke_chain_post_operation role (inl h) = absurd (ground arith)
roles_named auth_verify_get_operation role (inl h) = absurd (ground arith)
roles_named invites_post_operation role (inl h) = absurd (ground arith)
roles_named sessions_session_id_delete_operation role (inl h) = absurd (ground arith)

answer_security-either :
    (x : Error)
    → answer_security (some x) ≡ write_unauthorized ⊎ answer_security (some x) ≡ write_forbidden
answer_security-either x = elim (Bool-cases (errors_is x forbidden)) [
  | inl e ↦ inr (if_true _ _ _ e)
  | inr e ↦ inl (if_false _ _ _ e)
]

module _ (lib : Ogen) (env : Env) (paseto : Paseto) {P R : Type 0} (params : Option P)
    (handler : RequestContext → P → M R) (operation : OperationName) where
  -- The handler ran, for the user of the token.
  abbrev pub Runs : (authorization : List String) → World → Result (Served R) × World → Type 0
  Runs authorization w out =
      (token : String) × (id : Uuid) × (role : Role) × (granted : RequestContext) × (p : P)
      × (w₁ : World) × (find_authorization lib authorization "Bearer" ≡ some token)
      × ((verify env paseto token w).0 ≡ ok (id, role))
      × (role_allowed role (operation_roles_bearer_auth operation) ≡ true)
      × (user_id_from_context granted ≡ some id)
      × (params ≡ some p)
      × (w₁.db ≡ w.db)
      × (out ≡ handled (handler granted p w₁))

  -- The request was answered without it.
  abbrev pub Refuses : World → Result (Served R) × World → Type 0
  Refuses w out =
      (answer : Answer) × (out.0 ≡ ok (refused answer))
      × (out.1.db ≡ w.db)
      × ((answer ≡ write_unauthorized)
          ⊎ (answer ≡ write_forbidden)
          ⊎ (answer ≡ invalid_request lib.params_error.0 lib.params_error.1))

  module _ (ctx : RequestContext) (authorization : List String) (w : World) where
    abbrev Decides : Result (Served R) × World → Type 0
    Decides out = Runs authorization w out ⊎ Refuses w out

    unauthorized-Decides :
        (w₁ : World) (e : Option Error)
        → w₁.db ≡ w.db
        → answer_security e ≡ write_unauthorized ⊎ answer_security e ≡ write_forbidden
        → Decides (ok (refuse_security lib env paseto e), w₁)
    unfolding error_handler
    unauthorized-Decides w₁ e kept (inl h) = inr (answer_security e, refl, kept, inl h)
    unauthorized-Decides w₁ e kept (inr h) = inr (answer_security e, refl, kept, inr (inl h))

    granted-Decides :
        (o : Option P) (token : String) (granted : RequestContext) (w₁ : World)
        → params ≡ o
        → find_authorization lib authorization "Bearer" ≡ some token
        → handle_bearer_auth ctx
            (verify env paseto token w).0
            (operation_roles_bearer_auth operation)
          ≡ ok granted
        → w₁.db ≡ w.db
        → Decides (run_handler lib env paseto params handler o granted w₁)
    unfolding error_handler
    granted-Decides none token granted w₁ none_given found admitted kept =
        inr (invalid_request lib.params_error.0 lib.params_error.1, refl, kept, inr (inr refl))
    granted-Decides (some p) token granted w₁ given found admitted kept =
        let (id, role, verified, allowed, is_user) =
          bearer_auth_grants ctx (verify env paseto token w).0
            (operation_roles_bearer_auth operation) admitted in
        inl (
          token,
          id,
          role,
          granted,
          p,
          w₁,
          found,
          verified,
          roles_named operation role allowed,
          is_user,
          given,
          kept,
          refl,
        )

    -- An error of the bearer check, which may also count as skipping the scheme.
    error-Decides :
        (e : Error) (skips : Bool) (w₁ : World)
        → w₁.db ≡ w.db
        → Decides
            (after_security lib env paseto params handler (if skips then ok none else err e, w₁))
    error-Decides e true w₁ kept = unauthorized-Decides w₁ none kept (inl refl)
    error-Decides e false w₁ kept = unauthorized-Decides w₁ (some e) kept (answer_security-either e)

    checked-Decides :
        (token : String) (s : Result RequestContext) (w₁ : World)
        → find_authorization lib authorization "Bearer" ≡ some token
        → handle_bearer_auth ctx
            (verify env paseto token w).0
            (operation_roles_bearer_auth operation)
          ≡ s
        → w₁.db ≡ w.db
        → ((granted : RequestContext) × (s ≡ ok granted))
          ⊎ (s ≡ err (sentinel unauthenticated))
          ⊎ (s ≡ err (sentinel forbidden))
        → Decides (after_security lib env paseto params handler (accepted lib s, w₁))
    checked-Decides token (ok granted) w₁ found admitted kept h =
        granted-Decides params token granted w₁ refl found admitted kept
    checked-Decides token (err e) w₁ found admitted kept h = error-Decides e (lib.is_skip e) w₁ kept
    checked-Decides token (panic p) w₁ found admitted kept h = absurd (ground arith)

    with_token-Decides :
        (o : Option String)
        → find_authorization lib authorization "Bearer" ≡ o
        → Decides (
            after_security lib env paseto params handler
              (with_token lib env paseto operation ctx o w))
    unfolding Preserves
    with_token-Decides none missing = unauthorized-Decides w none refl (inl refl)
    with_token-Decides (some token) found =
        checked-Decides token
          (handle_bearer_auth ctx (verify env paseto token w).0
            (operation_roles_bearer_auth operation))
          (verify env paseto token w).1 found refl (verify-SameDb env paseto token w)
          (bearer_answers env paseto ctx token (operation_roles_bearer_auth operation) w)

    -- Each request for an operation that needs a token does one of two things. It runs the handler,
    -- and its answer is the handler's: then the request has a bearer token that was verified, whose
    -- role is one of the operation's, the context has the token's user, and the parameters were
    -- read. Or it is answered as unauthorized, as forbidden or with the error of its parameters, and
    -- the database is what it was.
    pub request_is_authorized :
        Runs authorization w
          (handle_request lib env paseto params handler operation ctx authorization w)
        ⊎ Refuses w (handle_request lib env paseto params handler operation ctx authorization w)
    unfolding handle_request security_bearer_auth
    request_is_authorized = with_token-Decides (find_authorization lib authorization "Bearer") refl
