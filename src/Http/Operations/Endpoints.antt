-- ===== src/Http/Operations/Endpoints.antt =====
-- api/http/oas_handlers_gen.go: the operations that need a bearer token, with the handlers that they
-- run.
use hsa.Prelude.{
  ℕ, String, Option, some, List, true, ◌≡◌, ◌≢◌, arith, inl, inr, ap, ◌∙◌, refl, exists,
}
use hsa.Failure.{ok}
use hsa.Domain.User.{Uuid, Role, unknown, member, admin}
use hsa.Domain.Invite
use hsa.Crypto.Tokens.{Paseto, verify}
use hsa.Http.Auth.{RequestContext, role_allowed}
use hsa.Http.Handler.{
  DeleteRes, sessions_session_id_delete, auth_verify_get, admin_users_user_id_revoke_chain_post,
  invites_post,
}
use hsa.Http.Requests.{VerifyRes, RevokeChainRes, InvitesRes}
use hsa.Http.Operations.{
  admin_users_user_id_revoke_chain_post_operation, auth_verify_get_operation,
  invites_post_operation, sessions_session_id_delete_operation, operation_roles_bearer_auth, Ogen,
  Served, find_authorization, handle_request,
}
use hsa.Http.Operations.Laws.{request_is_authorized}
use hsa.Runtime.{Env, World, M}

module _ (lib : Ogen) (env : Env) (paseto : Paseto) (ctx : RequestContext)
    (authorization : List String) where
  unfoldable pub handle_admin_users_user_id_revoke_chain_post_request :
      (user_id : Option Uuid) → M (Served RevokeChainRes)
  handle_admin_users_user_id_revoke_chain_post_request user_id =
      handle_request lib env paseto user_id (λ c id. admin_users_user_id_revoke_chain_post env id)
        admin_users_user_id_revoke_chain_post_operation ctx authorization

  unfoldable pub handle_auth_verify_get_request : M (Served VerifyRes)
  handle_auth_verify_get_request =
      handle_request lib env paseto (some (tt {0})) (λ c u w. (auth_verify_get c, w))
        auth_verify_get_operation ctx authorization

  unfoldable pub handle_invites_post_request : Invite.Policy → (ttl : ℕ) → M (Served InvitesRes)
  handle_invites_post_request policy ttl =
      handle_request lib env paseto (some (tt {0})) (λ c u. invites_post env policy ttl c)
        invites_post_operation ctx authorization

  unfoldable pub handle_sessions_session_id_delete_request :
      (session_id : Option Uuid) → M (Served DeleteRes)
  handle_sessions_session_id_delete_request session_id =
      handle_request lib env paseto session_id (λ c id. sessions_session_id_delete env c id)
        sessions_session_id_delete_operation ctx authorization

  only_admin :
      (role : Role)
      → role_allowed role
          (operation_roles_bearer_auth admin_users_user_id_revoke_chain_post_operation)
        ≡ true
      → role ≡ admin
  unfolding role_allowed operation_roles_bearer_auth exists
  only_admin unknown h = absurd (ground arith)
  only_admin member h = absurd (ground arith)
  only_admin admin h = refl

  -- Revoking the chain of a user changes the database for a verified administrator alone: a request
  -- that leaves another database has a bearer token of the role admin.
  pub revoke_chain_needs_admin :
      (user_id : Option Uuid) (w : World)
      → (handle_admin_users_user_id_revoke_chain_post_request user_id w).1.db ≢ w.db
      → (token : String) × (id : Uuid) × (find_authorization lib authorization "Bearer"
          ≡ some token)
        × ((verify env paseto token w).0 ≡ ok (id, admin))
  unfolding handle_admin_users_user_id_revoke_chain_post_request
  revoke_chain_needs_admin user_id w changed =
      elim (request_is_authorized lib env paseto user_id
        (λ c id. admin_users_user_id_revoke_chain_post env id)
        admin_users_user_id_revoke_chain_post_operation ctx authorization w) [
          | inl (token, id, role, granted, p, w₁, found, verified, allowed, _, _, _, _) ↦
              (token, id, found, verified ∙ ap (λ r. ok (id, r)) (only_admin role allowed))
          | inr (answer, same, kept, which) ↦ absurd (changed kept)
        ]
