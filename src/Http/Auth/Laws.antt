-- ===== src/Http/Auth/Laws.antt =====
-- What the bearer check grants, and what the contexts hold.
use hsa.Prelude.{
  none, some, true, String, List, [], ◌∷◌, ◌≡◌, ◌≢◌, Option, ◌⊎◌, refl, sym, ap, arith, Bool-cases,
  Option-cases, inl, inr,
}
use hsa.Failure.{Result, ok, err, panic}
use hsa.Domain.User.{Uuid, Role}
use hsa.Domain.Session.{Addr}
use hsa.Failure.Laws.{ok-injective}
use hsa.Http.Auth.{
  Value, user, address, other, RequestContext, as_user, as_address, value, user_id_context_key,
  with_user_id, with_client_ip, user_id_from_context, client_ip_from_context, role_allowed,
  handle_bearer_auth,
}

-- A request that the bearer check lets through has a token that was verified, whose role is one of
-- the operation's where it names any; the request's user is then the token's.
pub bearer_auth_grants :
    (ctx : RequestContext) (verified : Result (Uuid × Role)) (roles : List String)
    {granted : RequestContext}
    → handle_bearer_auth ctx verified roles ≡ ok granted
    → (id : Uuid) × (role : Role) × (verified ≡ ok (id, role))
      × ((roles ≡ []) ⊎ (role_allowed role roles ≡ true))
      × (user_id_from_context granted ≡ some id)
unfolding handle_bearer_auth user_id_from_context with_user_id value
bearer_auth_grants ctx (ok (id, role)) [] h =
    (id, role, refl, inl refl, ap user_id_from_context (sym (ok-injective h)))
bearer_auth_grants ctx (ok (id, role)) (r ∷ roles) {granted} h =
    elim (Bool-cases (role_allowed role (r ∷ roles))) [
      | inl e ↦
          let same : with_user_id ctx id ≡ granted = ground arith in
          (id, role, refl, inr e, ap user_id_from_context (sym same))
      | inr e ↦ absurd (ground arith)
    ]
bearer_auth_grants ctx (err e) roles h = absurd (ground arith)
bearer_auth_grants ctx (panic p) roles h = absurd (ground arith)

-- One key serves both lookups, so that a context never gives a user and an address.
one_of_both :
    (v : Option Value) {id : Uuid} {ip : Addr} → as_user v ≡ some id → as_address v ≢ some ip
one_of_both none h k = ground arith
one_of_both (some (user id)) h k = ground arith
one_of_both (some (address ip)) h k = ground arith
one_of_both (some (other n)) h k = ground arith

pub user_or_client_ip :
    (ctx : RequestContext) {id : Uuid} {ip : Addr}
    → user_id_from_context ctx ≡ some id
    → client_ip_from_context ctx ≢ some ip
unfolding user_id_from_context client_ip_from_context
user_or_client_ip ctx h k = one_of_both (value ctx user_id_context_key) h k

-- Where the middleware has put the client's address into a request, the address is found there; once
-- the bearer check has let that request through, whatever the token and the roles, it is not.
pub user_hides_client_ip :
    (ctx : RequestContext) (ip : Addr) (verified : Result (Uuid × Role)) (roles : List String)
    {granted : RequestContext}
    → handle_bearer_auth (with_client_ip ctx ip) verified roles ≡ ok granted
    → (client_ip_from_context (with_client_ip ctx ip) ≡ some ip)
      × (client_ip_from_context granted ≡ none)
unfolding client_ip_from_context with_client_ip value
user_hides_client_ip ctx ip verified roles {granted} h = (
  refl,
  elim (Option-cases (client_ip_from_context granted)) [
    | inl missing ↦ missing
    | inr (found, here) ↦
        let (id, _, _, _, is_user) = bearer_auth_grants (with_client_ip ctx ip) verified roles h in
        absurd (user_or_client_ip granted is_user here)
  ],
)
