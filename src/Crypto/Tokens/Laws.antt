-- ===== src/Crypto/Tokens/Laws.antt =====
-- Which tokens are accepted, for how long, and how a rejected one is answered.
use hsa.Prelude.{
  ℕ, ◌+◌, String, str_eq, not, is_empty, ◌&&◌, Option, none, some, Bool, true, false, List, leb,
  if◌then◌else◌, ◌≡◌, ◌⊎◌, refl, subst, ap, ◌∙◌, arith, inl, inr, Bool-cases,
}
use hsa.Failure.{
  Error, sentinel, opaque, wrap, Result, ok, err, panic, errors_is, token_expired, unauthenticated,
  forbidden, unknown_role,
}
use hsa.Domain.User.{
  Uuid, Time, Role, role_string, is_unknown, unknown, member, admin, role_from_string,
}
use hsa.Crypto.{access_token, issue_access_token}
use hsa.Crypto.Claims.{text_of, to_seconds, in_time, is_private}
use hsa.Crypto.Tokens.{
  Parsed, claims, rule_error, unreadable, Paseto, parsed, or_malformed, known_role, verify,
}
use hsa.Crypto.Tokens.Reading.{ReadsOwn}
use hsa.Http.Auth.{RequestContext, verify_error, handle_bearer_auth, role_allowed, with_user_id}
use hsa.Runtime.{Env, World, M, ◌>>=◌, lift, time_now, tick}

-- A verification either accepts, or returns an error that the bearer check answers as
-- unauthenticated.
abbrev Settles : {A : Type 0} → Result A → Type 0
Settles {A} r =
    ((a : A) × (r ≡ ok a))
    ⊎ ((e : Error) × (r ≡ err e) × (verify_error e ≡ sentinel unauthenticated))

parsed-Settles : {C : Type 0} (p : Parsed C) → Settles (parsed p)
unfolding errors_is
parsed-Settles (claims c) = inl (c, refl)
parsed-Settles (rule_error n) = inr (_, refl, refl)
parsed-Settles (unreadable n) = inr (_, refl, refl)

or_malformed-Settles : {A : Type 0} (o : Option A) → Settles (or_malformed o)
unfolding errors_is
or_malformed-Settles none = inr (_, refl, refl)
or_malformed-Settles (some a) = inl (a, refl)

roles-Settle :
    (is_member is_admin : Bool)
    → Settles (
        known_role (
          if is_member
          then ok member
          else if is_admin
          then ok admin
          else err (sentinel unknown_role)))
unfolding errors_is
roles-Settle true a = inl (member, refl)
roles-Settle false true = inl (admin, refl)
roles-Settle false false = inr (_, refl, refl)

known_role-Settles : (s : String) → Settles (known_role (role_from_string s))
unfolding role_from_string
known_role-Settles s = roles-Settle (str_eq s "member") (str_eq s "admin")

lift-Settles :
    {A B : Type 0} (r : Result A) (f : A → M B) (w : World)
    → Settles r
    → ((a : A) → Settles (f a w).0)
    → Settles ((lift r >>= f) w).0
unfolding ◌>>=◌
lift-Settles (ok a) f w h more = more a
lift-Settles (err e) f w (inl (a, same)) more = absurd (ground arith)
lift-Settles (err e) f w (inr (e', same, is)) more = inr (e', (cc), is)
lift-Settles (panic p) f w (inl (a, same)) more = absurd (ground arith)
lift-Settles (panic p) f w (inr (e', same, is)) more = absurd (ground arith)

answers-Settled :
    (ctx : RequestContext) (r : Result (Uuid × Role)) (roles : List String)
    → Settles r
    → ((granted : RequestContext) × (handle_bearer_auth ctx r roles ≡ ok granted))
      ⊎ (handle_bearer_auth ctx r roles ≡ err (sentinel unauthenticated))
      ⊎ (handle_bearer_auth ctx r roles ≡ err (sentinel forbidden))
unfolding handle_bearer_auth
answers-Settled ctx (ok (id, role)) roles h =
    elim (Bool-cases (not (is_empty roles) && not (role_allowed role roles))) [
      | inl e ↦ inr (inr (rw e refl))
      | inr e ↦ inl (with_user_id ctx id, rw e refl)
    ]
answers-Settled ctx (err e) roles (inl (a, same)) = absurd (ground arith)
answers-Settled ctx (err e) roles (inr (e', same, is)) =
    let found : e ≡ e' = cc in
    let is_verify : verify_error e ≡ sentinel unauthenticated = ap verify_error found ∙ is in
    let answer : ◌≡◌ {A = Result RequestContext} (err (verify_error e))
        (err (sentinel unauthenticated)) =
      cc in
    inr (inl answer)
answers-Settled ctx (panic p) roles (inl (a, same)) = absurd (ground arith)
answers-Settled ctx (panic p) roles (inr (e', same, is)) = absurd (ground arith)

module _ (env : Env) (lib : Paseto) where
  verify-Settles : (token_str : String) (w : World) → Settles (verify env lib token_str w).0
  unfolding verify ◌>>=◌ time_now
  verify-Settles t w =
      let v = tick w in
      lift-Settles (parsed (lib.parse_public (env.clock w.step) t)) _ v (parsed-Settles _) (λ token.
        lift-Settles (or_malformed (token "user_id")) _ v (or_malformed-Settles _) (λ raw.
          lift-Settles (or_malformed (lib.parse_uuid raw)) _ v (or_malformed-Settles _) (λ user_id.
            lift-Settles (or_malformed (token "role")) _ v (or_malformed-Settles _) (λ raw_role.
              lift-Settles (known_role (role_from_string raw_role)) _ v
                (known_role-Settles raw_role) (λ role. inl ((user_id, role), refl))))))

  -- Whatever the token is, the bearer check admits the request, or answers it as unauthenticated or
  -- as forbidden: it has no other error and does not panic.
  pub bearer_answers :
      (ctx : RequestContext) (token_str : String) (roles : List String) (w : World)
      → ((granted : RequestContext) × (handle_bearer_auth ctx (verify env lib token_str w).0 roles
            ≡ ok granted))
        ⊎ (handle_bearer_auth ctx (verify env lib token_str w).0 roles
            ≡ err (sentinel unauthenticated))
        ⊎ (handle_bearer_auth ctx (verify env lib token_str w).0 roles ≡ err (sentinel forbidden))
  bearer_answers ctx t roles w =
      answers-Settled ctx (verify env lib t w).0 roles (verify-Settles t w)

-- What the libraries document: the text of a UUID gives it back, and signed tokens are read.
pub record Opens (env : Env) (lib : Paseto) : Type 0 where
  pub named : (user : Uuid) → lib.parse_uuid (env.uuid_string user) ≡ some user
  pub own : ReadsOwn env.v4_sign lib.parse_public

module _ (env : Env) (lib : Paseto) (law : Opens env lib) where
  access_token-is_private :
      (user : Uuid) (role : Role) (expires : Time)
      → is_private (access_token env user role expires) ≡ true
  unfolding access_token is_private
  access_token-is_private user role expires = refl

  access_token-in_time :
      (user : Uuid) (role : Role) (expires now : Time)
      → in_time now (access_token env user role expires) ≡ leb now (to_seconds expires)
  unfolding access_token in_time
  access_token-in_time user role expires now = refl

  user_id-of_access_token :
      (user : Uuid) (role : Role) (expires : Time)
      → text_of (access_token env user role expires) "user_id" ≡ some (env.uuid_string user)
  unfolding access_token text_of
  user_id-of_access_token user role expires = refl

  role-of_access_token :
      (user : Uuid) (role : Role) (expires : Time)
      → text_of (access_token env user role expires) "role" ≡ some (role_string role)
  unfolding access_token text_of
  role-of_access_token user role expires = refl

  known-role_string :
      (role : Role) → is_unknown role ≡ false → role_from_string (role_string role) ≡ ok role
  unfolding role_from_string
  known-role_string unknown h = absurd (ground arith)
  known-role_string member h = refl
  known-role_string admin h = refl

  live-verify :
      (user : Uuid) (role : Role) (expires : Time) (v : World)
      → is_unknown role ≡ false
      → leb (env.clock v.step) (to_seconds expires) ≡ true
      → (verify env lib (env.v4_sign (access_token env user role expires)) v).0 ≡ ok (user, role)
  unfolding verify ◌>>=◌ time_now
  live-verify user role expires v known live =
      let (get, read, texts) =
        law.own.opens (access_token env user role expires) (env.clock v.step)
          (access_token-is_private user role expires)
          (access_token-in_time user role expires (env.clock v.step) ∙ live) in
      rw
        (
          read,
          texts "user_id" (env.uuid_string user) (user_id-of_access_token user role expires),
          law.named user,
          texts "role" (role_string role) (role-of_access_token user role expires),
          known-role_string role known,
        )
        refl

  late-verify :
      (user : Uuid) (role : Role) (expires : Time) (v : World)
      → leb (env.clock v.step) (to_seconds expires) ≡ false
      → (verify env lib (env.v4_sign (access_token env user role expires)) v).0
        ≡ err (wrap (sentinel token_expired) (opaque law.own.rule))
  unfolding verify ◌>>=◌ time_now
  late-verify user role expires v late =
      rw
        (law.own.expires (access_token env user role expires) (env.clock v.step)
          (access_token-is_private user role expires)
          (access_token-in_time user role expires (env.clock v.step) ∙ late))
        refl

  -- An access token that was issued for a user with a known role is checked as that user and role
  -- up to its expiration in whole seconds, by the clock of the check, and answered as
  -- unauthenticated after it. The library is taken to read what it has signed.
  pub issue_access_token-verify :
      (ctx : RequestContext) (roles : List String) (user : Uuid) (role : Role) (ttl : ℕ)
      (w v : World) {access : String} {w' : World}
      → is_unknown role ≡ false
      → issue_access_token env user role ttl w ≡ (ok access, w')
      → handle_bearer_auth ctx (verify env lib access v).0 roles ≡ (
          if leb (env.clock v.step) (to_seconds (env.clock w.step + ttl))
          then handle_bearer_auth ctx (ok (user, role)) roles
          else err (sentinel unauthenticated))
  unfolding issue_access_token ◌>>=◌ time_now handle_bearer_auth errors_is
  issue_access_token-verify ctx roles user role ttl w v {access} known issued =
      let expires = env.clock w.step + ttl in
      let is : env.v4_sign (access_token env user role expires) ≡ access = cc in
      subst
        (λ t. handle_bearer_auth ctx (verify env lib t v).0 roles ≡ (
          if leb (env.clock v.step) (to_seconds expires)
          then handle_bearer_auth ctx (ok (user, role)) roles
          else err (sentinel unauthenticated)))
        is
        (elim (Bool-cases (leb (env.clock v.step) (to_seconds expires))) [
          | inl live ↦ rw live (
              ap (λ r. handle_bearer_auth ctx r roles) (live-verify user role expires v known live))
          | inr late ↦
              rw late
                (ap (λ r. handle_bearer_auth ctx r roles) (late-verify user role expires v late))
        ])
