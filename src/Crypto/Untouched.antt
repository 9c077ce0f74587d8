-- ===== src/Crypto/Untouched.antt =====
-- Random tokens and access tokens leave the database alone.
use hsa.Prelude.{ℕ, arith}
use hsa.Domain.User.{Uuid, Role}
use hsa.Storage.Preserves.{
  Change, Preserves, >>=-Preserves, lift-Preserves, pure-Preserves, time_now-Preserves,
}
use hsa.Crypto.{generate_random_base32, generate_hash, generate_token, issue_access_token}
use hsa.Prelude.{sym, ◌≡◌, subst}
use hsa.Runtime.{Env, World, lift}

random-same : (env : Env) (n : ℕ) (w : World) → (generate_random_base32 env n w).1.db ≡ w.db
unfolding generate_random_base32
random-same env n w = ground arith

module _ (R : Change) (env : Env) where
  random-Preserves : (n : ℕ) → Preserves R (generate_random_base32 env n)
  unfolding Preserves
  random-Preserves n w = subst (R.Rel w.db) (sym (random-same env n w)) (R.same w.db)

  pub generate_token-Preserves : (n : ℕ) → Preserves R (generate_token env n)
  unfolding generate_token
  generate_token-Preserves n =
      >>=-Preserves R (generate_random_base32 env n) _ (random-Preserves n) (λ raw.
        >>=-Preserves R (lift (generate_hash env raw)) _ (lift-Preserves R _)
          (λ hash. pure-Preserves R _))

  pub issue_access_token-Preserves :
      (user : Uuid) (role : Role) (ttl : ℕ) → Preserves R (issue_access_token env user role ttl)
  unfolding issue_access_token
  issue_access_token-Preserves user role ttl =
      >>=-Preserves R _ _ (time_now-Preserves R env) (λ now. pure-Preserves R _)
