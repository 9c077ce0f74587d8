-- ===== src/Crypto/Laws.antt =====
-- Hashing, random tokens and access tokens leave the database alone.
use hsa.Prelude.{ℕ, String, ◌≡◌, sym, ap, ◌∙◌, arith}
use hsa.Failure.{ok}
use hsa.Domain.User.{Uuid, Role}
use hsa.Crypto.{generate_random_base32, generate_hash, generate_token, issue_access_token}
use hsa.Runtime.{Env, World}
use hsa.Runtime.Laws.{>>=-eq-ok, lift-eq-ok, pure-eq-ok, time_now-eq-ok}

module _ (env : Env) where
  random-eq-ok :
      (n : ℕ) (w : World) {raw : String} {w' : World}
      → generate_random_base32 env n w ≡ (ok raw, w')
      → w'.db ≡ w.db
  unfolding generate_random_base32
  random-eq-ok n w h = ground arith

  -- The second component is the hash of the first.
  pub generate_token-eq-ok :
      (n : ℕ) (w : World) {raw hash : String} {w' : World}
      → generate_token env n w ≡ (ok (raw, hash), w')
      → (generate_hash env raw ≡ ok hash) × (w'.db ≡ w.db)
  unfolding generate_token generate_hash
  generate_token-eq-ok n w h =
      let (raw, w₁, made, rest) = >>=-eq-ok _ _ w h in
      let (hash, w₂, hashed, end) = >>=-eq-ok _ _ w₁ rest in
      let (given, same) = lift-eq-ok (generate_hash env raw) w₁ hashed in
      let (last, still) = pure-eq-ok (raw, hash) w₂ end in
      (
        ap (generate_hash env) (sym (ap (λ p. p.0) last)) ∙ given ∙ ap (λ p. ok p.1) last,
        still ∙ ap (λ v. v.db) same ∙ random-eq-ok n w made,
      )

  pub issue_access_token-eq-ok :
      (user : Uuid) (role : Role) (ttl : ℕ) (w : World) {access : String} {w' : World}
      → issue_access_token env user role ttl w ≡ (ok access, w')
      → w'.db ≡ w.db
  unfolding issue_access_token
  issue_access_token-eq-ok user role ttl w h =
      let (now, w₁, clock, rest) = >>=-eq-ok _ _ w h in
      let (_, still) = pure-eq-ok _ w₁ rest in still ∙ (time_now-eq-ok env w clock).1
