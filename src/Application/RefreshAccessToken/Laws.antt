-- ===== src/Application/RefreshAccessToken/Laws.antt =====
-- Refreshing: what a successful call has checked and written, and that a refresh token serves once.
use hsa.Prelude.{
  ℕ, String, str_eq, true, none, some, [], ◌∷◌, find_first, ltb, ◌≡◌, sym, ap, ap₂, subst, ◌∙◌,
  arith,
}
use hsa.Failure.{ok}
use hsa.Domain.User.{Time}
use hsa.Domain.Session.{RefreshToken, is_revoked, is_valid}
use hsa.Storage.Rows.{RefreshTokenRow, Db}
use hsa.Storage.Sessions.{row_to_session}
use hsa.Storage.Sessions.Reads.{find_by_token_hash-eq-ok}
use hsa.Storage.Transaction.Laws.{first_step, run_in_transaction-eq-ok_at}
use hsa.Crypto.{generate_hash}
use hsa.Application.SessionIssuer.{SessionConfig}
use hsa.Application.SessionIssuer.Laws.{with_tokens, revoked_token, successor, rotate-eq-ok}
use hsa.Application.RefreshAccessToken.{check_refresh_token, validate_refresh_token, execute}
use hsa.Runtime.{Env, World, Context, ◌>>=◌}
use hsa.Runtime.Laws.{>>=-eq-ok, map_err-eq-ok, lift-eq-ok, time_now-eq-ok}

-- The row that a raw token leads to.
abbrev pub IsStored : Env → String → Db → RefreshTokenRow → Type 0
IsStored env raw d r =
    (hash : String) × (generate_hash env raw ≡ ok hash)
    × (find_first (λ t. str_eq t.token_hash hash) d.refresh_tokens ≡ some r)

module _ (env : Env) (cfg : SessionConfig) where
  check-eq-ok :
      (ctx : Context) (now : Time) (old : RefreshToken) (w : World) {t : RefreshToken} {w' : World}
      → check_refresh_token env cfg ctx now old w ≡ (ok t, w')
      → (old.revoked_at ≡ none) × (ltb now old.expires_at ≡ true) × (t ≡ old) × (w'.db ≡ w.db)
  unfolding check_refresh_token ◌>>=◌ is_revoked is_valid
  check-eq-ok ctx now old w h = (ground arith, ground arith, ground arith, ground arith)

  validate-eq-ok :
      (ctx : Context) (raw : String) (now : Time) (w : World) {t : RefreshToken} {w' : World}
      → validate_refresh_token env cfg ctx raw now w ≡ (ok t, w')
      → (r : RefreshTokenRow) × IsStored env raw w.db r
        × (r.revoked_at ≡ none)
        × (ltb now r.expires_at ≡ true)
        × (t ≡ row_to_session r)
        × (w'.db ≡ w.db)
  unfolding validate_refresh_token row_to_session
  validate-eq-ok ctx raw now w h =
      let (hash, w₁, hashed, rest₁) = >>=-eq-ok _ _ w h in
      let (old, w₂, read, checked) = >>=-eq-ok _ _ w₁ rest₁ in
      let (hash_is, same₁) = lift-eq-ok _ w hashed in
      let (r, found, old_is, same₂) =
        find_by_token_hash-eq-ok env hash w₁ (map_err-eq-ok _ _ w₁ read) in
      let (unrevoked, live, same_token, same₃) = check-eq-ok ctx now old w₂ checked in
      let start : w₁.db ≡ w.db = ap (λ v. v.db) same₁ in
      (
        r,
        (
          hash,
          hash_is,
          subst (λ (d : Db). find_first (λ t. str_eq t.token_hash hash) d.refresh_tokens ≡ some r)
              start found,
        ),
        ap (λ t. t.revoked_at) (sym old_is) ∙ unrevoked,
        ap (λ t. ltb now t.expires_at) (sym old_is) ∙ live,
        same_token ∙ old_is,
        same₃ ∙ same₂ ∙ start,
      )

  -- A successful refresh was of a stored token that was neither revoked nor expired at the instant
  -- that the clock showed when the body of its transaction began. It saved that token as revoked at
  -- that instant and a successor for the same user, device, address and end, made then, under a
  -- fresh id and with the hash of the raw token that is returned; nothing else changed.
  pub refresh_rotates :
      (ctx : Context) (raw : String) (w : World) {access refresh : String} {w' : World}
      → execute env cfg ctx raw w ≡ (ok (access, refresh), w')
      → (r : RefreshTokenRow) × (now : Time) × (step : ℕ) × (hash : String) × IsStored env raw w.db
          r
        × (now ≡ env.clock (first_step ctx w))
        × (r.revoked_at ≡ none)
        × (ltb now r.expires_at ≡ true)
        × (generate_hash env refresh ≡ ok hash)
        × (w'.db
            ≡ with_tokens
                (revoked_token now (row_to_session r)
                  ∷ successor (env.fresh_id step) hash now (row_to_session r)
                  ∷ [])
                w.db)
  unfolding execute
  refresh_rotates ctx raw w h =
      let (tx_ctx, w₁, w₂, started, _, begun, body, ended) =
        run_in_transaction-eq-ok_at _ env ctx _ w h in
      let (now, w₃, clock, rest₁) = >>=-eq-ok _ _ w₁ body in
      let (old, w₄, valid, rotated) = >>=-eq-ok _ _ w₃ rest₁ in
      let (instant, same₁) = time_now-eq-ok env w₁ clock in
      let (r, here, unrevoked, live, old_is, same₂) = validate-eq-ok tx_ctx raw now w₃ valid in
      let (step, hash, _, hashed, saved) = rotate-eq-ok env cfg tx_ctx old now w₄ rotated in
      let start : w₃.db ≡ w.db = same₁ ∙ begun in
      (
        r,
        now,
        step,
        hash,
        subst (λ d. IsStored env raw d r) start here,
        instant ∙ ap env.clock started,
        unrevoked,
        live,
        hashed,
        ended
            ∙ saved
            ∙ ap₂
                (λ t.
                  with_tokens (revoked_token now t ∷ successor (env.fresh_id step) hash now t ∷ []))
                old_is (same₂ ∙ start),
      )
