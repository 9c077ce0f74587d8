-- ===== src/Application/SessionIssuer/Laws.antt =====
-- What issuing and rotating tokens writes.
use hsa.Prelude.{ℕ, ◌+◌, String, none, some, List, [], ◌∷◌, map, ◌≡◌, sym, ap, ap₂, ◌∙◌}
use hsa.Failure.{ok}
use hsa.Domain.User.{Uuid, Time}
use hsa.Domain.Session.{Addr, RefreshToken}
use hsa.Domain.Session.Laws.{revoke-eq-ok, rotate-eq-ok as rotated-eq-ok, new-eq-ok}
use hsa.Storage.Rows.{Db}
use hsa.Storage.Sessions.{session_to_row, save}
use hsa.Storage.Sessions.Laws.{put_all}
use hsa.Storage.Sessions.Reads.{save-eq-ok}
use hsa.Storage.Users.Laws.{find_by_id-eq-ok}
use hsa.Storage.Transaction.{run_in_transaction}
use hsa.Storage.Transaction.Laws.{run_in_transaction-eq-ok}
use hsa.Crypto.{generate_hash}
use hsa.Crypto.Laws.{generate_token-eq-ok, issue_access_token-eq-ok}
use hsa.Application.SessionIssuer.{SessionConfig, issue_access, issue, rotate}
use hsa.Runtime.{Env, World, Context, pure, ◌>>=◌, ◌>>◌}
use hsa.Runtime.Laws.{>>=-eq-ok, lift-eq-ok, pure-eq-ok, new_id-eq-ok}

-- The database with these tokens saved.
abbrev pub with_tokens : List RefreshToken → Db → Db
with_tokens tokens d = record d {
  refresh_tokens = put_all (map session_to_row tokens) d.refresh_tokens;
}

-- The token that follows `old` at `now`: a new identity, the same user, device and address, and
-- the same end.
abbrev pub successor : Uuid → String → Time → RefreshToken → RefreshToken
successor id hash now old = record old {
  id = id;
  token_hash = hash;
  revoked_at = none;
  created_at = now;
}

-- A session that is opened at `now` for `ttl`.
abbrev pub opened_session : Uuid → Uuid → String → String → Addr → ℕ → Time → RefreshToken
opened_session id user hash device ip ttl now = record {
  id = id;
  user_id = user;
  token_hash = hash;
  device_info = device;
  ip_address = ip;
  expires_at = now + ttl;
  revoked_at = none;
  created_at = now;
}

abbrev pub revoked_token : Time → RefreshToken → RefreshToken
revoked_token now t = record t { revoked_at = some now }

module _ (env : Env) (cfg : SessionConfig) where
  pub issue_access-eq-ok :
      (user : Uuid) (w : World) {access : String} {w' : World}
      → issue_access env cfg user w ≡ (ok access, w')
      → w'.db ≡ w.db
  unfolding issue_access
  issue_access-eq-ok user w h =
      let (u, w₁, found, issued) = >>=-eq-ok _ _ w h in
      let (_, _, _, same) = find_by_id-eq-ok env user w found in
      issue_access_token-eq-ok env user u.role cfg.access_ttl w₁ issued ∙ same

  -- The transaction of a rotation.
  rotate_tx-eq-ok :
      (ctx : Context) (user : Uuid) (tokens : List RefreshToken) (w : World) {access : String}
      {w' : World}
      → run_in_transaction env ctx
          (λ tx_ctx. do access ← issue_access env cfg user; save env tokens; pure access)
          w
        ≡ (ok access, w')
      → w'.db ≡ with_tokens tokens w.db
  rotate_tx-eq-ok ctx user tokens w h =
      let (tx_ctx, w₁, w₂, _, begun, body, ended) = run_in_transaction-eq-ok _ env ctx _ w h in
      let (access, w₃, issued, rest) = >>=-eq-ok _ _ w₁ body in
      let (unit, w₄, saved, end) = >>=-eq-ok _ _ w₃ rest in
      ended
      ∙ (pure-eq-ok access w₄ end).1
      ∙ save-eq-ok env tokens w₃ saved
      ∙ ap (with_tokens tokens) (issue_access-eq-ok user w₁ issued ∙ begun)

  -- A successful rotation was of a token that was not revoked. It saved the token as revoked at
  -- `now` and a successor under a fresh id, whose hash is that of the raw token returned.
  pub rotate-eq-ok :
      (ctx : Context) (old : RefreshToken) (now : Time) (w : World) {access refresh : String}
      {w' : World}
      → rotate env cfg ctx old now w ≡ (ok (access, refresh), w')
      → (step : ℕ) × (hash : String) × (old.revoked_at ≡ none)
        × (generate_hash env refresh ≡ ok hash)
        × (w'.db
            ≡ with_tokens
                (revoked_token now old ∷ successor (env.fresh_id step) hash now old ∷ [])
                w.db)
  unfolding rotate
  rotate-eq-ok ctx old now w h =
      let ((raw, hash), w₁, made, rest₁) = >>=-eq-ok _ _ w h in
      let (id, w₂, drawn, rest₂) = >>=-eq-ok _ _ w₁ rest₁ in
      let (new, w₃, rotated, rest₃) = >>=-eq-ok _ _ w₂ rest₂ in
      let (revoked, w₄, marked, rest₄) = >>=-eq-ok _ _ w₃ rest₃ in
      let (access, w₅, stored, end) = >>=-eq-ok _ _ w₄ rest₄ in
      let (hashed, same₁) = generate_token-eq-ok env _ w made in
      let (fresh, same₂) = new_id-eq-ok env w₁ drawn in
      let (new_is, same₃) = lift-eq-ok _ w₂ rotated in
      let (revoked_is, same₄) = lift-eq-ok _ w₃ marked in
      let (unrevoked, is_marked) = revoke-eq-ok now old revoked_is in
      let (given, same₅) = pure-eq-ok (access, raw) w₅ end in
      let tokens : (revoked ∷ new ∷ [])
          ≡ (revoked_token now old ∷ successor (env.fresh_id w₁.step) hash now old ∷ []) =
        ap₂ (λ r n. r ∷ n ∷ []) is_marked
          (rotated-eq-ok id hash now old new_is ∙ ap (λ i. successor i hash now old) fresh) in
      (
        w₁.step,
        hash,
        unrevoked,
        ap (λ p. generate_hash env p.1) (sym given) ∙ hashed,
        same₅
            ∙ rotate_tx-eq-ok ctx old.user_id (revoked ∷ new ∷ []) w₄ stored
            ∙ ap₂ with_tokens tokens (ap (λ v. v.db) same₄ ∙ ap (λ v. v.db) same₃ ∙ same₂ ∙ same₁),
      )

  -- The transaction of `Issue`.
  issue_tx-eq-ok :
      (ctx : Context) (user : Uuid) (tokens : List RefreshToken) (w : World) {access : String}
      {w' : World}
      → run_in_transaction env ctx (λ tx_ctx. save env tokens >> issue_access env cfg user) w
        ≡ (ok access, w')
      → w'.db ≡ with_tokens tokens w.db
  issue_tx-eq-ok ctx user tokens w h =
      let (tx_ctx, w₁, w₂, _, begun, body, ended) = run_in_transaction-eq-ok _ env ctx _ w h in
      let (unit, w₃, saved, issued) = >>=-eq-ok _ _ w₁ body in
      ended
      ∙ issue_access-eq-ok user w₃ issued
      ∙ save-eq-ok env tokens w₁ saved
      ∙ ap (with_tokens tokens) begun

  -- A successful issue saved one new session: under a fresh id, with the hash of the raw token
  -- returned, valid from `now` for the configured time.
  pub issue-eq-ok :
      (ctx : Context) (user : Uuid) (device : String) (ip : Addr) (now : Time) (w : World)
      {access refresh : String} {w' : World}
      → issue env cfg ctx user device ip now w ≡ (ok (access, refresh), w')
      → (step : ℕ) × (hash : String) × (generate_hash env refresh ≡ ok hash)
        × (w'.db
            ≡ with_tokens
                (opened_session (env.fresh_id step) user hash device ip cfg.refresh_ttl now ∷ [])
                w.db)
  unfolding issue
  issue-eq-ok ctx user device ip now w h =
      let ((raw, hash), w₁, made, rest₁) = >>=-eq-ok _ _ w h in
      let (id, w₂, drawn, rest₂) = >>=-eq-ok _ _ w₁ rest₁ in
      let (rt, w₃, opened, rest₃) = >>=-eq-ok _ _ w₂ rest₂ in
      let (access, w₄, stored, end) = >>=-eq-ok _ _ w₃ rest₃ in
      let (hashed, same₁) = generate_token-eq-ok env _ w made in
      let (fresh, same₂) = new_id-eq-ok env w₁ drawn in
      let (opened_is, same₃) = lift-eq-ok _ w₂ opened in
      let (given, same₄) = pure-eq-ok (access, raw) w₄ end in
      let token : rt
          ≡ opened_session (env.fresh_id w₁.step) user hash device ip cfg.refresh_ttl now =
        new-eq-ok id user hash device ip cfg.refresh_ttl now opened_is
        ∙ ap (λ i. opened_session i user hash device ip cfg.refresh_ttl now) fresh in
      (
        w₁.step,
        hash,
        ap (λ p. generate_hash env p.1) (sym given) ∙ hashed,
        same₄
            ∙ issue_tx-eq-ok ctx user (rt ∷ []) w₃ stored
            ∙ ap₂ (λ t. with_tokens (t ∷ [])) token (ap (λ v. v.db) same₃ ∙ same₂ ∙ same₁),
      )
