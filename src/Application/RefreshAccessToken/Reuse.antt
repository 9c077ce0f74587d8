-- ===== src/Application/RefreshAccessToken/Reuse.antt =====
-- A refresh token that is presented again.
use hsa.Prelude.{ℕ, String, false, some, none, ◌∷◌, [], ◌≡◌, ◌≢◌, sym, ap, subst, ◌∙◌}
use hsa.Failure.{Error, ok, err}
use hsa.Failure.Laws.{ok-injective}
use hsa.Storage.Rows.{RefreshTokenRow, Db}
use hsa.Storage.Sessions.{row_to_session, session_to_row}
use hsa.Storage.Sessions.Laws.{has_id, HasDistinctIds, mark}
use hsa.Storage.Sessions.Lookup.{
  lookup_hash, lookup_hash-put-mark, lookup_hash-put_fresh, has_id-put-mark,
}
use hsa.Storage.Transaction.Laws.{run_in_transaction-IsAtomic, failed_of_IsAtomic}
use hsa.Application.SessionIssuer.{SessionConfig}
use hsa.Application.SessionIssuer.Laws.{with_tokens, revoked_token, successor}
use hsa.Application.RefreshAccessToken.{execute}
use hsa.Application.RefreshAccessToken.Laws.{IsStored, refresh_rotates}
use hsa.Runtime.{Env, World, Context}

some-injective : {A : Type 0} {a b : A} → some a ≡ some b → a ≡ b
some-injective h = cc

some-ne-none : {A : Type 0} {a : A} → some a ≢ none
some-ne-none h = cc

module _ (env : Env) where
  IsStored-unique :
      (raw : String) (d : Db) (r s : RefreshTokenRow)
      → IsStored env raw d r
      → IsStored env raw d s
      → r ≡ s
  IsStored-unique raw d r s (h, made, found) (k, made', found') =
      let same : h ≡ k = ok-injective (sym made ∙ made') in
      some-injective (sym found ∙ ap (λ x. lookup_hash x d.refresh_tokens) same ∙ found')

  -- An outermost call with a token that is stored as revoked returns an error, and the database is
  -- as it was before the call: what the call revoked on the way is rolled back with it.
  pub reuse_rolls_back :
      (cfg : SessionConfig) (ctx : Context) (raw : String) (w : World) (r : RefreshTokenRow)
      → ctx.in_tx ≡ false
      → IsStored env raw w.db r
      → r.revoked_at ≢ none
      → (e : Error) × (w' : World) × (execute env cfg ctx raw w ≡ (err e, w')) × (w'.db ≡ w.db)
  unfolding execute
  reuse_rolls_back cfg ctx raw w r outer known revoked =
      failed_of_IsAtomic w.db _ (run_in_transaction-IsAtomic (String × String) env ctx _ w outer)
        (λ a w' success.
          let (s, _, _, _, here, _, unrevoked, _, _, _) =
            refresh_rotates env cfg ctx raw w success in
          revoked (
            ap (λ (t : RefreshTokenRow). t.revoked_at) (IsStored-unique raw w.db r s known here)
            ∙ unrevoked))

  -- Where the presented token leads after a refresh: to the same row, now revoked.
  IsStored-after :
      (raw : String) (d : Db) (r : RefreshTokenRow) (now : ℕ) (id : ℕ) (hash : String)
      → HasDistinctIds d.refresh_tokens
      → has_id id d.refresh_tokens ≡ false
      → IsStored env raw d r
      → IsStored env raw
          (with_tokens
            (revoked_token now (row_to_session r) ∷ successor id hash now (row_to_session r) ∷ [])
            d)
          (mark now r)
  unfolding row_to_session session_to_row
  IsStored-after raw d r now id hash distinct fresh (h, made, found) = (
    h,
    made,
    lookup_hash-put_fresh h _ _ (mark now r)
        (has_id-put-mark id h now d.refresh_tokens r found ∙ fresh)
        (lookup_hash-put-mark h now d.refresh_tokens r distinct found),
  )

  -- A refresh token serves once: after a call that returned new tokens, every outermost call with
  -- the old one on that database returns an error and changes nothing. Ids are distinct in the table, and the
  -- generator's are not in it.
  pub refresh_serves_once :
      (cfg : SessionConfig) (ctx ctx' : Context) (raw : String) (w w₂ : World)
      {access refresh : String} {w₁ : World}
      → HasDistinctIds w.db.refresh_tokens
      → ((n : ℕ) → has_id (env.fresh_id n) w.db.refresh_tokens ≡ false)
      → execute env cfg ctx raw w ≡ (ok (access, refresh), w₁)
      → w₂.db ≡ w₁.db
      → ctx'.in_tx ≡ false
      → (e : Error) × (w₃ : World) × (execute env cfg ctx' raw w₂ ≡ (err e, w₃)) × (w₃.db ≡ w₂.db)
  refresh_serves_once cfg ctx ctx' raw w w₂ distinct fresh success same outer =
      let (r, now, step, hash, here, _, _, _, _, written) =
        refresh_rotates env cfg ctx raw w success in
      let later : IsStored env raw w₂.db (mark now r) =
        subst (λ d. IsStored env raw d (mark now r)) (sym (same ∙ written))
          (IsStored-after raw w.db r now (env.fresh_id step) hash distinct (fresh step) here) in
      reuse_rolls_back cfg ctx' raw w₂ (mark now r) outer later (λ e. some-ne-none e)
