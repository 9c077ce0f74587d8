-- ===== src/Storage/Sessions/Reads.antt =====
-- What the session repository has read or saved when it returns no error.
use hsa.Prelude.{
  String, str_eq, some, List, [], ◌∷◌, map, find_first, ◌==◌, ◌≡◌, refl, sym, ap, ◌∙◌, arith,
}
use hsa.Failure.{Result, ok, err, panic}
use hsa.Failure.Laws.{ok-injective, ok_pair-injective}
use hsa.Domain.User.{Uuid}
use hsa.Domain.Session.{RefreshToken}
use hsa.Storage.Rows.{RefreshTokenRow, Db}
use hsa.Storage.Queries.{
  save_refresh_token, save_refresh_tokens, find_refresh_token_by_token_hash,
  find_refresh_token_by_id_for_update, then_query,
}
use hsa.Storage.Queries.Laws.{one_row-eq-ok}
use hsa.Storage.Sessions.{row_to_session, session_to_row, find_by_token_hash, find_by_id, save}
use hsa.Storage.Sessions.Laws.{put, put_all}
use hsa.Runtime.{Env, World}
use hsa.Runtime.Laws.{>>=-eq-ok, map_err-eq-ok, statement-eq-ok, lift-eq-ok}

save_refresh_token-eq-ok :
    (p : RefreshTokenRow) (d : Db) {d' : Db}
    → save_refresh_token p d ≡ ok (tt, d')
    → d' ≡ record d { refresh_tokens = put p d.refresh_tokens }
unfolding save_refresh_token
save_refresh_token-eq-ok p d h = ground arith

then_query-eq-ok :
    (r : Result (Unit {0} × Db)) (q : Db → Result (Unit {0} × Db)) {d' : Db}
    → then_query r q ≡ ok (tt, d')
    → (d : Db) × (r ≡ ok (tt, d)) × (q d ≡ ok (tt, d'))
then_query-eq-ok (ok (_, d)) q h = (d, refl, h)
then_query-eq-ok (err e) q h = absurd (ground arith)
then_query-eq-ok (panic p) q h = absurd (ground arith)

save_refresh_tokens-eq-ok :
    (ps : List RefreshTokenRow) (d : Db) {d' : Db}
    → save_refresh_tokens ps d ≡ ok (tt, d')
    → d' ≡ record d { refresh_tokens = put_all ps d.refresh_tokens }
unfolding save_refresh_tokens
save_refresh_tokens-eq-ok [] d h = sym (ok_pair-injective h).1
save_refresh_tokens-eq-ok (p ∷ ps) d h =
    let (d₁, first, rest) = then_query-eq-ok _ (save_refresh_tokens ps) h in
    save_refresh_tokens-eq-ok ps d₁ rest
    ∙ ap (λ (x : Db). record x { refresh_tokens = put_all ps x.refresh_tokens })
        (save_refresh_token-eq-ok p d first)

module _ (env : Env) where
  pub save-eq-ok :
      (tokens : List RefreshToken) (w : World) {w' : World}
      → save env tokens w ≡ (ok tt, w')
      → w'.db
        ≡ record w.db { refresh_tokens = put_all (map session_to_row tokens) w.db.refresh_tokens }
  unfolding save
  save-eq-ok tokens w h = save_refresh_tokens-eq-ok _ w.db (statement-eq-ok env _ w h)

  pub find_by_token_hash-eq-ok :
      (hash : String) (w : World) {t : RefreshToken} {w' : World}
      → find_by_token_hash env hash w ≡ (ok t, w')
      → (r : RefreshTokenRow) × (find_first (λ r. str_eq r.token_hash hash) w.db.refresh_tokens
          ≡ some r)
        × (t ≡ row_to_session r)
        × (w'.db ≡ w.db)
  unfolding find_by_token_hash find_refresh_token_by_token_hash
  find_by_token_hash-eq-ok hash w h =
      let (row, w₁, read, kept) = >>=-eq-ok _ _ w h in
      let (found, same) = one_row-eq-ok _ _ (statement-eq-ok env _ w (map_err-eq-ok _ _ w read)) in
      let (given, end) = lift-eq-ok (ok (row_to_session row)) w₁ kept in
      (row, found, sym (ok-injective given), ap (λ v. v.db) end ∙ same)

  pub find_by_id-eq-ok :
      (id : Uuid) (w : World) {t : RefreshToken} {w' : World}
      → find_by_id env id w ≡ (ok t, w')
      → (r : RefreshTokenRow) × (find_first (λ r. r.id == id) w.db.refresh_tokens ≡ some r)
        × (t ≡ row_to_session r)
        × (w'.db ≡ w.db)
  unfolding find_by_id find_refresh_token_by_id_for_update
  find_by_id-eq-ok id w h =
      let (row, w₁, read, kept) = >>=-eq-ok _ _ w h in
      let (found, same) = one_row-eq-ok _ _ (statement-eq-ok env _ w (map_err-eq-ok _ _ w read)) in
      let (given, end) = lift-eq-ok (ok (row_to_session row)) w₁ kept in
      (row, found, sym (ok-injective given), ap (λ v. v.db) end ∙ same)
