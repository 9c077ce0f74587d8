-- ===== src/Application/RevokeAllUserSessions/Laws.antt =====
-- What `RevokeAllUserSessions.Execute` does to the table of refresh tokens.
use hsa.Prelude.{
  Bool, true, none, some, List, [], ◌∷◌, map, select, exists, ◌≡◌, refl, sym, ap, ap₂, ◌∙◌, arith,
  Bool-cases, inl, inr,
}
use hsa.Failure.{ok}
use hsa.Failure.Laws.{ok-injective, ok_pair-injective}
use hsa.Domain.User.{Uuid, Time}
use hsa.Domain.Session
use hsa.Domain.Session.{RefreshToken, is_revoked}
use hsa.Storage.Rows.{RefreshTokenRow, Db}
use hsa.Storage.Queries.{
  token_is_active, save_refresh_tokens, list_active_refresh_tokens_by_user_ids,
}
use hsa.Storage.Sessions
use hsa.Storage.Sessions.{row_to_session, session_to_row}
use hsa.Storage.Sessions.Laws.{HasDistinctIds, mark, mark_if, save_refresh_tokens-batch}
use hsa.Storage.Transaction.Laws.{run_in_transaction-eq-ok}
use hsa.Application.RevokeAllUserSessions.{revoke_each, revoke_and_save, execute}
use hsa.Runtime.{Env, World, Context, ◌>>=◌}
use hsa.Runtime.Laws.{>>=-eq-ok, statement-eq-ok, lift-eq-ok, time_now-eq-ok}

-- The rows of the users that are active at `now`, marked as revoked then.
abbrev pub revoke_rows : List Uuid → Time → List RefreshTokenRow → List RefreshTokenRow
revoke_rows users now rows = map (mark_if (token_is_active users now) now) rows

revoke_each-cons :
    (now : Time) (t t' : RefreshToken) (ts ts' : List RefreshToken)
    → Session.revoke now t ≡ ok t'
    → revoke_each now ts ≡ ok ts'
    → revoke_each now (t ∷ ts) ≡ ok (t' ∷ ts')
unfolding revoke_each
revoke_each-cons now t t' ts ts' h k = rw (h, k)

revoke_unrevoked :
    (now : Time) (t : RefreshToken)
    → t.revoked_at ≡ none
    → Session.revoke now t ≡ ok (record t { revoked_at = some now })
unfolding Session.revoke
revoke_unrevoked now t h = ground arith

unrevoked_of_active :
    (users : List Uuid) (now : Time) (r : RefreshTokenRow)
    → token_is_active users now r ≡ true
    → r.revoked_at ≡ none
unrevoked_of_active users now r h = ground arith

revoke_active :
    (users : List Uuid) (now : Time) (r : RefreshTokenRow)
    → token_is_active users now r ≡ true
    → Session.revoke now (row_to_session r) ≡ ok (row_to_session (mark now r))
unfolding row_to_session
revoke_active users now r h =
    revoke_unrevoked now (row_to_session r) (unrevoked_of_active users now r h)

pub revoke_each_active :
    (users : List Uuid) (now : Time) (rows : List RefreshTokenRow)
    → revoke_each now (map row_to_session (select (token_is_active users now) rows))
      ≡ ok (map row_to_session (map (mark now) (select (token_is_active users now) rows)))
unfolding revoke_each select
revoke_each_active users now [] = refl
revoke_each_active users now (r ∷ rows) = elim (Bool-cases (token_is_active users now r)) [
  | inl e ↦ rw e (
      revoke_each-cons now _ _ (map row_to_session (select (token_is_active users now) rows)) _
        (revoke_active users now r e) (revoke_each_active users now rows))
  | inr e ↦ rw e (revoke_each_active users now rows)
]

pub map-session_to_row :
    (rows : List RefreshTokenRow) → map session_to_row (map row_to_session rows) ≡ rows
unfolding session_to_row row_to_session
map-session_to_row [] = refl
map-session_to_row (r ∷ rows) = ap (λ l. r ∷ l) (map-session_to_row rows)

revoke_rows-nil : (now : Time) (rows : List RefreshTokenRow) → revoke_rows [] now rows ≡ rows
unfolding exists
revoke_rows-nil now [] = refl
revoke_rows-nil now (r ∷ rows) = ap (λ l. r ∷ l) (revoke_rows-nil now rows)

module _ (env : Env) where
  revoke_and_save-eq-ok :
      (now : Time) (tokens : List RefreshToken) (w : World) {w' : World}
      → revoke_and_save env now tokens w ≡ (ok tt, w')
      → (revoked : List RefreshToken) × (revoke_each now tokens ≡ ok revoked)
        × (save_refresh_tokens (map session_to_row revoked) w.db ≡ ok (tt, w'.db))
  unfolding revoke_and_save revoke_each save_refresh_tokens Sessions.save
  revoke_and_save-eq-ok now [] w h = ([], refl, ground arith)
  revoke_and_save-eq-ok now (t ∷ ts) w h =
      let (revoked, w₁, done, saved) = >>=-eq-ok _ _ w h in
      let (each, same) = lift-eq-ok _ w done in
      (
        revoked,
        each,
        ap (λ v. save_refresh_tokens (map session_to_row revoked) v.db) (sym same)
            ∙ statement-eq-ok env _ w₁ saved,
      )

  find_active-eq-ok :
      (users : List Uuid) (now : Time) (w : World) {tokens : List RefreshToken} {w' : World}
      → Sessions.find_active_by_user_ids env users now w ≡ (ok tokens, w')
      → (tokens ≡ map row_to_session (select (token_is_active users now) w.db.refresh_tokens))
        × (w'.db ≡ w.db)
  unfolding Sessions.find_active_by_user_ids list_active_refresh_tokens_by_user_ids
  find_active-eq-ok users now w h =
      let (rows, w₁, read, kept) = >>=-eq-ok _ _ w h in
      let (same, still) = ok_pair-injective (statement-eq-ok env _ w read) in
      let (given, end) = lift-eq-ok (ok (map row_to_session rows)) w₁ kept in
      (
        sym (ok-injective given) ∙ ap (map row_to_session) (sym same),
        ap (λ v. v.db) end ∙ sym still,
      )

  -- The body of the transaction, on the rows that it reads.
  body-eq-ok :
      (users : List Uuid) (now : Time) (w : World) {w' : World}
      → HasDistinctIds w.db.refresh_tokens
      → (Sessions.find_active_by_user_ids env users now >>= revoke_and_save env now) w ≡ (ok tt, w')
      → w'.db ≡ record w.db { refresh_tokens = revoke_rows users now w.db.refresh_tokens }
  body-eq-ok users now w {w'} d h =
      let (tokens, w₁, found, saved) = >>=-eq-ok _ _ w h in
      let (read, kept) = find_active-eq-ok users now w found in
      let (revoked, each, stored) = revoke_and_save-eq-ok now tokens w₁ saved in
      let p : RefreshTokenRow → Bool = token_is_active users now in
      let marked : List RefreshTokenRow = map (mark now) (select p w.db.refresh_tokens) in
      let same : revoked ≡ map row_to_session marked =
        ok-injective (
          sym each
          ∙ ap (revoke_each now) read
          ∙ revoke_each_active users now w.db.refresh_tokens) in
      let batch : map session_to_row revoked ≡ marked =
        ap (map session_to_row) same ∙ map-session_to_row marked in
      (ok_pair-injective (
        sym stored ∙ ap₂ save_refresh_tokens batch kept ∙ save_refresh_tokens-batch p now w.db d)).1

  -- A successful run revoked every active session of the users at the time of the call and changed
  -- nothing else.
  pub execute-eq-ok :
      (ctx : Context) (users : List Uuid) (w : World) {w' : World}
      → HasDistinctIds w.db.refresh_tokens
      → execute env ctx users w ≡ (ok tt, w')
      → w'.db
        ≡ record w.db { refresh_tokens = revoke_rows users (env.clock w.step) w.db.refresh_tokens }
  unfolding execute
  execute-eq-ok ctx [] w {w'} d h =
      rw (revoke_rows-nil (env.clock w.step) w.db.refresh_tokens) (ap (λ p. p.1.db) (sym h))
  execute-eq-ok ctx (u ∷ us) w {w'} d h =
      let (now, w₁, clock, rest) = >>=-eq-ok _ _ w h in
      let (tx_ctx, w₂, w₃, _, begun, body, ended) = run_in_transaction-eq-ok _ env ctx _ w₁ rest in
      let (time, kept) = time_now-eq-ok env w clock in
      let start : w₂.db ≡ w.db = begun ∙ kept in
      ended
      ∙ body-eq-ok (u ∷ us) now w₂ (rw start d) body
      ∙ ap₂ (λ t (x : Db). record x { refresh_tokens = revoke_rows (u ∷ us) t x.refresh_tokens })
          time start
