-- ===== src/Application/RevokeAllUserSessions/Success.antt =====
-- `RevokeAllUserSessions.Execute` fails only where a statement does.
use hsa.Prelude.{suc, List, [], ◌∷◌, map, select, ◌≡◌, refl, sym, ap, subst, ◌∙◌}
use hsa.Failure.{ok}
use hsa.Domain.User.{Uuid, Time}
use hsa.Domain.Session.{RefreshToken}
use hsa.Storage.Rows.{RefreshTokenRow, Db}
use hsa.Storage.Queries.{
  token_is_active, save_refresh_tokens, list_active_refresh_tokens_by_user_ids,
}
use hsa.Storage.Sessions
use hsa.Storage.Sessions.{row_to_session, session_to_row}
use hsa.Storage.Sessions.Laws.{HasDistinctIds, mark, save_refresh_tokens-batch}
use hsa.Storage.Transaction.Forward.{run_in_transaction-Succeeds}
use hsa.Application.RevokeAllUserSessions.{revoke_each, revoke_and_save, execute}
use hsa.Application.RevokeAllUserSessions.Laws.{revoke_each_active, map-session_to_row}
use hsa.Runtime.{Env, World, Context, ◌>>=◌, time_now}
use hsa.Runtime.Forward.{NoFaults, Succeeds, >>=-of_ok, >>=-Succeeds, statement-of_ok}

module _ (env : Env) (calm : NoFaults env) where
  revoke_and_save-Succeeds :
      (now : Time) (tokens revoked : List RefreshToken) (w : World) {d : Db}
      → revoke_each now tokens ≡ ok revoked
      → save_refresh_tokens (map session_to_row revoked) w.db ≡ ok (tt, d)
      → Succeeds (revoke_and_save env now tokens) w
  unfolding revoke_and_save Sessions.save
  revoke_and_save-Succeeds now [] revoked w each saved = (tt, w, refl)
  revoke_and_save-Succeeds now (t ∷ ts) revoked w each saved =
      >>=-Succeeds _ (Sessions.save env) w (ap (λ r. (r, w)) each)
        (tt, _, statement-of_ok env _ w calm saved)

  body-Succeeds :
      (users : List Uuid) (now : Time) (w : World)
      → HasDistinctIds w.db.refresh_tokens
      → Succeeds (Sessions.find_active_by_user_ids env users now >>= revoke_and_save env now) w
  unfolding Sessions.find_active_by_user_ids list_active_refresh_tokens_by_user_ids
  body-Succeeds users now w distinct =
      let rows : List RefreshTokenRow = select (token_is_active users now) w.db.refresh_tokens in
      let revoked : List RefreshTokenRow = map (mark now) rows in
      >>=-Succeeds _ (revoke_and_save env now) w
        (>>=-of_ok _ _ w (statement-of_ok env _ w calm refl))
        (revoke_and_save-Succeeds now (map row_to_session rows) (map row_to_session revoked)
          (record { db = w.db; step = suc w.step })
          (revoke_each_active users now w.db.refresh_tokens)
          (ap (λ l. save_refresh_tokens l w.db) (map-session_to_row revoked)
            ∙ save_refresh_tokens-batch (token_is_active users now) now w.db distinct))

  -- Where no statement fails and the ids of the table are distinct, the call returns no error,
  -- whatever the users and their sessions are.
  pub revoke_all-Succeeds :
      (ctx : Context) (users : List Uuid) (w : World)
      → HasDistinctIds w.db.refresh_tokens
      → Succeeds (execute env ctx users) w
  unfolding execute time_now
  revoke_all-Succeeds ctx [] w distinct = (tt, w, refl)
  revoke_all-Succeeds ctx (u ∷ us) w distinct = >>=-Succeeds _ _ w refl (
      run_in_transaction-Succeeds env calm ctx _ _ (λ c v same.
        body-Succeeds (u ∷ us) (env.clock w.step) v
          (subst (λ (d : Db). HasDistinctIds d.refresh_tokens) (sym same) distinct)))
