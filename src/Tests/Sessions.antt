-- ===== src/Tests/Sessions.antt =====
-- Refreshing and revoking sessions on a concrete table.
use hsa.Prelude.{
  ℕ, String, none, some, [], ◌∷◌, find_first, exists, select, upsert, ◌≡◌, refl, true, false, ltb,
  arith,
}
use hsa.Failure.{Error, err, ok}
use hsa.Domain.User.{role_from_string}
use hsa.Domain.Session
use hsa.Storage.Rows.{RefreshTokenRow, null_uuid_to_ptr}
use hsa.Storage.Queries.{
  find_refresh_token_by_token_hash, find_user_by_id, save_refresh_token, save_refresh_tokens,
  list_active_refresh_tokens_by_user_ids,
}
use hsa.Storage.Transaction.{run_in_transaction, run_in_tx, end_tx, commit}
use hsa.Storage.Users
use hsa.Storage.Sessions
use hsa.Storage.Sessions.{row_to_session, session_to_row}
use hsa.Crypto.{generate_random_base32, generate_hash, generate_token, issue_access_token}
use hsa.Application.SessionIssuer.{issue_access}
use hsa.Application.SessionIssuer
use hsa.Application.RefreshAccessToken.{execute, check_refresh_token, validate_refresh_token}
use hsa.Application.RefreshAccessToken.Laws.{IsStored, refresh_rotates}
use hsa.Application.RefreshAccessToken.Reuse.{reuse_rolls_back, refresh_serves_once}
use hsa.Application.RevokeAllUserSessions
use hsa.Storage.Sessions.Laws.{has_id, HasDistinctIds}
use hsa.Storage.Transaction.Laws.{IsAtomic, run_in_transaction-IsAtomic}
use hsa.Application.SessionIssuer.Laws.{with_tokens, revoked_token, successor}
use hsa.Application.RevokeAllUserSessions.Total.{NoneActive, KeepsOthers, revoke_all_ends_sessions}
use hsa.Application.RevokeAllUserSessions.Success.{revoke_all-Succeeds}
use hsa.Runtime.Forward.{Succeeds}
use hsa.Http.Operations.{response}
use hsa.Http.Operations.Open.{body, handle_token_refresh_post_request}
use hsa.Http.Handler.Refresh.{reused, refresh_endpoint_reports_reuse}
use hsa.Tests.Fixtures.{env, cfg, outside, session_row, two_sessions, closed_session}
use hsa.Domain.Session.{RefreshToken}
use hsa.Runtime.{Context, M, ◌>>◌, World, ◌>>=◌, map_err, statement, time_now, new_id}

abbrev refreshed : World
refreshed = (execute env cfg outside "first" two_sessions).1

refresh_run : execute env cfg outside "first" two_sessions ≡ (ok ("access", "second"), refreshed)
unfolding execute run_in_transaction run_in_tx end_tx commit ◌>>=◌ time_now validate_refresh_token
    generate_hash map_err Sessions.find_by_token_hash statement find_refresh_token_by_token_hash
    find_first row_to_session check_refresh_token Session.is_revoked Session.is_valid
    SessionIssuer.rotate generate_token generate_random_base32 new_id Session.rotate Session.revoke
    issue_access Users.find_by_id find_user_by_id Users.row_to_user role_from_string
    null_uuid_to_ptr issue_access_token Sessions.save session_to_row save_refresh_tokens
    save_refresh_token exists upsert
refresh_run = refl

two_sessions-HasDistinctIds : HasDistinctIds two_sessions.db.refresh_tokens
unfolding exists
two_sessions-HasDistinctIds = (refl, (refl, tt))

fresh_ids : (n : ℕ) → has_id (env.fresh_id n) two_sessions.db.refresh_tokens ≡ false
unfolding exists
fresh_ids n = ground arith

refresh_serves_once_example :
    (e : Error) × (w : World) × (execute env cfg outside "first" refreshed ≡ (err e, w))
    × (w.db ≡ refreshed.db)
refresh_serves_once_example =
    refresh_serves_once env cfg outside outside "first" two_sessions refreshed
      two_sessions-HasDistinctIds fresh_ids refresh_run refl refl

refresh_rotates_example :
    (r : RefreshTokenRow) × (now : ℕ) × (step : ℕ) × (hash : String) × IsStored env "first"
      two_sessions.db r
    × (now ≡ env.clock 1)
    × (r.revoked_at ≡ none)
    × (ltb now r.expires_at ≡ true)
    × (generate_hash env "second" ≡ ok hash)
    × (refreshed.db
        ≡ with_tokens
            (revoked_token now (row_to_session r)
              ∷ successor (env.fresh_id step) hash now (row_to_session r)
              ∷ [])
            two_sessions.db)
refresh_rotates_example = refresh_rotates env cfg outside "first" two_sessions refresh_run

closed_session-IsStored : IsStored env "first" closed_session.db (session_row 20 "hash" (some 50))
unfolding generate_hash find_first
closed_session-IsStored = ("hash", refl, refl)

reuse_rolls_back_example :
    (e : Error) × (w : World) × (execute env cfg outside "first" closed_session ≡ (err e, w))
    × (w.db ≡ closed_session.db)
reuse_rolls_back_example =
    reuse_rolls_back env cfg outside "first" closed_session (session_row 20 "hash" (some 50)) refl
      closed_session-IsStored (λ e. cc)

abbrev revoked : World
revoked = (RevokeAllUserSessions.execute env outside (1 ∷ []) two_sessions).1

revoke_run : RevokeAllUserSessions.execute env outside (1 ∷ []) two_sessions ≡ (ok tt, revoked)
unfolding RevokeAllUserSessions.execute run_in_transaction run_in_tx end_tx commit ◌>>=◌ time_now
    map_err statement Sessions.find_active_by_user_ids list_active_refresh_tokens_by_user_ids select
    row_to_session RevokeAllUserSessions.revoke_and_save RevokeAllUserSessions.revoke_each
    Session.revoke Session.is_revoked Sessions.save session_to_row save_refresh_tokens
    save_refresh_token exists upsert
revoke_run = refl

revoke_all_ends_sessions_example :
    NoneActive (1 ∷ []) 500 revoked.db.refresh_tokens
    × KeepsOthers (1 ∷ []) 100 two_sessions.db.refresh_tokens revoked.db.refresh_tokens
    × (revoked.db ≡ record two_sessions.db { refresh_tokens = revoked.db.refresh_tokens })
revoke_all_ends_sessions_example =
    revoke_all_ends_sessions env outside (1 ∷ []) 500 two_sessions (omega arith)
      two_sessions-HasDistinctIds revoke_run

revoke_all-Succeeds_example :
    Succeeds (RevokeAllUserSessions.execute env outside (1 ∷ [])) two_sessions
revoke_all-Succeeds_example =
    revoke_all-Succeeds env (λ n. refl) outside (1 ∷ []) two_sessions two_sessions-HasDistinctIds

-- A body that saves a session and then fails to find one.
abbrev save_and_miss : Context → M RefreshToken
save_and_miss ctx =
    Sessions.save env (row_to_session (session_row 22 "new" none) ∷ [])
    >> Sessions.find_by_token_hash env "missing"

run_in_transaction-IsAtomic_example :
    IsAtomic two_sessions.db (run_in_transaction env outside save_and_miss two_sessions)
run_in_transaction-IsAtomic_example =
    run_in_transaction-IsAtomic _ env outside save_and_miss two_sessions refl

closed_session-HasDistinctIds : HasDistinctIds closed_session.db.refresh_tokens
unfolding exists
closed_session-HasDistinctIds = (refl, tt)

closed_row_is_revoked : Session.is_revoked (row_to_session (session_row 20 "hash" (some 50))) ≡ true
unfolding Session.is_revoked row_to_session
closed_row_is_revoked = refl

refresh_endpoint_reports_reuse_example :
    (w : World) × (handle_token_refresh_post_request env cfg (body "first") closed_session
      ≡ (ok (response reused), w))
    × (w.db ≡ closed_session.db)
refresh_endpoint_reports_reuse_example =
    refresh_endpoint_reports_reuse env cfg "first" closed_session (session_row 20 "hash" (some 50))
      (λ n. refl) closed_session-HasDistinctIds closed_session-IsStored closed_row_is_revoked
