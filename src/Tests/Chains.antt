-- ===== src/Tests/Chains.antt =====
-- Revoking one session, and the sessions of a chain of invitations.
use hsa.Prelude.{
  ℕ, true, none, some, List, [], ◌∷◌, ◌++◌, map, find_first, exists, select, upsert, ◌==◌, ◌≡◌, inl,
  inr, refl, arith,
}
use hsa.Failure.{ok}
use hsa.Domain.User.{Uuid}
use hsa.Domain.Session
use hsa.Storage.Rows.{RefreshTokenRow, UserRow, Db}
use hsa.Storage.Queries.{
  find_refresh_token_by_id_for_update, save_refresh_token, save_refresh_tokens, save_user,
  list_active_refresh_tokens_by_user_ids,
}
use hsa.Storage.Transaction.{run_in_transaction, run_in_tx, end_tx, commit}
use hsa.Storage.Sessions
use hsa.Storage.Sessions.{row_to_session, session_to_row}
use hsa.Storage.Sessions.Laws.{HasDistinctIds}
use hsa.Storage.Descendants.{id_of, chain, invited, some_ids, list_descendant_user_ids, descendants}
use hsa.Storage.Descendants.Laws.{
  member, Descends, itself, through, IsOrdered, position, chain-Descends,
}
use hsa.Storage.Descendants.Sound.{chain_sound}
use hsa.Storage.Descendants.Order.{save_user-IsOrdered}
use hsa.Application.RevokeSession
use hsa.Application.RevokeSession.Laws.{lookup_id, Closes, revoke_session-Closes}
use hsa.Application.RevokeSession.Answers.{decided, revoke_session_decides}
use hsa.Application.RevokeAllUserSessions
use hsa.Application.RevokeAllUserSessions.Total.{NoneActive}
use hsa.Application.RevokeCompromisedChain
use hsa.Application.RevokeCompromisedChain.Laws.{revoke_chain_ends_sessions}
use hsa.Tests.Fixtures.{env, outside, root, session_row, db_with, two_sessions, start}
use hsa.Runtime.{World, ◌>>=◌, map_err, statement, time_now}

abbrev closed : World
closed = (RevokeSession.execute env outside 20 1 two_sessions).1

close_run : RevokeSession.execute env outside 20 1 two_sessions ≡ (ok tt, closed)
unfolding RevokeSession.execute RevokeSession.revoke_own RevokeSession.save_revoked
    run_in_transaction run_in_tx end_tx commit ◌>>=◌ time_now map_err statement Sessions.find_by_id
    find_refresh_token_by_id_for_update find_first row_to_session Session.revoke Session.is_revoked
    Sessions.save session_to_row save_refresh_tokens save_refresh_token exists upsert
close_run = refl

revoke_session-Closes_example :
    (r : RefreshTokenRow) × (lookup_id 20 two_sessions.db ≡ some r)
    × (r.user_id ≡ 1)
    × Closes (row_to_session r) 100 two_sessions.db closed.db
revoke_session-Closes_example = revoke_session-Closes env outside 20 1 two_sessions close_run

revoke_session_decides_example :
    (RevokeSession.execute env outside 20 2 two_sessions).0
    ≡ decided 2 (lookup_id 20 two_sessions.db)
revoke_session_decides_example =
    revoke_session_decides env (λ n. refl) outside 20 2 two_sessions refl

-- The root invited 2, who invited 3.
abbrev invited_user : Uuid → Uuid → UserRow
invited_user id by = record {
  id = id;
  role = "member";
  invited_by = record { uuid = by; valid = true };
  created_at = 20;
}

abbrev three_users : List UserRow
three_users = root ∷ invited_user 2 1 ∷ invited_user 3 2 ∷ []

abbrev family : Db
family = record (db_with (record (session_row 20 "hash" none) { user_id = 3 } ∷ [])) {
  users = three_users;
}

three_users-IsOrdered : IsOrdered three_users
unfolding position
three_users-IsOrdered = (refl, (refl, (refl, tt)))

family-HasDistinctIds : HasDistinctIds family.refresh_tokens
unfolding exists
family-HasDistinctIds = (refl, tt)

third-Descends : Descends three_users 1 2 3
unfolding exists
third-Descends =
    through (invited_user 3 2) (inr (inr (inl refl))) refl
      (through (invited_user 2 1) (inr (inl refl)) refl (itself refl))

abbrev after_chain : World
after_chain = (RevokeCompromisedChain.execute env outside 1 (start family)).1

chain_run : RevokeCompromisedChain.execute env outside 1 (start family) ≡ (ok tt, after_chain)
unfolding RevokeCompromisedChain.execute descendants list_descendant_user_ids chain invited some_ids
    RevokeAllUserSessions.execute run_in_transaction run_in_tx end_tx commit ◌>>=◌ time_now map_err
    statement Sessions.find_active_by_user_ids list_active_refresh_tokens_by_user_ids select
    row_to_session RevokeAllUserSessions.revoke_and_save RevokeAllUserSessions.revoke_each
    Session.revoke Session.is_revoked Sessions.save session_to_row save_refresh_tokens
    save_refresh_token exists upsert
chain_run = refl

revoke_chain_ends_sessions_example :
    (step : ℕ) × NoneActive (3 ∷ []) (env.clock step) after_chain.db.refresh_tokens
revoke_chain_ends_sessions_example =
    revoke_chain_ends_sessions env outside 1 (start family) three_users-IsOrdered
      family-HasDistinctIds third-Descends chain_run

chain-Descends_example : member 3 (chain three_users 3 (map id_of (root ∷ []))) ≡ true
unfolding select
chain-Descends_example = chain-Descends three_users 1 three_users-IsOrdered third-Descends

found_second :
    member 2 (chain three_users 3 (map id_of (select (λ u. u.id == 1) three_users))) ≡ true
unfolding chain invited select exists
found_second = refl

chain_sound_example : (n : ℕ) × Descends three_users 1 n 2
chain_sound_example = chain_sound three_users 1 3 2 found_second

abbrev grown : Db
grown = record family { users = three_users ++ invited_user 4 3 ∷ [] }

grow_run : save_user (invited_user 4 3) family ≡ ok (tt, grown)
unfolding save_user exists
grow_run = refl

save_user-IsOrdered_example : IsOrdered grown.users
save_user-IsOrdered_example =
    save_user-IsOrdered (invited_user 4 3) family three_users-IsOrdered (λ e. omega arith) grow_run
