-- ===== src/Tests/Endpoints.antt =====
-- Requests for the operations that need a bearer token, with the toy signature.
use hsa.Prelude.{
  String, str_eq, none, some, false, [], ◌∷◌, exists, select, upsert, ◌≡◌, ◌≢◌, ◌⊎◌, refl, ap, sym,
  ◌∙◌, arith,
}
use hsa.Failure.{ok}
use hsa.Domain.User.{Uuid, admin, role_from_string}
use hsa.Domain.Session
use hsa.Storage.Rows.{Db}
use hsa.Storage.Queries.{
  save_refresh_token, save_refresh_tokens, list_active_refresh_tokens_by_user_ids,
}
use hsa.Storage.Transaction.{run_in_transaction, run_in_tx, end_tx, commit}
use hsa.Storage.Sessions
use hsa.Storage.Sessions.{row_to_session, session_to_row}
use hsa.Storage.Sessions.Status.{live, revoked, status}
use hsa.Storage.Descendants.{chain, invited, some_ids, list_descendant_user_ids, descendants}
use hsa.Crypto.Tokens.{verify}
use hsa.Application.RevokeAllUserSessions
use hsa.Application.RevokeCompromisedChain
use hsa.Http.Auth.{handle_bearer_auth, role_allowed, with_user_id}
use hsa.Http.Handler.{DeleteRes, sessions_session_id_delete, admin_users_user_id_revoke_chain_post}
use hsa.Http.Requests.{RevokeChainRes}
use hsa.Http.Operations.{
  sessions_session_id_delete_operation, operation_roles_bearer_auth, Ogen, Served,
  find_authorization, security_bearer_auth, handle_request,
}
use hsa.Http.Operations.Laws.{Runs, Refuses, request_is_authorized}
use hsa.Http.Operations.Endpoints.{
  handle_admin_users_user_id_revoke_chain_post_request, revoke_chain_needs_admin,
}
use hsa.Tests.Fixtures.{two_sessions, session_row, db_with, start}
use hsa.Crypto.{access_token}
use hsa.Crypto.Claims.{text_of, in_time}
use hsa.Tests.Sealed.{seal, unseal, escape, unescape}
use hsa.Tests.Signed.{read, write, signing, paseto}
use hsa.Tests.Tokens.{issued}
use hsa.Runtime.{World, M, ◌>>=◌, map_err, statement, time_now}

-- A header value is "Bearer" with the token, whatever it is.
abbrev ogen : Ogen
ogen = record {
  cut_space = λ v. some ("Bearer", v);
  equal_fold = λ a b. str_eq a b;
  is_skip = λ e. false;
  params_error = (400, "decode params");
}

abbrev delete : M (Served DeleteRes)
delete =
    handle_request ogen signing paseto (some 20) (λ c id. sessions_session_id_delete signing c id)
      sessions_session_id_delete_operation [] (issued ∷ [])

request_is_authorized_example :
    Runs ogen signing paseto
      (some 20)
      (λ c id. sessions_session_id_delete signing c id)
      sessions_session_id_delete_operation
      (issued ∷ [])
      two_sessions
      (delete two_sessions)
    ⊎ Refuses ogen signing paseto
        (some 20)
        (λ c id. sessions_session_id_delete signing c id)
        sessions_session_id_delete_operation
        two_sessions
        (delete two_sessions)
request_is_authorized_example =
    request_is_authorized ogen signing paseto (some 20)
      (λ c id. sessions_session_id_delete signing c id) sessions_session_id_delete_operation []
      (issued ∷ []) two_sessions

-- A session that is open at the time of the clock.
abbrev open_session : World
open_session =
    start (db_with (record (session_row 20 "hash" none) { expires_at = 900000000000 } ∷ []))

abbrev revoke_chain : M (Served RevokeChainRes)
revoke_chain =
    handle_admin_users_user_id_revoke_chain_post_request ogen signing paseto [] (issued ∷ [])
      (some 1)

chain_revoked : status 20 (revoke_chain open_session).1.db.refresh_tokens ≡ revoked
unfolding handle_admin_users_user_id_revoke_chain_post_request handle_request security_bearer_auth
    find_authorization operation_roles_bearer_auth handle_bearer_auth role_allowed with_user_id
    verify role_from_string access_token text_of in_time read write escape unescape unseal seal
    admin_users_user_id_revoke_chain_post RevokeCompromisedChain.execute descendants
    list_descendant_user_ids chain invited some_ids RevokeAllUserSessions.execute run_in_transaction
    run_in_tx end_tx commit ◌>>=◌ time_now map_err statement Sessions.find_active_by_user_ids
    list_active_refresh_tokens_by_user_ids select row_to_session
    RevokeAllUserSessions.revoke_and_save RevokeAllUserSessions.revoke_each Session.revoke
    Session.is_revoked Sessions.save session_to_row save_refresh_tokens save_refresh_token exists
    upsert status
chain_revoked = refl

open_before : status 20 open_session.db.refresh_tokens ≡ live
unfolding status
open_before = refl

db_changed : (revoke_chain open_session).1.db ≢ open_session.db
db_changed same =
    let stays : revoked ≡ live =
      sym chain_revoked ∙ ap (λ (d : Db). status 20 d.refresh_tokens) same ∙ open_before in
    absurd (ground arith)

revoke_chain_needs_admin_example :
    (token : String) × (id : Uuid) × (find_authorization ogen (issued ∷ []) "Bearer" ≡ some token)
    × ((verify signing paseto token open_session).0 ≡ ok (id, admin))
revoke_chain_needs_admin_example =
    revoke_chain_needs_admin ogen signing paseto [] (issued ∷ []) (some 1) open_session db_changed
