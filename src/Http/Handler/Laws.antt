-- ===== src/Http/Handler/Laws.antt =====
-- What the session endpoints answer.
use hsa.Prelude.{Option, none, some, ◌≡◌, ◌==◌, if◌then◌else◌, refl, ap, ◌∙◌, Bool-cases, inl, inr}
use hsa.Failure.{Result, ok, err, panic, errors_is}
use hsa.Domain.User.{Uuid}
use hsa.Storage.Rows.{RefreshTokenRow}
use hsa.Errkit.{on_is, default, apply, new, run_handlers, resolve, handle}
use hsa.Http.Auth.{RequestContext, user_id_from_context}
use hsa.Http.Errors.{
  revoke_session_errors, missing, forbidden_status, session_missing, session_of_other,
  internal_server_error, internal_error,
}
use hsa.Application.RevokeSession
use hsa.Application.RevokeSession.Laws.{lookup_id}
use hsa.Application.RevokeSession.Answers.{decided, revoke_session_decides}
use hsa.Http.Handler.{
  request, delete_as, DeleteRes, no_content, delete_failed, respond_delete,
  sessions_session_id_delete,
}
use hsa.Runtime.{Env, World}
use hsa.Runtime.Forward.{NoFaults}

-- The answer that the request and the table decide: a user that is not known is an internal error.
abbrev answer_for : Uuid → Option RefreshTokenRow → DeleteRes
answer_for user none =
    delete_failed
      (record { status = missing; code = session_missing; message = "session not found" })
answer_for user (some r) =
    if r.user_id == user
    then no_content
    else delete_failed (record {
      status = forbidden_status;
      code = session_of_other;
      message = "session belongs to another user";
    })

abbrev pub delete_answer : Option Uuid → Option RefreshTokenRow → DeleteRes
delete_answer none row = delete_failed (record {
  status = internal_server_error;
  code = internal_error;
  message = "internal server error";
})
delete_answer (some user) row = answer_for user row

module _ (env : Env) (calm : NoFaults env) where
  respond-decided :
      (user : Uuid) (o : Option RefreshTokenRow) (w : World)
      → (respond_delete (decided user o, w)).0 ≡ ok (answer_for user o)
  unfolding handle resolve revoke_session_errors new apply on_is default run_handlers errors_is
  respond-decided user none w = refl
  respond-decided user (some r) w = elim (Bool-cases (r.user_id == user)) [
    | inl e ↦ rw e refl
    | inr e ↦ rw e refl
  ]

  respond_delete-result :
      (p : Result (Unit {0}) × World) (w : World)
      → (respond_delete p).0 ≡ (respond_delete (p.0, w)).0
  respond_delete-result (ok u, v) w = refl
  respond_delete-result (err e, v) w = refl
  respond_delete-result (panic q, v) w = refl

  delete_as-answers :
      (id : Uuid) (w : World) (u : Option Uuid)
      → (delete_as env u id w).0 ≡ ok (delete_answer u (lookup_id id w.db))
  unfolding handle resolve revoke_session_errors new apply on_is default run_handlers errors_is
  delete_as-answers id w none = refl
  delete_as-answers id w (some user) =
      respond_delete-result (RevokeSession.execute env request id user w) w
      ∙ ap (λ r. (respond_delete (r, w)).0) (revoke_session_decides env calm request id user w refl)
      ∙ respond-decided user (lookup_id id w.db) w

  -- Where no statement fails, deleting a session answers by the request's user and the table alone:
  -- no content for the owner, not found for an unknown session, forbidden for another user's, and an
  -- internal error for a request without a user.
  pub delete_session_answers :
      (ctx : RequestContext) (id : Uuid) (w : World)
      → (sessions_session_id_delete env ctx id w).0
        ≡ ok (delete_answer (user_id_from_context ctx) (lookup_id id w.db))
  unfolding sessions_session_id_delete
  delete_session_answers ctx id w = delete_as-answers id w (user_id_from_context ctx)
