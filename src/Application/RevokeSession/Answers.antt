-- ===== src/Application/RevokeSession/Answers.antt =====
-- How `RevokeSession.Execute` answers where no statement fails.
use hsa.Prelude.{
  Option, none, some, true, false, not, [], ◌∷◌, ◌==◌, ◌≡◌, inl, inr, refl, sym, ap, ◌∙◌,
  Bool-cases, Option-cases, if_true, if_false, if◌then◌else◌,
}
use hsa.Failure.{sentinel, Result, ok, err, errors_is, session_not_found, session_forbidden}
use hsa.Domain.User.{Uuid, Time}
use hsa.Domain.Session
use hsa.Domain.Session.{RefreshToken, is_revoked}
use hsa.Storage.Rows.{RefreshTokenRow}
use hsa.Storage.Queries.{find_refresh_token_by_id_for_update, one_row}
use hsa.Storage.Sessions
use hsa.Storage.Sessions.{row_to_session, session_to_row}
use hsa.Storage.Sessions.Laws.{has_id, save_refresh_tokens_known}
use hsa.Storage.Transaction.Forward.{run_in_transaction-Succeeds, run_in_transaction-of_err}
use hsa.Application.SessionIssuer.Laws.{revoked_token}
use hsa.Application.RevokeSession.{
  not_found_to_session_not_found, save_revoked, revoke_own, execute,
}
use hsa.Runtime.{Env, World, Context, map_err, tick, raise, time_now, ◌>>=◌}
use hsa.Runtime.Forward.{
  NoFaults, Succeeds, >>=-of_ok, >>=-of_err, >>=-Succeeds, map_err-of_ok, map_err-of_err,
  statement-of_ok, statement-of_err,
}
use hsa.Application.RevokeSession.Laws.{lookup_id, revoke_live, revoke_again, has_id-lookup_id}

-- The answer that the table decides.
abbrev pub decided : Uuid → Option RefreshTokenRow → Result (Unit {0})
decided user none = err (sentinel session_not_found)
decided user (some r) = if r.user_id == user then ok tt else err (sentinel session_forbidden)

module _ (env : Env) (calm : NoFaults env) where
  find_by_id-of_missing :
      (id : Uuid) (w : World)
      → lookup_id id w.db ≡ none
      → map_err not_found_to_session_not_found (Sessions.find_by_id env id) w
        ≡ (err (sentinel session_not_found), tick w)
  unfolding Sessions.find_by_id find_refresh_token_by_id_for_update errors_is
  find_by_id-of_missing id w missing = map_err-of_err not_found_to_session_not_found _ w (
      >>=-of_err _ _ w
        (map_err-of_err _ _ w (statement-of_err env _ w calm (ap (λ o. one_row o w.db) missing))))

  find_by_id-of_stored :
      (id : Uuid) (w : World) (r : RefreshTokenRow)
      → lookup_id id w.db ≡ some r
      → map_err not_found_to_session_not_found (Sessions.find_by_id env id) w
        ≡ (ok (row_to_session r), tick w)
  unfolding Sessions.find_by_id find_refresh_token_by_id_for_update
  find_by_id-of_stored id w r here = map_err-of_ok _ _ w (
      >>=-of_ok _ _ w
        (map_err-of_ok _ _ w (statement-of_ok env _ w calm (ap (λ o. one_row o w.db) here))))

  save_revoked-Succeeds :
      (now : Time) (t : RefreshToken) (w : World)
      → has_id t.id w.db.refresh_tokens ≡ true
      → Succeeds (save_revoked env (Session.revoke now t)) w
  unfolding save_revoked errors_is Sessions.save session_to_row
  save_revoked-Succeeds now t w known = elim (Option-cases t.revoked_at) [
    | inl live ↦ (
      tt,
      _,
      ap (λ r. save_revoked env r w) (revoke_live now t live)
          ∙ statement-of_ok env _ w calm (
              save_refresh_tokens_known (session_to_row (revoked_token now t) ∷ []) w.db
                (known, tt)),
    )
    | inr (at, e) ↦ (tt, w, ap (λ r. save_revoked env r w) (revoke_again now t e))
  ]

  revoke_own-Succeeds :
      (user : Uuid) (now : Time) (t : RefreshToken) (w : World)
      → (t.user_id == user) ≡ true
      → has_id t.id w.db.refresh_tokens ≡ true
      → Succeeds (revoke_own env user now t) w
  unfolding revoke_own
  revoke_own-Succeeds user now t w own known =
      let (unit, w₁, done) = save_revoked-Succeeds now t w known in
      (
        tt,
        w₁,
        ap
              (λ b.
                (if not b
                    then raise (sentinel session_forbidden)
                    else save_revoked env (Session.revoke now t))
                  w)
              own
            ∙ done,
      )

  revoke_own-of_other :
      (user : Uuid) (now : Time) (t : RefreshToken) (w : World)
      → (t.user_id == user) ≡ false
      → revoke_own env user now t w ≡ (err (sentinel session_forbidden), w)
  unfolding revoke_own
  revoke_own-of_other user now t w other =
      ap
        (λ b.
          (if not b
              then raise (sentinel session_forbidden)
              else save_revoked env (Session.revoke now t))
            w)
        other

  -- Where no statement fails, an outermost call answers by the table alone: the session is unknown,
  -- or belongs to another user, or the call returns no error.
  pub revoke_session_decides :
      (ctx : Context) (id user : Uuid) (w : World)
      → ctx.in_tx ≡ false
      → (execute env ctx id user w).0 ≡ decided user (lookup_id id w.db)
  unfolding execute time_now row_to_session
  revoke_session_decides ctx id user w outer = elim (Option-cases (lookup_id id w.db)) [
    | inl missing ↦
        ap (λ p. p.0)
          (>>=-of_ok _ _ w refl
            ∙ run_in_transaction-of_err env calm ctx _ (tick w) outer
                (>>=-of_err _ _ _ (find_by_id-of_missing id (tick (tick w)) missing)))
        ∙ ap (decided user) (sym missing)
    | inr (r, here) ↦ elim (Bool-cases (r.user_id == user)) [
      | inl own ↦
          let (unit, w₁, done) =
            run_in_transaction-Succeeds env calm ctx
              (λ tx_ctx.
                map_err not_found_to_session_not_found (Sessions.find_by_id env id)
                >>= revoke_own env user (env.clock w.step))
              (tick w)
              (λ c v same.
                >>=-Succeeds _ _ v (find_by_id-of_stored id v r (ap (lookup_id id) same ∙ here)) (
                  revoke_own-Succeeds user (env.clock w.step) (row_to_session r) (tick v) own
                    (has_id-lookup_id id v.db.refresh_tokens r (ap (lookup_id id) same ∙ here)))) in
          ap (λ p. p.0) (>>=-of_ok _ _ w refl ∙ done)
          ∙ sym (if_true _ _ _ own)
          ∙ ap (decided user) (sym here)
      | inr other ↦
          ap (λ p. p.0)
            (>>=-of_ok _ _ w refl
              ∙ run_in_transaction-of_err env calm ctx _ (tick w) outer (
                  >>=-of_ok _ _ _ (find_by_id-of_stored id (tick (tick w)) r here)
                  ∙ revoke_own-of_other user (env.clock w.step) (row_to_session r) _ other))
          ∙ sym (if_false _ _ _ other)
          ∙ ap (decided user) (sym here)
    ]
  ]
