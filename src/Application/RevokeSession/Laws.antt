-- ===== src/Application/RevokeSession/Laws.antt =====
-- What `RevokeSession.Execute` finds and writes.
use hsa.Prelude.{
  Option, none, some, true, [], ◌∷◌, find_first, exists, List, ◌==◌, ◌≡◌, ◌⊎◌, inl, inr, refl, sym,
  ap, subst, ◌∙◌, arith, Bool-cases,
}
use hsa.Failure.{Error, sentinel, Result, ok, err, panic, token_already_revoked}
use hsa.Domain.User.{Uuid, Time}
use hsa.Domain.Session
use hsa.Domain.Session.{RefreshToken, is_revoked}
use hsa.Domain.Session.Laws.{revoke-eq-ok}
use hsa.Storage.Rows.{RefreshTokenRow, Db}
use hsa.Storage.Sessions.{row_to_session}
use hsa.Storage.Sessions.Laws.{has_id}
use hsa.Storage.Sessions.Reads.{find_by_id-eq-ok, save-eq-ok}
use hsa.Storage.Transaction.Laws.{run_in_transaction-eq-ok}
use hsa.Application.SessionIssuer.Laws.{with_tokens, revoked_token}
use hsa.Application.RevokeSession.{save_revoked, revoke_own, execute}
use hsa.Runtime.{Env, World, Context}
use hsa.Runtime.Laws.{>>=-eq-ok, map_err-eq-ok, time_now-eq-ok}

abbrev pub lookup_id : Uuid → Db → Option RefreshTokenRow
lookup_id id d = find_first (λ r. r.id == id) d.refresh_tokens

pub revoke_live :
    (now : Time) (t : RefreshToken)
    → t.revoked_at ≡ none
    → Session.revoke now t ≡ ok (revoked_token now t)
unfolding Session.revoke
revoke_live now t h = ground arith

pub revoke_again :
    (now : Time) (t : RefreshToken) {at : Time}
    → t.revoked_at ≡ some at
    → Session.revoke now t ≡ err (sentinel token_already_revoked)
unfolding Session.revoke
revoke_again now t h = ground arith

pub has_id-lookup_id :
    (id : Uuid) (rows : List RefreshTokenRow) (r : RefreshTokenRow)
    → find_first (λ r. r.id == id) rows ≡ some r
    → has_id r.id rows ≡ true
unfolding find_first exists
has_id-lookup_id id [] r h = absurd (ground arith)
has_id-lookup_id id (x ∷ rows) r h = ground (arith, has_id-lookup_id id rows r)

revoke-eq-err :
    (now : Time) (t : RefreshToken) {e : Error} → Session.revoke now t ≡ err e → is_revoked t ≡ true
unfolding Session.revoke
revoke-eq-err now t h = ground arith

-- The session is revoked already, and nothing is written, or it is saved as revoked at `now`.
abbrev pub Closes : RefreshToken → Time → Db → Db → Type 0
Closes t now before after =
    (is_revoked t ≡ true) × (after ≡ before)
    ⊎ (t.revoked_at ≡ none) × (after ≡ with_tokens (revoked_token now t ∷ []) before)

module _ (env : Env) where
  save_revoked-eq-ok :
      (now : Time) (t : RefreshToken) (r : Result RefreshToken) (w : World) {w' : World}
      → Session.revoke now t ≡ r
      → save_revoked env r w ≡ (ok tt, w')
      → Closes t now w.db w'.db
  unfolding save_revoked
  save_revoked-eq-ok now t (ok revoked) w made h =
      let (live, is_marked) = revoke-eq-ok now t made in
      inr (live, save-eq-ok env (revoked ∷ []) w h ∙ ap (λ k. with_tokens (k ∷ []) w.db) is_marked)
  save_revoked-eq-ok now t (err e) w made h = inl (revoke-eq-err now t made, ground arith)
  save_revoked-eq-ok now t (panic p) w made h = absurd (ground arith)

  revoke_own-eq-ok :
      (user : Uuid) (now : Time) (t : RefreshToken) (w : World) {w' : World}
      → revoke_own env user now t w ≡ (ok tt, w')
      → (t.user_id ≡ user) × Closes t now w.db w'.db
  unfolding revoke_own
  revoke_own-eq-ok user now t w {w'} h = elim (Bool-cases (t.user_id == user)) [
    | inl e ↦ (ground arith, save_revoked-eq-ok now t _ w {w' = w'} refl (ground arith))
    | inr e ↦ absurd (ground arith)
  ]

  -- A call that returned no error found the session, which belongs to the caller. It was revoked
  -- already, and nothing was written, or it is saved as revoked at the time of the call, and nothing
  -- else was written.
  pub revoke_session-Closes :
      (ctx : Context) (id user : Uuid) (w : World) {w' : World}
      → execute env ctx id user w ≡ (ok tt, w')
      → (r : RefreshTokenRow) × (lookup_id id w.db ≡ some r)
        × (r.user_id ≡ user)
        × Closes (row_to_session r) (env.clock w.step) w.db w'.db
  unfolding execute row_to_session
  revoke_session-Closes ctx id user w {w'} h =
      let (now, w₁, clock, rest) = >>=-eq-ok _ _ w h in
      let (tx_ctx, w₂, w₃, _, begun, body, ended) = run_in_transaction-eq-ok _ env ctx _ w₁ rest in
      let (t, w₄, read, done) = >>=-eq-ok _ _ w₂ body in
      let (time, same₁) = time_now-eq-ok env w clock in
      let (r, found, is_r, same₂) = find_by_id-eq-ok env id w₂ (map_err-eq-ok _ _ w₂ read) in
      let (owner, closes) = revoke_own-eq-ok user now t w₄ done in
      let start : w₂.db ≡ w.db = begun ∙ same₁ in
      (
        r,
        ap (lookup_id id) (sym start) ∙ found,
        ap (λ (k : RefreshToken). k.user_id) (sym is_r) ∙ owner,
        subst (λ k. Closes k (env.clock w.step) w.db w'.db) is_r
            (subst (λ n. Closes t n w.db w'.db) time
              (subst (Closes t now w.db) (sym ended)
                (subst (λ d. Closes t now d w₃.db) (same₂ ∙ start) closes))),
      )
