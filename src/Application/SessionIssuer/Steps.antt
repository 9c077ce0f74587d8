-- ===== src/Application/SessionIssuer/Steps.antt =====
-- Issuing and rotating tokens, where the generator does not give out the id of the session again.
use hsa.Prelude.{
  String, some, false, List, [], ◌∷◌, ◌==◌, ◌≡◌, refl, sym, ap, ◌∙◌, inl, inr, arith, subst,
}
use hsa.Failure.{ok}
use hsa.Domain.User.{Uuid, Time}
use hsa.Domain.Session
use hsa.Domain.Session.{RefreshToken, Addr}
use hsa.Domain.Session.Laws.{new-eq-ok, rotate-eq-ok}
use hsa.Storage.Sessions.{session_to_row}
use hsa.Storage.Sessions.Status.{Steps, MaySave, save-Preserves}
use hsa.Storage.Untouched.{find_user-Preserves}
use hsa.Storage.Preserves.{
  Preserves, >>=-Preserves, >>=-Preserves_known, lift-Preserves, pure-Preserves, new_id-Preserves,
  run_in_transaction-Preserves,
}
use hsa.Crypto.Untouched.{generate_token-Preserves, issue_access_token-Preserves}
use hsa.Application.RevokeAllUserSessions.Steps.{revoke-marks}
use hsa.Application.SessionIssuer.{SessionConfig, issue_access, issue, rotate}
use hsa.Runtime.{Env, World, Context, new_id}

module _ (id : Uuid) (env : Env) (cfg : SessionConfig)
    (other : (n : hsa.Prelude.ℕ) → (env.fresh_id n == id) ≡ false) where
  issue_access-Preserves : (user : Uuid) → Preserves (Steps id) (issue_access env cfg user)
  unfolding issue_access
  issue_access-Preserves user =
      >>=-Preserves (Steps id) _ _ (find_user-Preserves id env user)
        (λ u. issue_access_token-Preserves (Steps id) env user u.role cfg.access_ttl)

  new_id-other : (w : World) {new : Uuid} → (new_id env w).0 ≡ ok new → (new == id) ≡ false
  unfolding new_id
  new_id-other w h = ground (arith, other w.step)

  new-MaySave :
      (new user : Uuid) (hash device : String) (ip : Addr) (ttl : hsa.Prelude.ℕ) (now : Time)
      {t : RefreshToken}
      → (new == id) ≡ false
      → Session.new new user hash device ip ttl now ≡ ok t
      → MaySave id (session_to_row t)
  unfolding session_to_row
  new-MaySave new user hash device ip ttl now fresh h =
      inl (
        ap (λ (t : RefreshToken). t.id == id) (new-eq-ok new user hash device ip ttl now h) ∙ fresh)

  rotate-MaySave :
      (new : Uuid) (hash : String) (now : Time) (old : RefreshToken) {t : RefreshToken}
      → (new == id) ≡ false
      → Session.rotate new hash now old ≡ ok t
      → MaySave id (session_to_row t)
  unfolding session_to_row
  rotate-MaySave new hash now old fresh h =
      inl (ap (λ (t : RefreshToken). t.id == id) (rotate-eq-ok new hash now old h) ∙ fresh)

  revoke-MaySave :
      (now : Time) (old : RefreshToken) {t : RefreshToken}
      → Session.revoke now old ≡ ok t
      → MaySave id (session_to_row t)
  unfolding session_to_row
  revoke-MaySave now old h = inr (now, revoke-marks now old h)

  pub issue-Preserves :
      (ctx : Context) (user : Uuid) (device : String) (ip : Addr) (now : Time)
      → Preserves (Steps id) (issue env cfg ctx user device ip now)
  unfolding issue
  issue-Preserves ctx user device ip now =
      >>=-Preserves (Steps id) _ _ (generate_token-Preserves (Steps id) env _) (λ raw.
        >>=-Preserves_known (Steps id) _ _ (new_id-Preserves (Steps id) env) (λ new w made.
          >>=-Preserves_known (Steps id) _ _ (lift-Preserves (Steps id) _) (λ rt v built.
            >>=-Preserves (Steps id) _ _
              (run_in_transaction-Preserves (Steps id) env ctx _ (λ c.
                >>=-Preserves (Steps id) _ _
                  (save-Preserves id env (rt ∷ []) (
                    new-MaySave new user raw.1 device ip cfg.refresh_ttl now (new_id-other w made)
                        built,
                    tt,
                  ))
                  (λ u. issue_access-Preserves user)))
              (λ access. pure-Preserves (Steps id) (access, raw.0)))))

  pub rotate-Preserves :
      (ctx : Context) (old : RefreshToken) (now : Time)
      → Preserves (Steps id) (rotate env cfg ctx old now)
  unfolding rotate
  rotate-Preserves ctx old now =
      >>=-Preserves (Steps id) _ _ (generate_token-Preserves (Steps id) env _) (λ raw.
        >>=-Preserves_known (Steps id) _ _ (new_id-Preserves (Steps id) env) (λ new w made.
          >>=-Preserves_known (Steps id) _ _ (lift-Preserves (Steps id) _) (λ new_rt v built.
            >>=-Preserves_known (Steps id) _ _ (lift-Preserves (Steps id) _) (λ gone x marked.
              >>=-Preserves (Steps id) _ _
                (run_in_transaction-Preserves (Steps id) env ctx _ (λ c.
                  >>=-Preserves (Steps id) _ _ (issue_access-Preserves old.user_id) (λ access.
                    >>=-Preserves (Steps id) _ _
                      (save-Preserves id env (gone ∷ new_rt ∷ []) (
                        revoke-MaySave now old marked,
                        (rotate-MaySave new raw.1 now old (new_id-other w made) built, tt),
                      ))
                      (λ u. pure-Preserves (Steps id) access))))
                (λ access. pure-Preserves (Steps id) (access, raw.0))))))
