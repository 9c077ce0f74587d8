-- ===== src/Application/RevokeAllUserSessions/Steps.antt =====
-- Revoking leaves every session as it is or revoked, however it ends.
use hsa.Prelude.{some, List, [], ◌∷◌, map, ◌≡◌, refl, subst, inr, arith}
use hsa.Failure.{Result, ok, err, panic}
use hsa.Failure.Laws.{ok-injective}
use hsa.Domain.User.{Uuid, Time}
use hsa.Domain.Session
use hsa.Domain.Session.{RefreshToken}
use hsa.Storage.Sessions.{session_to_row}
use hsa.Storage.Sessions.Status.{Steps, AllMaySave, save-Preserves}
use hsa.Storage.Untouched.{find_active-Preserves}
use hsa.Storage.Preserves.{
  Preserves, >>=-Preserves, >>=-Preserves_known, lift-Preserves, pure-Preserves, time_now-Preserves,
  run_in_transaction-Preserves,
}
use hsa.Application.RevokeAllUserSessions.{revoke_each, prepend, revoke_and_save, execute}
use hsa.Runtime.{Env, Context, lift}

pub revoke-marks :
    (now : Time) (t : RefreshToken) {s : RefreshToken}
    → Session.revoke now t ≡ ok s
    → s.revoked_at ≡ some now
unfolding Session.revoke
revoke-marks now t h = ground arith

module _ (id : Uuid) where
  prepend-AllMaySave :
      (now : Time) (r : Result RefreshToken) (rs : Result (List RefreshToken))
      {out : List RefreshToken}
      → ((s : RefreshToken) → r ≡ ok s → s.revoked_at ≡ some now)
      → ((ss : List RefreshToken) → rs ≡ ok ss → AllMaySave id (map session_to_row ss))
      → prepend r rs ≡ ok out
      → AllMaySave id (map session_to_row out)
  unfolding session_to_row
  prepend-AllMaySave now (ok t) (ok ts) first rest h =
      subst (λ l. AllMaySave id (map session_to_row l)) (ok-injective h)
        (inr (now, first t refl), rest ts refl)
  prepend-AllMaySave now (ok t) (err e) first rest h = absurd (ground arith)
  prepend-AllMaySave now (ok t) (panic p) first rest h = absurd (ground arith)
  prepend-AllMaySave now (err e) rs first rest h = absurd (ground arith)
  prepend-AllMaySave now (panic p) rs first rest h = absurd (ground arith)

  revoke_each-AllMaySave :
      (now : Time) (ts : List RefreshToken) {out : List RefreshToken}
      → revoke_each now ts ≡ ok out
      → AllMaySave id (map session_to_row out)
  unfolding revoke_each
  revoke_each-AllMaySave now [] h =
      subst (λ l. AllMaySave id (map session_to_row l)) (ok-injective h) tt
  revoke_each-AllMaySave now (t ∷ ts) h =
      prepend-AllMaySave now (Session.revoke now t) (revoke_each now ts)
        (λ s e. revoke-marks now t e) (λ ss e. revoke_each-AllMaySave now ts e) h

  module _ (env : Env) where
    revoke_and_save-Preserves :
        (now : Time) (ts : List RefreshToken) → Preserves (Steps id) (revoke_and_save env now ts)
    unfolding revoke_and_save
    revoke_and_save-Preserves now [] = pure-Preserves (Steps id) tt
    revoke_and_save-Preserves now (t ∷ ts) =
        >>=-Preserves_known (Steps id) (lift (revoke_each now (t ∷ ts))) _
          (lift-Preserves (Steps id) (revoke_each now (t ∷ ts)))
          (λ revoked w h. save-Preserves id env revoked (revoke_each-AllMaySave now (t ∷ ts) h))

    pub revoke_all-Preserves :
        (ctx : Context) (users : List Uuid) → Preserves (Steps id) (execute env ctx users)
    unfolding execute
    revoke_all-Preserves ctx [] = pure-Preserves (Steps id) tt
    revoke_all-Preserves ctx (u ∷ us) =
        >>=-Preserves (Steps id) _ _ (time_now-Preserves (Steps id) env) (λ now.
          run_in_transaction-Preserves (Steps id) env ctx _ (λ c.
            >>=-Preserves (Steps id) _ _ (find_active-Preserves id env (u ∷ us) now)
              (λ tokens. revoke_and_save-Preserves now tokens)))
