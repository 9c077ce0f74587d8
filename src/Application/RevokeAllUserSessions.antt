-- ===== src/Application/RevokeAllUserSessions.antt =====
-- internal/application/revoke_all_user_sessions.go
pub mod Laws
pub mod Steps
pub mod Total
pub mod Success
use hsa.Prelude.{List, [], ◌∷◌}
use hsa.Failure.{Result, ok, err, panic}
use hsa.Domain.User.{Uuid, Time}
use hsa.Domain.Session
use hsa.Domain.Session.{RefreshToken}
use hsa.Storage.Transaction.{run_in_transaction}
use hsa.Storage.Sessions
use hsa.Runtime.{Env, Context, M, pure, lift, ◌>>=◌, time_now}

abbrev cons_result : RefreshToken → Result (List RefreshToken) → Result (List RefreshToken)
cons_result t (ok ts) = ok (t ∷ ts)
cons_result t (err e) = err e
cons_result t (panic p) = panic p

abbrev prepend : Result RefreshToken → Result (List RefreshToken) → Result (List RefreshToken)
prepend (ok t) rest = cons_result t rest
prepend (err e) rest = err e
prepend (panic p) rest = panic p

-- The loop over the tokens: the first error ends it.
unfoldable pub revoke_each : Time → List RefreshToken → Result (List RefreshToken)
unfolding Session.revoke
revoke_each now [] = ok []
revoke_each now (t ∷ ts) = prepend (Session.revoke now t) (revoke_each now ts)

module _ (env : Env) where
  -- `if len(tokens) == 0`, the loop, and the save of all tokens.
  unfoldable pub revoke_and_save : Time → List RefreshToken → M (Unit {0})
  revoke_and_save now [] = pure tt
  revoke_and_save now (t ∷ ts) = do
    revoked ← lift (revoke_each now (t ∷ ts))
    Sessions.save env revoked

  unfoldable pub execute : Context → List Uuid → M (Unit {0})
  execute ctx [] = pure tt
  execute ctx (u ∷ us) = do
    now ← time_now env
    run_in_transaction env ctx (λ tx_ctx. do
      tokens ← Sessions.find_active_by_user_ids env (u ∷ us) now
      revoke_and_save now tokens)
