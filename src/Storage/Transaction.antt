-- ===== src/Storage/Transaction.antt =====
-- internal/infrastructure/storage/transaction.go. The database of a `World` is what the running
-- call sees: `BEGIN` remembers it, and a rollback brings it back. What `ROLLBACK` itself answers
-- does not matter for that, since the server drops a transaction that was not committed; a failed
-- `COMMIT` is taken as one that did not happen.
pub mod Laws
pub mod Forward
use hsa.Prelude.{suc, true, none, some, if◌then◌else◌}
use hsa.Failure.{Error, wrap, Result, ok, err, panic, errors_is, new_panic_error, tx_closed}
use hsa.Storage.Rows.{Db}
use hsa.Runtime.{Env, World, Context, M, tick}

-- `context.WithValue(ctx, txKey{}, tx)`
abbrev pub with_tx : Context → Context
with_tx ctx = record ctx { in_tx = true }

module _ (env : Env) where
  -- `tx.Rollback` and the join of its error, unless the transaction is closed.
  unfoldable pub rollback : {A : Type 0} → Db → Error → M A
  rollback before e w =
      let after : World = record { db = before; step = suc w.step } in
      elim (env.fault w.step) [
        | none ↦ (err e, after)
        | some r ↦ (err (if errors_is r tx_closed then e else wrap e r), after)
      ]

  unfoldable pub commit : {A : Type 0} → Db → A → M A
  commit before a w = elim (env.fault w.step) [
    | none ↦ (ok a, tick w)
    | some e ↦ rollback before e (tick w)
  ]

  -- What follows `fn`, the deferred function included, which recovers a panic.
  unfoldable pub end_tx : {A : Type 0} → Db → Result A × World → Result A × World
  end_tx before (ok a, w) = commit before a w
  end_tx before (err e, w) = rollback before e w
  end_tx before (panic p, w) = rollback before (new_panic_error p) w

  unfoldable pub run_in_tx : {A : Type 0} → Context → (Context → M A) → M A
  run_in_tx ctx fn w = elim (env.fault w.step) [
    | some e ↦ (err e, tick w)
    | none ↦ end_tx w.db (fn (with_tx ctx) (tick w))
  ]

  -- A context that carries a transaction joins it.
  unfoldable pub run_in_transaction : {A : Type 0} → Context → (Context → M A) → M A
  run_in_transaction ctx fn = if ctx.in_tx then fn ctx else run_in_tx ctx fn
