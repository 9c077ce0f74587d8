-- ===== src/Storage/Transaction/Forward.antt =====
-- A transaction whose body succeeds, where no statement fails.
use hsa.Prelude.{suc, false, ◌≡◌, refl, arith, Bool-cases, inl, inr}
use hsa.Failure.{Error, ok, err}
use hsa.Storage.Transaction.{with_tx, commit, rollback, end_tx, run_in_tx, run_in_transaction}
use hsa.Runtime.{Env, World, Context, M, tick}
use hsa.Runtime.Forward.{NoFaults, Succeeds}

module _ {A : Type 0} (env : Env) (calm : NoFaults env) where
  run_in_tx-of_ok :
      (ctx : Context) (fn : Context → M A) (w : World) {a : A} {w₁ : World}
      → fn (with_tx ctx) (tick w) ≡ (ok a, w₁)
      → run_in_tx env ctx fn w ≡ (ok a, tick w₁)
  unfolding run_in_tx end_tx commit
  run_in_tx-of_ok ctx fn w {a} {w₁} h = ground (arith, calm w.step, calm w₁.step)

  pub run_in_transaction-Succeeds :
      (ctx : Context) (fn : Context → M A) (w : World)
      → ((c : Context) (v : World) → v.db ≡ w.db → Succeeds (fn c) v)
      → Succeeds (run_in_transaction env ctx fn) w
  unfolding run_in_transaction
  run_in_transaction-Succeeds ctx fn w body = elim (Bool-cases ctx.in_tx) [
    | inl inner ↦ let (a, w₁, h) = body ctx w refl in (a, w₁, ground arith)
    | inr outer ↦
        let (a, w₁, h) = body (with_tx ctx) (tick w) refl in
        let k = run_in_tx-of_ok ctx fn w {a = a} {w₁ = w₁} h in (a, tick w₁, ground arith)
  ]

  -- An outermost transaction whose body returns an error returns that error.
  pub run_in_transaction-of_err :
      (ctx : Context) (fn : Context → M A) (w : World) {e : Error} {w₁ : World}
      → ctx.in_tx ≡ false
      → fn (with_tx ctx) (tick w) ≡ (err e, w₁)
      → run_in_transaction env ctx fn w ≡ (err e, record { db = w.db; step = suc w₁.step })
  unfolding run_in_transaction run_in_tx end_tx rollback
  run_in_transaction-of_err ctx fn w {e} {w₁} outer h = ground (arith, calm w.step, calm w₁.step)
