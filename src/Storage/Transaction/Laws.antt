-- ===== src/Storage/Transaction/Laws.antt =====
-- What a transaction promises: all of its writes or none, and no panic.
use hsa.Prelude.{
  ℕ, suc, sym, if_true, if_false, if◌then◌else◌, true, false, ◌≡◌, inl, inr, refl, arith,
  Bool-cases,
}
use hsa.Failure.{Error, Result, ok, err, panic}
use hsa.Storage.Rows.{Db}
use hsa.Runtime.{Env, World, Context, M, tick}
use hsa.Storage.Transaction.{with_tx, rollback, commit, end_tx, run_in_tx, run_in_transaction}

-- How a call that began on `before` may end: with a value, or with an error and nothing written.
abbrev pub IsAtomic : {A : Type 0} → Db → Result A × World → Type 0
IsAtomic before (ok _, w) = Unit {0}
IsAtomic before (err _, w) = w.db ≡ before
IsAtomic before (panic _, w) = ⊥

-- The number of effects when the body starts: an outermost transaction begins with a statement.
abbrev pub first_step : Context → World → ℕ
first_step ctx w = if ctx.in_tx then w.step else suc w.step

module _ (A : Type 0) (env : Env) where
  rollback-IsAtomic :
      (before : Db) (e : Error) (w : World) → IsAtomic {A = A} before (rollback env before e w)
  unfolding rollback
  rollback-IsAtomic before e w = ground arith

  end_tx-IsAtomic : (before : Db) (r : Result A × World) → IsAtomic before (end_tx env before r)
  unfolding end_tx commit rollback
  end_tx-IsAtomic before (ok a, w) = ground arith
  end_tx-IsAtomic before (err e, w) = ground arith
  end_tx-IsAtomic before (panic p, w) = ground arith

  run_in_tx-IsAtomic :
      (ctx : Context) (fn : Context → M A) (w : World) → IsAtomic w.db (run_in_tx env ctx fn w)
  unfolding run_in_tx
  run_in_tx-IsAtomic ctx fn w = ground (arith, end_tx-IsAtomic w.db (fn (with_tx ctx) (tick w)))

  -- An outermost transaction returns a value, or an error with the database as it was before; it
  -- never panics, whatever its body does.
  pub run_in_transaction-IsAtomic :
      (ctx : Context) (fn : Context → M A) (w : World)
      → ctx.in_tx ≡ false
      → IsAtomic w.db (run_in_transaction env ctx fn w)
  unfolding run_in_transaction
  run_in_transaction-IsAtomic ctx fn w outer = ground (arith, run_in_tx-IsAtomic ctx fn w)

  end_tx-eq-ok :
      (before : Db) (r : Result A × World) {a : A} {w' : World}
      → end_tx env before r ≡ (ok a, w')
      → (w₁ : World) × (r ≡ (ok a, w₁)) × (w'.db ≡ w₁.db)
  unfolding end_tx commit rollback
  end_tx-eq-ok before (ok a, w) h = (w, ground arith, ground arith)
  end_tx-eq-ok before (err e, w) h = absurd (ground arith)
  end_tx-eq-ok before (panic p, w) h = absurd (ground arith)

  run_in_tx-eq-ok :
      (ctx : Context) (fn : Context → M A) (w : World) {a : A} {w' : World}
      → run_in_tx env ctx fn w ≡ (ok a, w')
      → end_tx env w.db (fn (with_tx ctx) (tick w)) ≡ (ok a, w')
  unfolding run_in_tx
  run_in_tx-eq-ok ctx fn w h = ground arith

  -- A transaction that returns a value ran its body, inside a transaction, on the database that it
  -- was given and right after the begin, to that value, and left the database as the body did.
  pub run_in_transaction-eq-ok_at :
      (ctx : Context) (fn : Context → M A) (w : World) {a : A} {w' : World}
      → run_in_transaction env ctx fn w ≡ (ok a, w')
      → (tx_ctx : Context) × (w₀ : World) × (w₁ : World) × (w₀.step ≡ first_step ctx w)
        × (tx_ctx.in_tx ≡ true)
        × (w₀.db ≡ w.db)
        × (fn tx_ctx w₀ ≡ (ok a, w₁))
        × (w'.db ≡ w₁.db)
  unfolding run_in_transaction
  run_in_transaction-eq-ok_at ctx fn w {a} {w'} h = elim (Bool-cases ctx.in_tx) [
    | inl inner ↦ (ctx, w, w', sym (if_true _ _ _ inner), inner, refl, ground arith, refl)
    | inr outer ↦
        let k =
          end_tx-eq-ok w.db (fn (with_tx ctx) (tick w)) {a = a} {w' = w'}
            (run_in_tx-eq-ok ctx fn w (ground arith)) in
        (with_tx ctx, tick w, k.0, sym (if_false _ _ _ outer), refl, refl, k.1, k.2)
  ]

  pub run_in_transaction-eq-ok :
      (ctx : Context) (fn : Context → M A) (w : World) {a : A} {w' : World}
      → run_in_transaction env ctx fn w ≡ (ok a, w')
      → (tx_ctx : Context) × (w₀ : World) × (w₁ : World) × (tx_ctx.in_tx ≡ true)
        × (w₀.db ≡ w.db)
        × (fn tx_ctx w₀ ≡ (ok a, w₁))
        × (w'.db ≡ w₁.db)
  run_in_transaction-eq-ok ctx fn w h =
      let (tx_ctx, w₀, w₁, _, inside, begun, body, ended) =
        run_in_transaction-eq-ok_at ctx fn w h in
      (tx_ctx, w₀, w₁, inside, begun, body, ended)

-- What is atomic and returns no value returns an error, and has written nothing.
pub failed_of_IsAtomic :
    {A : Type 0} (before : Db) (p : Result A × World)
    → IsAtomic before p
    → ((a : A) (w : World) → p ≡ (ok a, w) → ⊥)
    → (e : Error) × (w : World) × (p ≡ (err e, w)) × (w.db ≡ before)
failed_of_IsAtomic before (ok a, w) h never = absurd (never a w refl)
failed_of_IsAtomic before (err e, w) h never = (e, w, refl, h)
failed_of_IsAtomic before (panic p, w) h never = absurd h
