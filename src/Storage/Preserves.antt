-- ===== src/Storage/Preserves.antt =====
-- What a computation does to the database, whatever its result: a relation that is reflexive and
-- transitive holds of a whole run when it holds of its statements.
use hsa.Prelude.{none, ◌≡◌, refl, subst, sym, Bool-cases, Option-cases, inl, inr, if_true, if_false}
use hsa.Failure.{Error, Result, ok, err, panic}
use hsa.Storage.Rows.{Db}
use hsa.Storage.Transaction.{with_tx, rollback, commit, end_tx, run_in_tx, run_in_transaction}
use hsa.Runtime.{
  Env, World, Context, M, pure, lift, resume, replace_err, ◌>>=◌, map_err, tick, time_now, new_id,
  statement,
}

-- A relation between the database before and after.
pub record Change : Type 1 where
  pub Rel : Db → Db → Type 0
  pub same : (d : Db) → Rel d d
  pub trans : (a b c : Db) → Rel a b → Rel b c → Rel a c

unfoldable pub Preserves : (R : Change) {A : Type 0} → M A → Type 0
Preserves R m = (w : World) → R.Rel w.db (m w).1.db

module _ (R : Change) {A B : Type 0} where
  resume-Preserves :
      (d : Db) (f : A → M B) (p : Result A × World)
      → R.Rel d p.1.db
      → ((a : A) → p.0 ≡ ok a → Preserves R (f a))
      → R.Rel d (resume f p).1.db
  unfolding Preserves
  resume-Preserves d f (ok a, w) before after = R.trans d w.db (f a w).1.db before (after a refl w)
  resume-Preserves d f (err e, w) before after = before
  resume-Preserves d f (panic p, w) before after = before

  -- What follows may know the value that the first call returned.
  pub >>=-Preserves_known :
      (m : M A) (f : A → M B)
      → Preserves R m
      → ((a : A) (w : World) → (m w).0 ≡ ok a → Preserves R (f a))
      → Preserves R (m >>= f)
  unfolding Preserves ◌>>=◌
  >>=-Preserves_known m f before after w =
      resume-Preserves w.db f (m w) (before w) (λ a h. after a w h)

  pub >>=-Preserves :
      (m : M A) (f : A → M B)
      → Preserves R m
      → ((a : A) → Preserves R (f a))
      → Preserves R (m >>= f)
  unfolding Preserves
  >>=-Preserves m f before after = >>=-Preserves_known m f before (λ a w h. after a)

rollback-Rel :
    (R : Change) (A : Type 0) (env : Env) (d : Db) (e : Error) (w : World)
    → R.Rel d (rollback env {A = A} d e w).1.db
unfolding rollback
rollback-Rel R A env d e w = elim (Option-cases (env.fault w.step)) [
  | inl calm ↦ rw (calm, rollback) (R.same d)
  | inr (x, f) ↦ rw (f, rollback) (R.same d)
]

module _ (R : Change) {A : Type 0} where
  pub lift-Preserves : (r : Result A) → Preserves R (lift r)
  unfolding Preserves
  lift-Preserves r w = R.same w.db

  pub pure-Preserves : (a : A) → Preserves R (pure a)
  unfolding Preserves
  pure-Preserves a w = R.same w.db

  replace-Preserves :
      (f : Error → Error) (d : Db) (p : Result A × World)
      → R.Rel d p.1.db
      → R.Rel d (replace_err f p).1.db
  unfolding Preserves
  replace-Preserves f d (ok a, w) h = h
  replace-Preserves f d (err e, w) h = h
  replace-Preserves f d (panic p, w) h = h

  pub map_err-Preserves : (f : Error → Error) (m : M A) → Preserves R m → Preserves R (map_err f m)
  unfolding Preserves map_err
  map_err-Preserves f m h w = replace-Preserves f w.db (m w) (h w)

  module _ (env : Env) where
    statement-ran :
        (q : Db → Result (A × Db)) (w : World) (r : Result (A × Db))
        → env.fault w.step ≡ none
        → q w.db ≡ r
        → ((d : Db) (a : A) (d' : Db) → q d ≡ ok (a, d') → R.Rel d d')
        → R.Rel w.db (statement env q w).1.db
    unfolding Preserves statement
    statement-ran q w (ok (a, d)) calm e h = rw (calm, e, statement) (h w.db a d e)
    statement-ran q w (err x) calm e h = rw (calm, e, statement) (R.same w.db)
    statement-ran q w (panic p) calm e h = rw (calm, e, statement) (R.same w.db)

    pub statement-Preserves :
        (q : Db → Result (A × Db))
        → ((d : Db) (a : A) (d' : Db) → q d ≡ ok (a, d') → R.Rel d d')
        → Preserves R (statement env q)
    unfolding Preserves statement
    statement-Preserves q h w = elim (Option-cases (env.fault w.step)) [
      | inl calm ↦ statement-ran q w (q w.db) calm refl h
      | inr (x, e) ↦ rw (e, statement) (R.same w.db)
    ]

    end_tx-Rel : (d : Db) (p : Result A × World) → R.Rel d p.1.db → R.Rel d (end_tx env d p).1.db
    unfolding Preserves end_tx commit
    end_tx-Rel d (ok a, w) h = elim (Option-cases (env.fault w.step)) [
      | inl calm ↦ rw (calm, end_tx, commit) h
      | inr (x, f) ↦ rw (f, end_tx, commit) (rollback-Rel R A env d x (tick w))
    ]
    end_tx-Rel d (err e, w) h = rollback-Rel R A env d e w
    end_tx-Rel d (panic p, w) h = rollback-Rel R A env d _ w

    run_in_tx-Preserves :
        (ctx : Context) (fn : Context → M A)
        → ((c : Context) → Preserves R (fn c))
        → Preserves R (run_in_tx env ctx fn)
    unfolding Preserves run_in_tx
    run_in_tx-Preserves ctx fn h w = elim (Option-cases (env.fault w.step)) [
      | inl calm ↦
          rw (calm, run_in_tx)
            (end_tx-Rel w.db (fn (with_tx ctx) (tick w)) (h (with_tx ctx) (tick w)))
      | inr (x, f) ↦ rw (f, run_in_tx) (R.same w.db)
    ]

    pub run_in_transaction-Preserves :
        (ctx : Context) (fn : Context → M A)
        → ((c : Context) → Preserves R (fn c))
        → Preserves R (run_in_transaction env ctx fn)
    unfolding Preserves run_in_transaction
    run_in_transaction-Preserves ctx fn h w = elim (Bool-cases ctx.in_tx) [
      | inl inner ↦
          subst (λ (m : M A). R.Rel w.db (m w).1.db)
            (sym (if_true _ (fn ctx) (run_in_tx env ctx fn) inner)) (h ctx w)
      | inr outer ↦
          subst (λ (m : M A). R.Rel w.db (m w).1.db)
            (sym (if_false _ (fn ctx) (run_in_tx env ctx fn) outer))
            (run_in_tx-Preserves ctx fn h w)
    ]

module _ (R : Change) (env : Env) where
  pub time_now-Preserves : Preserves R (time_now env)
  unfolding Preserves time_now
  time_now-Preserves w = R.same w.db

  pub new_id-Preserves : Preserves R (new_id env)
  unfolding Preserves new_id
  new_id-Preserves w = R.same w.db
