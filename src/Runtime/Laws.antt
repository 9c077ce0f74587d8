-- ===== src/Runtime/Laws.antt =====
-- Taking a successful run apart: its binds, its statements and its reads.
use hsa.Prelude.{◌≡◌, refl, sym, ap, arith}
use hsa.Failure.{Error, Result, ok, err, panic}
use hsa.Domain.User.{Uuid, Time}
use hsa.Storage.Rows.{Db}
use hsa.Runtime.{Env, World, M, ◌>>=◌, resume, map_err, lift, pure, time_now, new_id, statement}

module _ {A B : Type 0} where
  resume-eq-ok :
      (f : A → M B) (r : Result A × World) {b : B} {w' : World}
      → resume f r ≡ (ok b, w')
      → (a : A) × (w₁ : World) × (r ≡ (ok a, w₁)) × (f a w₁ ≡ (ok b, w'))
  resume-eq-ok f (ok a, w) h = (a, w, refl, h)
  resume-eq-ok f (err e, w) h = cc
  resume-eq-ok f (panic p, w) h = cc

  pub >>=-eq-ok :
      (m : M A) (f : A → M B) (w : World) {b : B} {w' : World}
      → (m >>= f) w ≡ (ok b, w')
      → (a : A) × (w₁ : World) × (m w ≡ (ok a, w₁)) × (f a w₁ ≡ (ok b, w'))
  unfolding ◌>>=◌
  >>=-eq-ok m f w h = resume-eq-ok f (m w) h

module _ {A : Type 0} where
  pub map_err-eq-ok :
      (g : Error → Error) (m : M A) (w : World) {a : A} {w' : World}
      → map_err g m w ≡ (ok a, w')
      → m w ≡ (ok a, w')
  unfolding map_err
  map_err-eq-ok g m w h = ground arith

  pub lift-eq-ok :
      (r : Result A) (w : World) {a : A} {w' : World}
      → lift r w ≡ (ok a, w')
      → (r ≡ ok a) × (w' ≡ w)
  lift-eq-ok r w h = (ap (λ p. p.0) h, sym (ap (λ p. p.1) h))

  pub pure-eq-ok :
      (a : A) (w : World) {b : A} {w' : World} → pure a w ≡ (ok b, w') → (a ≡ b) × (w'.db ≡ w.db)
  pure-eq-ok a w h = (cc, ap (λ p. p.1.db) (sym h))

  pub statement-eq-ok :
      (env : Env) (q : Db → Result (A × Db)) (w : World) {a : A} {w' : World}
      → statement env q w ≡ (ok a, w')
      → q w.db ≡ ok (a, w'.db)
  unfolding statement
  statement-eq-ok env q w h = ground arith

pub time_now-eq-ok :
    (env : Env) (w : World) {t : Time} {w' : World}
    → time_now env w ≡ (ok t, w')
    → (t ≡ env.clock w.step) × (w'.db ≡ w.db)
unfolding time_now
time_now-eq-ok env w h = (ground arith, ground arith)

pub new_id-eq-ok :
    (env : Env) (w : World) {id : Uuid} {w' : World}
    → new_id env w ≡ (ok id, w')
    → (id ≡ env.fresh_id w.step) × (w'.db ≡ w.db)
unfolding new_id
new_id-eq-ok env w h = (ground arith, ground arith)
