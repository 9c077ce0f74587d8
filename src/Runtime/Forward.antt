-- ===== src/Runtime/Forward.antt =====
-- Running a computation forward where no statement fails.
use hsa.Prelude.{ℕ, suc, none, ◌≡◌, ap, ◌∙◌}
use hsa.Failure.{Error, Result, ok, err}
use hsa.Storage.Rows.{Db}
use hsa.Runtime.{Env, World, M, resume, ◌>>=◌, replace_err, map_err, statement, tick}

-- No statement, `BEGIN` or `COMMIT` fails.
abbrev pub NoFaults : Env → Type 0
NoFaults env = (n : ℕ) → env.fault n ≡ none

-- The call returns a value.
abbrev pub Succeeds : {A : Type 0} → M A → World → Type 0
Succeeds {A} m w = (a : A) × (w' : World) × (m w ≡ (ok a, w'))

module _ {A B : Type 0} where
  pub >>=-of_ok :
      (m : M A) (f : A → M B) (w : World) {a : A} {w₁ : World}
      → m w ≡ (ok a, w₁)
      → (m >>= f) w ≡ f a w₁
  unfolding ◌>>=◌
  >>=-of_ok m f w h = ap (resume f) h

  pub >>=-Succeeds :
      (m : M A) (f : A → M B) (w : World) {a : A} {w₁ : World}
      → m w ≡ (ok a, w₁)
      → Succeeds (f a) w₁
      → Succeeds (m >>= f) w
  >>=-Succeeds m f w h (b, w₂, k) = (b, w₂, >>=-of_ok m f w h ∙ k)

module _ {A : Type 0} where
  pub map_err-of_ok :
      (g : Error → Error) (m : M A) (w : World) {a : A} {w' : World}
      → m w ≡ (ok a, w')
      → map_err g m w ≡ (ok a, w')
  unfolding map_err
  map_err-of_ok g m w h = ap (replace_err g) h

  pub statement-of_ok :
      (env : Env) (q : Db → Result (A × Db)) (w : World) {a : A} {d : Db}
      → NoFaults env
      → q w.db ≡ ok (a, d)
      → statement env q w ≡ (ok a, record { db = d; step = suc w.step })
  unfolding statement
  statement-of_ok env q w calm h = rw (calm w.step, statement) (rw (h, statement))

-- The steps of a computation that returns an error.
module _ {A B : Type 0} where
  pub >>=-of_err :
      (m : M A) (f : A → M B) (w : World) {e : Error} {w₁ : World}
      → m w ≡ (err e, w₁)
      → (m >>= f) w ≡ (err e, w₁)
  unfolding ◌>>=◌
  >>=-of_err m f w h = ap (resume f) h

module _ {A : Type 0} where
  pub map_err-of_err :
      (g : Error → Error) (m : M A) (w : World) {e : Error} {w' : World}
      → m w ≡ (err e, w')
      → map_err g m w ≡ (err (g e), w')
  unfolding map_err
  map_err-of_err g m w h = ap (replace_err g) h

  pub statement-of_err :
      (env : Env) (q : Db → Result (A × Db)) (w : World) {e : Error}
      → NoFaults env
      → q w.db ≡ err e
      → statement env q w ≡ (err e, tick w)
  unfolding statement
  statement-of_err env q w calm h = rw (calm w.step, statement) (rw (h, statement))
