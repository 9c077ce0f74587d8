-- ===== src/Storage/Queries/Laws.antt =====
-- What a successful read has read.
use hsa.Prelude.{
  Option, none, some, Bool, true, List, [], ◌∷◌, find_first, ◌≡◌, arith, Bool-cases, inl, inr,
}
use hsa.Failure.{ok}
use hsa.Storage.Rows.{Db}
use hsa.Storage.Queries.{one_row}

module _ {A : Type 0} where
  pub one_row-eq-ok :
      (o : Option A) (d : Db) {a : A} {d' : Db} → one_row o d ≡ ok (a, d') → (o ≡ some a) × (d' ≡ d)
  one_row-eq-ok none d h = absurd (ground arith)
  one_row-eq-ok (some r) d h = (ground arith, ground arith)

  -- What is found passes the test.
  pub find_first-eq-some :
      (p : A → Bool) (xs : List A) {a : A} → find_first p xs ≡ some a → p a ≡ true
  unfolding find_first
  find_first-eq-some p [] h = absurd (ground arith)
  find_first-eq-some p (x ∷ xs) h = elim (Bool-cases (p x)) [
    | inl e ↦ ground arith
    | inr e ↦ find_first-eq-some p xs (ground arith)
  ]
