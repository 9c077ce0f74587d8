-- ===== src/Errkit/Laws.antt =====
-- A registry made of cases and a default is the list of its cases, read in order.
use hsa.Prelude.{
  Option, none, some, List, [], ◌∷◌, ◌++◌, map, if◌then◌else◌, ◌≡◌, refl, sym, ap, ◌∙◌, Bool-cases,
  inl, inr,
}
use hsa.Failure.{Error, Sentinel, errors_is}
use hsa.Errkit.{RegistryOption, on_is, default, apply, new, run_handlers, resolve}

-- One case: a target and the value for the errors that are it.
abbrev pub Case : Type 0 → Type 0
Case T = Sentinel × T

++-nil : {A : Type 0} (xs : List A) → xs ++ [] ≡ xs
++-nil [] = refl
++-nil (x ∷ xs) = ap (λ l. x ∷ l) (++-nil xs)

++-snoc : {A : Type 0} (xs : List A) (y : A) (ys : List A) → (xs ++ y ∷ []) ++ ys ≡ xs ++ y ∷ ys
++-snoc [] y ys = refl
++-snoc (x ∷ xs) y ys = ap (λ l. x ∷ l) (++-snoc xs y ys)

module _ {T : Type 0} where
  -- The value of the first case that matches, or the default.
  unfoldable pub first_case : List (Case T) → T → Error → T
  first_case [] d e = d
  first_case ((s, v) ∷ cases) d e = if errors_is e s then v else first_case cases d e

  abbrev pub on_case : Case T → RegistryOption T
  on_case (s, v) = on_is (λ e. v) s

  abbrev handler : Case T → Error → Option T
  handler (s, v) e = if errors_is e s then some v else none

  apply-cases :
      (cases : List (Case T)) (d : T) (hs : List (Error → Option T))
      → apply (map on_case cases ++ default (λ e. d) ∷ []) (record { handlers = hs; defaul = none })
        ≡ record { handlers = hs ++ map handler cases; defaul = some (λ e. d) }
  unfolding apply on_is default
  apply-cases [] d hs = ap (λ l. record { handlers = l; defaul = some (λ e. d) }) (sym (++-nil hs))
  apply-cases ((s, v) ∷ cases) d hs =
      apply-cases cases d (hs ++ (λ e. if errors_is e s then some v else none) ∷ [])
      ∙ ap (λ l. record { handlers = l; defaul = some (λ e. d) }) (++-snoc hs _ (map handler cases))

  run-cases :
      (cases : List (Case T)) (d : T) (e : Error)
      → run_handlers (map handler cases) (some (λ x. d)) e ≡ some (first_case cases d e)
  unfolding run_handlers first_case
  run-cases [] d e = refl
  run-cases ((s, v) ∷ cases) d e = elim (Bool-cases (errors_is e s)) [
    | inl t ↦ rw t refl
    | inr f ↦ rw f (run-cases cases d e)
  ]

  -- A registry of cases and a default gives every error the value of the first case that the error
  -- is, and the default where it is none of them.
  pub resolve-first_case :
      (cases : List (Case T)) (d : T) (e : Error)
      → resolve (new (map on_case cases ++ default (λ x. d) ∷ [])) e ≡ some (first_case cases d e)
  unfolding resolve new
  resolve-first_case cases d e =
      ap (λ r. run_handlers r.handlers r.defaul e) (apply-cases cases d []) ∙ run-cases cases d e
