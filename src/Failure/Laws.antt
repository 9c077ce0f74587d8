-- ===== src/Failure/Laws.antt =====
-- Facts on `errors.Is`.
use hsa.Prelude.{◌≡◌, true, arith}
use hsa.Failure.{Sentinel, sentinel, wrap, Error, errors_is, Result, ok}

-- Wrapping keeps what the wrapped errors are.
pub errors_is-wrap_right :
    (a b : Error) (t : Sentinel) → errors_is b t ≡ true → errors_is (wrap a b) t ≡ true
unfolding errors_is
errors_is-wrap_right a b t h = ground arith

pub errors_is_self : (s : Sentinel) → errors_is (sentinel s) s ≡ true
unfolding errors_is
errors_is_self s = ground arith

pub ok-injective {ℓ} : {A : Type ℓ} {a b : A} → ok a ≡ ok b → a ≡ b
ok-injective h = cc

pub ok_pair-injective {ℓ} :
    {A : Type ℓ} {a b : A} {B : Type ℓ} {c d : B}
    → ◌≡◌ {A = Result (A × B)} (ok (a, c)) (ok (b, d))
    → (a ≡ b) × (c ≡ d)
ok_pair-injective h = (cc, cc)
