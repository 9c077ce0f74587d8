-- ===== src/Errkit.antt =====
-- pkg/errkit/errmap.go: a registry of handlers, which turns an error into a value.
pub mod Laws
pub mod Multi
pub mod Group
use hsa.Prelude.{Option, none, some, Bool, true, false, List, [], ◌∷◌, ◌++◌, if◌then◌else◌}
use hsa.Failure.{Error, Sentinel, Result, ok, err, errors_is}

pub record Registry (T : Type 0) : Type 0 where
  pub handlers : List (Error → Option T)
  pub defaul : Option (Error → T)

abbrev pub RegistryOption : Type 0 → Type 0
RegistryOption T = Registry T → Registry T

module _ {T : Type 0} where
  unfoldable pub on_match : (Error → Bool) → (Error → T) → RegistryOption T
  on_match matches m r = record r {
    handlers = r.handlers ++ (λ e. if matches e then some (m e) else none) ∷ [];
  }

  unfoldable pub on_is : (Error → T) → Sentinel → RegistryOption T
  on_is m target r = record r {
    handlers = r.handlers ++ (λ e. if errors_is e target then some (m e) else none) ∷ [];
  }

  unfoldable pub default : (Error → T) → RegistryOption T
  default m r = record r { defaul = some m }

  unfoldable pub apply : List (RegistryOption T) → RegistryOption T
  apply [] r = r
  apply (o ∷ os) r = apply os (o r)

  unfoldable pub new : List (RegistryOption T) → Registry T
  new opts = apply opts (record { handlers = []; defaul = none })

  abbrev pub by_default : Option (Error → T) → Error → Option T
  by_default none e = none
  by_default (some m) e = some (m e)

  abbrev pub or_next : Option T → Option T → Option T
  or_next (some v) rest = some v
  or_next none rest = rest

  -- The loop over the handlers, and what follows it.
  unfoldable pub run_handlers : List (Error → Option T) → Option (Error → T) → Error → Option T
  run_handlers [] d e = by_default d e
  run_handlers (h ∷ hs) d e = or_next (h e) (run_handlers hs d e)

  unfoldable pub resolve : Registry T → Error → Option T
  resolve r e = run_handlers r.handlers r.defaul e

  abbrev value_or : Error → Option T → Result T
  value_or e none = err e
  value_or e (some v) = ok v

  unfoldable pub handle : Registry T → Error → Result T
  handle r e = value_or e (resolve r e)
