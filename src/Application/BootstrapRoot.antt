-- ===== src/Application/BootstrapRoot.antt =====
-- internal/application/bootstrap_root.go. Where a root exists `Execute` returns it beside its
-- error, so that its result is the user with the error that came with it, if any.
pub mod Laws
use hsa.Prelude.{Option, none, some, if◌then◌else◌}
use hsa.Failure.{Error, sentinel, Result, ok, err, panic, errors_is, not_found, root_already_exists}
use hsa.Domain.User.{User, new_root}
use hsa.Storage.Users
use hsa.Runtime.{Env, World, M, raise, pure, lift, ◌>>=◌, ◌>>◌, time_now, new_id}

module _ (env : Env) where
  unfoldable pub create_root : M (User × Option Error)
  create_root = do
    now ← time_now env
    id ← new_id env
    root ← lift (new_root id now)
    Users.save env root
    pure (root, none)

  -- What follows `FindRoot`.
  unfoldable pub after_find : Result User × World → Result (User × Option Error) × World
  after_find (ok existing, w) = pure (existing, some (sentinel root_already_exists)) w
  after_find (err e, w) = (if errors_is e not_found then create_root else raise e) w
  after_find (panic p, w) = (panic p, w)

  unfoldable pub execute : M (User × Option Error)
  execute w = after_find (Users.find_root env w)
