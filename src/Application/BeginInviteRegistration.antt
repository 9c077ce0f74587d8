-- ===== src/Application/BeginInviteRegistration.antt =====
-- internal/application/begin_invite_registration.go, and begin_login.go, which asks the
-- authenticator alone.
pub mod Laws
use hsa.Prelude.{String, Bytes, if◌then◌else◌}
use hsa.Failure.{sentinel, invite_already_used, invite_expired}
use hsa.Domain.User.{Time}
use hsa.Domain.Invite.{Invite, is_used, is_expired}
use hsa.Storage.Invites
use hsa.Crypto.{generate_hash}
use hsa.Application.Auth.{Registrator, Authenticator}
use hsa.Runtime.{Env, Context, M, pure, raise, lift, ◌>>=◌, time_now, new_id}

-- `BeginLogin.Execute`
unfoldable pub begin_login : Authenticator → Context → M (String × Bytes)
begin_login authenticator ctx = authenticator.begin ctx

module _ (env : Env) where
  unfoldable pub check_invite : Time → Invite → M Invite
  check_invite now inv =
      if is_used inv
      then raise (sentinel invite_already_used)
      else if is_expired inv now
      then raise (sentinel invite_expired)
      else pure inv

  unfoldable pub execute : Registrator → Context → String → M (String × Bytes)
  execute registrator ctx invite_code = do
    now ← time_now env
    hash ← lift (generate_hash env invite_code)
    inv ← Invites.find_by_code_hash env hash
    checked ← check_invite now inv
    candidate_user_id ← new_id env
    registrator.begin ctx candidate_user_id checked.id
