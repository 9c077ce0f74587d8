-- ===== src/Tests/Accounts.antt =====
-- The root user, an invite, a counter, and rows read back.
use hsa.Prelude.{
  String, str_eq, ℕ, ◌≤◌, ◌<◌, true, false, none, some, List, [], ◌∷◌, find_first, exists, ◌≡◌,
  refl, arith,
}
use hsa.Failure.{opaque, ok, fails, errors_is, invite_already_used}
use hsa.Domain.User.{User, member, new_root}
use hsa.Domain.Invite
use hsa.Domain.Invite.{Invite, redeem}
use hsa.Domain.Invite.Laws.{redeem_once}
use hsa.Domain.Credential.{set_sign_count}
use hsa.Domain.Credential.Laws.{IsIncreasing, set_all-IsIncreasing}
use hsa.Domain.Key.{WrappedKey, scope_valid}
use hsa.Storage.Rows.{InviteRow, null_uuid_to_ptr, ptr_to_null_uuid, Db}
use hsa.Storage.Queries.{find_invite_by_code_hash, find_root_user, save_user}
use hsa.Storage.Users
use hsa.Storage.Users.{user_to_row, row_to_user}
use hsa.Storage.Credentials.{row_to_credential}
use hsa.Storage.Invites.{invite_to_row, row_to_invite}
use hsa.Storage.Keys.{wrapped_key_to_row, row_to_wrapped_key}
use hsa.Storage.RoundTrips.{user_round_trip, wrapped_key_round_trip}
use hsa.Application.BootstrapRoot
use hsa.Application.Auth.{Registrator}
use hsa.Application.BeginInviteRegistration
use hsa.Application.BeginInviteRegistration.Laws.{Asked, begin_checks_invite}
use hsa.Crypto.{generate_hash}
use hsa.Storage.Invites
use hsa.Application.BootstrapRoot.Laws.{Bootstraps, root_user, bootstrap-Bootstraps}
use hsa.Tests.Fixtures.{outside, env, phone, start}
use hsa.Runtime.{pure, raise, World, ◌>>=◌, map_err, statement, time_now, new_id}

abbrev empty : Db
empty = record {
  users = [];
  credentials = [];
  invites = [];
  refresh_tokens = [];
  wrapped_keys = [];
}

abbrev bootstrapped : World
bootstrapped = (BootstrapRoot.execute env (start empty)).1

bootstrap_run :
    BootstrapRoot.execute env (start empty) ≡ (ok (root_user 1002 101, none), bootstrapped)
unfolding BootstrapRoot.execute BootstrapRoot.after_find BootstrapRoot.create_root Users.find_root
    ◌>>=◌ map_err statement find_root_user find_first errors_is time_now new_id new_root Users.save
    user_to_row ptr_to_null_uuid save_user exists
bootstrap_run = refl

bootstrap-Bootstraps_example : Bootstraps (root_user 1002 101) none empty bootstrapped.db
bootstrap-Bootstraps_example = bootstrap-Bootstraps env (start empty) bootstrap_run

abbrev unused : Invite
unused = record {
  id = 50;
  created_by = 1;
  code_hash = "hash";
  used_by = none;
  used_at = none;
  expires_at = 900;
  created_at = 100;
}

redeem_run : redeem 2 300 unused ≡ ok (record unused { used_by = some 2; used_at = some 300 })
unfolding redeem Invite.is_used Invite.is_expired
redeem_run = refl

redeem_once_example :
    (◌≡◌ {A = hsa.Prelude.Option ℕ} none none)
    × (300 ≤ 900)
    × (redeem 3 400 (record unused { used_by = some 2; used_at = some 300 })
        ≡ fails invite_already_used)
redeem_once_example = redeem_once 2 3 300 400 unused redeem_run

counted_twice :
    set_sign_count 9 (record (row_to_credential phone) { sign_count = 6 })
    ≡ ok (record (row_to_credential phone) { sign_count = 9 })
unfolding set_sign_count row_to_credential
counted_twice = refl

set_all-IsIncreasing_example : IsIncreasing 6 (9 ∷ [])
set_all-IsIncreasing_example =
    set_all-IsIncreasing (9 ∷ []) (record (row_to_credential phone) { sign_count = 6 })
      (omega arith) counted_twice

abbrev guest : User
guest = record { id = 2; role = member; invited_by = some 1; created_at = 20 }

user_round_trip_example : row_to_user (user_to_row guest) ≡ ok guest
user_round_trip_example = user_round_trip guest refl

abbrev decoy : WrappedKey
decoy = record {
  id = 41;
  user_id = 2;
  credential_id = 30;
  scope = 1;
  wrapped_dek = 7 ∷ [];
  wrap_algorithm = "aes";
  created_at = 13;
}

decoy_is_valid : scope_valid decoy.scope ≡ true
unfolding scope_valid
decoy_is_valid = refl

wrapped_key_round_trip_example : row_to_wrapped_key (wrapped_key_to_row decoy) ≡ decoy
wrapped_key_round_trip_example = wrapped_key_round_trip decoy decoy_is_valid

abbrev registrator : Registrator
registrator = record {
  begin = λ ctx user invite. pure ("challenge", []);
  finish = λ ctx token response. raise (opaque 1);
}

abbrev with_invite : World
with_invite = start (record empty { invites = invite_to_row unused ∷ [] })

abbrev begun : World
begun = (BeginInviteRegistration.execute env registrator outside "first" with_invite).1

begin_run :
    BeginInviteRegistration.execute env registrator outside "first" with_invite
    ≡ (ok ("challenge", []), begun)
unfolding BeginInviteRegistration.execute BeginInviteRegistration.check_invite Invite.is_used
    Invite.is_expired generate_hash Invites.find_by_code_hash find_invite_by_code_hash find_first
    row_to_invite invite_to_row ptr_to_null_uuid null_uuid_to_ptr ◌>>=◌ map_err statement time_now
    new_id
begin_run = refl

begin_checks_invite_example :
    (hash : String) × (r : InviteRow) × (generate_hash env "first" ≡ ok hash)
    × (find_first (λ i. str_eq i.code_hash hash) with_invite.db.invites ≡ some r)
    × (r.used_at ≡ none)
    × (100 ≤ r.expires_at)
    × Asked env registrator outside r.id ("challenge", []) with_invite begun
begin_checks_invite_example =
    begin_checks_invite env registrator outside "first" with_invite begin_run
