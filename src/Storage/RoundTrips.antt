-- ===== src/Storage/RoundTrips.antt =====
-- What the repositories save is read back as it was.
use hsa.Prelude.{
  ◌==◌, Bool-cases, inl, inr, ℕ, Option, none, some, true, false, ◌≡◌, refl, ap, arith,
}
use hsa.Failure.{ok}
use hsa.Domain.User.{User, Role, unknown, member, admin, role_from_string, is_unknown}
use hsa.Domain.Key.{WrappedKey, scope_valid}
use hsa.Domain.Invite.{Invite}
use hsa.Storage.Rows.{null_uuid_to_ptr, ptr_to_null_uuid}
use hsa.Storage.Users.{user_to_row, row_to_user}
use hsa.Storage.Keys.{wrapped_key_to_row, row_to_wrapped_key, scope_to_pg, scope_from_pg}
use hsa.Storage.Invites.{invite_to_row, row_to_invite}

pub null_uuid_round_trip : (o : Option ℕ) → null_uuid_to_ptr (ptr_to_null_uuid o) ≡ o
unfolding null_uuid_to_ptr ptr_to_null_uuid
null_uuid_round_trip none = refl
null_uuid_round_trip (some id) = refl

role_round_trip :
    (r : Role) → is_unknown r ≡ false → role_from_string (hsa.Domain.User.role_string r) ≡ ok r
unfolding role_from_string
role_round_trip unknown h = cc
role_round_trip member h = refl
role_round_trip admin h = refl

-- A user whose role is known is read back from its row as it was saved.
pub user_round_trip : (u : User) → is_unknown u.role ≡ false → row_to_user (user_to_row u) ≡ ok u
unfolding row_to_user user_to_row
user_round_trip u h =
    rw (row_to_user, role_round_trip u.role h)
      (ap (λ (o : Option ℕ). ok (record u { invited_by = o })) (null_uuid_round_trip u.invited_by))

-- An invite is read back from its row as it was saved.
pub invite_round_trip : (i : Invite) → row_to_invite (invite_to_row i) ≡ i
unfolding row_to_invite invite_to_row
invite_round_trip i = ap (λ o. record i { used_by = o }) (null_uuid_round_trip i.used_by)

scope_round_trip : (s : ℕ) → scope_valid s ≡ true → scope_from_pg (scope_to_pg s) ≡ s
unfolding scope_from_pg scope_to_pg scope_valid
scope_round_trip s h = elim (Bool-cases (s == 0)) [
  | inl e ↦ rw e (ground arith)
  | inr e ↦ rw e (ground arith)
]

-- A wrapped key whose scope is valid is read back from its row as it was saved.
pub wrapped_key_round_trip :
    (k : WrappedKey) → scope_valid k.scope ≡ true → row_to_wrapped_key (wrapped_key_to_row k) ≡ k
unfolding row_to_wrapped_key wrapped_key_to_row
wrapped_key_round_trip k h = ap (λ s. record k { scope = s }) (scope_round_trip k.scope h)
