-- ===== src/Domain/User.antt =====
-- internal/domain/user: the user entity and its role (user.go, role.go). A UUID is its 128 bits as
-- a number, `uuid.Nil` is 0, and a `time.Time` is a number of nanoseconds.
use hsa.Prelude.{ℕ, String, str_eq, Option, none, some, Bool, true, false, ◌==◌, if◌then◌else◌}
use hsa.Failure.{
  Result, ok, fails, wrap_invalid, user_id_required, role_required, invited_by_required,
  unknown_role,
}

abbrev pub Uuid : Type 0
Uuid = ℕ

abbrev pub Time : Type 0
Time = ℕ

abbrev pub nil_uuid : Uuid
nil_uuid = 0

pub data Role : Type 0 where
  unknown member admin : Role

-- `Role.String`
abbrev pub role_string : Role → String
role_string unknown = ""
role_string member = "member"
role_string admin = "admin"

unfoldable pub role_from_string : String → Result Role
role_from_string s =
    if str_eq s "member"
    then ok member
    else if str_eq s "admin"
    then ok admin
    else fails unknown_role

pub record User : Type 0 where
  pub id : Uuid
  pub role : Role
  pub invited_by : Option Uuid
  pub created_at : Time

abbrev pub is_unknown : Role → Bool
is_unknown unknown = true
is_unknown member = false
is_unknown admin = false

unfoldable pub new : Uuid → Role → Uuid → Time → Result User
new id role invited_by created_at = wrap_invalid (
    if id == nil_uuid
    then fails user_id_required
    else if is_unknown role
    then fails role_required
    else if invited_by == nil_uuid
    then fails invited_by_required
    else ok
        (record { id = id; role = role; invited_by = some invited_by; created_at = created_at }))

unfoldable pub new_root : Uuid → Time → Result User
new_root id created_at = wrap_invalid (
    if id == nil_uuid
    then fails user_id_required
    else ok (record { id = id; role = admin; invited_by = none; created_at = created_at }))

unfoldable pub is_root : User → Bool
is_root u = elim (u.invited_by) [ none ↦ true | some _ ↦ false ]

unfoldable pub next_invitee_role : User → Role
unfolding is_root
next_invitee_role u = if is_root u then admin else member
