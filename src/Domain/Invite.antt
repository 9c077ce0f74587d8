-- ===== src/Domain/Invite.antt =====
-- internal/domain/invite: the invite entity and the issuing policy (invite.go, policy.go).
pub mod Laws
use hsa.Prelude.{
  ℕ, ◌+◌, String, str_eq, Option, none, some, Bool, true, false, ltb, leb, ◌==◌, if◌then◌else◌,
}
use hsa.Failure.{
  Result, ok, fails, wrap_invalid, invite_id_required, user_id_required, code_hash_required,
  invite_already_used, invite_expired, too_many_active,
}
use hsa.Domain.User.{Uuid, Time, nil_uuid}

pub record Invite : Type 0 where
  pub id : Uuid
  pub created_by : Uuid
  pub code_hash : String
  pub used_by : Option Uuid
  pub used_at : Option Time
  pub expires_at : Time
  pub created_at : Time

unfoldable pub new : Uuid → Uuid → String → (ttl : ℕ) → (now : Time) → Result Invite
new id created_by code_hash ttl now = wrap_invalid (
    if id == nil_uuid
    then fails invite_id_required
    else if created_by == nil_uuid
    then fails user_id_required
    else if str_eq code_hash ""
    then fails code_hash_required
    else ok (record {
      id = id;
      created_by = created_by;
      code_hash = code_hash;
      used_by = none;
      used_at = none;
      expires_at = now + ttl;
      created_at = now;
    }))

-- `now.After(i.expiresAt)`
unfoldable pub is_expired : Invite → Time → Bool
is_expired i now = ltb i.expires_at now

unfoldable pub is_used : Invite → Bool
is_used i = elim (i.used_at) [ none ↦ false | some _ ↦ true ]

-- `Redeem` returns an error and leaves the invite alone, or the invite as it is left.
unfoldable pub redeem : Uuid → Time → Invite → Result Invite
unfolding is_used is_expired
redeem by now i =
    if is_used i
    then fails invite_already_used
    else if is_expired i now
    then fails invite_expired
    else ok (record i { used_by = some by; used_at = some now })

-- `Policy`; `int` counts are natural numbers, since a count and a validated limit are not negative.
pub record Policy : Type 0 where
  pub max_active : ℕ
  pub unlimited : Bool

abbrev pub new_policy : ℕ → Policy
new_policy max_active = record { max_active = max_active; unlimited = false }

abbrev pub new_unlimited_policy : Policy
new_unlimited_policy = record { max_active = 0; unlimited = true }

unfoldable pub can_issue : Policy → (active_count : ℕ) → Result (Unit {0})
can_issue p active_count =
    if p.unlimited
    then ok tt
    else if leb p.max_active active_count
    then fails too_many_active
    else ok tt
