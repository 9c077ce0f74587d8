-- ===== src/Domain/Invite/Laws.antt =====
-- An invite serves once.
use hsa.Prelude.{◌≤◌, none, ◌≡◌, arith}
use hsa.Failure.{ok, fails, invite_already_used}
use hsa.Domain.User.{Uuid, Time}
use hsa.Domain.Invite.{Invite, is_used, is_expired, redeem}

-- An invite that was redeemed was unused and not expired, and cannot be redeemed again, by anyone
-- and at any time.
pub redeem_once :
    (by by' : Uuid) (now now' : Time) (i : Invite) {i' : Invite}
    → redeem by now i ≡ ok i'
    → (i.used_at ≡ none) × (now ≤ i.expires_at) × (redeem by' now' i' ≡ fails invite_already_used)
unfolding redeem is_used is_expired
redeem_once by by' now now' i h = (ground arith, ground arith, ground arith)
