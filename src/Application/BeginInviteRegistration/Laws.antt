-- ===== src/Application/BeginInviteRegistration/Laws.antt =====
-- What the begin of a registration has checked when it returns a challenge.
use hsa.Prelude.{
  ℕ, String, str_eq, Bytes, none, some, find_first, ◌≤◌, ◌≡◌, sym, ap, subst, ◌∙◌, arith,
}
use hsa.Failure.{ok}
use hsa.Domain.User.{Uuid, Time}
use hsa.Domain.Invite.{Invite, is_used, is_expired}
use hsa.Storage.Rows.{InviteRow, Db}
use hsa.Storage.Invites.{row_to_invite}
use hsa.Storage.Invites.Laws.{find_by_code_hash-eq-ok}
use hsa.Crypto.{generate_hash}
use hsa.Application.Auth.{Registrator}
use hsa.Application.BeginInviteRegistration.{check_invite, execute}
use hsa.Runtime.{Env, World, Context}
use hsa.Runtime.Laws.{>>=-eq-ok, lift-eq-ok, time_now-eq-ok, new_id-eq-ok}

module _ (env : Env) where
  check_invite-eq-ok :
      (now : Time) (i : Invite) (w : World) {i' : Invite} {w' : World}
      → check_invite env now i w ≡ (ok i', w')
      → (i.used_at ≡ none) × (now ≤ i.expires_at) × (i' ≡ i) × (w'.db ≡ w.db)
  unfolding check_invite is_used is_expired
  check_invite-eq-ok now i w h = (ground arith, ground arith, ground arith, ground arith)

  -- The registrator was asked for this challenge, for a fresh user and this invite.
  abbrev pub Asked : Registrator → Context → Uuid → String × Bytes → World → World → Type 0
  Asked registrator ctx invite_id out w w' =
      (step : ℕ) × (v : World) × (v.db ≡ w.db)
      × (registrator.begin ctx (env.fresh_id step) invite_id v ≡ (ok out, w'))

  -- A challenge is returned only for a code whose hash is that of a stored invite, which is unused
  -- and not expired at the time of the call; it is the registrator's, for a fresh user id and that
  -- invite, and nothing was written before it was asked.
  pub begin_checks_invite :
      (registrator : Registrator) (ctx : Context) (code : String) (w : World) {out : String × Bytes}
      {w' : World}
      → execute env registrator ctx code w ≡ (ok out, w')
      → (hash : String) × (r : InviteRow) × (generate_hash env code ≡ ok hash)
        × (find_first (λ i. str_eq i.code_hash hash) w.db.invites ≡ some r)
        × (r.used_at ≡ none)
        × (env.clock w.step ≤ r.expires_at)
        × Asked registrator ctx r.id out w w'
  unfolding execute row_to_invite
  begin_checks_invite registrator ctx code w {out} {w'} h =
      let (now, w₁, clock, rest₁) = >>=-eq-ok _ _ w h in
      let (hash, w₂, hashed, rest₂) = >>=-eq-ok _ _ w₁ rest₁ in
      let (inv, w₃, read, rest₃) = >>=-eq-ok _ _ w₂ rest₂ in
      let (checked, w₄, passed, rest₄) = >>=-eq-ok _ _ w₃ rest₃ in
      let (id, w₅, drawn, asked) = >>=-eq-ok _ _ w₄ rest₄ in
      let (time, same₁) = time_now-eq-ok env w clock in
      let (made, same₂) = lift-eq-ok _ w₁ hashed in
      let (r, found, is_r, same₃) = find_by_code_hash-eq-ok env hash w₂ read in
      let (unused, live, same_invite, same₄) = check_invite-eq-ok now inv w₃ passed in
      let (fresh, same₅) = new_id-eq-ok env w₄ drawn in
      let start : w₂.db ≡ w.db = ap (λ (v : World). v.db) same₂ ∙ same₁ in
      (
        hash,
        r,
        made,
        ap (λ (d : Db). find_first (λ i. str_eq i.code_hash hash) d.invites) (sym start) ∙ found,
        ap (λ (i : Invite). i.used_at) (sym is_r) ∙ unused,
        subst (λ t. t ≤ r.expires_at) time (subst (λ (i : Invite). now ≤ i.expires_at) is_r live),
        (
          w₄.step,
          w₅,
          same₅ ∙ same₄ ∙ same₃ ∙ start,
          subst (λ x. registrator.begin ctx x r.id w₅ ≡ (ok out, w')) fresh
              (subst (λ (i : Invite). registrator.begin ctx id i.id w₅ ≡ (ok out, w'))
                (same_invite ∙ is_r) asked),
        ),
      )
