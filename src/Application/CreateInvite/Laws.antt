-- ===== src/Application/CreateInvite/Laws.antt =====
-- What `CreateInvite.Execute` writes, and the limit that it keeps.
use hsa.Prelude.{
  ℕ, suc, ◌+◌, ◌<◌, ◌≤◌, ◌⊎◌, String, none, Bool, true, false, List, [], ◌∷◌, length, select,
  upsert, ◌≡◌, sym, ap, ap₂, ◌∙◌, subst, arith, Bool-cases, inl, inr,
}
use hsa.Failure.{ok}
use hsa.Domain.User.{Uuid, Time}
use hsa.Domain.Invite
use hsa.Domain.Invite.{Invite, Policy, can_issue}
use hsa.Storage.Rows.{Db}
use hsa.Storage.Queries.{invite_is_active}
use hsa.Storage.Invites.Laws.{count_active_by_user-eq-ok, save-eq-ok, put_invite}
use hsa.Storage.Transaction.Laws.{run_in_transaction-eq-ok}
use hsa.Crypto.{generate_hash}
use hsa.Crypto.Laws.{generate_token-eq-ok}
use hsa.Application.CreateInvite.{create_tx, execute}
use hsa.Runtime.{Env, World, Context}
use hsa.Runtime.Laws.{>>=-eq-ok, lift-eq-ok, pure-eq-ok, time_now-eq-ok, new_id-eq-ok}

-- An upsert touches one row, so that it adds one match at most.
length-select-upsert :
    {A : Type 0} (p q : A → Bool) (m : A → A) (new : A) (xs : List A)
    → length (select p (upsert q m new xs)) ≤ suc (length (select p xs))
unfolding select upsert
length-select-upsert p q m new [] = ground arith
length-select-upsert p q m new (x ∷ xs) = ground (arith, length-select-upsert p q m new xs)

-- The invites of the user that count at that time.
abbrev pub active_count : Uuid → Time → Db → ℕ
active_count user now d = length (select (invite_is_active user now) d.invites)

can_issue-limit :
    (p : Policy) (n : ℕ) → can_issue p n ≡ ok tt → p.unlimited ≡ false → n < p.max_active
unfolding can_issue
can_issue-limit p n h k = ground arith

abbrev pub new_invite : Uuid → Uuid → String → Time → Time → Invite
new_invite id by hash expires now = record {
  id = id;
  created_by = by;
  code_hash = hash;
  used_by = none;
  used_at = none;
  expires_at = expires;
  created_at = now;
}

new-eq-ok :
    (id by : Uuid) (hash : String) (ttl : ℕ) (now : Time) {i : Invite}
    → Invite.new id by hash ttl now ≡ ok i
    → i ≡ new_invite id by hash (now + ttl) now
unfolding Invite.new
new-eq-ok id by hash ttl now h = ground arith

fits : {n m k : ℕ} → n < m → k ≤ suc n → k ≤ m
fits h l = omega arith

within :
    {policy : Policy} (user : Uuid) (now : Time) (i : Invite) (before after : Db)
    → can_issue policy (active_count user now before) ≡ ok tt
    → after ≡ put_invite i before
    → (policy.unlimited ≡ true)
      ⊎ (active_count user now before < policy.max_active)
        × (active_count user now after ≤ policy.max_active)
within {policy} user now i before after allowed made = elim (Bool-cases policy.unlimited) [
  | inl e ↦ inl e
  | inr e ↦
      let below = can_issue-limit policy _ allowed e in
      inr (
        below,
        subst (λ d. active_count user now d ≤ policy.max_active) (sym made)
            (fits below (length-select-upsert (invite_is_active user now) _ _ _ before.invites)),
      )
]

module _ (env : Env) (policy : Policy) (ttl : ℕ) where
  create_tx-eq-ok :
      (user : Uuid) (now : Time) (w : World) {code : String} {expires : Time} {w' : World}
      → create_tx env policy ttl user now w ≡ (ok (code, expires), w')
      → (step : ℕ) × (hash : String) × (can_issue policy (active_count user now w.db) ≡ ok tt)
        × (generate_hash env code ≡ ok hash)
        × (expires ≡ now + ttl)
        × (w'.db ≡ put_invite (new_invite (env.fresh_id step) user hash (now + ttl) now) w.db)
  unfolding create_tx
  create_tx-eq-ok user now w h =
      let (active, w₁, counted, rest₁) = >>=-eq-ok _ _ w h in
      let (unit, w₂, allowed, rest₂) = >>=-eq-ok _ _ w₁ rest₁ in
      let ((raw, hash), w₃, made, rest₃) = >>=-eq-ok _ _ w₂ rest₂ in
      let (id, w₄, drawn, rest₄) = >>=-eq-ok _ _ w₃ rest₃ in
      let (inv, w₅, built, rest₅) = >>=-eq-ok _ _ w₄ rest₄ in
      let (unit', w₆, saved, end) = >>=-eq-ok _ _ w₅ rest₅ in
      let (count_is, same₁) = count_active_by_user-eq-ok env user now w counted in
      let (may, same₂) = lift-eq-ok _ w₁ allowed in
      let (hashed, same₃) = generate_token-eq-ok env _ w₂ made in
      let (fresh, same₄) = new_id-eq-ok env w₃ drawn in
      let (built_is, same₅) = lift-eq-ok _ w₄ built in
      let (given, same₆) = pure-eq-ok _ w₆ end in
      let inv_is : inv ≡ new_invite (env.fresh_id w₃.step) user hash (now + ttl) now =
        new-eq-ok id user hash ttl now built_is
        ∙ ap (λ i. new_invite i user hash (now + ttl) now) fresh in
      (
        w₃.step,
        hash,
        ap (can_issue policy) (sym count_is) ∙ may,
        ap (λ p. generate_hash env p.0) (sym given) ∙ hashed,
        ap (λ p. p.1) (sym given) ∙ ap (λ (i : Invite). i.expires_at) inv_is,
        same₆
            ∙ save-eq-ok env inv w₅ saved
            ∙ ap₂ put_invite inv_is (
                ap (λ (v : World). v.db) same₅
                ∙ same₄
                ∙ same₃
                ∙ ap (λ (v : World). v.db) same₂
                ∙ same₁),
      )

  -- A successful call saved one invite, unused, under a fresh id, with the hash of the returned code
  -- and the returned end, the configured time after the call. Under a limited policy the user had
  -- fewer active invites than the limit, and has no more than the limit afterwards.
  pub create_invite_keeps_limit :
      (ctx : Context) (user : Uuid) (w : World) {code : String} {expires : Time} {w' : World}
      → execute env policy ttl ctx user w ≡ (ok (code, expires), w')
      → (step : ℕ) × (hash : String) × (generate_hash env code ≡ ok hash)
        × (expires ≡ env.clock w.step + ttl)
        × (w'.db
            ≡ put_invite (new_invite (env.fresh_id step) user hash expires (env.clock w.step)) w.db)
        × ((policy.unlimited ≡ true)
            ⊎ (active_count user (env.clock w.step) w.db < policy.max_active)
              × (active_count user (env.clock w.step) w'.db ≤ policy.max_active))
  unfolding execute
  create_invite_keeps_limit ctx user w {code} {expires} {w'} h =
      let (now, w₁, clock, rest) = >>=-eq-ok _ _ w h in
      let (tx_ctx, w₂, w₃, _, begun, body, ended) = run_in_transaction-eq-ok _ env ctx _ w₁ rest in
      let (time, same) = time_now-eq-ok env w clock in
      let start : w₂.db ≡ w.db = begun ∙ same in
      let (step, hash, may, hashed, expires_is, written) = create_tx-eq-ok user now w₂ body in
      let ends : expires ≡ env.clock w.step + ttl = expires_is ∙ ap (λ t. t + ttl) time in
      let made : w'.db
          ≡ put_invite (new_invite (env.fresh_id step) user hash expires (env.clock w.step)) w.db =
        ended
        ∙ written
        ∙ ap₂ (λ e (d : Db). put_invite (new_invite (env.fresh_id step) user hash e now) d)
            (sym expires_is) start
        ∙ ap (λ t. put_invite (new_invite (env.fresh_id step) user hash expires t) w.db) time in
      let allowed : can_issue policy (active_count user (env.clock w.step) w.db) ≡ ok tt =
        ap₂ (λ t d. can_issue policy (active_count user t d)) (sym time) (sym start) ∙ may in
      (step, hash, hashed, ends, made, within user (env.clock w.step) _ w.db w'.db allowed made)
