-- ===== src/Application/FinishInviteRegistration/Laws.antt =====
-- What the statements of a registration ask of the table of users.
use hsa.Prelude.{
  String, some, true, false, is_empty, Bool-cases, inl, inr, ◌≡◌, ◌≢◌, sym, ap, ◌∙◌, arith, if_true,
  if_false,
}
use hsa.Failure.{ok}
use hsa.Domain.User
use hsa.Domain.User.{Uuid, Time, User, Role}
use hsa.Domain.Invite.{Invite, redeem}
use hsa.Domain.Credential.{Credential}
use hsa.Domain.Key.{Policy}
use hsa.Storage.Rows.{Db}
use hsa.Storage.Queries.{save_user, user_exists}
use hsa.Storage.Users
use hsa.Storage.Users.{user_to_row}
use hsa.Storage.Users.Laws.{find_by_id-eq-ok as find_user-eq-ok}
use hsa.Storage.Invites.Laws.{save-eq-ok, save-used_by}
use hsa.Storage.Transaction.Laws.{run_in_transaction-eq-ok}
use hsa.Application.Auth.{RegistrationResult, Registrator}
use hsa.Application.SessionIssuer.{SessionConfig}
use hsa.Application.FinishInviteRegistration.{
  RegistrationInput, find_invite_creator, redeem_invite, create_user_and_credential, register_tx,
  execute,
}
use hsa.Runtime.{Env, World, Context, M}
use hsa.Runtime.Laws.{>>=-eq-ok, map_err-eq-ok, statement-eq-ok, lift-eq-ok, pure-eq-ok}

redeem-used_by :
    (by : Uuid) (now : Time) (i : Invite) {i' : Invite}
    → redeem by now i ≡ ok i'
    → i'.used_by ≡ some by
unfolding redeem
redeem-used_by by now i h = ground arith

new-id :
    (id : Uuid) (role : Role) (by : Uuid) (now : Time) {u : User}
    → User.new id role by now ≡ ok u
    → u.id ≡ id
unfolding User.new
new-id id role by now h = ground arith

save_user-fresh :
    (u : User) (d : Db) {d' : Db}
    → save_user (user_to_row u) d ≡ ok (tt, d')
    → user_exists d u.id ≡ false
unfolding save_user user_to_row
save_user-fresh u d h = ground arith

module _ (env : Env) (cfg : SessionConfig) where
  -- Redeeming an invite for a user needs the user's row.
  redeem_invite-user :
      (invite_id user_id : Uuid) (now : Time) (w : World) {i : Invite} {w' : World}
      → redeem_invite env cfg invite_id user_id now w ≡ (ok i, w')
      → user_exists w'.db user_id ≡ true
  unfolding redeem_invite
  redeem_invite-user invite_id user_id now w h =
      let (inv, w₁, found, rest₁) = >>=-eq-ok _ _ w h in
      let (redeemed, w₂, made, rest₂) = >>=-eq-ok _ _ w₁ rest₁ in
      let (unit, w₃, saved, end) = >>=-eq-ok _ _ w₂ rest₂ in
      let (made_is, _) = lift-eq-ok _ w₁ made in
      let known =
        save-used_by env redeemed user_id w₂ (redeem-used_by user_id now inv made_is) saved in
      let kept = (pure-eq-ok redeemed w₃ end).1 ∙ save-eq-ok env redeemed w₂ saved in
      ap (λ (d : Db). user_exists d user_id) kept ∙ known

  find_invite_creator-eq-ok :
      (id : Uuid) (w : World) {u : User} {w' : World}
      → find_invite_creator env cfg id w ≡ (ok u, w')
      → w'.db ≡ w.db
  unfolding find_invite_creator
  find_invite_creator-eq-ok id w h =
      let (_, _, _, same) = find_user-eq-ok env id w (map_err-eq-ok _ _ w h) in same

  -- Creating a user needs its id to be free.
  create_user-fresh :
      (res : RegistrationResult) (creator : User) (now : Time) (w : World) {p : User × Credential}
      {w' : World}
      → create_user_and_credential env cfg res creator now w ≡ (ok p, w')
      → user_exists w.db res.user_id ≡ false
  unfolding create_user_and_credential Users.save
  create_user-fresh res creator now w h =
      let (u, w₁, made, rest₁) = >>=-eq-ok _ _ w h in
      let (unit, w₂, saved, rest₂) = >>=-eq-ok _ _ w₁ rest₁ in
      let (made_is, same) = lift-eq-ok _ w made in
      let free = save_user-fresh u w₁.db (statement-eq-ok env _ w₁ saved) in
      ap (λ (v : World). user_exists v.db res.user_id) (sym same)
      ∙ ap (user_exists w₁.db) (sym (new-id _ _ _ _ made_is))
      ∙ free

  register_tx-fails :
      (input : RegistrationInput) (result : RegistrationResult) (ctx : Context) (w : World)
      {out : String × String} {w' : World}
      → register_tx env cfg input result ctx w ≢ (ok out, w')
  unfolding register_tx
  register_tx-fails input result ctx w h =
      let (now, w₁, clock, rest₁) = >>=-eq-ok _ _ w h in
      let (inv, w₂, redeemed, rest₂) = >>=-eq-ok _ _ w₁ rest₁ in
      let (creator, w₃, found, rest₃) = >>=-eq-ok _ _ w₂ rest₂ in
      let ((u, cred), w₄, created, _) = >>=-eq-ok _ _ w₃ rest₃ in
      let known = redeem_invite-user result.invite_id result.user_id now w₁ redeemed in
      let free = create_user-fresh result creator now w₃ created in
      let same = find_invite_creator-eq-ok inv.created_by w₂ found in
      let both : true ≡ false =
        sym known ∙ ap (λ (d : Db). user_exists d result.user_id) (sym same) ∙ free in
      cc

  -- A registration never returns tokens, whatever the registrator answers and the tables hold: the
  -- invite is saved as used by a user whose row must exist by then, and the user's row is inserted
  -- afterwards, under an id which must be free.
  pub registration_never_succeeds :
      (policy : Policy) (registrator : Registrator) (ctx : Context) (input : RegistrationInput)
      (w : World) {out : String × String} {w' : World}
      → execute env cfg policy registrator ctx input w ≢ (ok out, w')
  unfolding execute
  registration_never_succeeds policy registrator ctx input w {out} {w'} h =
      elim (Bool-cases (is_empty input.wrapped_keys)) [
        | inl e ↦ let k = sym (ap (λ (m : M (String × String)). m w) (if_true _ _ _ e)) ∙ h in cc
        | inr e ↦
            let k = sym (ap (λ (m : M (String × String)). m w) (if_false _ _ _ e)) ∙ h in
            let (unit, w₁, counted, rest₁) = >>=-eq-ok _ _ w k in
            let (result, w₂, answered, rest₂) = >>=-eq-ok _ _ w₁ rest₁ in
            let (tx_ctx, w₃, w₄, _, _, body, _) = run_in_transaction-eq-ok _ env ctx _ w₂ rest₂ in
            register_tx-fails input result tx_ctx w₃ body
      ]
