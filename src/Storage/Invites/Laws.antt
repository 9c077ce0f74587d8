-- ===== src/Storage/Invites/Laws.antt =====
-- What the invite repository has read or saved when it returns no error.
use hsa.Prelude.{
  String, str_eq, ℕ, some, true, find_first, upsert, select, length, ◌==◌, ◌≡◌, sym, ap, ◌∙◌, arith,
}
use hsa.Failure.{ok}
use hsa.Failure.Laws.{ok_pair-injective}
use hsa.Domain.User.{Uuid, Time}
use hsa.Domain.Invite.{Invite}
use hsa.Storage.Rows.{InviteRow, Db, ptr_to_null_uuid}
use hsa.Storage.Queries.{
  find_invite_by_id_for_update, find_invite_by_code_hash, save_invite, merge_invite, user_exists,
  invite_is_active, lock_user_by_id, count_active_invites_by_user,
}
use hsa.Storage.Queries.Laws.{one_row-eq-ok}
use hsa.Storage.Invites.{
  row_to_invite, invite_to_row, find_by_id, find_by_code_hash, save, count_active_by_user,
}
use hsa.Runtime.{Env, World}
use hsa.Runtime.Laws.{>>=-eq-ok, map_err-eq-ok, statement-eq-ok, pure-eq-ok}

-- The table with this invite saved: the row with its id, or a new one.
abbrev pub put_invite : Invite → Db → Db
put_invite i d = record d {
  invites =
      upsert (λ (r : InviteRow). r.id == i.id) (merge_invite (invite_to_row i)) (invite_to_row i)
        d.invites;
}

save_invite-eq-ok :
    (i : Invite) (d : Db) {d' : Db}
    → save_invite (invite_to_row i) d ≡ ok (tt, d')
    → d' ≡ put_invite i d
unfolding save_invite invite_to_row
save_invite-eq-ok i d h = ground arith

-- The foreign key of `used_by` is checked as the statement ends.
save_invite-used_by :
    (i : Invite) (user : Uuid) (d : Db) {d' : Db}
    → i.used_by ≡ some user
    → save_invite (invite_to_row i) d ≡ ok (tt, d')
    → user_exists d user ≡ true
unfolding save_invite invite_to_row ptr_to_null_uuid
save_invite-used_by i user d used h = ground arith

module _ (env : Env) where
  pub save-eq-ok :
      (i : Invite) (w : World) {w' : World} → save env i w ≡ (ok tt, w') → w'.db ≡ put_invite i w.db
  unfolding save
  save-eq-ok i w h = save_invite-eq-ok i w.db (statement-eq-ok env _ w h)

  -- An invite that was saved as used is used by a user of the table.
  pub save-used_by :
      (i : Invite) (user : Uuid) (w : World) {w' : World}
      → i.used_by ≡ some user
      → save env i w ≡ (ok tt, w')
      → user_exists w.db user ≡ true
  unfolding save
  save-used_by i user w used h = save_invite-used_by i user w.db used (statement-eq-ok env _ w h)

  pub find_by_id-eq-ok :
      (id : Uuid) (w : World) {i : Invite} {w' : World}
      → find_by_id env id w ≡ (ok i, w')
      → (r : InviteRow) × (find_first (λ r. r.id == id) w.db.invites ≡ some r)
        × (i ≡ row_to_invite r)
        × (w'.db ≡ w.db)
  unfolding find_by_id find_invite_by_id_for_update
  find_by_id-eq-ok id w h =
      let (row, w₁, read, kept) = >>=-eq-ok _ _ w h in
      let (found, same) = one_row-eq-ok _ _ (statement-eq-ok env _ w (map_err-eq-ok _ _ w read)) in
      let (given, end) = pure-eq-ok (row_to_invite row) w₁ kept in
      (row, found, sym given, end ∙ same)

  pub find_by_code_hash-eq-ok :
      (hash : String) (w : World) {i : Invite} {w' : World}
      → find_by_code_hash env hash w ≡ (ok i, w')
      → (r : InviteRow) × (find_first (λ r. str_eq r.code_hash hash) w.db.invites ≡ some r)
        × (i ≡ row_to_invite r)
        × (w'.db ≡ w.db)
  unfolding find_by_code_hash find_invite_by_code_hash
  find_by_code_hash-eq-ok hash w h =
      let (row, w₁, read, kept) = >>=-eq-ok _ _ w h in
      let (found, same) = one_row-eq-ok _ _ (statement-eq-ok env _ w (map_err-eq-ok _ _ w read)) in
      let (given, end) = pure-eq-ok (row_to_invite row) w₁ kept in
      (row, found, sym given, end ∙ same)

  pub count_active_by_user-eq-ok :
      (user : Uuid) (now : Time) (w : World) {n : ℕ} {w' : World}
      → count_active_by_user env user now w ≡ (ok n, w')
      → (n ≡ length (select (invite_is_active user now) w.db.invites)) × (w'.db ≡ w.db)
  unfolding count_active_by_user lock_user_by_id count_active_invites_by_user
  count_active_by_user-eq-ok user now w h =
      let (unit, w₁, locked, counted) = >>=-eq-ok _ _ w h in
      let (_, same₁) = ok_pair-injective (statement-eq-ok env _ w locked) in
      let (n_is, same₂) = ok_pair-injective (statement-eq-ok env _ w₁ counted) in
      (
        sym n_is
            ∙ ap (λ (d : Db). length (select (invite_is_active user now) d.invites)) (sym same₁),
        sym same₂ ∙ sym same₁,
      )
