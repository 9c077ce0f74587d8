-- ===== src/Storage/Users/Laws.antt =====
-- What the user repository has read when it returns no error.
use hsa.Prelude.{some, find_first, ◌==◌, ◌≡◌, ap, ◌∙◌}
use hsa.Failure.{ok}
use hsa.Domain.User.{Uuid, User}
use hsa.Storage.Rows.{UserRow}
use hsa.Storage.Queries.{find_user_by_id}
use hsa.Storage.Queries.Laws.{one_row-eq-ok}
use hsa.Storage.Users.{row_to_user, find_by_id}
use hsa.Runtime.{Env, World}
use hsa.Runtime.Laws.{>>=-eq-ok, map_err-eq-ok, statement-eq-ok, lift-eq-ok}

pub find_by_id-eq-ok :
    (env : Env) (id : Uuid) (w : World) {u : User} {w' : World}
    → find_by_id env id w ≡ (ok u, w')
    → (r : UserRow) × (find_first (λ r. r.id == id) w.db.users ≡ some r)
      × (row_to_user r ≡ ok u)
      × (w'.db ≡ w.db)
unfolding find_by_id find_user_by_id
find_by_id-eq-ok env id w h =
    let (row, w₁, read, kept) = >>=-eq-ok _ _ w h in
    let (found, same) = one_row-eq-ok _ _ (statement-eq-ok env _ w (map_err-eq-ok _ _ w read)) in
    let (given, end) = lift-eq-ok (row_to_user row) w₁ kept in
    (row, found, given, ap (λ v. v.db) end ∙ same)
