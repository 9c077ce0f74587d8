-- ===== src/Storage/Keys/Laws.antt =====
-- What the wrapped key repository has read when it returns no error.
use hsa.Prelude.{List, ◌≡◌, refl, ap, ◌∙◌}
use hsa.Failure.{ok}
use hsa.Failure.Laws.{ok_pair-injective}
use hsa.Domain.User.{Uuid}
use hsa.Domain.Key.{WrappedKey}
use hsa.Storage.Queries.{list_wrapped_keys_by_credential_id}
use hsa.Storage.Keys.{rows_to_wrapped_keys, find_by_credential_id}
use hsa.Runtime.{Env, World}
use hsa.Runtime.Laws.{>>=-eq-ok, map_err-eq-ok, statement-eq-ok, lift-eq-ok}

pub find_by_credential_id-eq-ok :
    (env : Env) (id : Uuid) (w : World) {keys : List WrappedKey} {w' : World}
    → find_by_credential_id env id w ≡ (ok keys, w')
    → w'.db ≡ w.db
unfolding find_by_credential_id list_wrapped_keys_by_credential_id
find_by_credential_id-eq-ok env id w h =
    let (rows, w₁, read, kept) = >>=-eq-ok _ _ w h in
    let (_, same) = ok_pair-injective (statement-eq-ok env _ w (map_err-eq-ok _ _ w read)) in
    let (given, end) = lift-eq-ok (rows_to_wrapped_keys rows) w₁ kept in
    ap (λ v. v.db) end ∙ hsa.Prelude.sym same
