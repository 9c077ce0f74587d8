-- ===== src/Storage/Descendants.antt =====
-- `ListDescendantUserIDs` of internal/infrastructure/storage/pg/query.sql.go, the recursive query of
-- the users that a user invited, and `UserRepository.Descendants` (user_repository.go).
pub mod Laws
pub mod Sound
pub mod Order
use hsa.Prelude.{ℕ, zero, suc, Bool, List, [], ◌∷◌, ◌++◌, map, length, select, ◌==◌, ◌&&◌}
use hsa.Failure.{Result, ok, fails, not_found}
use hsa.Domain.User.{Uuid}
use hsa.Storage.Rows.{UserRow, Db}
use hsa.Storage.Queries.{Query}
use hsa.Storage.Users.{no_rows_to_not_found}
use hsa.Runtime.{Env, M, lift, ◌>>=◌, map_err, statement}

abbrev pub id_of : UserRow → Uuid
id_of u = u.id

-- `u.invited_by = cc.id`
abbrev pub is_invited_by : Uuid → UserRow → Bool
is_invited_by c u = u.invited_by.valid && u.invited_by.uuid == c

-- One turn of the recursion: `users` joined with the ids of the turn before.
unfoldable pub invited : List UserRow → List Uuid → List Uuid
invited users [] = []
invited users (c ∷ cs) = map id_of (select (is_invited_by c) users) ++ invited users cs

-- The turns, joined by `UNION ALL`. The server stops at an empty turn; `fuel` bounds their number.
unfoldable pub chain : List UserRow → (fuel : ℕ) → List Uuid → List Uuid
chain users zero ids = ids
chain users (suc fuel) ids = ids ++ chain users fuel (invited users ids)

unfoldable pub list_descendant_user_ids : Uuid → Query (List Uuid)
list_descendant_user_ids root d =
    ok (chain d.users (length d.users) (map id_of (select (λ u. u.id == root) d.users)), d)

-- No row is an error.
unfoldable pub some_ids : List Uuid → Result (List Uuid)
some_ids [] = fails not_found
some_ids (id ∷ ids) = ok (id ∷ ids)

module _ (env : Env) where
  unfoldable pub descendants : Uuid → M (List Uuid)
  descendants root = do
    ids ← map_err no_rows_to_not_found (statement env (list_descendant_user_ids root))
    lift (some_ids ids)
