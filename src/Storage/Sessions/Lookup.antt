-- ===== src/Storage/Sessions/Lookup.antt =====
-- Looking a token up by its hash in a table that was written to.
use hsa.Prelude.{
  String, str_eq, Bool, true, false, some, List, [], ◌∷◌, find_first, exists, upsert, ◌==◌, ◌≡◌,
  ◌≢◌, arith, Bool-cases, inl, inr,
}
use hsa.Domain.User.{Uuid, Time}
use hsa.Storage.Rows.{RefreshTokenRow}
use hsa.Storage.Sessions.Laws.{has_id, HasDistinctIds, mark, put}

abbrev pub lookup_hash : String → List RefreshTokenRow → hsa.Prelude.Option RefreshTokenRow
lookup_hash hash rows = find_first (λ t. str_eq t.token_hash hash) rows

has_id-lookup :
    (hash : String) (rows : List RefreshTokenRow) (r : RefreshTokenRow)
    → lookup_hash hash rows ≡ some r
    → has_id r.id rows ≡ true
unfolding find_first exists
has_id-lookup hash [] r h = absurd (ground arith)
has_id-lookup hash (x ∷ rows) r h = ground (arith, has_id-lookup hash rows r)

-- Marking the row that a hash leads to.
pub lookup_hash-put-mark :
    (hash : String) (now : Time) (rows : List RefreshTokenRow) (r : RefreshTokenRow)
    → HasDistinctIds rows
    → lookup_hash hash rows ≡ some r
    → lookup_hash hash (put (mark now r) rows) ≡ some (mark now r)
unfolding find_first upsert
lookup_hash-put-mark hash now [] r d h = absurd (ground arith)
lookup_hash-put-mark hash now (x ∷ rows) r d h =
    ground (arith, lookup_hash-put-mark hash now rows r d.1, has_id-lookup hash rows r)

-- A row under a fresh id does not hide one that is there.
pub lookup_hash-put_fresh :
    (hash : String) (new : RefreshTokenRow) (rows : List RefreshTokenRow) (r : RefreshTokenRow)
    → has_id new.id rows ≡ false
    → lookup_hash hash rows ≡ some r
    → lookup_hash hash (put new rows) ≡ some r
unfolding find_first upsert exists
lookup_hash-put_fresh hash new [] r f h = absurd (ground arith)
lookup_hash-put_fresh hash new (x ∷ rows) r f h =
    ground (arith, lookup_hash-put_fresh hash new rows r)

has_id-put_known :
    (id : Uuid) (p : RefreshTokenRow) (rows : List RefreshTokenRow)
    → has_id p.id rows ≡ true
    → has_id id (put p rows) ≡ has_id id rows
unfolding exists upsert
has_id-put_known id p [] h = absurd (ground arith)
has_id-put_known id p (x ∷ rows) h = ground (arith, has_id-put_known id p rows)

pub has_id-put-mark :
    (id : Uuid) (hash : String) (now : Time) (rows : List RefreshTokenRow) (r : RefreshTokenRow)
    → lookup_hash hash rows ≡ some r
    → has_id id (put (mark now r) rows) ≡ has_id id rows
has_id-put-mark id hash now rows r h =
    has_id-put_known id (mark now r) rows (has_id-lookup hash rows r h)
