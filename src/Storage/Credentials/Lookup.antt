-- ===== src/Storage/Credentials/Lookup.antt =====
-- Looking a credential up by its external id in a table that was written to.
use hsa.Prelude.{
  ℕ, some, false, true, Bool, List, [], ◌∷◌, Option, Bytes, find_first, exists, upsert, ◌==◌, ◌≡◌,
  arith,
}
use hsa.Failure.{ok}
use hsa.Domain.User.{Uuid, Time}
use hsa.Domain.Credential.{Credential}
use hsa.Storage.Rows.{CredentialRow, Db}
use hsa.Storage.Queries.{save_credential, merge_credential}
use hsa.Storage.Credentials.{credential_to_row}
use hsa.Storage.Credentials.Laws.{lookup_external, put_credential}

abbrev pub has_credential : Uuid → List CredentialRow → Bool
has_credential id rows = exists (λ c. c.id == id) rows

-- The primary key of the table.
abbrev pub HasDistinctCredentials : List CredentialRow → Type 0
HasDistinctCredentials [] = Unit
HasDistinctCredentials (r ∷ rows) = (has_credential r.id rows ≡ false) × HasDistinctCredentials rows

pub has_credential-lookup :
    (x : Bytes) (rows : List CredentialRow) (r : CredentialRow)
    → lookup_external x rows ≡ some r
    → has_credential r.id rows ≡ true
unfolding find_first exists
has_credential-lookup x [] r h = absurd (ground arith)
has_credential-lookup x (c ∷ rows) r h = ground (arith, has_credential-lookup x rows r)

-- Saving a credential that was looked up: the lookup leads to it as it was saved.
pub lookup_external-save :
    (x : Bytes) (n : ℕ) (t : Option Time) (rows : List CredentialRow) (r : CredentialRow)
    → HasDistinctCredentials rows
    → lookup_external x rows ≡ some r
    → let p : CredentialRow = record r { sign_count = n; revoked_at = t } in
      lookup_external x (upsert (λ (c : CredentialRow). c.id == p.id) (merge_credential p) p rows)
      ≡ some p
unfolding find_first upsert
lookup_external-save x n t [] r d h = absurd (ground arith)
lookup_external-save x n t (c ∷ rows) r d h =
    ground (arith, lookup_external-save x n t rows r d.1, has_credential-lookup x rows r)

pub save_known :
    (c : Credential) (d : Db)
    → has_credential c.id d.credentials ≡ true
    → save_credential (credential_to_row c) d ≡ ok (tt, put_credential c d)
unfolding save_credential credential_to_row
save_known c d h = ground arith
