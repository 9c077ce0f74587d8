-- ===== src/Storage/Credentials/Laws.antt =====
-- What the credential repository has read or saved when it returns no error.
use hsa.Prelude.{
  Bool, true, some, List, Bytes, bytes_eq, find_first, exists, upsert, ◌==◌, ◌≡◌, refl, sym, ap,
  ◌∙◌, arith,
}
use hsa.Failure.{ok}
use hsa.Domain.Credential.{Credential}
use hsa.Storage.Rows.{CredentialRow, Db}
use hsa.Storage.Queries.{find_credential_by_external_id, save_credential, merge_credential}
use hsa.Storage.Queries.Laws.{one_row-eq-ok}
use hsa.Storage.Credentials.{row_to_credential, credential_to_row, find_by_external_id, save}
use hsa.Runtime.{Env, World}
use hsa.Runtime.Laws.{>>=-eq-ok, map_err-eq-ok, statement-eq-ok, pure-eq-ok}

abbrev pub lookup_external : Bytes → List CredentialRow → hsa.Prelude.Option CredentialRow
lookup_external x rows = find_first (λ c. bytes_eq c.external_id x) rows

-- The table with this credential saved: the row with its id, or a new one.
abbrev pub put_credential : Credential → Db → Db
put_credential c d = record d {
  credentials =
      upsert (λ (r : CredentialRow). r.id == c.id) (merge_credential (credential_to_row c))
        (credential_to_row c) d.credentials;
}

pub row_to_credential-credential_to_row :
    (r : CredentialRow) → credential_to_row (row_to_credential r) ≡ r
unfolding row_to_credential credential_to_row
row_to_credential-credential_to_row r = refl

save_credential-eq-ok :
    (c : Credential) (d : Db) {d' : Db}
    → save_credential (credential_to_row c) d ≡ ok (tt, d')
    → d' ≡ put_credential c d
unfolding save_credential credential_to_row
save_credential-eq-ok c d h = ground arith

module _ (env : Env) where
  pub save-eq-ok :
      (c : Credential) (w : World) {w' : World}
      → save env c w ≡ (ok tt, w')
      → w'.db ≡ put_credential c w.db
  unfolding save
  save-eq-ok c w h = save_credential-eq-ok c w.db (statement-eq-ok env _ w h)

  pub find_by_external_id-eq-ok :
      (x : Bytes) (w : World) {c : Credential} {w' : World}
      → find_by_external_id env x w ≡ (ok c, w')
      → (r : CredentialRow) × (lookup_external x w.db.credentials ≡ some r)
        × (c ≡ row_to_credential r)
        × (w'.db ≡ w.db)
  unfolding find_by_external_id find_credential_by_external_id
  find_by_external_id-eq-ok x w h =
      let (row, w₁, read, kept) = >>=-eq-ok _ _ w h in
      let (found, same) = one_row-eq-ok _ _ (statement-eq-ok env _ w (map_err-eq-ok _ _ w read)) in
      let (given, end) = pure-eq-ok (row_to_credential row) w₁ kept in
      (row, found, sym given, end ∙ same)
