-- ===== src/Webauthn/Login.antt =====
-- What the authenticator has found where its `Finish` returned a result.
use hsa.Prelude.{
  ℕ, String, List, [], ◌∷◌, map, Bytes, In, select, ◌==◌, ◌≡◌, ◌⊎◌, refl, sym, ap, subst, ◌∙◌,
  arith, inl, inr,
}
use hsa.Failure.{Result, ok, err, panic}
use hsa.Failure.Laws.{ok_pair-injective}
use hsa.Domain.User.{Uuid, nil_uuid}
use hsa.Domain.Credential.{Credential}
use hsa.Storage.Rows.{CredentialRow, Db}
use hsa.Storage.Queries.{insert_by_created, order_by_created, list_credentials_by_user_id}
use hsa.Storage.Credentials.{row_to_credential, find_by_user_id}
use hsa.Application.Auth.{AuthenticationResult, KeepsDb}
use hsa.Webauthn.{LibCredential, WebauthnUser, V, Library, ChallengeCodec}
use hsa.Webauthn.Authenticator.{
  LoginChallengePayload, to_webauthn_credential, read_variable, found_for, handle_candidate,
  get_validate_func, finish,
}
use hsa.Runtime.{Env, World, Context}
use hsa.Runtime.Laws.{>>=-eq-ok, map_err-eq-ok, lift-eq-ok, pure-eq-ok, statement-eq-ok}

-- What go-webauthn documents of `ValidatePasskeyLogin`: where it returns a credential, the handler
-- returned a user, and the credential has the id of one of that user's. It has no other way to
-- reach the state of the program.
abbrev pub ChecksPasskey : {S O R C : Type 0} → Library S O R C → Type 0
ChecksPasskey {S} {O} {R} {C} wa =
    (handler : Bytes → Bytes → V WebauthnUser) (s : S) (r : R) (x x' : Uuid × World)
    (c : LibCredential)
    → wa.validate_passkey_login handler s r x ≡ (ok c, x')
    → (raw_id : Bytes) × (user_handle : Bytes) × (u : WebauthnUser) × (handler raw_id user_handle x
        ≡ (ok u, x'))
      × In c.id (map (λ (k : LibCredential). k.id) u.credentials)

-- A row of the table is this user's credential with this external id.
abbrev pub Owns : Uuid → Bytes → List CredentialRow → Type 0
Owns user external_id rows =
    (r : CredentialRow) × In r rows × (r.user_id ≡ user) × (r.external_id ≡ external_id)

insert-In :
    (c x : CredentialRow) (rows : List CredentialRow)
    → In x (insert_by_created c rows)
    → (x ≡ c) ⊎ In x rows
unfolding insert_by_created
insert-In c x [] h = h
insert-In c x (r ∷ rows) h = ground (arith, insert-In c x rows)

order-In :
    (x : CredentialRow) (rows : List CredentialRow) → In x (order_by_created rows) → In x rows
unfolding order_by_created
order-In x [] h = h
order-In x (c ∷ rows) h = ground (arith, insert-In c x (order_by_created rows), order-In x rows)

select-user :
    (user : Uuid) (x : CredentialRow) (rows : List CredentialRow)
    → In x (select (λ (c : CredentialRow). c.user_id == user) rows)
    → In x rows × (x.user_id ≡ user)
unfolding select
select-user user x [] h = absurd h
select-user user x (c ∷ rows) h = ground (arith, select-user user x rows)

-- An id among the library's credentials is the external id of a row.
map-In :
    (id : Bytes) (rows : List CredentialRow)
    → In id (
        map (λ (k : LibCredential). k.id) (map to_webauthn_credential (map row_to_credential rows)))
    → (r : CredentialRow) × In r rows × (r.external_id ≡ id)
unfolding to_webauthn_credential row_to_credential
map-In id [] h = absurd h
map-In id (r ∷ rows) (inl e) = (r, inl refl, sym e)
map-In id (r ∷ rows) (inr h) = let (s, here, same) = map-In id rows h in (s, inr here, same)

module _ (env : Env) {S O R C : Type 0} (wa : Library S O R C) where
  find_by_user_id-eq-ok :
      (user : Uuid) (w : World) {creds : List Credential} {w' : World}
      → find_by_user_id env user w ≡ (ok creds, w')
      → (creds
          ≡ map row_to_credential (
              order_by_created
                (select (λ (c : CredentialRow). c.user_id == user) w.db.credentials)))
        × (w'.db ≡ w.db)
  unfolding find_by_user_id list_credentials_by_user_id
  find_by_user_id-eq-ok user w h =
      let (rows, w₁, read, end) = >>=-eq-ok _ _ w h in
      let found = statement-eq-ok env _ w read in
      let (given, still) = pure-eq-ok _ w₁ end in
      let (is_rows, same) = ok_pair-injective found in
      (sym given ∙ ap (map row_to_credential) (sym is_rows), still ∙ sym same)

  -- The user that the closure returned: its id is in the caller's variable, and its credentials are
  -- those of the table.
  abbrev ReadUser : Uuid × World → WebauthnUser → Uuid × World → Type 0
  ReadUser x u x' =
      (x'.0 ≡ u.id)
      × (x'.1.db ≡ x.1.db)
      × (u.credentials
          ≡ map to_webauthn_credential (
              map row_to_credential (
                order_by_created
                  (select (λ (c : CredentialRow). c.user_id == u.id) x.1.db.credentials))))

  found_for-eq-ok :
      (id : Uuid) (x : Uuid × World) (p : Result (List Credential) × World) {u : WebauthnUser}
      {x' : Uuid × World}
      → find_by_user_id env id x.1 ≡ p
      → found_for id p ≡ (ok u, x')
      → ReadUser x u x'
  found_for-eq-ok id x (ok creds, v) {u} {x'} read h =
      let (are, same) = find_by_user_id-eq-ok id x.1 read in
      let is_u : record { id = id; credentials = map to_webauthn_credential creds } ≡ u = cc in
      let is_x : ◌≡◌ {A = Uuid × World} (id, v) x' = cc in
      subst (λ (k : WebauthnUser). ReadUser x k x') is_u
        (subst (ReadUser x (record { id = id; credentials = map to_webauthn_credential creds }))
          is_x (refl, same, ap (map to_webauthn_credential) are))
  found_for-eq-ok id x (err e, v) read h = absurd (ground arith)
  found_for-eq-ok id x (panic p, v) read h = absurd (ground arith)

  handle_candidate-eq-ok :
      (r : Result Uuid) (x : Uuid × World) {u : WebauthnUser} {x' : Uuid × World}
      → handle_candidate env wa r x ≡ (ok u, x')
      → ReadUser x u x'
  handle_candidate-eq-ok (ok id) x h = found_for-eq-ok id x (find_by_user_id env id x.1) refl h
  handle_candidate-eq-ok (err e) x h = absurd (ground arith)
  handle_candidate-eq-ok (panic p) x h = absurd (ground arith)

  validate-Owns :
      (checks : ChecksPasskey wa) (s : S) (r : R) (x x' : Uuid × World) (c : LibCredential)
      → wa.validate_passkey_login (get_validate_func env wa) s r x ≡ (ok c, x')
      → Owns x'.0 c.id x.1.db.credentials × (x'.1.db ≡ x.1.db)
  unfolding get_validate_func
  validate-Owns checks s r x x' c h =
      let (raw_id, user_handle, u, handled, among) =
        checks (get_validate_func env wa) s r x x' c h in
      let (is_id, same, are) = handle_candidate-eq-ok (wa.uuid_from_bytes user_handle) x handled in
      let (row, here, is_external) =
        map-In c.id
          (order_by_created (select (λ (k : CredentialRow). k.user_id == u.id) x.1.db.credentials))
          (subst (λ (l : List LibCredential). In c.id (map (λ (k : LibCredential). k.id) l)) are
            among) in
      let (stored, owned) = select-user u.id row x.1.db.credentials (order-In row _ here) in
      ((row, stored, owned ∙ sym is_id, is_external), same)

  read_variable-eq-ok :
      (p : Result LibCredential × (Uuid × World)) {c : LibCredential} {out : Uuid} {w' : World}
      → read_variable p ≡ (ok (c, out), w')
      → p ≡ (ok c, (out, w'))
  read_variable-eq-ok (ok a, (o, v)) h = cc
  read_variable-eq-ok (err e, (o, v)) h = absurd (ground arith)
  read_variable-eq-ok (panic q, (o, v)) h = absurd (ground arith)

  -- Where the challenge was decoded without a write, and go-webauthn returns a credential of the
  -- user that it was given, a `Finish` that returned a result has written nothing, and the
  -- credential of the result is one that the table has for the user of the result.
  pub finish-Owns :
      (challenge : ChallengeCodec (LoginChallengePayload S)) (ttl : ℕ) (ctx : Context)
      (token : String) (response : Bytes) (w : World) {result : AuthenticationResult} {w' : World}
      → ChecksPasskey wa
      → KeepsDb (challenge.decode token)
      → finish env wa challenge ttl ctx token response w ≡ (ok result, w')
      → Owns result.user_id result.external_id w.db.credentials × (w'.db ≡ w.db)
  unfolding finish
  finish-Owns challenge ttl ctx token response w checks keeps h =
      let (payload, w₁, decoded, rest₁) = >>=-eq-ok _ _ w h in
      let (parsed, w₂, given, rest₂) = >>=-eq-ok _ _ w₁ rest₁ in
      let ((cred, user_id), w₃, validated, end) = >>=-eq-ok _ _ w₂ rest₂ in
      let same₁ = keeps w w₁ payload (map_err-eq-ok _ _ w decoded) in
      let (_, same₂) = lift-eq-ok (wa.parse_request_response response) w₁ given in
      let (owns, same₃) =
        validate-Owns checks payload.session_data parsed (nil_uuid, w₂) (user_id, w₃) cred
          (read_variable-eq-ok _ validated) in
      let (last, same₄) = pure-eq-ok _ w₃ end in
      let start : w₂.db ≡ w.db = ap (λ (v : World). v.db) same₂ ∙ same₁ in
      (
        subst (λ (k : AuthenticationResult). Owns k.user_id k.external_id w.db.credentials) last
            (subst (λ (d : Db). Owns user_id cred.id d.credentials) start owns),
        same₄ ∙ same₃ ∙ start,
      )
