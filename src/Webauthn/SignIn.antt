-- ===== src/Webauthn/SignIn.antt =====
-- A login through the adapter: the session belongs to the user that was authenticated.
use hsa.Prelude.{
  ℕ, String, none, some, true, false, List, [], ◌∷◌, Bytes, In, exists, find_first, bytes_eq,
  bytes_eq_refl, ◌<◌, ◌⊎◌, ◌≡◌, refl, sym, ap, subst, ◌∙◌, arith, inl, inr, Bool-cases, if_true,
  if_false, some-injective,
}
use hsa.Failure.{ok}
use hsa.Domain.User.{Uuid}
use hsa.Storage.Rows.{CredentialRow, Db}
use hsa.Storage.Credentials.{row_to_credential}
use hsa.Storage.Credentials.Laws.{lookup_external}
use hsa.Crypto.{generate_hash}
use hsa.Crypto.Tokens.{Sealing, decode}
use hsa.Application.Auth.{AuthenticationResult, KeepsDb}
use hsa.Application.SessionIssuer.{SessionConfig}
use hsa.Application.FinishLogin.{LoginInput, LoginOutput, execute}
use hsa.Application.FinishLogin.Reads.{logged_in}
use hsa.Application.FinishLogin.Laws.{login_opens_session}
use hsa.Webauthn.{Library, token_codec}
use hsa.Webauthn.Authenticator.{LoginChallengePayload, new_authenticator}
use hsa.Webauthn.Login.{ChecksPasskey, Owns, finish-Owns}
use hsa.Runtime.{Env, World, Context}
use hsa.Runtime.Laws.{>>=-eq-ok, lift-eq-ok, time_now-eq-ok}

abbrev has_external : Bytes → List CredentialRow → hsa.Prelude.Bool
has_external x rows = exists (λ c. bytes_eq c.external_id x) rows

-- The unique index of the column `external_id`.
abbrev pub HasDistinctExternalIds : List CredentialRow → Type 0
HasDistinctExternalIds [] = Unit
HasDistinctExternalIds (r ∷ rows) =
    (has_external r.external_id rows ≡ false) × HasDistinctExternalIds rows

bytes_eq_sound : (xs ys : Bytes) → bytes_eq xs ys ≡ true → xs ≡ ys
unfolding bytes_eq
bytes_eq_sound [] [] h = refl
bytes_eq_sound [] (y ∷ ys) h = absurd (ground arith)
bytes_eq_sound (x ∷ xs) [] h = absurd (ground arith)
bytes_eq_sound (x ∷ xs) (y ∷ ys) h = ground (arith, bytes_eq_sound xs ys)

In-has_external :
    (r : CredentialRow) (rows : List CredentialRow)
    → In r rows
    → has_external r.external_id rows ≡ true
unfolding exists
In-has_external r [] h = absurd h
In-has_external r (c ∷ rows) h = ground (arith, In-has_external r rows, bytes_eq_refl r.external_id)

In-lookup :
    (r : CredentialRow) (rows : List CredentialRow)
    → HasDistinctExternalIds rows
    → In r rows
    → lookup_external r.external_id rows ≡ some r
unfolding find_first
In-lookup r [] d h = absurd h
In-lookup r (c ∷ rows) d h = ground (
  arith,
  In-lookup r rows d.1,
  In-has_external r rows,
  bytes_eq_refl r.external_id,
  bytes_eq_sound c.external_id r.external_id,
)

Owns-lookup :
    (user : Uuid) (x : Bytes) (rows : List CredentialRow) {r : CredentialRow}
    → HasDistinctExternalIds rows
    → Owns user x rows
    → lookup_external x rows ≡ some r
    → In r rows × (r.user_id ≡ user) × (r.external_id ≡ x)
Owns-lookup user x rows {r} distinct (row, stored, owned, is_external) found =
    let same : row ≡ r = some-injective (
      sym (In-lookup row rows distinct stored)
      ∙ ap (λ k. lookup_external k rows) is_external
      ∙ found) in
    subst (λ (k : CredentialRow). In k rows × (k.user_id ≡ user) × (k.external_id ≡ x)) same
      (stored, owned, is_external)

decode-KeepsDb :
    (env : Env) {P : Type 0} (lib : Sealing P) (token : String) → KeepsDb (decode env lib token)
unfolding decode
decode-KeepsDb env lib token w w' a h =
    let (now, w₁, clock, rest₁) = >>=-eq-ok _ _ w h in
    let (found, w₂, opened, rest₂) = >>=-eq-ok _ _ w₁ rest₁ in
    let (raw, w₃, read, end) = >>=-eq-ok _ _ w₂ rest₂ in
    let (_, same₂) = lift-eq-ok _ w₁ opened in
    let (_, same₃) = lift-eq-ok _ w₂ read in
    let (_, same₄) = lift-eq-ok _ w₃ end in
    ap (λ (v : World). v.db) (same₄ ∙ same₃ ∙ same₂) ∙ (time_now-eq-ok env w clock).1

module _ (env : Env) (cfg : SessionConfig) {S O R C : Type 0} (wa : Library S O R C) where
  -- A login with the adapter and the token codec: where go-webauthn returns only a credential of the
  -- user that it was given, and external ids are distinct, a login that returned tokens has opened
  -- one session, whose user is the user of the authentication's result. The table has a credential
  -- of that user with the result's external id; it is not revoked, raised no warning, and now has
  -- the result's counter. Nothing else was written.
  pub login_opens_own_session :
      (lib : Sealing (LoginChallengePayload S)) (ttl : ℕ) (ctx : Context) (input : LoginInput)
      (w : World) {out : LoginOutput} {w' : World}
      → ChecksPasskey wa
      → HasDistinctExternalIds w.db.credentials
      → execute env cfg (new_authenticator env wa (token_codec env lib) ttl) ctx input w
        ≡ (ok out, w')
      → (result : AuthenticationResult) × (r : CredentialRow) × (step : ℕ) × (hash : String) × In r
          w.db.credentials
        × (r.user_id ≡ result.user_id)
        × (r.external_id ≡ result.external_id)
        × (r.revoked_at ≡ none)
        × (result.clone_warning ≡ false)
        × (generate_hash env out.refresh_token ≡ ok hash)
        × (w'.db
            ≡ logged_in env cfg input
                (record (row_to_credential r) {
                  sign_count = result.new_sign_count;
                  user_id = result.user_id;
                })
                (env.clock w.step)
                (env.fresh_id step)
                hash
                w.db)
  unfolding new_authenticator token_codec row_to_credential
  login_opens_own_session lib ttl ctx input w checks distinct h =
      let a = new_authenticator env wa (token_codec env lib) ttl in
      let keeps =
        λ (v v' : World) (k : AuthenticationResult)
            (e : a.finish ctx input.challenge_token input.authentication_response v ≡ (ok k, v')).
          (finish-Owns env wa (token_codec env lib) ttl ctx input.challenge_token
            input.authentication_response v checks (decode-KeepsDb env lib input.challenge_token)
            e).1 in
      let (
        result,
        r,
        step,
        hash,
        (w₁, w₂, start, answered),
        found,
        live,
        silent,
        grown,
        hashed,
        written,
      ) =
        login_opens_session env cfg a ctx input w keeps h in
      let owns =
        subst (λ (d : Db). Owns result.user_id result.external_id d.credentials) start
          (finish-Owns env wa (token_codec env lib) ttl ctx input.challenge_token
            input.authentication_response w₁ checks (decode-KeepsDb env lib input.challenge_token)
            answered).0 in
      let (stored, owned, is_external) = Owns-lookup _ _ _ distinct owns found in
      (
        result,
        r,
        step,
        hash,
        stored,
        owned,
        is_external,
        live,
        silent,
        hashed,
        written
            ∙ ap
                (λ u.
                  logged_in env cfg input
                    (record (row_to_credential r) {
                      sign_count = result.new_sign_count;
                      user_id = u;
                    })
                    (env.clock w.step) (env.fresh_id step) hash w.db)
                owned,
      )
