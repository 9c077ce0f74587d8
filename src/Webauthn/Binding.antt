-- ===== src/Webauthn/Binding.antt =====
-- A registration is finished for the user and the invite that it was begun for.
use hsa.Prelude.{
  ◌+◌, Bool, if◌then◌else◌, ℕ, String, Bytes, ◌≡◌, sym, ap, ◌∙◌, arith, leb, true, false,
}
use hsa.Failure.{Error, ok, err}
use hsa.Failure.Laws.{ok-injective}
use hsa.Domain.User.{Uuid}
use hsa.Application.Auth.{RegistrationResult}
use hsa.Crypto.Tokens.{Sealing, encode, decode}
use hsa.Crypto.Claims.{to_seconds}
use hsa.Crypto.Tokens.Challenge.{Reads, decode-encode}
use hsa.Webauthn.{Library, token_codec}
use hsa.Webauthn.Registrator.{ChallengePayload, begin, finish}
use hsa.Runtime.{Env, World, Context}
use hsa.Runtime.Laws.{>>=-eq-ok, map_err-eq-ok, pure-eq-ok}

payload-of_live :
    {P : Type 0} (p : P) (e : Error) (live : Bool) {q : P}
    → (if live then ok p else err e) ≡ ok q
    → p ≡ q
payload-of_live p e true h = ok-injective h
payload-of_live p e false h = absurd (ground arith)

module _ (env : Env) {S O R C : Type 0} (wa : Library S O R C) (lib : Sealing (ChallengePayload S))
    (ttl : ℕ) where
  -- The token of a `Begin` seals the ids that it was given.
  begin-eq-ok :
      (ctx : Context) (user invite : Uuid) (w : World) {token : String} {options : Bytes}
      {w' : World}
      → begin wa (token_codec env lib) ttl ctx user invite w ≡ (ok (token, options), w')
      → (s : S) × (w₁ : World) × (w₂ : World) × (encode env lib
            (record { session_data = s; invite_id = invite; user_id = user })
            ttl
            w₁
          ≡ (ok token, w₂))
  unfolding begin token_codec
  begin-eq-ok ctx user invite w h =
      let ((o, s), w₁, drawn, rest₁) = >>=-eq-ok _ _ w h in
      let (sealed, w₂, encoded, rest₂) = >>=-eq-ok _ _ w₁ rest₁ in
      let (json, w₃, marshalled, end) = >>=-eq-ok _ _ w₂ rest₂ in
      let (last, _) = pure-eq-ok _ w₃ end in
      (s, w₁, w₂, encoded ∙ ap (λ t. (ok t, w₂)) (ap (λ q. q.0) last))

  -- A `Finish` that returned a result has decoded a payload with the result's ids.
  finish-eq-ok :
      (ctx : Context) (token : String) (response : Bytes) (w : World) {result : RegistrationResult}
      {w' : World}
      → finish wa (token_codec env lib) ttl ctx token response w ≡ (ok result, w')
      → (p : ChallengePayload S) × ((decode env lib token w).0 ≡ ok p)
        × (result.user_id ≡ p.user_id)
        × (result.invite_id ≡ p.invite_id)
  unfolding finish token_codec
  finish-eq-ok ctx token response w h =
      let (payload, w₁, decoded, rest₁) = >>=-eq-ok _ _ w h in
      let (parsed, w₂, given, rest₂) = >>=-eq-ok _ _ w₁ rest₁ in
      let (cred, w₃, created, end) = >>=-eq-ok _ _ w₂ rest₂ in
      let (last, _) = pure-eq-ok _ w₃ end in
      (
        payload,
        ap (λ p. p.0) (map_err-eq-ok _ _ w decoded),
        ap (λ (r : RegistrationResult). r.user_id) (sym last),
        ap (λ (r : RegistrationResult). r.invite_id) (sym last),
      )

  -- Where the library reads the tokens that it encrypted, and JSON its own texts, a `Finish` that returned a result for the token of an
  -- earlier `Begin` has the user id and the invite id of that `Begin` in its result, whatever the
  -- browser answered.
  pub registration_is_bound :
      (reads : Reads lib) (ctx ctx' : Context) (user invite : Uuid) (response : Bytes) (w v : World)
      {token : String} {options : Bytes} {w' : World} {result : RegistrationResult} {v' : World}
      → begin wa (token_codec env lib) ttl ctx user invite w ≡ (ok (token, options), w')
      → finish wa (token_codec env lib) ttl ctx' token response v ≡ (ok result, v')
      → (result.user_id ≡ user) × (result.invite_id ≡ invite)
  registration_is_bound reads ctx ctx' user invite response w v begun finished =
      let (s, w₁, w₂, encoded) = begin-eq-ok ctx user invite w begun in
      let (p, decoded, is_user, is_invite) = finish-eq-ok ctx' _ response v finished in
      let opened =
        decode-encode env lib reads
          (record { session_data = s; invite_id = invite; user_id = user }) ttl w₁ v encoded in
      let same =
        payload-of_live _ _ (leb (env.clock v.step) (to_seconds (env.clock w₁.step + ttl)))
          (sym opened ∙ decoded) in
      (
        is_user ∙ ap (λ (q : ChallengePayload S). q.user_id) (sym same),
        is_invite ∙ ap (λ (q : ChallengePayload S). q.invite_id) (sym same),
      )
