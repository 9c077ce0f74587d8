-- ===== src/Crypto/Tokens/Challenge.antt =====
-- A challenge token gives back the payload that was put into it, until it expires.
use hsa.Prelude.{
  ℕ, ◌+◌, String, some, true, leb, if◌then◌else◌, ◌≡◌, refl, sym, subst, ap, ◌∙◌, inl, inr,
  Bool-cases,
}
use hsa.Failure.{sentinel, opaque, wrap, ok, err, token_expired}
use hsa.Domain.User.{Time}
use hsa.Crypto.Tokens.{Sealing, challenge_token, encode, decode}
use hsa.Crypto.Tokens.Reading.{ReadsOwn}
use hsa.Crypto.Claims.{text_of, to_seconds, in_time, is_private}
use hsa.Runtime.{Env, World, ◌>>=◌, time_now}
use hsa.Runtime.Laws.{>>=-eq-ok, lift-eq-ok, pure-eq-ok, time_now-eq-ok}

-- What the libraries document: the text that JSON makes of a payload gives the payload back, and
-- encrypted tokens are read.
pub record Reads {P : Type 0} (lib : Sealing P) : Type 0 where
  pub unmarshals :
      (payload : P) (raw : String) → lib.marshal payload ≡ ok raw → lib.unmarshal raw ≡ ok payload
  pub own : ReadsOwn lib.encrypt lib.parse_local

challenge_token-is_private :
    (raw : String) (expires : Time) → is_private (challenge_token raw expires) ≡ true
unfolding challenge_token is_private
challenge_token-is_private raw expires = refl

challenge_token-in_time :
    (raw : String) (expires now : Time)
    → in_time now (challenge_token raw expires) ≡ leb now (to_seconds expires)
unfolding challenge_token in_time
challenge_token-in_time raw expires now = refl

payload-of_challenge_token :
    (raw : String) (expires : Time) → text_of (challenge_token raw expires) "payload" ≡ some raw
unfolding challenge_token text_of
payload-of_challenge_token raw expires = refl

module _ (env : Env) {P : Type 0} (lib : Sealing P) (reads : Reads lib) where
  decode-sealed :
      (payload : P) (raw : String) (expires : Time) (v : World)
      → lib.unmarshal raw ≡ ok payload
      → (decode env lib (lib.encrypt (challenge_token raw expires)) v).0 ≡ (
          if leb (env.clock v.step) (to_seconds expires)
          then ok payload
          else err (wrap (sentinel token_expired) (opaque reads.own.rule)))
  unfolding decode ◌>>=◌ time_now
  decode-sealed payload raw expires v back =
      let token = challenge_token raw expires in
      let now = env.clock v.step in
      let private = challenge_token-is_private raw expires in
      elim (Bool-cases (leb now (to_seconds expires))) [
        | inl live ↦
            let (get, read, texts) =
              reads.own.opens token now private (challenge_token-in_time raw expires now ∙ live) in
            rw (live, read, texts "payload" raw (payload-of_challenge_token raw expires), back) refl
        | inr late ↦
            rw
              (
                late,
                reads.own.expires token now private
                    (challenge_token-in_time raw expires now ∙ late),
              )
              refl
      ]

  pub encode-eq-ok :
      (payload : P) (ttl : ℕ) (w : World) {token : String} {w' : World}
      → encode env lib payload ttl w ≡ (ok token, w')
      → (raw : String) × (lib.marshal payload ≡ ok raw)
        × (lib.encrypt (challenge_token raw (env.clock w.step + ttl)) ≡ token)
        × (w'.db ≡ w.db)
  unfolding encode
  encode-eq-ok payload ttl w h =
      let (raw, w₁, made, rest) = >>=-eq-ok _ _ w h in
      let (now, w₂, clock, end) = >>=-eq-ok _ _ w₁ rest in
      let (is_raw, same) = lift-eq-ok (lib.marshal payload) w made in
      let (time, kept) = time_now-eq-ok env w₁ clock in
      let (last, still) = pure-eq-ok _ w₂ end in
      (
        raw,
        is_raw,
        ap (λ t. lib.encrypt (challenge_token raw (t + ttl)))
              (sym (time ∙ ap (λ (v : World). env.clock v.step) same))
            ∙ last,
        still ∙ kept ∙ ap (λ (v : World). v.db) same,
      )

  -- The token that was made of a payload gives the payload back up to the end of its time in whole
  -- seconds, by the clock of the decoding, and the error of an expired token after it.
  pub decode-encode :
      (payload : P) (ttl : ℕ) (w v : World) {token : String} {w' : World}
      → encode env lib payload ttl w ≡ (ok token, w')
      → (decode env lib token v).0 ≡ (
          if leb (env.clock v.step) (to_seconds (env.clock w.step + ttl))
          then ok payload
          else err (wrap (sentinel token_expired) (opaque reads.own.rule)))
  decode-encode payload ttl w v h =
      let (raw, is_raw, is_token, _) = encode-eq-ok payload ttl w h in
      subst
        (λ t. (decode env lib t v).0 ≡ (
          if leb (env.clock v.step) (to_seconds (env.clock w.step + ttl))
          then ok payload
          else err (wrap (sentinel token_expired) (opaque reads.own.rule))))
        is_token
        (decode-sealed payload raw (env.clock w.step + ttl) v (reads.unmarshals payload raw is_raw))
