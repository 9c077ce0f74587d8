-- ===== src/Tests/Tokens.antt =====
-- Access tokens of the toy signature: issued, and checked in time.
use hsa.Prelude.{ℕ, String, [], ◌∷◌, leb, if◌then◌else◌, ◌≡◌, ◌⊎◌, refl}
use hsa.Failure.{ok, err, sentinel, unauthenticated, forbidden}
use hsa.Domain.User.{admin}
use hsa.Crypto.{access_token, issue_access_token}
use hsa.Crypto.Claims.{to_seconds}
use hsa.Crypto.Tokens.{verify}
use hsa.Crypto.Tokens.Laws.{bearer_answers, issue_access_token-verify}
use hsa.Http.Auth.{RequestContext, handle_bearer_auth}
use hsa.Runtime.{◌>>=◌, time_now, tick}
use hsa.Tests.Fixtures.{two_sessions}
use hsa.Tests.Signed.{signing, paseto, signing-Opens}

abbrev pub minute : ℕ
minute = 60000000000

-- Issued to the root in the second 100, for a minute.
abbrev pub issued : String
issued = signing.v4_sign (access_token signing 1 admin 160000000000)

issued_run : issue_access_token signing 1 admin minute two_sessions ≡ (ok issued, tick two_sessions)
unfolding issue_access_token ◌>>=◌ time_now
issued_run = refl

issue_access_token-verify_example :
    handle_bearer_auth [] (verify signing paseto issued two_sessions).0 ("admin" ∷ []) ≡ (
      if leb 100000000000 (to_seconds 160000000000)
      then handle_bearer_auth [] (ok (1, admin)) ("admin" ∷ [])
      else err (sentinel unauthenticated))
issue_access_token-verify_example =
    issue_access_token-verify signing paseto signing-Opens [] ("admin" ∷ []) 1 admin minute
      two_sessions two_sessions refl issued_run

bearer_answers_example :
    ((granted : RequestContext) × (handle_bearer_auth []
          (verify signing paseto "+." two_sessions).0
          []
        ≡ ok granted))
    ⊎ (handle_bearer_auth [] (verify signing paseto "+." two_sessions).0 []
        ≡ err (sentinel unauthenticated))
    ⊎ (handle_bearer_auth [] (verify signing paseto "+." two_sessions).0 []
        ≡ err (sentinel forbidden))
bearer_answers_example = bearer_answers signing paseto [] "+." [] two_sessions
