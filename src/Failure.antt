-- ===== src/Failure.antt =====
-- Go's error values as this repository makes and tests them: the package-level sentinels
-- (`errors.New`), wrapping by `fmt.Errorf("%w: %w")` and `errors.Join`, `errkit.PanicError`, and
-- `errors.Is`. Covers internal/domain/errors.go and the `var` blocks of the other packages.
pub mod Laws
use hsa.Prelude.{ℕ, Bool, true, false, ◌||◌, ◌==◌, ◌≡◌}

-- One constructor for each package-level `errors.New` that the modelled code returns or tests.
pub data Sentinel : Type 0 where
  validation not_found : Sentinel
  user_id_required invited_by_required role_required unknown_role : Sentinel
  invite_id_required code_hash_required invite_expired invite_already_used too_many_active :
      Sentinel
  token_id_required token_hash_required token_already_revoked ip_address_required : Sentinel
  credential_id_required external_id_required public_key_required : Sentinel
  sign_count_regression credential_already_revoked : Sentinel
  key_id_required scope_invalid wrapped_dek_required wrap_algorithm_required : Sentinel
  too_many_wrapped_keys : Sentinel
  invite_not_found creator_not_found wrapped_keys_required : Sentinel
  credential_not_found credential_revoked credential_clone_suspected : Sentinel
  refresh_token_not_found refresh_token_invalid refresh_token_reuse_detected : Sentinel
  session_not_found session_forbidden root_already_exists : Sentinel
  challenge_expired user_handle_invalid : Sentinel
  token_malformed token_expired : Sentinel
  unauthenticated forbidden client_ip_unavailable : Sentinel
  no_rows tx_closed : Sentinel

-- `errors.New` returns a distinct pointer for each variable: its identity, as a number.
abbrev pub pointer : Sentinel → ℕ
pointer validation = 0
pointer not_found = 1
pointer user_id_required = 2
pointer invited_by_required = 3
pointer role_required = 4
pointer unknown_role = 5
pointer invite_id_required = 6
pointer code_hash_required = 7
pointer invite_expired = 8
pointer invite_already_used = 9
pointer too_many_active = 10
pointer token_id_required = 11
pointer token_hash_required = 12
pointer token_already_revoked = 13
pointer ip_address_required = 14
pointer credential_id_required = 15
pointer external_id_required = 16
pointer public_key_required = 17
pointer sign_count_regression = 18
pointer credential_already_revoked = 19
pointer key_id_required = 20
pointer scope_invalid = 21
pointer wrapped_dek_required = 22
pointer wrap_algorithm_required = 23
pointer too_many_wrapped_keys = 24
pointer invite_not_found = 25
pointer creator_not_found = 26
pointer wrapped_keys_required = 27
pointer credential_not_found = 28
pointer credential_revoked = 29
pointer credential_clone_suspected = 30
pointer refresh_token_not_found = 31
pointer refresh_token_invalid = 32
pointer refresh_token_reuse_detected = 33
pointer session_not_found = 34
pointer session_forbidden = 35
pointer root_already_exists = 36
pointer challenge_expired = 37
pointer user_handle_invalid = 38
pointer token_malformed = 39
pointer token_expired = 40
pointer unauthenticated = 41
pointer forbidden = 42
pointer client_ip_unavailable = 43
pointer no_rows = 44
pointer tx_closed = 45

-- A non-nil `error`. `opaque` is an error made outside the repository (a driver, a library), which
-- wraps none of the sentinels; `wrap` has two wrapped errors, the first tested first;
-- `panicked_with` is a `PanicError` whose value is an error, `panicked_by` one with another value.
pub data Error : Type 0 where
  sentinel : Sentinel → Error
  opaque : ℕ → Error
  wrap : Error → Error → Error
  panicked_with : Error → Error
  panicked_by : ℕ → Error

-- The value that a panic carries: an error, or anything else.
pub data Panic : Type 0 where
  with_error : Error → Panic
  with_value : ℕ → Panic

-- What a call does: it returns a value and a nil error, returns an error, or panics.
pub data Result {ℓ} (A : Type ℓ) : Type ℓ where
  ok : A → Result A
  err : Error → Result A
  panic : Panic → Result A

-- `errors.Is(err, target)` for a sentinel target.
unfoldable pub errors_is : Error → Sentinel → Bool
errors_is (sentinel s) t = pointer s == pointer t
errors_is (opaque n) t = false
errors_is (wrap a b) t = errors_is a t || errors_is b t
errors_is (panicked_with e) t = errors_is e t
errors_is (panicked_by n) t = false

-- `domain.ErrInvalidArgument`
abbrev pub err_invalid_argument : Error → Error
err_invalid_argument e = wrap (sentinel validation) e

-- The deferred function of every domain constructor: a returned error is wrapped.
abbrev pub wrap_invalid {ℓ} : {A : Type ℓ} → Result A → Result A
wrap_invalid (ok a) = ok a
wrap_invalid (err e) = err (err_invalid_argument e)
wrap_invalid (panic p) = panic p

-- `errkit.NewPanicError`
abbrev pub new_panic_error : Panic → Error
new_panic_error (with_error e) = panicked_with e
new_panic_error (with_value n) = panicked_by n

abbrev pub fails {ℓ} : {A : Type ℓ} → Sentinel → Result A
fails s = err (sentinel s)
