-- ===== src/Http/Server.antt =====
-- internal/presentation/http/server.go: the handler of the errors that the generated server finds.
use hsa.Prelude.{ℕ, String, Option, none, some, Bool, true, false, if◌then◌else◌}
use hsa.Failure.{Error, errors_is, forbidden}
use hsa.Http.Errors.{Code, validation_error, unauthorized_code, forbidden_code, internal_error}

-- An error, as `errors.AsType` finds it: the error in a `SecurityError`, none for that of an
-- unsatisfied requirement, the text of a `MaxBytesError`, the code and text of an error of ogen.
pub record ServerError : Type 0 where
  pub security : Option (Option Error)
  pub size : Option String
  pub coded : Option (ℕ × String)

-- What is written: the status, the code and message of the body, and whether the header asks for a
-- bearer token.
pub record Answer : Type 0 where
  pub status : ℕ
  pub code : Code
  pub message : String
  pub www_authenticate : Bool

unfoldable pub write_unauthorized : Answer
write_unauthorized = record {
  status = 401;
  code = unauthorized_code;
  message = "unauthorized";
  www_authenticate = true;
}

unfoldable pub write_forbidden : Answer
write_forbidden = record {
  status = 403;
  code = forbidden_code;
  message = "insufficient permissions";
  www_authenticate = false;
}

unfoldable pub write_internal_error : Answer
write_internal_error = record {
  status = 500;
  code = internal_error;
  message = "internal server error";
  www_authenticate = false;
}

abbrev pub invalid_request : (status : ℕ) → String → Answer
invalid_request status message = record {
  status = status;
  code = validation_error;
  message = message;
  www_authenticate = false;
}

abbrev pub answer_security : Option Error → Answer
answer_security none = write_unauthorized
answer_security (some e) = if errors_is e forbidden then write_forbidden else write_unauthorized

abbrev pub answer_coded : Option (ℕ × String) → Answer
answer_coded none = write_internal_error
answer_coded (some (status, text)) = invalid_request status text

abbrev pub answer_size : Option String → Option (ℕ × String) → Answer
answer_size none coded = answer_coded coded
answer_size (some text) coded = invalid_request 413 text

abbrev pub answer_first : Option (Option Error) → Option String → Option (ℕ × String) → Answer
answer_first none size coded = answer_size size coded
answer_first (some e) size coded = answer_security e

-- `newErrorHandler`
unfoldable pub error_handler : ServerError → Answer
error_handler e = answer_first e.security e.size e.coded
