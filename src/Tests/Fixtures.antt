-- ===== src/Tests/Fixtures.antt =====
-- A small database and an environment in which no statement fails.
use hsa.Prelude.{◌+◌, String, Option, none, some, false, List, [], ◌∷◌, str_eq, ◌==◌, if◌then◌else◌}
use hsa.Failure.{ok}
use hsa.Domain.User.{Uuid, Time}
use hsa.Domain.Session.{v4}
use hsa.Storage.Rows.{UserRow, CredentialRow, RefreshTokenRow, WrappedKeyRow, Db}
use hsa.Application.SessionIssuer.{SessionConfig}
use hsa.Runtime.{Env, World, Context}

abbrev pub env : Env
env = record {
  clock = λ n. 100 + n;
  fault = λ n. none;
  fresh_id = λ n. 1000 + n;
  rand_read = λ n len. ok (9 ∷ []);
  hmac = λ raw. if str_eq raw "first" then 1 ∷ [] else 2 ∷ [];
  base32 = λ bytes. elim (bytes) [
    | [] ↦ ""
    | x ∷ xs ↦ if x == 1 then "hash" else if x == 9 then "second" else "other"
  ];
  uuid_string = λ user. "user";
  v4_sign = λ token. "access";
}

abbrev pub outside : Context
outside = record { in_tx = false }

abbrev pub cfg : SessionConfig
cfg = record { refresh_ttl = 5000; access_ttl = 60 }

abbrev pub root : UserRow
root = record {
  id = 1;
  role = "admin";
  invited_by = record { uuid = 0; valid = false };
  created_at = 10;
}

abbrev pub phone : CredentialRow
phone = record {
  id = 30;
  external_id = 5 ∷ 6 ∷ [];
  user_id = 1;
  public_key = 8 ∷ [];
  sign_count = 4;
  transports = [];
  created_at = 11;
  revoked_at = none;
}

abbrev pub session_row : Uuid → String → Option Time → RefreshTokenRow
session_row id hash revoked_at = record {
  id = id;
  user_id = 1;
  token_hash = hash;
  device_info = "phone";
  ip_address = v4 10;
  expires_at = 9000;
  revoked_at = revoked_at;
  created_at = 12;
}

abbrev pub wrapped : WrappedKeyRow
wrapped = record {
  id = 40;
  user_id = 1;
  credential_id = 30;
  scope = "main";
  wrapped_dek = 7 ∷ [];
  wrap_algorithm = "aes";
  created_at = 13;
}

abbrev pub db_with : List RefreshTokenRow → Db
db_with tokens = record {
  users = root ∷ [];
  credentials = phone ∷ [];
  invites = [];
  refresh_tokens = tokens;
  wrapped_keys = wrapped ∷ [];
}

abbrev pub start : Db → World
start d = record { db = d; step = 0 }

-- One session that is open, and one that was closed.
abbrev pub two_sessions : World
two_sessions = start (db_with (session_row 20 "hash" none ∷ session_row 21 "closed" (some 50) ∷ []))

-- The same where the session of "first" is closed.
abbrev pub closed_session : World
closed_session = start (db_with (session_row 20 "hash" (some 50) ∷ []))
