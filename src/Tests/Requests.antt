-- ===== src/Tests/Requests.antt =====
-- Requests: the client's address, the bearer check, and the answers of the endpoints.
use hsa.Prelude.{
  ℕ, false, none, some, List, [], ◌∷◌, ◌++◌, map, Bytes, bytes_eq, exists, leb, if◌then◌else◌, ◌≡◌,
  refl, Option,
}
use hsa.Failure.{ok, err, opaque, sentinel, session_not_found, session_forbidden}
use hsa.Domain.User.{admin}
use hsa.Domain.Session.{Addr, invalid, v4, v6}
use hsa.Errkit.{new, default, resolve}
use hsa.Errkit.Laws.{Case, on_case, first_case, resolve-first_case}
use hsa.Http.ClientIp.{
  Net, Prefix, comma, cut_last, check_part, scan, is_trusted_proxy, first_untrusted_from_right,
}
use hsa.Http.ClientIp.Split.{split, last_untrusted, first_untrusted-split}
use hsa.Http.ClientIp.Laws.{forwarded_prefix_ignored}
use hsa.Http.ClientIp.Middleware.{
  Prefixes, parse_cidr_list, client_ip_middleware, new_client_ip_middleware,
}
use hsa.Http.Auth.{
  RequestContext, with_user_id, with_client_ip, user_id_from_context, client_ip_from_context,
  role_allowed, handle_bearer_auth,
}
use hsa.Http.Auth.Laws.{user_hides_client_ip}
use hsa.Http.Handler.{sessions_session_id_delete}
use hsa.Http.Handler.Laws.{delete_answer, delete_session_answers}
use hsa.Application.RevokeSession.Laws.{lookup_id}
use hsa.Tests.Fixtures.{env, two_sessions}

-- Addresses of one byte below 100, of which those above 9 belong to the proxies.
abbrev parse_one : Bytes → Option Addr
parse_one [] = none
parse_one (b ∷ []) = if leb b 99 then some (v4 b) else none
parse_one (b ∷ c ∷ bs) = none

abbrev net : Net
net = record { trim_space = λ s. s; parse_addr = parse_one; parse_addr_port = λ s. none }

abbrev from_ten : Prefix
from_ten a = elim a [ invalid ↦ false | v4 n ↦ leb 10 n | v6 n zone ↦ false ]

abbrev trusted : List Prefix
trusted = from_ten ∷ []

-- "7,11", and a forged entry before it.
abbrev header : Bytes
header = 7 ∷ comma ∷ 11 ∷ []

first_untrusted-split_example :
    first_untrusted_from_right net trusted header ≡ last_untrusted net trusted (split header)
first_untrusted-split_example = first_untrusted-split net trusted header refl

header_found : first_untrusted_from_right net trusted header ≡ some (v4 7)
unfolding first_untrusted_from_right scan cut_last check_part is_trusted_proxy exists
header_found = refl

forwarded_prefix_ignored_example :
    first_untrusted_from_right net trusted ((5 ∷ []) ++ comma ∷ header) ≡ some (v4 7)
forwarded_prefix_ignored_example =
    forwarded_prefix_ignored net trusted (5 ∷ []) header refl header_found

-- The text "10" is the prefix of the proxies.
abbrev prefixes : Prefixes
prefixes = record {
  parse_prefix = λ text. if bytes_eq text (10 ∷ []) then ok from_ten else err (opaque 5);
  masked = λ prefix. prefix;
}

abbrev serve : Bytes → Bytes → RequestContext → RequestContext
serve = client_ip_middleware net prefixes trusted

not_started : new_client_ip_middleware net prefixes ((10 ∷ []) ∷ (3 ∷ []) ∷ []) ≡ err (opaque 5)
unfolding new_client_ip_middleware parse_cidr_list bytes_eq
not_started = refl

abbrev two_cases : List (Case ℕ)
two_cases = (session_not_found, 404) ∷ (session_forbidden, 403) ∷ []

resolve-first_case_example :
    resolve (new (map on_case two_cases ++ default (λ x. 500) ∷ [])) (sentinel session_forbidden)
    ≡ some (first_case two_cases 500 (sentinel session_forbidden))
resolve-first_case_example = resolve-first_case two_cases 500 (sentinel session_forbidden)

granted_run :
    handle_bearer_auth (with_client_ip [] (v4 7)) (ok (1, admin)) ("admin" ∷ [])
    ≡ ok (with_user_id (with_client_ip [] (v4 7)) 1)
unfolding handle_bearer_auth role_allowed exists
granted_run = refl

user_hides_client_ip_example :
    (client_ip_from_context (with_client_ip [] (v4 7)) ≡ some (v4 7))
    × (client_ip_from_context (with_user_id (with_client_ip [] (v4 7)) 1) ≡ none)
user_hides_client_ip_example =
    user_hides_client_ip [] (v4 7) (ok (1, admin)) ("admin" ∷ []) granted_run

delete_session_answers_example :
    (sessions_session_id_delete env (with_user_id [] 1) 20 two_sessions).0
    ≡ ok (delete_answer (user_id_from_context (with_user_id [] 1)) (lookup_id 20 two_sessions.db))
delete_session_answers_example =
    delete_session_answers env (λ n. refl) (with_user_id [] 1) 20 two_sessions
