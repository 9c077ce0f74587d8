-- ===== src/Http/Handler/Refresh.antt =====
-- What the refresh endpoint answers to a token that was used before.
use hsa.Prelude.{String, ◌≡◌, true, refl, ap}
use hsa.Failure.{ok, errors_is}
use hsa.Domain.Session.{is_revoked}
use hsa.Storage.Rows.{RefreshTokenRow}
use hsa.Storage.Sessions.{row_to_session}
use hsa.Storage.Sessions.Laws.{HasDistinctIds}
use hsa.Errkit.{on_is, default, apply, new, run_handlers, resolve, handle}
use hsa.Application.SessionIssuer.{SessionConfig}
use hsa.Application.RefreshAccessToken.Laws.{IsStored}
use hsa.Application.RefreshAccessToken.Answers.{reuse_is_reported}
use hsa.Http.Errors.{refresh_errors, unauthorized, token_reused}
use hsa.Http.Handler.{request, RefreshRes, refresh_failed, respond_refresh, token_refresh_post}
use hsa.Http.Operations.{response, handled}
use hsa.Http.Operations.Open.{body, handle_token_refresh_post_request}
use hsa.Runtime.{Env, World}
use hsa.Runtime.Forward.{NoFaults}

abbrev pub reused : RefreshRes
reused = refresh_failed (record {
  status = unauthorized;
  code = token_reused;
  message = "refresh token reuse detected";
})

-- Where no statement fails and session ids are distinct, a refresh request that was decoded, with a
-- token that is stored as revoked, is answered as unauthorized with the code of the reuse, and every session is as
-- it was before the request.
pub refresh_endpoint_reports_reuse :
    (env : Env) (cfg : SessionConfig) (raw : String) (w : World) (r : RefreshTokenRow)
    → NoFaults env
    → HasDistinctIds w.db.refresh_tokens
    → IsStored env raw w.db r
    → is_revoked (row_to_session r) ≡ true
    → (w' : World) × (handle_token_refresh_post_request env cfg (body raw) w
        ≡ (ok (response reused), w'))
      × (w'.db ≡ w.db)
unfolding token_refresh_post handle_token_refresh_post_request handle resolve refresh_errors new
    apply on_is default run_handlers errors_is
refresh_endpoint_reports_reuse env cfg raw w r calm distinct known revoked =
    let (w', reported, same) =
      reuse_is_reported env calm cfg request raw w r refl distinct known revoked in
    (w', ap handled (ap respond_refresh reported), same)
