-- ===== src/Http/Handler/Login.antt =====
-- What the login endpoint answers to a credential that looks cloned.
use hsa.Prelude.{some, none, true, ◌≡◌, ap, ◌∙◌}
use hsa.Failure.{ok, errors_is}
use hsa.Domain.Session.{Addr}
use hsa.Storage.Rows.{CredentialRow}
use hsa.Storage.Credentials.{row_to_credential}
use hsa.Storage.Credentials.Laws.{lookup_external}
use hsa.Storage.Credentials.Lookup.{HasDistinctCredentials}
use hsa.Storage.Sessions.Laws.{HasDistinctIds}
use hsa.Errkit.{on_is, default, apply, new, run_handlers, resolve, handle}
use hsa.Application.Auth.{AuthenticationResult, Authenticator}
use hsa.Application.SessionIssuer.{SessionConfig}
use hsa.Application.FinishLogin.Reads.{is_suspect}
use hsa.Application.FinishLogin.Clone.{Revokes, clone_stays_revoked}
use hsa.Http.Auth.{RequestContext, client_ip_from_context}
use hsa.Http.Errors.{login_errors, unauthorized, clone_suspected}
use hsa.Http.Requests.{LoginPostReq, LoginRes, login_failed, login_answer, login_input}
use hsa.Http.Handler.{request, respond, login_post, login_from}
use hsa.Http.Operations.{response, handled}
use hsa.Http.Operations.Open.{body, handle_login_post_request}
use hsa.Runtime.{Env, World, tick}
use hsa.Runtime.Forward.{NoFaults}

abbrev pub cloned : LoginRes
cloned = login_failed (record {
  status = unauthorized;
  code = clone_suspected;
  message = "credential clone suspected";
})

module _ (env : Env) (calm : NoFaults env) (cfg : SessionConfig) where
  login_from-clone :
      (a : Authenticator) (ip : Addr) (req : LoginPostReq) (w w₁ : World)
      (result : AuthenticationResult) (r : CredentialRow)
      → HasDistinctIds w.db.refresh_tokens
      → HasDistinctCredentials w.db.credentials
      → a.finish request req.challenge_token req.authentication_response (tick w) ≡ (ok result, w₁)
      → w₁.db ≡ w.db
      → lookup_external result.external_id w.db.credentials ≡ some r
      → r.revoked_at ≡ none
      → is_suspect result (row_to_credential r) ≡ true
      → (w' : World) × (login_from env cfg a req (some ip) w ≡ (ok cloned, w'))
        × Revokes env calm cfg result.external_id r.user_id (env.clock w.step) w'.db
  unfolding handle resolve login_errors new apply on_is default run_handlers errors_is
  login_from-clone a ip req w w₁ result r distinct keyed answered kept here live suspect =
      let (w', reported, revokes) =
        clone_stays_revoked env calm cfg a request (login_input req ip) w w₁ result r distinct keyed
          answered kept here live suspect in
      (w', ap (respond login_errors login_failed login_answer) reported, revokes)

  -- Where no statement fails and ids are distinct in both tables: a login request that was decoded,
  -- from a known address, whose authentication is by a stored, unrevoked credential and warns of a clone or has a
  -- counter that went back, is answered as unauthorized with the code of a suspected clone.
  -- Afterwards the credential is revoked as of the start of the login, and its user has no active
  -- session at the moment of the revocation.
  pub login_endpoint_reports_clone :
      (a : Authenticator) (ctx : RequestContext) (ip : Addr) (req : LoginPostReq) (w w₁ : World)
      (result : AuthenticationResult) (r : CredentialRow)
      → HasDistinctIds w.db.refresh_tokens
      → HasDistinctCredentials w.db.credentials
      → client_ip_from_context ctx ≡ some ip
      → a.finish request req.challenge_token req.authentication_response (tick w) ≡ (ok result, w₁)
      → w₁.db ≡ w.db
      → lookup_external result.external_id w.db.credentials ≡ some r
      → r.revoked_at ≡ none
      → is_suspect result (row_to_credential r) ≡ true
      → (w' : World) × (handle_login_post_request env cfg a ctx (body req) w
          ≡ (ok (response cloned), w'))
        × Revokes env calm cfg result.external_id r.user_id (env.clock w.step) w'.db
  unfolding login_post handle_login_post_request
  login_endpoint_reports_clone a ctx ip req w w₁ result r distinct keyed known answered kept here
        live suspect =
      let (w', reported, revokes) =
        login_from-clone a ip req w w₁ result r distinct keyed answered kept here live suspect in
      (w', ap handled (ap (λ o. login_from env cfg a req o w) known ∙ reported), revokes)
