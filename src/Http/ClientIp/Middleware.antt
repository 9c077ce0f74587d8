-- ===== src/Http/ClientIp/Middleware.antt =====
-- internal/presentation/http/ip_middleware.go: NewClientIPMiddleware, with the trusted proxies that
-- are configured as texts. `netip.ParsePrefix` and `Prefix.Masked` are parameters. An error that
-- `fmt.Errorf` wraps once is the error itself, less its text.
pub mod Laws
use hsa.Prelude.{Option, none, some, List, [], ◌∷◌, Bytes}
use hsa.Failure.{Result, ok, err, panic}
use hsa.Domain.Session.{Addr}
use hsa.Http.Auth.{RequestContext, with_client_ip}
use hsa.Http.ClientIp.{Net, Prefix, extract_client_ip}

pub record Prefixes : Type 0 where
  pub parse_prefix : Bytes → Result Prefix
  pub masked : Prefix → Prefix

module _ (net : Net) (pre : Prefixes) where
  -- A turn of the loop: the parsed entry, and the entries after it, which are not read once one
  -- has failed.
  abbrev pub append_prefix : Result Prefix → Result (List Prefix) → Result (List Prefix)
  append_prefix (ok prefix) (ok out) = ok (pre.masked prefix ∷ out)
  append_prefix (ok prefix) (err e) = err e
  append_prefix (ok prefix) (panic p) = panic p
  append_prefix (err e) rest = err e
  append_prefix (panic p) rest = panic p

  unfoldable pub parse_cidr_list : List Bytes → Result (List Prefix)
  parse_cidr_list [] = ok []
  parse_cidr_list (cidr ∷ cidrs) =
      append_prefix (pre.parse_prefix (net.trim_space cidr)) (parse_cidr_list cidrs)

  abbrev pub with_found : RequestContext → Option Addr → RequestContext
  with_found ctx none = ctx
  with_found ctx (some ip) = with_client_ip ctx ip

  -- The context that the next handler is served with.
  unfoldable pub client_ip_middleware :
      List Prefix → (remote_addr : Bytes) → (forwarded : Bytes) → RequestContext → RequestContext
  client_ip_middleware trusted remote_addr forwarded ctx =
      with_found ctx (extract_client_ip net trusted remote_addr forwarded)

  abbrev pub serve_with :
      Result (List Prefix) → Result (Bytes → Bytes → RequestContext → RequestContext)
  serve_with (ok trusted) = ok (client_ip_middleware trusted)
  serve_with (err e) = err e
  serve_with (panic p) = panic p

  -- `NewClientIPMiddleware`
  unfoldable pub new_client_ip_middleware :
      (trusted_proxies : List Bytes) → Result (Bytes → Bytes → RequestContext → RequestContext)
  new_client_ip_middleware trusted_proxies = serve_with (parse_cidr_list trusted_proxies)
