-- ===== src/Http/ClientIp/Middleware/Laws.antt =====
-- The address that a handler finds, in terms of the proxies that were configured.
use hsa.Prelude.{Bool, false, List, Bytes, exists}
use hsa.Failure.{Result, ok, err, panic}
use hsa.Domain.Session.{Addr}
use hsa.Http.ClientIp.{Net, Prefix}
use hsa.Http.ClientIp.Middleware.{Prefixes}

module _ (net : Net) (pre : Prefixes) where
  abbrev pub covers_parsed : Result Prefix → Addr → Bool
  covers_parsed (ok prefix) ip = pre.masked prefix ip
  covers_parsed (err e) ip = false
  covers_parsed (panic p) ip = false

  -- Whether one of the configured texts is a prefix, masked, that contains the address.
  abbrev pub is_configured : List Bytes → Addr → Bool
  is_configured cidrs ip =
      exists (λ cidr. covers_parsed (pre.parse_prefix (net.trim_space cidr)) ip) cidrs
