-- ===== src/Http/ClientIp.antt =====
-- internal/presentation/http/ip_middleware.go. A Go string is its bytes. `netip` and
-- `strings.TrimSpace` are parameters.
pub mod Middleware
pub mod Split
pub mod Laws
use hsa.Prelude.{
  ℕ, zero, suc, Option, none, some, Bool, true, false, List, [], ◌∷◌, Bytes, length, is_empty,
  exists, if◌then◌else◌, ◌==◌,
}
use hsa.Domain.Session.{Addr}

-- What the middleware takes from the library; a prefix is what tells which addresses it contains.
pub record Net : Type 0 where
  pub trim_space : Bytes → Bytes
  pub parse_addr : Bytes → Option Addr
  pub parse_addr_port : Bytes → Option Addr

abbrev pub Prefix : Type 0
Prefix = Addr → Bool

abbrev pub comma : ℕ
comma = 44

unfoldable pub is_trusted_proxy : Addr → List Prefix → Bool
is_trusted_proxy ip trusted = exists (λ contains. contains ip) trusted

-- `strings.LastIndexByte(value, ',')` and the slices around it: what precedes the last comma, if
-- there is one, and what follows it.
abbrev pub cons_after : ℕ → Option Bytes × Bytes → Option Bytes × Bytes
cons_after b (none, after) = if b == comma then (some [], after) else (none, b ∷ after)
cons_after b (some before, after) = (some (b ∷ before), after)

unfoldable pub cut_last : Bytes → Option Bytes × Bytes
cut_last [] = (none, [])
cut_last (b ∷ bs) = cons_after b (cut_last bs)

abbrev pub or_else : Option Addr → Option Addr → Option Addr
or_else none rest = rest
or_else (some ip) rest = some ip

abbrev pub or_remote : Addr → Option Addr → Addr
or_remote remote none = remote
or_remote remote (some ip) = ip

module _ (net : Net) (trusted : List Prefix) where
  -- `continue` for a part that is empty, is no address, or is a trusted proxy's.
  abbrev pub untrusted : Option Addr → Option Addr
  untrusted none = none
  untrusted (some ip) = if is_trusted_proxy ip trusted then none else some ip

  unfoldable pub check_part : Bytes → Option Addr
  check_part part = if is_empty part then none else untrusted (net.parse_addr part)

  -- The loop, on the part of the header that is left, from its right end. `fuel` bounds the number
  -- of parts; the length of the header is enough.
  unfoldable pub scan : (fuel : ℕ) → Bytes → Option Addr
  scan zero value = none
  scan (suc fuel) [] = none
  scan (suc fuel) (b ∷ bs) =
      let (before, part) = cut_last (b ∷ bs) in
      or_else (check_part (net.trim_space part))
        (elim before [ none ↦ none | some rest ↦ scan fuel rest ])

  unfoldable pub first_untrusted_from_right : Bytes → Option Addr
  first_untrusted_from_right value = scan (length value) value

  unfoldable pub parse_remote_addr : Bytes → Option Addr
  parse_remote_addr remote = or_else (net.parse_addr_port remote) (net.parse_addr remote)

  abbrev pub resolve : Bytes → Option Addr → Option Addr
  resolve forwarded none = none
  resolve forwarded (some remote) =
      if is_trusted_proxy remote trusted
      then some (or_remote remote (first_untrusted_from_right forwarded))
      else some remote

  -- `extractClientIP`, of the remote address and the X-Forwarded-For header.
  unfoldable pub extract_client_ip : (remote_addr : Bytes) → (forwarded : Bytes) → Option Addr
  extract_client_ip remote_addr forwarded = resolve forwarded (parse_remote_addr remote_addr)
