-- ===== src/Http/ClientIp/Laws.antt =====
-- What a client can write into the X-Forwarded-For header.
use hsa.Prelude.{
  Option, none, some, true, false, List, [], ◌∷◌, ◌++◌, Bytes, ◌==◌, ◌≡◌, ◌⊎◌, refl, sym, ap, ◌∙◌,
  arith, Bool-cases, Option-cases, inl, inr, if_true, if_false, some-injective,
}
use hsa.Domain.Session.{Addr}
use hsa.Http.ClientIp.{
  Net, Prefix, comma, is_trusted_proxy, untrusted, check_part, or_else, first_untrusted_from_right,
  parse_remote_addr, extract_client_ip, or_remote, resolve,
}
use hsa.Http.ClientIp.Split.{
  split, cons_head, cons_head-split, last_untrusted, last_untrusted-++, TrimsEmpty,
  first_untrusted-split,
}

split-++ : (left right : Bytes) → split (left ++ comma ∷ right) ≡ split left ++ split right
split-++ [] right = refl
split-++ (b ∷ left) right = elim (Bool-cases (b == comma)) [
  | inl e ↦
      if_true _ _ _ e
      ∙ ap (λ ps. [] ∷ ps) (split-++ left right)
      ∙ ap (λ ps. ps ++ split right) (sym (if_true _ ([] ∷ split left) _ e))
  | inr e ↦
      if_false _ _ _ e
      ∙ ap (cons_head b) (split-++ left right)
      ∙ cons_head-split b left (split right)
      ∙ ap (λ ps. ps ++ split right) (sym (if_false _ _ (cons_head b (split left)) e))
]

module _ (net : Net) (trusted : List Prefix) where
  -- What stands left of the entry that the service takes has no say: with anything put before a
  -- header, and a comma between, the scan finds the same address, when it found one.
  pub forwarded_prefix_ignored :
      (left right : Bytes) {ip : Addr}
      → TrimsEmpty net
      → first_untrusted_from_right net trusted right ≡ some ip
      → first_untrusted_from_right net trusted (left ++ comma ∷ right) ≡ some ip
  forwarded_prefix_ignored left right t h =
      first_untrusted-split net trusted (left ++ comma ∷ right) t
      ∙ ap (last_untrusted net trusted) (split-++ left right)
      ∙ last_untrusted-++ net trusted (split left) (split right)
      ∙ ap (λ a. or_else a (last_untrusted net trusted (split left)))
          (sym (first_untrusted-split net trusted right t) ∙ h)

  or_else-eq-some :
      (a b : Option Addr) {ip : Addr} → or_else a b ≡ some ip → (a ≡ some ip) ⊎ (b ≡ some ip)
  or_else-eq-some none b h = inr h
  or_else-eq-some (some a) b h = inl h

  untrusted-eq-some :
      (o : Option Addr) {ip : Addr}
      → untrusted net trusted o ≡ some ip
      → is_trusted_proxy ip trusted ≡ false
  untrusted-eq-some none h = absurd (ground arith)
  untrusted-eq-some (some a) {ip} h = elim (Bool-cases (is_trusted_proxy a trusted)) [
    | inl e ↦ absurd (ground arith)
    | inr e ↦
        let same : a ≡ ip = ground arith in ap (λ x. is_trusted_proxy x trusted) (sym same) ∙ e
  ]

  check_part-eq-some :
      (part : Bytes) {ip : Addr}
      → check_part net trusted part ≡ some ip
      → is_trusted_proxy ip trusted ≡ false
  unfolding check_part
  check_part-eq-some [] h = absurd (ground arith)
  check_part-eq-some (b ∷ bs) h = untrusted-eq-some (net.parse_addr (b ∷ bs)) h

  last_untrusted-eq-some :
      (ps : List Bytes) {ip : Addr}
      → last_untrusted net trusted ps ≡ some ip
      → is_trusted_proxy ip trusted ≡ false
  last_untrusted-eq-some [] h = absurd (ground arith)
  last_untrusted-eq-some (p ∷ ps) {ip} h =
      elim (or_else-eq-some (last_untrusted net trusted ps) _ {ip = ip} h) [
        | inl later ↦ last_untrusted-eq-some ps later
        | inr here ↦ check_part-eq-some (net.trim_space p) here
      ]

  resolve-eq-some :
      (forwarded : Bytes) (o : Option Addr) {ip : Addr}
      → TrimsEmpty net
      → resolve net trusted forwarded o ≡ some ip
      → (remote : Addr) × (o ≡ some remote)
        × ((ip ≡ remote)
            ⊎ (is_trusted_proxy remote trusted ≡ true) × (is_trusted_proxy ip trusted ≡ false))
  resolve-eq-some forwarded none t h = absurd (ground arith)
  resolve-eq-some forwarded (some remote) {ip} t h =
      elim (Bool-cases (is_trusted_proxy remote trusted)) [
        | inr e ↦ (remote, refl, inl (some-injective (sym h ∙ if_false _ _ _ e)))
        | inl e ↦
            let taken = sym h ∙ if_true _ _ _ e in
            elim (Option-cases (first_untrusted_from_right net trusted forwarded)) [
              | inl missing ↦ (
                remote,
                refl,
                inl (some-injective (taken ∙ ap (λ o. some (or_remote remote o)) missing)),
              )
              | inr (a, found) ↦
                  let same : ip ≡ a =
                    some-injective (taken ∙ ap (λ o. some (or_remote remote o)) found) in
                  let clear =
                    last_untrusted-eq-some (split forwarded)
                      (sym (first_untrusted-split net trusted forwarded t) ∙ found) in
                  (remote, refl, inr (e, ap (λ x. is_trusted_proxy x trusted) same ∙ clear))
            ]
      ]

  -- The address of a request is the remote one, or one of the header which is no trusted proxy's,
  -- and then the remote one is a trusted proxy's.
  pub client_ip_origin :
      (remote_addr forwarded : Bytes) {ip : Addr}
      → TrimsEmpty net
      → extract_client_ip net trusted remote_addr forwarded ≡ some ip
      → (remote : Addr) × (parse_remote_addr net trusted remote_addr ≡ some remote)
        × ((ip ≡ remote)
            ⊎ (is_trusted_proxy remote trusted ≡ true) × (is_trusted_proxy ip trusted ≡ false))
  unfolding extract_client_ip
  client_ip_origin remote_addr forwarded t h =
      resolve-eq-some forwarded (parse_remote_addr net trusted remote_addr) t h
