-- ===== src/Http/ClientIp/Split.antt =====
-- The scan of the X-Forwarded-For header against the split of the header at its commas.
use hsa.Prelude.{
  ℕ, zero, suc, ◌≤◌, ◌<◌, Option, none, some, List, [], ◌∷◌, ◌++◌, Bytes, length, ◌==◌,
  if◌then◌else◌, ◌≡◌, refl, sym, ap, subst, ◌∙◌, arith, Bool-cases, inl, inr, if_true, if_false,
}
use hsa.Domain.Session.{Addr}
use hsa.Http.ClientIp.{
  Net, Prefix, comma, cons_after, cut_last, check_part, or_else, scan, first_untrusted_from_right,
}

abbrev pub cons_head : ℕ → List Bytes → List Bytes
cons_head b [] = (b ∷ []) ∷ []
cons_head b (p ∷ ps) = (b ∷ p) ∷ ps

-- `strings.Split(value, ",")`
abbrev pub split : Bytes → List Bytes
split [] = [] ∷ []
split (b ∷ bs) = if b == comma then [] ∷ split bs else cons_head b (split bs)

-- What `cut_last` says of the split.
abbrev Cuts : Bytes → Option Bytes × Bytes → Type 0
Cuts value (none, part) = split value ≡ part ∷ []
Cuts value (some before, part) =
    (split value ≡ split before ++ part ∷ []) × (length before < length value)

cons_head-twice :
    (b c : ℕ) (ps qs : List Bytes)
    → cons_head b (cons_head c ps ++ qs) ≡ cons_head b (cons_head c ps) ++ qs
cons_head-twice b c [] qs = refl
cons_head-twice b c (p ∷ ps) qs = refl

pub cons_head-split :
    (b : ℕ) (before : Bytes) (qs : List Bytes)
    → cons_head b (split before ++ qs) ≡ cons_head b (split before) ++ qs
cons_head-split b [] qs = refl
cons_head-split b (c ∷ before) qs = elim (Bool-cases (c == comma)) [
  | inl e ↦ rw e refl
  | inr e ↦ rw e (cons_head-twice b c (split before) qs)
]

split-cons :
    (b : ℕ) (bs before after : Bytes)
    → split bs ≡ split before ++ after ∷ []
    → split (b ∷ bs) ≡ split (b ∷ before) ++ after ∷ []
split-cons b bs before after h = elim (Bool-cases (b == comma)) [
  | inl e ↦
      if_true _ _ _ e
      ∙ ap (λ ps. [] ∷ ps) h
      ∙ ap (λ ps. ps ++ after ∷ []) (sym (if_true _ ([] ∷ split before) _ e))
  | inr e ↦
      if_false _ _ _ e
      ∙ ap (cons_head b) h
      ∙ cons_head-split b before (after ∷ [])
      ∙ ap (λ ps. ps ++ after ∷ []) (sym (if_false _ _ (cons_head b (split before)) e))
]

Cuts-cons :
    (b : ℕ) (bs : Bytes) (r : Option Bytes × Bytes) → Cuts bs r → Cuts (b ∷ bs) (cons_after b r)
Cuts-cons b bs (none, after) h = elim (Bool-cases (b == comma)) [
  | inl e ↦
      subst (Cuts (b ∷ bs)) (sym (if_true _ _ _ e))
        (if_true _ _ _ e ∙ ap (λ ps. [] ∷ ps) h, ground arith)
  | inr e ↦ subst (Cuts (b ∷ bs)) (sym (if_false _ _ _ e)) (if_false _ _ _ e ∙ ap (cons_head b) h)
]
Cuts-cons b bs (some before, after) h = (split-cons b bs before after h.0, omega arith)

cut_last-Cuts : (value : Bytes) → Cuts value (cut_last value)
unfolding cut_last
cut_last-Cuts [] = refl
cut_last-Cuts (b ∷ bs) = Cuts-cons b bs (cut_last bs) (cut_last-Cuts bs)

-- `TrimSpace` of the empty string is empty.
abbrev pub TrimsEmpty : Net → Type 0
TrimsEmpty net = net.trim_space [] ≡ []

module _ (net : Net) (trusted : List Prefix) where
  -- The last part that is the address of no trusted proxy.
  abbrev pub last_untrusted : List Bytes → Option Addr
  last_untrusted [] = none
  last_untrusted (p ∷ ps) = or_else (last_untrusted ps) (check_part net trusted (net.trim_space p))

  or_else_assoc : (a b c : Option Addr) → or_else (or_else a b) c ≡ or_else a (or_else b c)
  or_else_assoc none b c = refl
  or_else_assoc (some a) b c = refl

  or_else-none : (a : Option Addr) → or_else a none ≡ a
  or_else-none none = refl
  or_else-none (some a) = refl

  pub last_untrusted-++ :
      (ps qs : List Bytes)
      → last_untrusted (ps ++ qs) ≡ or_else (last_untrusted qs) (last_untrusted ps)
  last_untrusted-++ [] qs = sym (or_else-none (last_untrusted qs))
  last_untrusted-++ (p ∷ ps) qs =
      ap (λ a. or_else a (check_part net trusted (net.trim_space p))) (last_untrusted-++ ps qs)
      ∙ or_else_assoc (last_untrusted qs) (last_untrusted ps) _

  -- One turn of the loop on a cut.
  abbrev turn : ℕ → Option Bytes × Bytes → Option Addr
  turn fuel (before, part) =
      or_else (check_part net trusted (net.trim_space part))
        (elim before [ none ↦ none | some rest ↦ scan net trusted fuel rest ])

  check_empty : TrimsEmpty net → check_part net trusted (net.trim_space []) ≡ none
  unfolding check_part
  check_empty h = rw h refl

  turn-last_untrusted :
      (fuel : ℕ) (value : Bytes) (r : Option Bytes × Bytes)
      → ((rest : Bytes)
          → length rest ≤ fuel
          → scan net trusted fuel rest ≡ last_untrusted (split rest))
      → length value ≤ suc fuel
      → Cuts value r
      → turn fuel r ≡ last_untrusted (split value)
  turn-last_untrusted fuel value (none, part) next h c = or_else-none _ ∙ ap last_untrusted (sym c)
  turn-last_untrusted fuel value (some before, part) next h c =
      ap (or_else (check_part net trusted (net.trim_space part))) (next before (omega arith))
      ∙ sym (last_untrusted-++ (split before) (part ∷ []))
      ∙ ap last_untrusted (sym c.0)

  scan-last_untrusted :
      (fuel : ℕ) (value : Bytes)
      → TrimsEmpty net
      → length value ≤ fuel
      → scan net trusted fuel value ≡ last_untrusted (split value)
  unfolding scan
  scan-last_untrusted zero [] t h = sym (check_empty t)
  scan-last_untrusted zero (b ∷ bs) t h = absurd (omega arith)
  scan-last_untrusted (suc fuel) [] t h = sym (check_empty t)
  scan-last_untrusted (suc fuel) (b ∷ bs) t h =
      turn-last_untrusted fuel (b ∷ bs) (cut_last (b ∷ bs))
        (λ rest short. scan-last_untrusted fuel rest t short) h (cut_last-Cuts (b ∷ bs))

  -- The scan from the right end, whose bound is enough for every header, finds what the split of the
  -- header at its commas has as the last part that is the address of no trusted proxy.
  pub first_untrusted-split :
      (value : Bytes)
      → TrimsEmpty net
      → first_untrusted_from_right net trusted value ≡ last_untrusted (split value)
  unfolding first_untrusted_from_right
  first_untrusted-split value t = scan-last_untrusted (length value) value t (omega arith)
