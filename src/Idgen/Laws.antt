-- ===== src/Idgen/Laws.antt =====
-- What every identifier of a generator is: a version 4 UUID.
use Prim.Native.Nat.{bit_and, bit_or}
use hsa.Prelude.{
  sym, ◌⊎◌, ap, ◌∙◌, dec_lt, ℕ, zero, suc, ◌+◌, ◌/◌, ◌<◌, ◌≤◌, ◌≡◌, refl, arith, Option, none, some,
  Bool, true, false, List, [], ◌∷◌, ◌==◌, ◌&&◌, ltb, leb, if◌then◌else◌, ==_iff, Bool-cases, inl,
  inr, All, length, if_true, subst, &&-eq-true, if_false,
}
use hsa.Idgen.{
  Block, batch_size, BatchBuffer, Source, PooledGenerator, stamp, stamp_each, refill, new_buffer,
  take_out, survivors, get, put, serve, serve_refilled, serve_next, new_id, new_pooled_generator,
  after_read, then_run, run,
}

-- A check of every number below a bound, and what it shows of one of them.
each_below : (check : ℕ → Bool) → (bound : ℕ) → Bool
each_below check zero = true
each_below check (suc n) = each_below check n && check n

each_below-at :
    (check : ℕ → Bool) (bound x : ℕ) → x < bound → each_below check bound ≡ true → check x ≡ true
unfolding each_below
each_below-at check zero x below h = absurd (omega arith)
each_below-at check (suc n) x below h =
    let (before, here) = &&-eq-true (each_below check n) (check n) h in
    elim (dec_lt x n) [
      | yes less ↦ each_below-at check n x less before
      | no most ↦ let same : n ≡ x = omega arith in subst (λ k. check k ≡ true) same here
    ]

abbrev has_version : ℕ → Bool
has_version b = bit_or (bit_and b 0x0f) 0x40 / 16 == 4

abbrev has_variant : ℕ → Bool
has_variant b = bit_or (bit_and b 0x3f) 0x80 / 64 == 2

each_version : each_below has_version 256 ≡ true
unfolding each_below
each_version = refl

each_variant : each_below has_variant 256 ≡ true
unfolding each_below
each_variant = refl

-- RFC 4122: the upper half of the seventh byte is the version, the two upper bits of the ninth the
-- variant.
abbrev pub IsVersion4 : Block → Type 0
IsVersion4 u = (u 6 / 16 ≡ 4) × (u 8 / 64 ≡ 2)

abbrev pub IsBytes : Block → Type 0
IsBytes u = (u 6 < 256) × (u 8 < 256)

pub stamp-IsVersion4 : (u : Block) → IsBytes u → IsVersion4 (stamp u)
unfolding stamp
stamp-IsVersion4 u (sixth, eighth) = (
  (==_iff _ 4).0 (each_below-at has_version 256 (u 6) sixth each_version),
  (==_iff _ 2).0 (each_below-at has_variant 256 (u 8) eighth each_variant),
)

-- The loop stamps the blocks of its range, each once.
pub stamp_each_lem :
    (n i : ℕ) (u : ℕ → Block) (k : ℕ)
    → stamp_each n i u k ≡ (if leb i k && ltb k (i + n) then stamp (u k) else u k)
unfolding stamp_each
stamp_each_lem zero i u k = ground arith
stamp_each_lem (suc n) i u k =
    ground (arith, stamp_each_lem n (i + 1) (λ j. if j == i then stamp (u j) else u j) k)

pub stamp_each_below : (n : ℕ) (u : ℕ → Block) (k : ℕ) → k < n → stamp_each n 0 u k ≡ stamp (u k)
stamp_each_below n u k h = ground (arith, stamp_each_lem n 0 u k)

-- The blocks of a buffer that are still to be served are version 4.
abbrev pub IsValid : BatchBuffer → Type 0
IsValid b =
    (b.idx ≤ batch_size) × ((i : ℕ) → (i < b.idx) ⊎ (batch_size ≤ i) ⊎ IsVersion4 (b.uuids i))

new_buffer-IsValid : IsValid new_buffer
new_buffer-IsValid = (omega arith, λ i. ground (arith))

take_out-IsValid :
    (n : ℕ) (bs : List BatchBuffer)
    → All IsValid bs
    → IsValid (take_out n bs).0 × All IsValid (take_out n bs).1
unfolding take_out
take_out-IsValid n [] h = (new_buffer-IsValid, tt)
take_out-IsValid zero (b ∷ bs) h = h
take_out-IsValid (suc n) (b ∷ bs) (hb, hs) =
    let (found, rest) = take_out-IsValid n bs hs in (found, (hb, rest))

survivors-IsValid :
    (keep : ℕ → Bool) (bs : List BatchBuffer) → All IsValid bs → All IsValid (survivors keep bs)
unfolding survivors
survivors-IsValid keep [] h = tt
survivors-IsValid keep (b ∷ bs) (hb, hs) =
    let rest = survivors-IsValid (λ n. keep (suc n)) bs hs in
    elim (Bool-cases (keep 0)) [
      | inl e ↦ subst (All IsValid) (sym (if_true _ _ _ e)) (hb, rest)
      | inr e ↦ subst (All IsValid) (sym (if_false _ _ _ e)) rest
    ]

get-IsValid :
    (keep : ℕ → Bool) (c : Option ℕ) (bs : List BatchBuffer)
    → All IsValid bs
    → IsValid (get keep c bs).0 × All IsValid (get keep c bs).1
unfolding get
get-IsValid keep none bs h = (new_buffer-IsValid, survivors-IsValid keep bs h)
get-IsValid keep (some n) bs h =
    take_out-IsValid n (survivors keep bs) (survivors-IsValid keep bs h)

-- A call that served a version 4 identifier and left its buffers so.
abbrev Serves : Option (Block × PooledGenerator) → Type 0
Serves o =
    (id : Block) × (g : PooledGenerator) × (o ≡ some (id, g)) × IsVersion4 id × All IsValid g.pool

served :
    (b : BatchBuffer) (i : ℕ)
    → i < batch_size
    → ((i < i) ⊎ (batch_size ≤ i) ⊎ IsVersion4 (b.uuids i))
    → IsVersion4 (b.uuids i)
served b i h (inl l) = absurd (omega arith)
served b i h (inr (inl l)) = absurd (omega arith)
served b i h (inr (inr v)) = v

later :
    (b : BatchBuffer) (i : ℕ)
    → ((i < b.idx) ⊎ (batch_size ≤ i) ⊎ IsVersion4 (b.uuids i))
    → ((i < b.idx + 1) ⊎ (batch_size ≤ i) ⊎ IsVersion4 (b.uuids i))
later b i (inl l) = inl (omega arith)
later b i (inr r) = inr r

serve-Serves :
    (b : BatchBuffer) (bs : List BatchBuffer) (call : ℕ)
    → IsValid b
    → All IsValid bs
    → b.idx < batch_size
    → Serves (serve b bs call)
unfolding serve
serve-Serves b bs call (bound, blocks) hs h = (
  b.uuids b.idx,
  put (record b { idx = b.idx + 1 }) bs call,
  ground arith,
  served b b.idx h (blocks b.idx),
  ((omega arith, λ i. later b i (blocks i)), hs),
)

module _ (src : Source) (random : (n i : ℕ) → IsBytes ((src.read_full n).0 i))
    (fallback : (n : ℕ) → IsVersion4 (src.fresh n)) where
  stamped :
      (raw : ℕ → Block) (i : ℕ)
      → ((i : ℕ) → IsBytes (raw i))
      → (i < 0) ⊎ (batch_size ≤ i) ⊎ IsVersion4 (stamp_each batch_size 0 raw i)
  stamped raw i bytes = elim (dec_lt i batch_size) [
    | yes below ↦
        inr
          (inr (rw (stamp_each_below batch_size raw i below) (stamp-IsVersion4 (raw i) (bytes i))))
    | no above ↦ inr (inl (omega arith))
  ]

  serve_refilled-Serves :
      (b : BatchBuffer) (bs : List BatchBuffer) (call : ℕ) (r : (ℕ → Block) × Bool)
      → All IsValid bs
      → b.idx ≡ batch_size
      → ((i : ℕ) → IsBytes (r.0 i))
      → Serves (serve_refilled src bs call (after_read b r))
  serve_refilled-Serves b bs call (raw, true) hs full bytes =
      serve-Serves _ bs call (omega arith, λ i. stamped raw i bytes) hs (omega arith)
  serve_refilled-Serves b bs call (raw, false) hs full bytes = (
    src.fresh call,
    put (record b { uuids = raw }) bs call,
    refl,
    fallback call,
    ((omega arith, λ i. ground arith), hs),
  )

  serve_next-Serves :
      (call : ℕ) (b : BatchBuffer) (bs : List BatchBuffer)
      → IsValid b
      → All IsValid bs
      → Serves (serve_next src call (b, bs))
  unfolding refill
  serve_next-Serves call b bs hb hs = elim (Bool-cases (leb batch_size b.idx)) [
    | inl e ↦ rw (if_true _ (serve_refilled src bs call (refill src call b)) (serve b bs call) e) (
        serve_refilled-Serves b bs call (src.read_full call) hs (ground (arith, hb.0))
          (random call))
    | inr e ↦
        rw (if_false _ (serve_refilled src bs call (refill src call b)) (serve b bs call) e)
          (serve-Serves b bs call hb hs (ground arith))
  ]

  new_id-Serves : (g : PooledGenerator) → All IsValid g.pool → Serves (new_id src g)
  unfolding new_id
  new_id-Serves g h =
      let (hb, hs) = get-IsValid (src.keeps g.calls) (src.choose g.calls) g.pool h in
      serve_next-Serves g.calls (get (src.keeps g.calls) (src.choose g.calls) g.pool).0
        (get (src.keeps g.calls) (src.choose g.calls) g.pool).1 hb hs

  then_run-of_some :
      (n : ℕ) (g : PooledGenerator) (id : Block) {ids : List Block} {last : PooledGenerator}
      → run src n g ≡ some (ids, last)
      → then_run (run src n) (some (id, g)) ≡ some (id ∷ ids, last)
  then_run-of_some n g id h = ground arith

  run-Serves :
      (n : ℕ) (g : PooledGenerator)
      → All IsValid g.pool
      → (ids : List Block) × (last : PooledGenerator) × (run src n g ≡ some (ids, last))
        × (length ids ≡ n)
        × All IsVersion4 ids
  unfolding run
  run-Serves zero g h = ([], g, refl, refl, tt)
  run-Serves (suc n) g h =
      let (id, g', now, version, valid) = new_id-Serves g h in
      let (ids, last, more, count, versions) = run-Serves n g' valid in
      (
        id ∷ ids,
        last,
        ap (then_run (run src n)) now ∙ then_run-of_some n g' id more,
        ap suc count,
        (version, versions),
      )

  -- Where a read fills the array with bytes and the fallback makes version 4 identifiers, any number
  -- of calls of a new generator return one identifier each, with no index out of range, and each
  -- has the version and the variant of RFC 4122.
  pub run-IsVersion4 :
      (n : ℕ)
      → (ids : List Block) × (last : PooledGenerator) × (run src n new_pooled_generator
          ≡ some (ids, last))
        × (length ids ≡ n)
        × All IsVersion4 ids
  unfolding new_pooled_generator
  run-IsVersion4 n = run-Serves n new_pooled_generator tt
