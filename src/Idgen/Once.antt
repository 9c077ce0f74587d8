-- ===== src/Idgen/Once.antt =====
-- Each block that a read has put into a batch is served at most once, also where the pool drops
-- buffers. What is served, what is left and what was read are weighed: a weight that counts one
-- block shows how often it occurs.
use hsa.Prelude.{
  ℕ, zero, suc, ◌+◌, ◌-◌, ◌≤◌, ◌≡◌, refl, sym, subst, ltb, ltb→lt, arith, Option, none, some, Bool,
  true, false, List, [], ◌∷◌, leb, if◌then◌else◌, Bool-cases, inl, inr, if_true, if_false,
}
use hsa.Idgen.{
  Block, batch_size, BatchBuffer, Source, PooledGenerator, stamp_each, refill, take_out, survivors,
  get, put, serve, serve_refilled, serve_next, new_id, after_read, prepend, then_run, run,
}

-- The sum of the weights of this many blocks from the i-th.
pub sum_from : (Block → ℕ) → (n : ℕ) → (i : ℕ) → (ℕ → Block) → ℕ
sum_from weight zero i uuids = 0
sum_from weight (suc n) i uuids = weight (uuids i) + sum_from weight n (i + 1) uuids

abbrev in_buffer : (Block → ℕ) → BatchBuffer → ℕ
in_buffer weight b = sum_from weight (batch_size - b.idx) b.idx b.uuids

abbrev pub left_in : (Block → ℕ) → List BatchBuffer → ℕ
left_in weight [] = 0
left_in weight (b ∷ bs) = in_buffer weight b + left_in weight bs

abbrev pub weigh : (Block → ℕ) → List Block → ℕ
weigh weight [] = 0
weigh weight (id ∷ ids) = weight id + weigh weight ids

abbrev read_at : (Block → ℕ) → Source → (call : ℕ) → (ℕ → Block) × Bool → ℕ
read_at weight src call (raw, true) = sum_from weight batch_size 0 (stamp_each batch_size 0 raw)
read_at weight src call (raw, false) = weight (src.fresh call)

-- What a call brings in: nothing where its buffer has blocks left, else a batch or the fallback.
abbrev brought : (Block → ℕ) → Source → PooledGenerator → ℕ
brought weight src g =
    if leb batch_size (get (src.keeps g.calls) (src.choose g.calls) g.pool).0.idx
    then read_at weight src g.calls (src.read_full g.calls)
    else 0

abbrev brought_then : (PooledGenerator → ℕ) → Option (Block × PooledGenerator) → ℕ
brought_then more none = 0
brought_then more (some (id, g)) = more g

pub brought_by_run : (Block → ℕ) → Source → ℕ → PooledGenerator → ℕ
brought_by_run weight src zero g = 0
brought_by_run weight src (suc n) g =
    brought weight src g + brought_then (brought_by_run weight src n) (new_id src g)

module _ (weight : Block → ℕ) where
  take_out-left :
      (n : ℕ) (bs : List BatchBuffer)
      → in_buffer weight (take_out n bs).0 + left_in weight (take_out n bs).1 ≡ left_in weight bs
  unfolding take_out sum_from
  take_out-left n [] = refl
  take_out-left zero (b ∷ bs) = refl
  take_out-left (suc n) (b ∷ bs) = omega (arith, take_out-left n bs)

  survivors-left :
      (keep : ℕ → Bool) (bs : List BatchBuffer)
      → left_in weight (survivors keep bs) ≤ left_in weight bs
  unfolding survivors
  survivors-left keep [] = omega arith
  survivors-left keep (b ∷ bs) = ground (arith, survivors-left (λ n. keep (suc n)) bs)

  get-left :
      (keep : ℕ → Bool) (c : Option ℕ) (bs : List BatchBuffer)
      → in_buffer weight (get keep c bs).0 + left_in weight (get keep c bs).1 ≤ left_in weight bs
  unfolding get sum_from
  get-left keep none bs = omega (arith, survivors-left keep bs)
  get-left keep (some n) bs =
      omega (arith, take_out-left n (survivors keep bs), survivors-left keep bs)

  sum_from_step :
      (k m i : ℕ) (u : ℕ → Block)
      → k ≡ suc m
      → sum_from weight k i u ≡ weight (u i) + sum_from weight m (i + 1) u
  unfolding sum_from
  sum_from_step k m i u h = rw h refl

  sum_from_none : (k i : ℕ) (u : ℕ → Block) → k ≡ 0 → sum_from weight k i u ≡ 0
  unfolding sum_from
  sum_from_none k i u h = rw h refl

  -- What a call served and left weighs at most this much.
  abbrev Covers : Option (Block × PooledGenerator) → ℕ → Type 0
  Covers none total = Unit
  Covers (some (id, g)) total = weight id + left_in weight g.pool ≤ total

  more-Covers : (o : Option (Block × PooledGenerator)) (m n : ℕ) → m ≤ n → Covers o m → Covers o n
  more-Covers none m n h c = tt
  more-Covers (some (id, g)) m n h c = omega arith

  serve-Covers :
      (b : BatchBuffer) (bs : List BatchBuffer) (call : ℕ)
      → Covers (serve b bs call) (in_buffer weight b + left_in weight bs)
  unfolding serve
  serve-Covers b bs call = elim (Bool-cases (ltb b.idx batch_size)) [
    | inl e ↦
        subst (λ o. Covers o (in_buffer weight b + left_in weight bs))
          (sym
            (if_true _ (some (b.uuids b.idx, put (record b { idx = b.idx + 1 }) bs call)) none e))
          (omega (
            arith,
            ltb→lt b.idx batch_size e,
            sum_from_step (batch_size - b.idx) (batch_size - (b.idx + 1)) b.idx b.uuids
                (omega (arith, ltb→lt b.idx batch_size e)),
          ))
    | inr e ↦
        subst (λ o. Covers o (in_buffer weight b + left_in weight bs)) (sym (if_false _ _ none e))
          tt
  ]

  serve_refilled-Covers :
      (src : Source) (b : BatchBuffer) (bs : List BatchBuffer) (call : ℕ) (r : (ℕ → Block) × Bool)
      → leb batch_size b.idx ≡ true
      → Covers
          (serve_refilled src bs call (after_read b r))
          (read_at weight src call r + left_in weight bs)
  serve_refilled-Covers src b bs call (raw, true) h =
      serve-Covers (record { uuids = stamp_each batch_size 0 raw; idx = 0 }) bs call
  serve_refilled-Covers src b bs call (raw, false) h =
      omega (arith, sum_from_none (batch_size - b.idx) b.idx raw (ground arith))

  serve_next-Covers :
      (src : Source) (call : ℕ) (b : BatchBuffer) (bs : List BatchBuffer)
      → Covers (serve_next src call (b, bs)) (
          (if leb batch_size b.idx then read_at weight src call (src.read_full call) else 0)
          + (in_buffer weight b + left_in weight bs))
  unfolding refill
  serve_next-Covers src call b bs = elim (Bool-cases (leb batch_size b.idx)) [
    | inl e ↦ rw e (
        subst (Covers (serve_refilled src bs call (refill src call b)))
          (omega (arith, sum_from_none (batch_size - b.idx) b.idx b.uuids (ground arith)))
          (serve_refilled-Covers src b bs call (src.read_full call) e))
    | inr e ↦ rw e (subst (Covers (serve b bs call)) (omega arith) (serve-Covers b bs call))
  ]

  new_id-Covers :
      (src : Source) (g : PooledGenerator)
      → Covers (new_id src g) (brought weight src g + left_in weight g.pool)
  unfolding new_id
  new_id-Covers src g =
      let found = get (src.keeps g.calls) (src.choose g.calls) g.pool in
      more-Covers (new_id src g) _ _
        (omega (arith, get-left (src.keeps g.calls) (src.choose g.calls) g.pool))
        (serve_next-Covers src g.calls found.0 found.1)

  -- The same of a run.
  abbrev RunCovers : Option (List Block × PooledGenerator) → ℕ → Type 0
  RunCovers none total = Unit
  RunCovers (some (ids, g)) total = weigh weight ids + left_in weight g.pool ≤ total

  prepend-Covers :
      (id : Block) (here rest total : ℕ) (more : Option (List Block × PooledGenerator))
      → RunCovers more (rest + here)
      → weight id + here ≤ total
      → RunCovers (prepend id more) (rest + total)
  prepend-Covers id here rest total none h b = tt
  prepend-Covers id here rest total (some (ids, g)) h b = omega (arith, h, b)

  then_run-Covers :
      (src : Source) (n total : ℕ) (o : Option (Block × PooledGenerator))
      → ((g : PooledGenerator)
          → RunCovers (run src n g) (brought_by_run weight src n g + left_in weight g.pool))
      → Covers o total
      → RunCovers (then_run (run src n) o) (brought_then (brought_by_run weight src n) o + total)
  then_run-Covers src n total none ih b = tt
  then_run-Covers src n total (some (id, g)) ih b =
      prepend-Covers id (left_in weight g.pool) (brought_by_run weight src n g) total (run src n g)
        (ih g) b

  run-Covers :
      (src : Source) (n : ℕ) (g : PooledGenerator)
      → RunCovers (run src n g) (brought_by_run weight src n g + left_in weight g.pool)
  unfolding run brought_by_run
  run-Covers src zero g = omega arith
  run-Covers src (suc n) g = subst (RunCovers (then_run (run src n) (new_id src g))) (omega arith) (
      then_run-Covers src n (brought weight src g + left_in weight g.pool) (new_id src g)
        (run-Covers src n) (new_id-Covers src g))

  -- Whatever buffers the pool hands out and drops, what a run of calls returned and what is left in
  -- the pool weigh at most as much as what the run read and what was in the pool before: the stamped
  -- batch of each read that succeeded and the fallback of each that failed. With a weight that counts
  -- one block, no block is served more often than it was read.
  pub run-weighs :
      (src : Source) (n : ℕ) (g : PooledGenerator) {ids : List Block} {last : PooledGenerator}
      → run src n g ≡ some (ids, last)
      → weigh weight ids + left_in weight last.pool
        ≤ brought_by_run weight src n g + left_in weight g.pool
  run-weighs src n g h =
      subst (λ o. RunCovers o (brought_by_run weight src n g + left_in weight g.pool)) h
        (run-Covers src n g)
