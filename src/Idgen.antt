-- ===== src/Idgen.antt =====
-- pkg/idgen/generator.go: identifiers drawn from pooled batches of random bytes. An array is a
-- function of its index, with its length tested where it is read. The calls of one generator stand
-- one after the other: a buffer that a call has taken out of the pool is in no other call's reach.
pub mod Laws
pub mod Once
use Prim.Native.Nat.{bit_and, bit_or}
use hsa.Prelude.{
  ℕ, zero, suc, ◌+◌, Option, none, some, Bool, true, false, List, [], ◌∷◌, ◌==◌, ltb, leb,
  if◌then◌else◌,
}

-- `uuid.UUID`: sixteen bytes.
abbrev pub Block : Type 0
Block = ℕ → ℕ

abbrev pub batch_size : ℕ
batch_size = 256

pub record BatchBuffer : Type 0 where
  pub uuids : ℕ → Block
  pub idx : ℕ

-- What is not under the repository's control, by the number of the call that asks: what
-- `io.ReadFull(rand.Reader, raw)` leaves in the array and whether it returned no error,
-- `uuid.New()`, which of its buffers `sync.Pool` has kept since the last call, by their places, since
-- it may drop any at any time, and which of these it hands out, if any.
pub record Source : Type 0 where
  pub read_full : ℕ → (ℕ → Block) × Bool
  pub fresh : ℕ → Block
  pub keeps : ℕ → ℕ → Bool
  pub choose : ℕ → Option ℕ

-- The pool, and the number of calls so far.
pub record PooledGenerator : Type 0 where
  pub pool : List BatchBuffer
  pub calls : ℕ

unfoldable pub new_pooled_generator : PooledGenerator
new_pooled_generator = record { pool = []; calls = 0 }

-- The two assignments of the loop's body.
unfoldable pub stamp : Block → Block
stamp u j =
    if j == 6
    then bit_or (bit_and (u 6) 0x0f) 0x40
    else if j == 8
    then bit_or (bit_and (u 8) 0x3f) 0x80
    else u j

-- `for i := range batchSize`, with this many rounds left.
unfoldable pub stamp_each : (rounds : ℕ) → (i : ℕ) → (ℕ → Block) → ℕ → Block
stamp_each zero i uuids = uuids
stamp_each (suc n) i uuids = stamp_each n (i + 1) (λ k. if k == i then stamp (uuids k) else uuids k)

abbrev pub after_read : BatchBuffer → (ℕ → Block) × Bool → BatchBuffer × Bool
after_read b (raw, true) = (record { uuids = stamp_each batch_size 0 raw; idx = 0 }, true)
after_read b (raw, false) = (record b { uuids = raw }, false)

-- The buffer afterwards, and whether no error was returned.
unfoldable pub refill : Source → (call : ℕ) → BatchBuffer → BatchBuffer × Bool
refill src call b = after_read b (src.read_full call)

-- The pool's `New`.
abbrev pub new_buffer : BatchBuffer
new_buffer = record { uuids = λ i j. 0; idx = batch_size }

abbrev kept : BatchBuffer → BatchBuffer × List BatchBuffer → BatchBuffer × List BatchBuffer
kept b (found, rest) = (found, b ∷ rest)

-- The buffer at this place of the pool, and the others.
unfoldable pub take_out : ℕ → List BatchBuffer → BatchBuffer × List BatchBuffer
take_out n [] = (new_buffer, [])
take_out zero (b ∷ bs) = (b, bs)
take_out (suc n) (b ∷ bs) = kept b (take_out n bs)

-- The buffers that the pool has not dropped.
unfoldable pub survivors : (keep : ℕ → Bool) → List BatchBuffer → List BatchBuffer
survivors keep [] = []
survivors keep (b ∷ bs) =
    let rest = survivors (λ n. keep (suc n)) bs in if keep 0 then b ∷ rest else rest

-- `g.pool.Get()`
unfoldable pub get :
    (keep : ℕ → Bool) → Option ℕ → List BatchBuffer → BatchBuffer × List BatchBuffer
get keep none bs = (new_buffer, survivors keep bs)
get keep (some n) bs = take_out n (survivors keep bs)

abbrev pub put : BatchBuffer → List BatchBuffer → ℕ → PooledGenerator
put b bs call = record { pool = b ∷ bs; calls = suc call }

-- `buf.uuids[buf.idx]`, where `none` is the panic of an index out of range, and the counting up.
unfoldable pub serve :
    BatchBuffer → List BatchBuffer → (call : ℕ) → Option (Block × PooledGenerator)
serve b bs call =
    if ltb b.idx batch_size
    then some (b.uuids b.idx, put (record b { idx = b.idx + 1 }) bs call)
    else none

abbrev pub serve_refilled :
    Source → List BatchBuffer → (call : ℕ) → BatchBuffer × Bool → Option (Block × PooledGenerator)
serve_refilled src bs call (b, true) = serve b bs call
serve_refilled src bs call (b, false) = some (src.fresh call, put b bs call)

abbrev pub serve_next :
    Source → (call : ℕ) → BatchBuffer × List BatchBuffer → Option (Block × PooledGenerator)
serve_next src call (b, bs) =
    if leb batch_size b.idx then serve_refilled src bs call (refill src call b) else serve b bs call

-- `NewID`, where `none` is a panic.
unfoldable pub new_id : Source → PooledGenerator → Option (Block × PooledGenerator)
new_id src g = serve_next src g.calls (get (src.keeps g.calls) (src.choose g.calls) g.pool)

abbrev pub prepend :
    Block → Option (List Block × PooledGenerator) → Option (List Block × PooledGenerator)
prepend id none = none
prepend id (some (ids, g)) = some (id ∷ ids, g)

abbrev pub then_run :
    (PooledGenerator → Option (List Block × PooledGenerator))
    → Option (Block × PooledGenerator)
    → Option (List Block × PooledGenerator)
then_run more none = none
then_run more (some (id, g)) = prepend id (more g)

-- This many calls, one after the other.
unfoldable pub run : Source → ℕ → PooledGenerator → Option (List Block × PooledGenerator)
run src zero g = some ([], g)
run src (suc n) g = then_run (run src n) (new_id src g)
