-- ===== src/Tests/Ids.antt =====
-- A generator with one batch of equal bytes.
use hsa.Prelude.{
  ℕ, ◌+◌, ◌≤◌, some, true, List, [], ◌∷◌, All, length, ◌==◌, if◌then◌else◌, ◌≡◌, refl, arith,
}
use hsa.Idgen.{
  Block, batch_size, Source, PooledGenerator, stamp_each, new_pooled_generator, refill, take_out,
  survivors, get, serve, new_id, run,
}
use hsa.Idgen.Laws.{IsVersion4, IsBytes, run-IsVersion4}
use hsa.Idgen.Once.{weigh, left_in, brought_by_run, run-weighs}

abbrev raw : ℕ → Block
raw i j = 255

abbrev fallback_id : Block
fallback_id j = if j == 6 then 64 else if j == 8 then 128 else 7

abbrev source : Source
source = record {
  read_full = λ n. (raw, true);
  fresh = λ n. fallback_id;
  keeps = λ n place. true;
  choose = λ n. some 0;
}

raw-IsBytes : (n i : ℕ) → IsBytes ((source.read_full n).0 i)
raw-IsBytes n i = (omega arith, omega arith)

fallback-IsVersion4 : (n : ℕ) → IsVersion4 (source.fresh n)
fallback-IsVersion4 n = (refl, refl)

run-IsVersion4_example :
    (ids : List Block) × (last : PooledGenerator) × (run source 2 new_pooled_generator
      ≡ some (ids, last))
    × (length ids ≡ 2)
    × All IsVersion4 ids
run-IsVersion4_example = run-IsVersion4 source raw-IsBytes fallback-IsVersion4 2

abbrev stamped : ℕ → Block
stamped = stamp_each batch_size 0 raw

abbrev last : PooledGenerator
last = record { pool = record { uuids = stamped; idx = 2 } ∷ []; calls = 2 }

two_ids : run source 2 new_pooled_generator ≡ some (stamped 0 ∷ stamped 1 ∷ [], last)
unfolding run new_id new_pooled_generator get survivors take_out refill serve
two_ids = refl

run-weighs_example :
    weigh (λ u. 1) (stamped 0 ∷ stamped 1 ∷ []) + left_in (λ u. 1) last.pool
    ≤ brought_by_run (λ u. 1) source 2 new_pooled_generator
      + left_in (λ u. 1) new_pooled_generator.pool
run-weighs_example = run-weighs (λ u. 1) source 2 new_pooled_generator two_ids
