-- ===== src/Analyzer/Tests.antt =====
-- Snapshots of a pool of three blocks, and the theorems there.
use heapforge.Prelude.{◌+◌, ◌*◌, ◌≤◌, ◌≡◌, refl, arith, true, false, List, [], ◌∷◌}
use heapforge.Allocator.{BlockInfo, fresh_stats}
use heapforge.Analyzer.{vec_push, collect, tally, tally_all, take_snapshot}
use heapforge.Analyzer.Collect.{IsBounded, collect-IsBounded}
use heapforge.Analyzer.Conserve.{take_snapshot-conserves}
use heapforge.BlockPool.{BlockPool, fresh, walk}
use heapforge.BlockPool.Create.{fresh-IsValid}

abbrev used_then_free : List BlockInfo
used_then_free =
    record { offset = 0; size = 64; is_free = false }
    ∷ record { offset = 64; size = 128; is_free = true }
    ∷ []

free_bytes_run : (take_snapshot (λ _. true) (fresh_stats 4096) used_then_free).free_bytes ≡ 128
unfolding take_snapshot tally_all tally collect vec_push
free_bytes_run = refl

-- A refused `realloc` drops the entries without a word.
refused_run : (take_snapshot (λ _. false) (fresh_stats 4096) used_then_free).free_bytes ≡ 0
unfolding take_snapshot tally_all tally collect vec_push
refused_run = refl

collect-IsBounded_run :
    IsBounded (collect (λ _. true) 0 (record { v = []; cap = 0 }) used_then_free)
collect-IsBounded_run =
    collect-IsBounded (λ _. true) 0 (record { v = []; cap = 0 }) used_then_free
      (record { inside = omega arith; close = omega arith }) (omega arith)

abbrev pool : BlockPool
pool = fresh 4096 4096 64 3

take_snapshot-conserves_example :
    let s = take_snapshot (λ _. true) pool.stats (walk pool) in
    (s.used + s.free_bytes ≡ pool.block_count * pool.block_size)
    × (s.blocks ≡ walk pool)
    × (s.largest_free ≤ s.free_bytes)
take_snapshot-conserves_example =
    take_snapshot-conserves (λ _. true) pool (λ _. refl)
      (fresh-IsValid 4096 4096 64 3 (omega arith) (omega arith) (omega arith) (omega arith))
