-- ===== src/PersistentPool/Api/Tests.antt =====
-- Runs of a pool of ten blocks, and the theorems at it.
use heapforge.Prelude.{
  ◌+◌, ◌^◌, ◌<◌, ◌⊎◌, suc, add_word, false, Bool, List, ℕ, ◌≡◌, ◌↔◌, refl, arith, true, none, some,
  [], ◌∷◌,
}
use heapforge.Platform.{align_up}
use heapforge.PersistentPool.{
  wal_entries, first, Pool, Image, op_alloc, op_free, bits_of, bit_test, entry_of, commit,
  wal_append,
}
use mathlib.Core.Path.{subst}
use heapforge.Prelude.Count.{count_below}
use heapforge.PersistentPool.Effect.{IsSound, marked}
use heapforge.PersistentPool.Settled.{
  keep-IsWatermark, IsSettled, Committed, entry_of-ok, commit-Committed,
}
use heapforge.PersistentPool.Recovery.{Replayed, replay, recover}
use heapforge.PersistentPool.Recovery.Bound.{replay-ends}
use heapforge.PersistentPool.Recovery.Replay.{run_effect, run_rounds}
use heapforge.PersistentPool.Recovery.Again.{with_bitmap, recover-again}
use heapforge.PersistentPool.Recovery.Outcome.{IsRecoverable, Recovered, recover-Recovered}
use heapforge.PersistentPool.Recovery.Crash.{IsPlausible, in_bitmap, crash_image, Survives}
use heapforge.PersistentPool.Recovery.Crash.Redo.{recount, logged-IsRecoverable}
use heapforge.PersistentPool.Recovery.Crash.Survival.{crash-Survives}
use heapforge.PersistentPool.Api.{
  first_free, allocate, free, at, attach, new_header, new_image, opened, out_of_map, fits_map,
  open_new, open_existing, debug_crash, debug_wal_only,
}
use heapforge.PersistentPool.Api.Use.{
  AllUsed, Taken, is_used, allocate-Taken, allocate-AllUsed, free-Committed, allocate-at-free,
}
use heapforge.PersistentPool.Api.Backlog.{log_all, ops_of, AllBelow, CaughtUp, log_all-CaughtUp}
use heapforge.PersistentPool.Api.Open.{IsNew, attach-IsSettled, open_new-IsNew, reopen-IsSettled}

abbrev pool : Pool
pool = attach 65536 (new_image (new_header 4096 64 10))

open_run : open_new true (some 65536) 4096 60 10 ≡ opened pool
unfolding fits_map open_new new_image new_header align_up
open_run = refl

open_new-IsNew_example :
    (p : Pool) × (open_new true (some 65536) (2 ^ 12) 60 10 ≡ opened p) × IsNew 60 10 p
open_new-IsNew_example =
    open_new-IsNew 65536 12 60 10 (omega arith) (omega arith) (omega arith) (omega arith)
      (omega arith) (omega arith)

-- The size of a block is so large that the file is shorter than its log.
out_of_map_run : open_new true (some 65536) 4096 18446744073709547520 1 ≡ out_of_map
unfolding fits_map open_new new_header align_up
out_of_map_run = refl

pool-IsSettled : IsSettled pool
unfolding new_image new_header
pool-IsSettled = attach-IsSettled 65536 (new_header 4096 64 10) (omega arith)

commit-Committed_example : Committed pool op_alloc 3 (commit pool op_alloc 3)
unfolding new_image new_header
commit-Committed_example =
    commit-Committed pool op_alloc 3 pool-IsSettled (omega arith) (omega arith)

-- The pool after its first allocation.
abbrev one_used : Pool
one_used = commit pool op_alloc 0

allocate_run : allocate pool ≡ (some (0, 81920), one_used)
unfolding allocate first_free new_image new_header bit_test align_up
allocate_run = refl

allocate-Taken_run : Taken pool 0 81920 one_used
allocate-Taken_run = allocate-Taken pool pool-IsSettled (omega arith) allocate_run

one_used-IsSettled : IsSettled one_used
one_used-IsSettled = allocate-Taken_run.committed.settled

allocate-AllUsed_run :
    (((allocate one_used).0 ≡ none) ↔ AllUsed one_used)
    × ((allocate one_used ≡ (none, one_used)) ↔ AllUsed one_used)
allocate-AllUsed_run = allocate-AllUsed one_used

one_used-block_count : one_used.block_count ≡ 10
unfolding new_image new_header
one_used-block_count = allocate-Taken_run.committed.count

one_used-next_seq : one_used.next_seq ≡ 2
one_used-next_seq = allocate-Taken_run.committed.next

free-Committed_run : Committed one_used op_free 0 (free one_used 0)
free-Committed_run =
    free-Committed one_used 0 one_used-IsSettled (omega (arith, one_used-next_seq))
      (omega (arith, one_used-block_count)) (allocate-Taken_run.committed.marks 0)

allocate-at-free_example :
    (at one_used 0 ≡ some 81920)
    × (at (free one_used 0) 0 ≡ none)
    × ((j : ℕ) → is_used (free one_used 0) j ≡ is_used pool j)
allocate-at-free_example = allocate-at-free pool pool-IsSettled (omega arith) allocate_run

-- A crash while the second allocation writes its bitmap byte.
crash-Survives_example :
    Survives one_used op_alloc 1 true
      (recover (attach 4096 (crash_image one_used op_alloc 1 (in_bitmap true))))
unfolding IsPlausible
crash-Survives_example =
    crash-Survives one_used op_alloc 1 4096 (in_bitmap true) one_used-IsSettled
      (omega (arith, one_used-block_count)) (omega (arith, one_used-next_seq)) tt

-- A file in which the allocation of block 3 is logged and no more.
abbrev logged : Image
logged = debug_crash (debug_wal_only pool 3 true)

logged-ready : IsRecoverable (attach 4096 logged) 0 ((op_alloc, 3) ∷ [])
unfolding debug_wal_only wal_append new_image new_header
logged-ready =
    let v = pool-IsSettled in
    logged-IsRecoverable pool op_alloc 3 4096 v (omega arith) (omega arith) logged
      (entry_of 1 op_alloc 3)
      (keep-IsWatermark pool.image logged.wal pool.image.bitmap first 0 v.watermark) refl refl
      (recount 10 (bits_of pool) v.sound)
      (record { seq = refl; ok = entry_of-ok 1 op_alloc 3; op = refl; index = refl })

recover-Recovered_example :
    Recovered (attach 4096 logged) 0 ((op_alloc, 3) ∷ []) (recover (attach 4096 logged))
recover-Recovered_example =
    recover-Recovered (attach 4096 logged) 0 ((op_alloc, 3) ∷ []) logged-ready

reopen-IsSettled_example :
    (q : Pool) × (open_existing true (some 8192) (debug_crash pool) ≡ opened q)
    × IsSettled q
    × ((j : ℕ) → marked q.image.bitmap j ≡ marked pool.image.bitmap j)
    × (q.used_blocks ≡ pool.used_blocks)
    × (q.next_seq ≡ pool.next_seq)
unfolding fits_map new_image new_header align_up
reopen-IsSettled_example = reopen-IsSettled 8192 pool pool-IsSettled (omega arith) refl refl

-- Block 3 is logged as taken and freed, block 5 as taken.
log_all-CaughtUp_example :
    let cs : List (ℕ × Bool) = (3, true) ∷ (3, false) ∷ (5, true) ∷ [] in
    CaughtUp pool (ops_of cs) (recover (attach 4096 (debug_crash (log_all pool cs))))
unfolding AllBelow new_image new_header
log_all-CaughtUp_example =
    log_all-CaughtUp pool pool-IsSettled 4096 ((3, true) ∷ (3, false) ∷ (5, true) ∷ [])
      (omega arith) (omega arith, (omega arith, (omega arith, tt))) (omega arith)

-- A recovery of `logged` that stopped before its metadata slot was written.
abbrev three_used : Pool
three_used = commit pool op_alloc 3

three_used-IsSound :
    IsSound 10 (three_used.image.bitmap, count_below 10 (marked three_used.image.bitmap))
unfolding new_image new_header
three_used-IsSound =
    let c = commit-Committed_example in
    recount 10 (bits_of three_used)
      (subst (λ n. IsSound n (bits_of three_used)) c.count c.settled.sound)

recover-again_example :
    let p = attach 4096 logged in
    (q whole : Pool) × (recover (with_bitmap p three_used.image.bitmap) ≡ some q)
    × (recover p ≡ some whole)
    × ((j : ℕ) → marked q.image.bitmap j ≡ marked whole.image.bitmap j)
    × (q.next_seq ≡ whole.next_seq)
    × IsSettled q
unfolding run_effect debug_wal_only wal_append new_image new_header
recover-again_example =
    recover-again (attach 4096 logged) 0 ((op_alloc, 3) ∷ []) three_used.image.bitmap (λ _. 1)
      logged-ready three_used-IsSound commit-Committed_example.marks

-- The watermark is 2 ^ 64 - 257.
abbrev at_end : Replayed
at_end = record { pool = pool; max_seq = 18446744073709551359; replayed = false }

replay-ends_run :
    let w : ℕ = 18446744073709551359 in
    let bound = add_word w wal_entries in
    let s = add_word w 1 in
    ((w + wal_entries + 1 ≡ 2 ^ 64) × ((tests : ℕ) → replay at_end bound tests s ≡ none))
    ⊎ ((2 ^ 64 < w + wal_entries + 1)
        × (w + 1 < 2 ^ 64)
        × (replay at_end bound (suc wal_entries) s ≡ some at_end))
    ⊎ ((replay at_end bound (suc wal_entries) s ≡ some (run_rounds at_end wal_entries s)))
replay-ends_run = replay-ends at_end 18446744073709551359 (omega arith)
