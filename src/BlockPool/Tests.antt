-- ===== src/BlockPool/Tests.antt =====
-- Runs of a small pool, and the theorems at it.
use heapforge.Prelude.{
  ℕ, ◌+◌, ◌*◌, ◌^◌, ◌≤◌, ◌<◌, ◌≡◌, ◌↔◌, ◌⊎◌, refl, arith, true, false, Option, none, some, [], ◌∷◌,
  if◌then◌else◌, ltb,
}
use mathlib.Core.Bool.{xor}
use heapforge.Platform.{align_up}
use heapforge.Prelude.Bits.{test_bit}
use heapforge.Allocator.{returns, aborts}
use heapforge.BlockPool.{
  BlockPool, fresh, create, allocate, deallocate, walk, narrow, lowest_zero, find_free, try_word,
  finish, claim, address, test, walk_loop,
}
use heapforge.BlockPool.LowestZero.{lowest_zero_lem}
use heapforge.BlockPool.Valid.{IsValid, is_used}
use heapforge.BlockPool.Alloc.{Allocated, AllUsed, allocate-Allocated, allocate-none}
use heapforge.BlockPool.Free.{Freed, deallocate-Freed, deallocate-returns, allocate-deallocate}
use heapforge.BlockPool.Walk.{Runs, walk-Runs}
use heapforge.BlockPool.Create.{IsNew, fresh-IsValid, create-IsNew}

-- Three blocks of 64 bytes in a page at address 4096.
abbrev pool : BlockPool
pool = record {
  mem = 4096;
  capacity = 4096;
  block_size = 64;
  block_count = 3;
  hint = 0;
  bitmap = 0 ∷ [];
  words = 1;
  stats = record {
    capacity = 4096;
    used = 0;
    peak_used = 0;
    alloc_calls = 0;
    free_calls = 0;
    failed_allocs = 0;
  };
}

abbrev one_used : BlockPool
one_used = record pool {
  bitmap = 1 ∷ [];
  stats = record {
    capacity = 4096;
    used = 64;
    peak_used = 64;
    alloc_calls = 1;
    free_calls = 0;
    failed_allocs = 0;
  };
}

pool-IsValid : IsValid pool
unfolding fresh
pool-IsValid = fresh-IsValid 4096 4096 64 3 (omega arith) (omega arith) (omega arith) (omega arith)

lowest_zero_run : lowest_zero 0x7ff ≡ 11
unfolding lowest_zero narrow
lowest_zero_run = refl

allocate_run : allocate pool 60 16 ≡ (some 4096, one_used)
unfolding allocate finish find_free try_word lowest_zero narrow claim address
allocate_run = refl

free_twice : deallocate pool (some 4096) ≡ aborts
unfolding deallocate
free_twice = refl

lowest_zero_at_11 :
    (lowest_zero 0x7ff < 64)
    × (test_bit 0x7ff (lowest_zero 0x7ff) ≡ false)
    × ((j : ℕ) → j < lowest_zero 0x7ff → test_bit 0x7ff j ≡ true)
lowest_zero_at_11 = lowest_zero_lem 0x7ff (omega arith)

allocate-Allocated_example : Allocated pool one_used 4096 × (60 ≤ 64)
allocate-Allocated_example = allocate-Allocated pool 60 16 pool-IsValid allocate_run

allocate-none_example : ((allocate pool 65 16).0 ≡ none) ↔ ((64 < 65) ⊎ AllUsed pool)
allocate-none_example = allocate-none pool 65 16 pool-IsValid

one_used-IsValid : IsValid one_used
one_used-IsValid = (allocate-Allocated pool 60 16 pool-IsValid allocate_run).0.valid

deallocate-Freed_run :
    (b : BlockPool) × (deallocate one_used (some 4096) ≡ returns b) × Freed one_used b 0
unfolding test_bit
deallocate-Freed_run = deallocate-Freed one_used one_used-IsValid 0 (omega arith) refl

abbrev freed_again : BlockPool
freed_again = record pool {
  stats = record {
    capacity = 4096;
    used = 0;
    peak_used = 64;
    alloc_calls = 1;
    free_calls = 1;
    failed_allocs = 0;
  };
}

deallocate_run : deallocate one_used (some 4096) ≡ returns freed_again
unfolding deallocate
deallocate_run = refl

deallocate-returns_example :
    (idx : ℕ) × (idx < 3) × (4096 ≡ 4096 + idx * 64) × (is_used one_used idx ≡ true)
deallocate-returns_example =
    deallocate-returns one_used 4096 freed_again one_used-IsValid (omega arith) deallocate_run

allocate-deallocate_example :
    (c : BlockPool) × (deallocate one_used (some 4096) ≡ returns c)
    × ((j : ℕ) → is_used c j ≡ is_used pool j)
    × (c.stats.used ≡ 0)
    × IsValid c
allocate-deallocate_example = allocate-deallocate pool 60 16 pool-IsValid allocate_run

walk_run :
    walk one_used
    ≡ record { offset = 0; size = 64; is_free = false }
      ∷ record { offset = 64; size = 128; is_free = true }
      ∷ []
unfolding walk walk_loop test xor
walk_run = refl

walk-Runs_example : Runs one_used 0 (walk one_used)
walk-Runs_example = walk-Runs one_used one_used-IsValid

-- A system that reserves up to a megabyte, always at the same address.
abbrev reserve : ℕ → Option ℕ
reserve n = if ltb n (2 ^ 20) then some 4096 else none

reserve_below : (n m : ℕ) → reserve n ≡ some m → m + n < 2 ^ 64
reserve_below n m h = ground arith

create_run : create (2 ^ 12) reserve true true 60 3 ≡ some pool
unfolding create fresh align_up
create_run = refl

create-IsNew_example : IsNew 60 3 pool
create-IsNew_example =
    create-IsNew 12 reserve true true 60 3 (omega arith) (omega arith) (omega arith) (omega arith)
      reserve_below create_run
