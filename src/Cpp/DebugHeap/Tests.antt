-- ===== src/Cpp/DebugHeap/Tests.antt =====
-- Runs of the C++ debug heap over an inner allocator that has memory without an end and checks nothing.
use heapforge.Prelude.{
  ℕ, ◌+◌, ◌≡◌, ◌↔◌, refl, arith, true, false, ◌==◌, if◌then◌else◌, none, some, [],
}
use heapforge.Prelude.Bytes.{Bytes, fill, store, load}
use heapforge.Allocator.{returns, Interface, fresh_stats}
use heapforge.Cpp.Dict.{lookup, erase}
use heapforge.Cpp.DebugHeap.{
  poison, World, AllocMeta, allocate, deallocate, release, released, after_inner, guard_block,
  count_double, verify, report, report_loop, write_canary, write_canary_loop, check_canary,
  check_canary_loop,
}
use heapforge.Cpp.DebugHeap.Again.{now, allocated, deallocate-again}
use heapforge.Cpp.DebugHeap.Guard.{InGuard, Freed, verify-allocate, deallocate-Freed}

-- The state is the next address. A block that is given back gets a link of 8 bytes.
abbrev bump : Interface
bump = record {
  State = ℕ;
  allocate = λ s mem size alignment. (some s, (s + size, mem));
  deallocate = λ s mem p. returns (s, fill mem (elim p [ none ↦ 0 | some raw ↦ raw ]) 8 0);
  get_stats = λ s. fresh_stats 0;
  walk = λ s. [];
}

abbrev start : World ℕ
start = record {
  live = [];
  freed = [];
  counted = record {
    live_allocations = 0;
    leaked_bytes = 0;
    canary_violations = 0;
    double_frees = 0;
    invalid_frees = 0;
  };
  mem = λ _. 0;
  inner = 4096;
}

-- One block of 8 bytes at 4112.
abbrev one_block : World ℕ
one_block = (allocate bump start 8 16).1

abbrev meta : AllocMeta
meta = record { user_size = 8 }

one_block_has : lookup one_block.live 4112 ≡ some meta
unfolding lookup allocate after_inner guard_block
one_block_has = refl

abbrev freed_block : World ℕ
freed_block =
    released bump one_block 4112 meta (4136, fill (fill one_block.mem 4096 40 poison) 4096 8 0)

freed_block_is : deallocate bump one_block 4112 ≡ returns freed_block
unfolding deallocate release lookup allocate after_inner guard_block
freed_block_is = refl

next_apart : ¬ ((allocate bump freed_block 8 16).0 ≡ some 4112)
unfolding allocate after_inner guard_block
next_apart e = ground (arith, e)

abbrev two_blocks : World ℕ
two_blocks = (allocate bump freed_block 8 16).1

deallocate-again_example : deallocate bump two_blocks 4112 ≡ returns (count_double two_blocks)
deallocate-again_example =
    deallocate-again bump 4112 meta one_block freed_block two_blocks (λ z. omega (arith, z))
      one_block_has freed_block_is (allocated freed_block 8 16 now next_apart)

-- The process writes one byte too far.
abbrev too_far : Bytes
too_far p = if p == 4120 then 65 else one_block.mem p

verify-allocate_run :
    (verify (record one_block { mem = λ _. 7 }) 4112 ≡ true)
    ↔ ((p : ℕ) → InGuard 4096 8 p → 7 ≡ one_block.mem p)
verify-allocate_run =
    verify-allocate bump start 8 16 4096 4136 start.mem (λ _. 7) (omega arith) refl
      (λ p. omega arith) (λ p. omega arith)

overrun_run : verify (record one_block { mem = too_far }) 4112 ≡ false
unfolding verify lookup allocate after_inner guard_block write_canary write_canary_loop check_canary
    check_canary_loop store load
overrun_run = refl

report_run : (report two_blocks).leaked_bytes ≡ 8
unfolding report report_loop erase allocate after_inner guard_block check_canary load write_canary
    store
report_run = refl

deallocate-Freed_example :
    (w' : World ℕ) × ((allocate bump start 8 16).0 ≡ some 4112)
    × (deallocate bump (record one_block { mem = λ _. 7 }) 4112 ≡ returns w')
    × Freed bump one_block.mem (record one_block { mem = λ _. 7 }) 4096 8 w'
deallocate-Freed_example =
    deallocate-Freed bump start 8 16 4096 4136 start.mem (record one_block { mem = λ _. 7 })
      (omega arith) (λ z. omega (arith, z)) refl (λ p. omega arith) (λ p. omega arith) one_block_has
      (λ mem same. ((one_block.inner, fill mem 4096 8 0), refl))
