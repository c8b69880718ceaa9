-- ===== src/DebugHeap/Tests.antt =====
-- Runs of the debug heap over a backend that has memory without an end and checks nothing.
use heapforge.Prelude.{ℕ, ◌+◌, ◌^◌, ◌%◌, ◌≡◌, refl, arith, ◌==◌, if◌then◌else◌, none, some, []}
use heapforge.Prelude.Bytes.{Bytes, fill}
use heapforge.Allocator.{returns, aborts, Interface, fresh_stats}
use heapforge.DebugHeap.{DebugHeap, Report, is_live, check, report}
use heapforge.DebugHeap.Calls.{World, allocate, deallocate, count_double, count_invalid, destroy}
use heapforge.DebugHeap.Calls.Alloc.{Guarded, allocate-Guarded}
use heapforge.DebugHeap.Calls.Free.{
  Released, deallocate-foreign, deallocate-Released, double_free_lem, deallocate-allocate,
}
use heapforge.DebugHeap.Calls.Forget.{allocate-forgets}
use heapforge.DebugHeap.Calls.Scan.{
  check_lem, report_lem, destroy_lem, is_smashed, live_bytes, live_blocks, give_back,
}
use heapforge.DebugHeap.HashTable.Sample.{
  freed_table, freed_entry, freed_table-IsValid, freed_table-lookup,
}
use heapforge.Prelude.Count.{count_below}
use heapforge.DebugHeap.HashTable.{Entry, no_entry, put, put_deep}
use heapforge.DebugHeap.HashTable.Insert.{IsValid, new_entry, lookup}
use heapforge.DebugHeap.HashTable.Rehash.{empty_table, empty_table-Moved, empty_table-IsValid}
use heapforge.DebugHeap.HashTable.Put.{Updated, put-Updated, put_deep-enough}

-- The state is the next address. A block that is given back gets a link of 8 bytes.
abbrev bump : Interface
bump = record {
  State = ℕ;
  allocate = λ s mem size alignment. (some s, (s + size, mem));
  deallocate = λ s mem p. returns (s, fill mem (elim p [ none ↦ 0 | some raw ↦ raw ]) 8 0);
  get_stats = λ s. fresh_stats 0;
  walk = λ s. [];
}

abbrev no_calls : Report
no_calls = record {
  active_allocs = 0;
  total_allocs = 0;
  total_frees = 0;
  canary_violations = 0;
  double_frees = 0;
  invalid_frees = 0;
  leaked_blocks = 0;
  leaked_bytes = 0;
}

abbrev start : World ℕ
start = record {
  mem = λ _. 0;
  heap = record { entries = empty_table 64; rep = no_calls };
  below = 4096;
}

start-IsValid : IsValid start.heap.entries
start-IsValid = empty_table-IsValid 6 (omega arith)

put-Updated_example : Updated (empty_table 64) 4108 4096 8 (put (empty_table 64) 4108 4096 8)
put-Updated_example =
    put-Updated (empty_table 64) 4108 4096 8 start-IsValid (omega arith) (λ z. omega (arith, z))

put_deep-enough_example : put_deep 3 (empty_table 64) 4108 4096 8 ≡ put (empty_table 64) 4108 4096 8
put_deep-enough_example = put_deep-enough (empty_table 64) start-IsValid (omega arith) 2 4108 4096 8

allocate-Guarded_example : Guarded bump start 4096 8 4120 start.mem (allocate bump start 8 16)
allocate-Guarded_example =
    allocate-Guarded bump start 8 16 4096 4120 start.mem start-IsValid (omega arith) (omega arith)
      refl

guarded : Guarded bump start 4096 8 4120 start.mem (allocate bump start 8 16)
guarded =
    allocate-Guarded bump start 8 16 4096 4120 start.mem start-IsValid (omega arith) (omega arith)
      refl

-- One block is live.
abbrev after : World ℕ
after = (allocate bump start 8 16).1

abbrev block : Entry
block = new_entry 4108 4096 8

after-IsValid : IsValid after.heap.entries
after-IsValid = guarded.tracked.valid

after-has : lookup after.heap.entries 4108 ≡ some block
after-has = guarded.tracked.own

deallocate-Released_example :
    (w' : World ℕ) × (deallocate bump after 4108 ≡ returns w') × Released bump after block w'
deallocate-Released_example =
    deallocate-Released bump after block after-IsValid after-has refl (λ z. omega (arith, z))
      (λ mem same. ((after.below, fill mem 4096 8 0), refl))

double_free_lem_example :
    (w' : World ℕ) × (deallocate bump after 4108 ≡ returns w')
    × (deallocate bump w' 4108 ≡ returns (count_double bump w'))
double_free_lem_example =
    double_free_lem bump after block after-IsValid after-has refl (λ z. omega (arith, z))
      (λ mem same. ((after.below, fill mem 4096 8 0), refl))

deallocate-allocate_example :
    let (user, w1) = allocate bump start 8 16 in
    (w2 : World ℕ) × (user ≡ some 4108)
    × (deallocate bump w1 4108 ≡ returns w2)
    × ((handed : Bytes) × (bump.deallocate 4120 handed (some 4096) ≡ returns (w2.below, w2.mem)))
    × (w2.heap.rep.canary_violations ≡ w1.heap.rep.canary_violations)
deallocate-allocate_example =
    deallocate-allocate bump start 8 16 4096 4120 start.mem start-IsValid (omega arith)
      (omega arith) (λ z. omega (arith, z)) refl (λ mem same. ((4120, fill mem 4096 8 0), refl))

deallocate-foreign_run : deallocate bump start 4108 ≡ returns (count_invalid bump start)
deallocate-foreign_run = deallocate-foreign bump start 4108 nothing (λ z. omega (arith, z))
  where
    nothing : lookup start.heap.entries 4108 ≡ none
    nothing =
        (empty_table-Moved start.heap.entries.table 6 (omega arith)).nothing_else 4108
          (λ j lt _ _. omega (arith, lt))

abbrev full : World ℕ
full = record {
  mem = λ _. 0;
  heap = record { entries = freed_table; rep = no_calls };
  below = 4096;
}

allocate-forgets_example : deallocate bump (allocate bump full 8 16).1 5000 ≡ aborts
allocate-forgets_example =
    allocate-forgets bump full freed_entry 8 16 4096 4120 full.mem freed_table-IsValid (omega arith)
      (omega arith) refl refl freed_table-lookup refl refl (λ z. omega (arith, z))

abbrev zeros : Bytes
zeros = λ _. 0

-- A live block without its guards.
abbrev smashed_heap : DebugHeap
smashed_heap = record {
  entries = record { table = λ i. if i == 0 then block else no_entry; cap = 1; count = 1 };
  rep = no_calls;
}

check_lem_run :
    let (bad, h') = check zeros smashed_heap in
    let smashed = count_below 1 (is_smashed zeros smashed_heap.entries.table) in
    (bad ≡ smashed % 2 ^ 64) × (h'.rep.canary_violations ≡ (0 + smashed) % 2 ^ 64)
check_lem_run = check_lem zeros smashed_heap (omega arith)

report_lem_run :
    let out = report smashed_heap in
    (out.leaked_blocks ≡ count_below 1 (λ j. is_live (smashed_heap.entries.table j)) % 2 ^ 64)
    × (out.leaked_bytes ≡ live_bytes smashed_heap.entries.table 1 % 2 ^ 64)
report_lem_run = report_lem smashed_heap

destroy_lem_run :
    destroy bump full ≡ give_back bump (live_blocks freed_table.table 1 0) (4096, full.mem)
destroy_lem_run = destroy_lem bump full
