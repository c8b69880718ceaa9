-- ===== src/Cpp/GuardHeap/Calls/Tests.antt =====
-- Runs of the C++ guard heap in a new process.
use heapforge.Prelude.{ℕ, ◌^◌, ◌≡◌, inl, refl, sym, arith, true, false, ◌==◌, ltb, none, some, []}
use heapforge.Prelude.Count.{count_below-none}
use heapforge.Allocator.{fresh_stats}
use heapforge.Platform.{align_up, is_pow2}
use heapforge.Cpp.GuardHeap.{
  World, Region, Phase, ViolationPolicy, ends, deadlock, faults, max_regions,
}
use heapforge.Cpp.GuardHeap.Calls.{slack_fits, with_mapping, allocate, deallocate, enter}
use heapforge.Cpp.GuardHeap.Calls.Registry.{IsValid, is_held, is_live, last_false, live_count}
use heapforge.Cpp.GuardHeap.Calls.Serve.{
  Granted, enter-Granted, allocate-Granted, allocate-deadlock,
}
use heapforge.Cpp.GuardHeap.Calls.Request.{IsRequest}
use heapforge.Cpp.GuardHeap.Calls.Retire.{Retired, deallocate-Retired}

abbrev no_region : Region
no_region = record {
  phase = Phase.vacant;
  base = 0;
  total = 0;
  user = 0;
  user_size = 0;
  policy = ViolationPolicy.abort;
  underflow_mode = false;
}

abbrev new : World
new = record {
  process = record {
    regions = λ _. no_region;
    owner_of = λ _. 0;
    violations = 0;
    mem = λ _. 0;
    access = λ _. none;
  };
  heap = record {
    this = 64;
    policy = ViolationPolicy.abort;
    underflow = false;
    quarantine_cap = 64;
    quarantine = [];
    stats = fresh_stats 0;
  };
}

nothing_held : (i : ℕ) → is_held 64 new.process i ≡ false
nothing_held i = last_false (ltb i max_regions) (0 == 64)

new-IsValid : IsValid new
new-IsValid = record {
  kept = record {
    paired = λ i. refl;
    listed = λ i. rw (nothing_held i) refl;
    number = sym (count_below-none max_regions (is_held 64 new.process) nothing_held);
  };
  bounded = omega arith;
  named = λ z. omega (arith, z);
}

none_live : live_count new ≡ 0
none_live = count_below-none max_regions (is_live 64 new.process) (λ i. refl)

small-IsRequest : IsRequest 12 4 100
small-IsRequest = record {
  page_bits = omega arith;
  page = omega arith;
  alignment_bits = omega arith;
  alignment = omega arith;
  room = omega arith;
}

allocate-Granted_example :
    (ptr : ℕ) × (w' : World) × (allocate (2 ^ 12) (λ _. some 65536) new 100 (2 ^ 4)
      ≡ ends (some ptr, w'))
    × Granted new w'
allocate-Granted_example =
    allocate-Granted (λ _. some 65536) new 12 4 100 new-IsValid (λ i. inl refl)
      (omega (arith, none_live)) small-IsRequest (λ n h. (65536, refl, omega (arith, h)))

-- A block of 100 bytes in the first place.
abbrev region : Region
region = record {
  phase = Phase.active;
  base = 65536;
  total = 12288;
  user = 73616;
  user_size = 100;
  policy = ViolationPolicy.abort;
  underflow_mode = false;
}

abbrev one : World
one = enter new 0 4096 region

one-Granted : Granted new one
one-Granted =
    enter-Granted new new.process 0 4096 region new-IsValid refl refl (omega arith) refl refl

one_live : (is_live one.heap.this one.process 0 ≡ true) × ((one.process.regions 0).user ≡ 73616)
unfolding enter
one_live = (refl, refl)

deallocate-Retired_example : Retired one (deallocate 4096 one 73616).1
deallocate-Retired_example =
    deallocate-Retired 4096 one 73616 0 one-Granted.valid (λ z. omega (arith, z)) (omega arith)
      one_live.0 one_live.1

-- All places belong to another heap.
abbrev full : World
full =
    let p = new.process in
    record new { process = record p { regions = λ _. region; owner_of = λ _. 128 } }

allocate-deadlock_example : allocate (2 ^ 12) (λ _. some 65536) full 100 (2 ^ 4) ≡ deadlock
allocate-deadlock_example =
    allocate-deadlock (λ _. some 65536) full 12 4 100 (λ i lt z. omega (arith, z)) small-IsRequest
      (λ n h. (65536, refl, omega (arith, h)))

-- The size wraps around when it is rounded up, and the slack is in the guard page.
faults_run : allocate 4096 (λ _. some 65536) new 18446744073709551615 16 ≡ faults
unfolding allocate with_mapping slack_fits align_up is_pow2
faults_run = refl
