-- ===== src/Cpp/GuardHeap/Fault/Tests.antt =====
-- A fault behind a block of the C++ guard heap.
use heapforge.Prelude.{ℕ, ◌^◌, ◌≡◌, refl, arith, true, false, ◌==◌, if◌then◌else◌, none, ne→==}
use native.Mathlib.Decide.{ℕ_discrete}
use heapforge.Cpp.GuardHeap.{Phase, Region, Process, ViolationPolicy, is_vacant, set_region}
use heapforge.Cpp.GuardHeap.Fault.{Kind, resumes, on_fault}
use heapforge.Cpp.GuardHeap.Fault.Hit.{IsMapped, Resumed, on_fault-Resumed}

abbrev region_in : Phase → Region
region_in phase = record {
  phase = phase;
  base = 65536;
  total = 12288;
  user = 73616;
  user_size = 100;
  policy = ViolationPolicy.continue;
  underflow_mode = false;
}

abbrev process : Process
process = record {
  regions = set_region (λ _. region_in Phase.vacant) 3 (region_in Phase.active);
  owner_of = λ i. if i == 3 then 64 else 0;
  violations = 0;
  mem = λ _. 0;
  access = λ _. none;
}

only_three : (i : ℕ) → is_vacant (process.regions i).phase ≡ false → i ≡ 3
only_three i used = elim (ℕ_discrete i 3) [
  | yes e ↦ e
  | no ne ↦ absurd (
      let v : is_vacant (process.regions i).phase ≡ true = rw (ne→== i 3 ne) refl in
      ground (arith, v, used))
]

process-IsMapped : IsMapped process
process-IsMapped = record {
  fits = λ i used. rw (only_three i used) (omega arith);
  apart = λ i j ne used used'. absurd (omega (arith, ne, only_three i used, only_three j used'));
}

on_fault-Resumed_example :
    (kind : Kind) × (p' : Process) × (on_fault (2 ^ 12) process 73728 ≡ resumes kind p')
    × Resumed (2 ^ 12) process (region_in Phase.active) 73728 kind p'
on_fault-Resumed_example =
    on_fault-Resumed 12 process 73728 3 (omega arith) process-IsMapped (omega arith) refl
      (omega arith) (omega arith) (omega arith) refl
