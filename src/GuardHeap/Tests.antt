-- ===== src/GuardHeap/Tests.antt =====
-- Runs of the guard heap.
use heapforge.Prelude.{◌+◌, ◌%◌, ◌≤◌, ◌<◌, ◌≡◌, refl, arith, some}
use heapforge.Platform.{align_up}
use heapforge.GuardHeap.{GuardHeap, Phase, place_user, allocate, enter, reserve_slot, reserve_loop}
use heapforge.GuardHeap.Place.{place_user_lem}

place_user_lem_example :
    let user = place_user 4096 65536 4096 100 16 in
    (69632 ≤ user) × (user + 100 ≤ 73728) × (73728 < user + 100 + 16) × (user % 16 ≡ 0)
place_user_lem_example =
    place_user_lem 4096 65536 4096 100 4 (omega arith) (omega arith) (omega arith) refl

abbrev new : GuardHeap
new = record {
  regions = λ _. record { base = 0; total = 0; user = 0; user_size = 0; phase = Phase.vacant };
  violations = 0;
  used_bytes = 0;
  peak_bytes = 0;
  capacity_hint = 0;
}

allocate_run : (allocate 4096 (λ _. some 65536) new 100 16).0 ≡ some 73616
unfolding allocate enter reserve_slot reserve_loop place_user align_up
allocate_run = refl
