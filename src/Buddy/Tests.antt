-- ===== src/Buddy/Tests.antt =====
-- Runs of the buddy allocator, and its theorems at small numbers.
use heapforge.Prelude.{ℕ, ◌^◌, ◌≤◌, ◌≡◌, refl, arith, some}
use Prim.Native.Nat.{compare, Ordering}
use heapforge.Allocator.{fresh_stats}
use heapforge.Platform.{next_pow2, log2_floor}
use heapforge.Buddy.{
  Buddy, fresh, slot_of, push, pop, unlink, is_free_at, order_for, find_order, serve, allocate,
  merge,
}
use heapforge.Buddy.Orders.{order_for_lem}
use heapforge.Buddy.Merge.{Contains, merge-Contains}

order_for_lem_run :
    let o = order_for 5 100 in (100 ≤ 2 ^ o) × (5 ≤ o) × ((j : ℕ) → 100 ≤ 2 ^ j → 5 ≤ j → o ≤ j)
order_for_lem_run = order_for_lem 5 6 100 (omega arith) (omega arith) (omega arith)

-- 128 bytes at 65536, in two free blocks of 32 and one of 64.
abbrev halves : Buddy
halves = record {
  words = λ _. 0;
  mem = 65536;
  capacity = 128;
  min_order = 5;
  max_order = 7;
  free_lists = λ _. 0;
  order_map = λ i. elim (compare i 2) [ Ordering.eq ↦ 0x46 | _ ↦ 0x45 ];
  stats = fresh_stats 128;
}

merge-Contains_example : let (off, order, _) = merge halves 7 32 5 in Contains 32 5 7 off order
merge-Contains_example = merge-Contains halves 7 32 5 (omega arith) (omega arith) refl

merge_run : (merge halves 7 32 5).0 ≡ 0
unfolding merge is_free_at slot_of unlink
merge_run = refl

abbrev small : Buddy
small = push (fresh 65536 128 32) 65536 7

-- The size of the request and its header wraps around, and the smallest block is handed out.
huge_run : (allocate small 18446744073709551615 16).0 ≡ some 65552
unfolding allocate order_for find_order serve pop push next_pow2 log2_floor slot_of
huge_run = refl
