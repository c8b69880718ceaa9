-- ===== src/Cpp/GuardHeap/Fault.antt =====
-- The fault handler of include/heapforge/guard_heap.h.
pub mod Hit
mod Tests
use heapforge.Prelude.{
  ℕ, zero, suc, ◌+◌, ◌-◌, ◌^◌, bit_and, Bool, true, false, not, ◌&&◌, ◌||◌, ◌==◌, ltb, leb,
  if◌then◌else◌, Option, none, some, List, [], ◌∷◌, ◌++◌, length, add_word, sub_word, not_word,
}
use heapforge.Prelude.Bytes.{Bytes, fill}
use heapforge.Allocator.{Stats, BlockInfo, count_alloc, count_free, count_failed, set_used}
use heapforge.Platform.{align_up, is_pow2}
use heapforge.Cpp.GuardHeap.{
  Protection, no_access, read_only, read_write, ViolationPolicy, abort, continue, Phase, Region,
  Process, Heap, World, max_regions, slack_fill, poison, Locking, ends, deadlock, is_vacant,
  is_active, is_quarantined, set_region, set_owner, protect,
}

-- What `on_fault` prints
pub data Kind : Type 0 where
  use_after_free : Kind
  underrun : Kind
  overrun : Kind
  inside : Kind

-- What becomes of a fault
pub data Fault : Type 0 where
  resumes : Kind → Process → Fault
  dies : Kind → Process → Fault
  passed_on : Fault

abbrev pub kind_of : (page : ℕ) → Region → (addr : ℕ) → Kind
kind_of page r addr =
    if is_quarantined r.phase
    then use_after_free
    else (if ltb addr (add_word r.base page)
        then underrun
        else (if leb (sub_word (add_word r.base r.total) page) addr then overrun else inside))

-- What `on_fault` does for the region that is hit.
pub hit : (page : ℕ) → Process → Region → (addr : ℕ) → Fault
hit page p r addr =
    let counted = record p { violations = add_word p.violations 1 } in
    let faulting = bit_and addr (not_word (sub_word page 1)) in
    let opened = record counted { access = protect p.access faulting page (some read_write) } in
    elim r.policy [
      | abort ↦ dies (kind_of page r addr) counted
      | continue ↦ resumes (kind_of page r addr) opened
    ]

-- The loop of `on_fault` from index `i`.
pub fault_loop : (page : ℕ) → Process → (addr rounds i : ℕ) → Fault
fault_loop page p addr zero i = passed_on
fault_loop page p addr (suc rounds) i =
    let r = p.regions i in
    let rest = fault_loop page p addr rounds (i + 1) in
    let outside = ltb addr r.base || leb (add_word r.base r.total) addr in
    if is_vacant r.phase then rest else (if outside then rest else hit page p r addr)

-- `on_fault`
pub on_fault : (page : ℕ) → Process → (addr : ℕ) → Fault
unfolding fault_loop
on_fault page p addr = fault_loop page p addr max_regions 0
