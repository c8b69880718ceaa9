-- ===== src/Cpp/GuardHeap/Calls.antt =====
-- The calls of include/heapforge/guard_heap.h.
pub mod Registry
pub mod Retire
pub mod Request
pub mod Serve
mod Tests
use heapforge.Prelude.{
  ℕ, zero, suc, ◌+◌, ◌-◌, ◌^◌, bit_and, Bool, true, false, not, ◌&&◌, ◌||◌, ◌==◌, ltb, leb,
  if◌then◌else◌, Option, none, some, List, [], ◌∷◌, ◌++◌, length, add_word, sub_word, not_word,
}
use heapforge.Prelude.Bytes.{Bytes, fill}
use heapforge.Allocator.{Stats, BlockInfo, count_alloc, count_free, count_failed, set_used}
use heapforge.Platform.{align_up, is_pow2}
use heapforge.Cpp.GuardHeap.{
  Protection, no_access, read_only, read_write, ViolationPolicy, abort, continue, Phase, Region,
  Process, Heap, World, max_regions, slack_fill, poison, Locking, ends, deadlock, faults, is_vacant,
  is_active, is_quarantined, set_region, set_owner, protect,
}

-- `GuardHeap::bump_fail`, once it has the lock
abbrev pub bump_fail : Heap → Heap
bump_fail h = record h { stats = count_failed (count_alloc h.stats) }

-- The loop of `find_free_slot` from index `i`, with the rounds that are left.
pub find_free_loop : Process → (rounds i : ℕ) → Option ℕ
find_free_loop p zero i = none
find_free_loop p (suc rounds) i =
    let rest = find_free_loop p rounds (i + 1) in
    if is_vacant (p.regions i).phase && (p.owner_of i == 0) then some i else rest

-- `GuardHeap::find_free_slot`
pub find_free_slot : Process → Option ℕ
unfolding find_free_loop
find_free_slot p = find_free_loop p max_regions 0

-- The slack, which `GuardHeap::allocate` fills, lies in the data pages and not in a guard page.
pub slack_fits : (data_at data_end user size : ℕ) → Bool
slack_fits data_at data_end user size =
    let rest = add_word user size in
    (not (ltb data_at user) || leb user data_end) && (not (ltb rest data_end) || leb data_at rest)

-- The mapping at `base` with its guard pages and slack, in `GuardHeap::allocate`.
pub lay_out : (page : ℕ) → Process → (base data_bytes user size : ℕ) → Process
lay_out page p base data_bytes user size =
    let total = add_word (add_word page data_bytes) page in
    let data_at = add_word base page in
    let data_end = add_word data_at data_bytes in
    let mapped = protect p.access base total (some read_write) in
    let front = protect mapped base page (some no_access) in
    let zeros = fill p.mem base total 0 in
    let before =
      if ltb data_at user then fill zeros data_at (sub_word user data_at) slack_fill else zeros in
    let rest = add_word user size in
    record p {
      access = protect front data_end page (some no_access);
      mem =
          if ltb rest data_end
          then fill before rest (sub_word data_end rest) slack_fill
          else before;
    }

-- The end of `GuardHeap::allocate`, which enters the region at `slot`.
pub enter : World → (slot data_bytes : ℕ) → Region → World
enter w slot data_bytes r =
    let p = w.process in
    let h = w.heap in
    let s = count_alloc h.stats in
    let grown = record s { capacity = add_word s.capacity data_bytes } in
    record {
      process = record p {
        regions = set_region p.regions slot r;
        owner_of = set_owner p.owner_of slot h.this;
      };
      heap = record h { stats = set_used grown (add_word grown.used r.user_size) };
    }

-- `GuardHeap::allocate` with a mapping at `base`. The slack is filled before the lock is taken, behind
-- pages that are protected already. When the registry is full, `bump_fail` waits for the
-- mutex that `allocate` holds.
pub with_mapping :
    (page : ℕ) → World → (base size aligned data_bytes : ℕ) → Locking (Option ℕ × World)
with_mapping page w base size aligned data_bytes =
    let h = w.heap in
    let data_at = add_word base page in
    let user = if h.underflow then data_at else sub_word (add_word data_at data_bytes) aligned in
    let placed : Locking (Option ℕ × World) = elim (find_free_slot w.process) [
      | none ↦ deadlock
      | some slot ↦ ends (
        some user,
        enter (record w { process = lay_out page w.process base data_bytes user size }) slot
            data_bytes
            (record {
              phase = Phase.active;
              base = base;
              total = add_word (add_word page data_bytes) page;
              user = user;
              user_size = size;
              policy = h.policy;
              underflow_mode = h.underflow;
            }),
      )
    ] in
    if slack_fits data_at (add_word data_at data_bytes) user size then placed else faults

-- `GuardHeap::allocate`. `reserved` is what the system reserves for a number of bytes.
pub allocate :
    (page : ℕ) (reserved : ℕ → Option ℕ) → World → (size alignment : ℕ) → Locking (Option ℕ × World)
allocate page reserved w size alignment =
    let size' = if size == 0 then 1 else size in
    let alignment' = if ltb alignment 16 then 16 else alignment in
    let aligned = align_up size' alignment' in
    let data_bytes = align_up aligned page in
    if ltb page alignment' || not (is_pow2 alignment')
    then ends (none, w)
    else elim (reserved (add_word (add_word page data_bytes) page)) [
      | none ↦ ends (none, record w { heap = bump_fail w.heap })
      | some base ↦ with_mapping page w base size' aligned data_bytes
    ]

-- The loop of `GuardHeap::deallocate` that looks for the pointer.
pub find_loop : World → (ptr rounds i : ℕ) → Option ℕ
find_loop w ptr zero i = none
find_loop w ptr (suc rounds) i =
    let r = w.process.regions i in
    let rest = find_loop w ptr rounds (i + 1) in
    if (w.process.owner_of i == w.heap.this) && (r.user == ptr) && is_active r.phase
    then some i
    else rest

-- The place that `GuardHeap::deallocate` takes.
pub find_slot : World → (ptr : ℕ) → Option ℕ
unfolding find_loop
find_slot w ptr = find_loop w ptr max_regions 0

-- The loops of `GuardHeap::deallocate` over the slack from address `c`, with the bytes that are left.
pub slack_loop : Bytes → (c rounds : ℕ) → Bool
slack_loop mem c zero = true
slack_loop mem c (suc rounds) =
    let rest = slack_loop mem (c + 1) rounds in if not (mem c == slack_fill) then false else rest

-- What `GuardHeap::deallocate` finds of the slack.
pub slack_ok : (page : ℕ) → Bytes → Region → Bool
unfolding slack_loop
slack_ok page mem r =
    let data_at = add_word r.base page in
    let data_end = sub_word (add_word r.base r.total) page in
    let rest = add_word r.user r.user_size in
    slack_loop mem data_at (r.user - data_at) && slack_loop mem rest (data_end - rest)

-- A region leaves the quarantine and goes back to the system.
abbrev pub give_back : Process → (slot : ℕ) → Process
give_back p slot =
    let q = p.regions slot in
    record p {
      regions = set_region p.regions slot (record q { phase = Phase.vacant });
      owner_of = set_owner p.owner_of slot 0;
      access = protect p.access q.base q.total none;
    }

-- The loop of `GuardHeap::deallocate` that keeps the quarantine at its size.
pub evict : (cap : ℕ) → List ℕ → Process → List ℕ × Process
evict cap [] p = ([], p)
evict cap (old ∷ rest) p =
    let fewer = evict cap rest (give_back p old) in
    if ltb cap (length (old ∷ rest)) then fewer else (old ∷ rest, p)

-- What the log tells of a call of `GuardHeap::deallocate`.
pub data Verdict : Type 0 where
  ignored : Verdict
  invalid : Verdict
  smashed : Verdict
  clean : Verdict

-- The process after `GuardHeap::deallocate` has put the region at `slot` away.
abbrev pub lock_away : (page : ℕ) → Process → (slot : ℕ) → Process
lock_away page p slot =
    let r = p.regions slot in
    let data_at = add_word r.base page in
    let data_end = sub_word (add_word r.base r.total) page in
    record p {
      regions = set_region p.regions slot (record r { phase = Phase.quarantined });
      mem = fill p.mem data_at (sub_word data_end data_at) poison;
      access = protect p.access data_at (sub_word data_end data_at) (some no_access);
    }

-- The end of `GuardHeap::deallocate` for the region at `slot`.
pub retire : (page : ℕ) → World → (slot : ℕ) → World
unfolding evict
retire page w slot =
    let h = w.heap in
    let s = count_free h.stats in
    let (quarantine, process) =
      evict h.quarantine_cap (h.quarantine ++ (slot ∷ [])) (lock_away page w.process slot) in
    record {
      process = process;
      heap = record h {
        quarantine = quarantine;
        stats = record s { used = sub_word s.used (w.process.regions slot).user_size };
      };
    }

-- `GuardHeap::deallocate`
pub deallocate : (page : ℕ) → World → (ptr : ℕ) → Verdict × World
deallocate page w ptr =
    let h = w.heap in
    if ptr == 0 then (ignored, w) else elim (find_slot w ptr) [
      | none ↦ (invalid, record w { heap = record h { stats = count_free h.stats } })
      | some slot ↦
          let ok = slack_ok page w.process.mem (w.process.regions slot) in
          (if ok then clean else smashed, retire page w slot)
    ]

-- The loop of `GuardHeap::walk`, at offset `off`.
pub walk_loop : World → (rounds i off : ℕ) → List BlockInfo
walk_loop w zero i off = []
walk_loop w (suc rounds) i off =
    let r = w.process.regions i in
    let rest = walk_loop w rounds (i + 1) in
    if (w.process.owner_of i == w.heap.this) && is_active r.phase
    then record { offset = off; size = r.user_size; is_free = false }
      ∷ rest (add_word off r.user_size)
    else rest off

-- `GuardHeap::walk`, as the list of the entries that it hands to its callback
pub walk : World → List BlockInfo
unfolding walk_loop
walk w = walk_loop w max_regions 0 0

-- The loop of the destructor.
pub destroy_loop : (this : ℕ) → Process → (rounds i : ℕ) → Process
destroy_loop this p zero i = p
destroy_loop this p (suc rounds) i =
    let own = not (is_vacant (p.regions i).phase) && (p.owner_of i == this) in
    destroy_loop this (if own then give_back p i else p) rounds (i + 1)

-- The destructor
pub destroy : World → Process
unfolding destroy_loop
destroy w = destroy_loop w.heap.this w.process max_regions 0
