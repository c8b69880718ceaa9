-- ===== src/GuardHeap.antt =====
-- c/src/hf_guard_heap.c on a POSIX system: each allocation has a mapping of its own between two
-- protected pages, in a registry of 4096 places. Calls are taken one after another. What the
-- system protects is not part of the state; the fault handler is modelled by where it locates a fault
-- and what it counts. A pointer is an address and NULL is 0.
pub mod Place
mod Tests
use heapforge.Prelude.{
  ℕ, zero, suc, ◌+◌, ◌-◌, ◌^◌, bit_and, Bool, true, false, not, ◌&&◌, ◌==◌, ltb, leb, if◌then◌else◌,
  Option, none, some, List, [], ◌∷◌, add_word, sub_word, not_word,
}
use heapforge.Allocator.{Stats, BlockInfo}
use heapforge.Platform.{align_up, default_align}

-- `hf_guard_kind`
pub data Kind : Type 0 where
  underflow : Kind
  overflow : Kind
  quarantine : Kind

-- The values of `state` in a `gh_region`
pub data Phase : Type 0 where
  vacant : Phase
  active : Phase
  quarantined : Phase

-- `gh_region`
pub record Region : Type 0 where
  pub base : ℕ
  pub total : ℕ
  pub user : ℕ
  pub user_size : ℕ
  pub phase : Phase

-- `gh_heap`, less its policy
pub record GuardHeap : Type 0 where
  pub regions : ℕ → Region
  pub violations : ℕ
  pub used_bytes : ℕ
  pub peak_bytes : ℕ
  pub capacity_hint : ℕ

-- GH_MAX_REGIONS
abbrev pub max_regions : ℕ
max_regions = 4096

abbrev pub is_vacant : Phase → Bool
is_vacant p = elim p [ Phase.vacant ↦ true | Phase.active ↦ false | Phase.quarantined ↦ false ]

abbrev pub is_active : Phase → Bool
is_active p = elim p [ Phase.vacant ↦ false | Phase.active ↦ true | Phase.quarantined ↦ false ]

abbrev pub set_region : (ℕ → Region) → (at : ℕ) → Region → ℕ → Region
set_region regions at r i = if i == at then r else regions i

-- The test of `gh_locate` for a region that is not vacant
abbrev pub is_inside : Region → (addr : ℕ) → Bool
is_inside r addr = leb r.base addr && ltb addr (add_word r.base r.total)

abbrev pub kind_of : Region → (addr : ℕ) → Kind
kind_of r addr = elim r.phase [
  | Phase.quarantined ↦ Kind.quarantine
  | Phase.vacant ↦ if ltb addr r.user then Kind.underflow else Kind.overflow
  | Phase.active ↦ if ltb addr r.user then Kind.underflow else Kind.overflow
]

-- The loop of `gh_locate` from index `i`, with the rounds that are left.
pub locate_loop : GuardHeap → (addr rounds i : ℕ) → Option (ℕ × Kind)
locate_loop h addr zero i = none
locate_loop h addr (suc rounds) i =
    let r = h.regions i in
    let rest = locate_loop h addr rounds (i + 1) in
    if not (is_vacant r.phase) && is_inside r addr then some (i, kind_of r addr) else rest

-- `gh_locate`
pub locate : GuardHeap → (addr : ℕ) → Option (ℕ × Kind)
unfolding locate_loop
locate h addr = locate_loop h addr max_regions 0

-- What `gh_handler` does to the state; a fault in no region goes to the previous handler.
pub handler : GuardHeap → (addr : ℕ) → GuardHeap
handler h addr = elim (locate h addr) [
  | none ↦ h
  | some _ ↦ record h { violations = add_word h.violations 1 }
]

-- The loop of `gh_reserve_slot`: the first vacant place.
pub reserve_loop : (ℕ → Region) → (rounds i : ℕ) → Option ℕ
reserve_loop regions zero i = none
reserve_loop regions (suc rounds) i =
    let rest = reserve_loop regions rounds (i + 1) in
    if is_vacant (regions i).phase then some i else rest

-- `gh_reserve_slot`
pub reserve_slot : GuardHeap → Option ℕ
unfolding reserve_loop
reserve_slot h = reserve_loop h.regions max_regions 0

-- The user's pointer in a mapping at `base`: as close to the page behind as the alignment allows.
pub place_user : (page base data_pages size alignment : ℕ) → ℕ
place_user page base data_pages size alignment =
    let data_end = add_word (add_word base page) data_pages in
    let user = bit_and (sub_word data_end size) (not_word (sub_word alignment 1)) in
    if ltb user (add_word base page) then add_word base page else user

-- The end of `gh_allocate`, with a mapping.
pub enter : GuardHeap → Region → Option ℕ × GuardHeap
enter h r = elim (reserve_slot h) [
  | none ↦ (none, h)
  | some at ↦
      let used = add_word h.used_bytes r.user_size in
      (
        some r.user,
        record h {
          regions = set_region h.regions at r;
          used_bytes = used;
          peak_bytes = if ltb h.peak_bytes used then used else h.peak_bytes;
        },
      )
]

-- `gh_allocate`. `reserved` is what the system reserves for a number of bytes.
pub allocate :
    (page : ℕ) (reserved : ℕ → Option ℕ) → GuardHeap → (size alignment : ℕ) → Option ℕ × GuardHeap
allocate page reserved h size alignment =
    let alignment' = if ltb alignment default_align then default_align else alignment in
    let size' = if size == 0 then 1 else size in
    let data_pages = align_up size' page in
    let total = add_word (add_word page data_pages) page in
    elim (reserved total) [
      | none ↦ (none, h)
      | some base ↦ enter h (record {
        base = base;
        total = total;
        user = place_user page base data_pages size' alignment';
        user_size = size';
        phase = Phase.active;
      })
    ]

-- The loop of `gh_find_by_user`.
pub find_loop : (ℕ → Region) → (user rounds i : ℕ) → Option ℕ
find_loop regions user zero i = none
find_loop regions user (suc rounds) i =
    let rest = find_loop regions user rounds (i + 1) in
    if is_active (regions i).phase && ((regions i).user == user) then some i else rest

-- `gh_find_by_user`
pub find_by_user : GuardHeap → (user : ℕ) → Option ℕ
unfolding find_loop
find_by_user h user = find_loop h.regions user max_regions 0

-- `gh_deallocate`
pub deallocate : GuardHeap → (ptr : ℕ) → GuardHeap
deallocate h ptr = if ptr == 0 then h else elim (find_by_user h ptr) [
  | none ↦ h
  | some at ↦
      let r = h.regions at in
      record h {
        regions = set_region h.regions at (record r { phase = Phase.quarantined });
        used_bytes = sub_word h.used_bytes r.user_size;
      }
]

-- `gh_get_stats`
pub get_stats : GuardHeap → Stats
get_stats h = record {
  capacity = h.capacity_hint;
  used = h.used_bytes;
  peak_used = h.peak_bytes;
  alloc_calls = 0;
  free_calls = 0;
  failed_allocs = 0;
}

-- The loop of `gh_walk`.
pub walk_loop : (ℕ → Region) → (rounds i : ℕ) → List BlockInfo
walk_loop regions zero i = []
walk_loop regions (suc rounds) i =
    let r = regions i in
    let rest = walk_loop regions rounds (i + 1) in
    if is_active r.phase
    then record { offset = r.user; size = r.user_size; is_free = false } ∷ rest
    else rest

-- `gh_walk`, as the list of the entries that it hands to its callback
pub walk : GuardHeap → List BlockInfo
unfolding walk_loop
walk h = walk_loop h.regions max_regions 0

-- `hf_guard_heap_create`, less the signal handler that it installs
pub create : (struct_ok : Bool) → Option GuardHeap
create struct_ok =
    if struct_ok
    then some (record {
      regions = λ _. record { base = 0; total = 0; user = 0; user_size = 0; phase = Phase.vacant };
      violations = 0;
      used_bytes = 0;
      peak_bytes = 0;
      capacity_hint = 0;
    })
    else none
