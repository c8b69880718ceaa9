-- ===== src/Slab.antt =====
-- c/src/hf_slab.c: slots of one size, cut from slabs. Free slots hold a link to the next: the
-- central list is the allocator's, and the magazine `tl_magazine` is the thread's, shared by all slab
-- allocators. NULL is `none`; the lock is held during each call.
pub mod Links
pub mod Grow
pub mod Refill
pub mod Serve
pub mod Valid
pub mod Shared
pub mod Walk
mod Tests
use heapforge.Prelude.{
  ℕ, zero, suc, ◌+◌, ◌-◌, ◌*◌, ◌/◌, ◌^◌, Bool, true, false, ◌==◌, ltb, if◌then◌else◌, Option, none,
  some, List, [], ◌∷◌, ◌++◌, length, add_word, sub_word, mul_word,
}
use heapforge.Allocator.{
  Stats, BlockInfo, fresh_stats, count_alloc, count_free, count_failed, set_used,
}
use heapforge.Platform.{align_up, default_align}

-- `sl_alloc`; `slab_count` is the length of `slabs`.
pub record Slab : Type 0 where
  pub obj_size : ℕ
  pub slab_bytes : ℕ
  pub slots_per_slab : ℕ
  pub slabs : List ℕ
  pub slab_cap : ℕ
  pub central_free : Option ℕ
  pub stats : Stats

-- What lies outside the allocator: the `next` links in free slots, and the thread's `tl_magazine`.
pub record Memory : Type 0 where
  pub next : ℕ → Option ℕ
  pub magazine : Option ℕ

-- SL_BATCH
abbrev pub batch : ℕ
batch = 32

abbrev pub link : (ℕ → Option ℕ) → ℕ → Option ℕ → ℕ → Option ℕ
link next at v p = if p == at then v else next p

-- `mem + i * a->obj_size`
abbrev pub slot : (mem obj_size i : ℕ) → ℕ
slot mem obj_size i = add_word mem (mul_word i obj_size)

-- The loop of `sl_grow`: the central list and the links, with `i` slots left.
pub link_slots : (mem obj_size i : ℕ) → Option ℕ × (ℕ → Option ℕ) → Option ℕ × (ℕ → Option ℕ)
link_slots mem obj_size zero s = s
link_slots mem obj_size (suc i) (central, next) =
    link_slots mem obj_size i (some (slot mem obj_size i), link next (slot mem obj_size i) central)

-- The end of `sl_grow`: the slab is entered in the array, unless that cannot grow.
pub enter_slab : (granted : Bool) → Slab → ℕ → Slab
enter_slab granted a mem =
    let full = length a.slabs == a.slab_cap in
    let cap = if full then (if a.slab_cap == 0 then 8 else mul_word a.slab_cap 2) else a.slab_cap in
    let entered = record a {
      slabs = a.slabs ++ (mem ∷ []);
      slab_cap = cap;
      stats = let s = a.stats in record s { capacity = add_word s.capacity a.slab_bytes };
    } in
    if full then (if granted then entered else a) else entered

-- `sl_grow`. `reserved` is what the system reserves, and `granted` whether `realloc` has room.
pub grow : (reserved : Option ℕ) (granted : Bool) → Slab → Memory → Slab × Memory
unfolding link_slots enter_slab
grow none granted a m = (a, m)
grow (some mem) granted a m =
    let (central, next) = link_slots mem a.obj_size a.slots_per_slab (a.central_free, m.next) in
    (enter_slab granted (record a { central_free = central }) mem, record m { next = next })

-- The loop of `sl_refill`: the last slot of the batch, with the steps that are left.
pub batch_end : (ℕ → Option ℕ) → (rounds tail : ℕ) → ℕ
batch_end next zero tail = tail
batch_end next (suc rounds) tail = elim (next tail) [
  | none ↦ tail
  | some t ↦ batch_end next rounds t
]

-- The end of `sl_refill`: the head of the central list becomes the magazine.
pub take_batch : Slab → Memory → Slab × Memory
take_batch a m = elim a.central_free [
  | none ↦ (a, m)
  | some head ↦
      let tail = batch_end m.next (batch - 1) head in
      (
        record a { central_free = m.next tail },
        record { next = link m.next tail none; magazine = some head },
      )
]

-- `sl_refill`
pub refill : (reserved : Option ℕ) (granted : Bool) → Slab → Memory → Slab × Memory
refill reserved granted a m = elim a.central_free [
  | none ↦ let (b, n) = grow reserved granted a m in take_batch b n
  | some head ↦ take_batch a m
]

-- The end of `sl_allocate`, once the magazine had its chance to be filled.
pub pop : Slab → Memory → Option ℕ × Slab × Memory
pop a m = elim m.magazine [
  | none ↦ (none, record a { stats = count_failed a.stats }, m)
  | some s ↦ (
    some s,
    record a { stats = set_used a.stats (add_word a.stats.used a.obj_size) },
    record m { magazine = m.next s },
  )
]

-- `sl_allocate` of a size that fits.
pub serve : (reserved : Option ℕ) (granted : Bool) → Slab → Memory → Option ℕ × Slab × Memory
serve reserved granted a m = elim m.magazine [
  | none ↦ let (c, n) = refill reserved granted a m in pop c n
  | some s ↦ pop a m
]

-- `sl_allocate`; the alignment is ignored.
pub allocate :
    (reserved : Option ℕ) (granted : Bool)
    → Slab
    → Memory
    → (size alignment : ℕ) → Option ℕ × Slab × Memory
allocate reserved granted a m size alignment =
    let b = record a { stats = count_alloc a.stats } in
    if ltb b.obj_size size
    then (none, record b { stats = count_failed b.stats }, m)
    else serve reserved granted b m

-- `sl_deallocate`
pub deallocate : Slab → Memory → Option ℕ → Slab × Memory
deallocate a m none = (a, m)
deallocate a m (some s) = (
  record a { stats = let t = count_free a.stats in record t { used = sub_word t.used a.obj_size } },
  record { next = link m.next s m.magazine; magazine = some s },
)

-- The entries of one slab in `sl_walk`.
abbrev pub entries : (slab_bytes off used : ℕ) → List BlockInfo
entries slab_bytes off used =
    (if used == 0 then [] else record { offset = off; size = used; is_free = false } ∷ [])
    ++ (if ltb used slab_bytes
        then record { offset = add_word off used; size = slab_bytes - used; is_free = true } ∷ []
        else [])

-- The loop of `sl_walk` over the slabs that are left.
pub walk_loop : (slab_bytes : ℕ) → List ℕ → (off remaining : ℕ) → List BlockInfo
walk_loop slab_bytes [] off remaining = []
walk_loop slab_bytes (_ ∷ slabs) off remaining =
    let used = if ltb remaining slab_bytes then remaining else slab_bytes in
    entries slab_bytes off used
    ++ walk_loop slab_bytes slabs (add_word off slab_bytes) (remaining - used)

-- `sl_walk`, as the list of the entries that it hands to its callback
pub walk : Slab → List BlockInfo
unfolding walk_loop
walk a = walk_loop a.slab_bytes a.slabs 0 a.stats.used

-- `hf_slab_create`
pub create : (page : ℕ) (struct_ok : Bool) (object_size slab_bytes : ℕ) → Option Slab
create page struct_ok object_size slab_bytes =
    let obj = align_up (if ltb object_size 8 then 8 else object_size) default_align in
    let bytes = align_up (if slab_bytes == 0 then 64 * 1024 else slab_bytes) page in
    if bytes / obj == 0
    then none
    else (if struct_ok
        then some (record {
          obj_size = obj;
          slab_bytes = bytes;
          slots_per_slab = bytes / obj;
          slabs = [];
          slab_cap = 0;
          central_free = none;
          stats = fresh_stats 0;
        })
        else none)
