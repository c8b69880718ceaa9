-- ===== src/Cpp/DebugHeap.antt =====
-- include/heapforge/debug_heap.h: the debug heap of the C++ version. Unlike the one in C it keeps its
-- blocks in the two maps `live_` and `freed_` and has four canary words on each side of a block. A
-- pointer is a number and NULL is 0; the inner allocator is any `Interface`, which has its own state
-- and may write to the memory `mem`. The recorded call stacks and the log are left out.

pub mod Again
pub mod Canary
pub mod Guard
mod Tests
use heapforge.Prelude.{
  ℕ, zero, suc, ◌+◌, ◌*◌, ◌^◌, ◌%◌, Bool, true, false, not, ◌&&◌, ◌||◌, ◌==◌, if◌then◌else◌, Option,
  none, some, List, [], ◌∷◌, add_word, sub_word, mul_word,
}
use heapforge.Prelude.Bytes.{Bytes, store, load, fill}
use heapforge.Allocator.{Stats, BlockInfo, Outcome, returns, aborts, Interface}
use heapforge.Platform.{default_align}
use heapforge.Cpp.Dict.{Dict, lookup, erase, assign, contains, insert}

-- kCanary, kCanaryWords, kGuardBytes, kPoison
abbrev pub canary : ℕ
canary = 0xDEADBEEF

abbrev pub canary_words : ℕ
canary_words = 4

abbrev pub guard_bytes : ℕ
guard_bytes = canary_words * 4

abbrev pub poison : ℕ
poison = 0xCD

-- `DebugHeap::AllocMeta`, less the frames
pub record AllocMeta : Type 0 where
  pub user_size : ℕ

-- `DebugHeap::Report`
pub record Report : Type 0 where
  pub live_allocations : ℕ
  pub leaked_bytes : ℕ
  pub canary_violations : ℕ
  pub double_frees : ℕ
  pub invalid_frees : ℕ

-- The members of `DebugHeap`, with the memory and the state of the inner allocator.
pub record World (state : Type 0) : Type 0 where
  pub live : Dict AllocMeta
  pub freed : Dict ℕ
  pub counted : Report
  pub mem : Bytes
  pub inner : state

-- The loop of `write_canary` from word `i`, with the rounds that are left.
pub write_canary_loop : Bytes → (at rounds i : ℕ) → Bytes
write_canary_loop mem at zero i = mem
write_canary_loop mem at (suc rounds) i =
    write_canary_loop (store 4 mem (add_word at (i * 4)) canary) at rounds (i + 1)

-- `write_canary`
pub write_canary : Bytes → (at : ℕ) → Bytes
unfolding write_canary_loop
write_canary mem at = write_canary_loop mem at canary_words 0

-- The loop of `check_canary` from word `i`, with the rounds that are left.
pub check_canary_loop : Bytes → (at rounds i : ℕ) → Bool
check_canary_loop mem at zero i = true
check_canary_loop mem at (suc rounds) i =
    let rest = check_canary_loop mem at rounds (i + 1) in
    if not (load 4 mem (add_word at (i * 4)) == canary) then false else rest

-- `check_canary`
pub check_canary : Bytes → (at : ℕ) → Bool
unfolding check_canary_loop
check_canary mem at = check_canary_loop mem at canary_words 0

-- report_.double_frees++
abbrev pub count_double : {state : Type 0} → World state → World state
count_double w =
    let r = w.counted in
    record w { counted = record r { double_frees = add_word r.double_frees 1 } }

-- report_.invalid_frees++
abbrev pub count_invalid : {state : Type 0} → World state → World state
count_invalid w =
    let r = w.counted in
    record w { counted = record r { invalid_frees = add_word r.invalid_frees 1 } }

-- report_.canary_violations++
abbrev pub count_violation : Report → Report
count_violation r = record r { canary_violations = add_word r.canary_violations 1 }

-- `DebugHeap::verify`
pub verify : {state : Type 0} → World state → (ptr : ℕ) → Bool
verify w ptr = elim (lookup w.live ptr) [
  | none ↦ false
  | some m ↦
      check_canary w.mem (sub_word ptr guard_bytes) && check_canary w.mem (add_word ptr m.user_size)
]

-- The loop of `DebugHeap::report`.
pub report_loop : Dict AllocMeta → Report → Report
report_loop [] r = r
report_loop ((p, m) ∷ live) r =
    report_loop live (record r { leaked_bytes = add_word r.leaked_bytes m.user_size })

-- `live_.size()`
abbrev pub size_of : Dict AllocMeta → ℕ
size_of [] = 0
size_of (entry ∷ live) = size_of live + 1

-- `DebugHeap::report`
pub report : {state : Type 0} → World state → Report
unfolding report_loop
report w = let r = w.counted in report_loop w.live (record r { live_allocations = size_of w.live })

-- The pointer that the inner allocator gets.
abbrev pub raw_of : (user : ℕ) → Option ℕ
raw_of user = let raw = sub_word user guard_bytes in if raw == 0 then none else some raw

module _ (inner : Interface) where
  -- The end of `DebugHeap::allocate`, where the inner allocator has a block.
  pub guard_block : World inner.State → (raw size : ℕ) → ℕ × World inner.State
  guard_block w raw size =
      let headed = write_canary w.mem raw in
      let guarded = write_canary headed (add_word (add_word raw guard_bytes) size) in
      let user = add_word raw guard_bytes in
      (
        user,
        record w {
          mem = guarded;
          live = assign w.live user (record { user_size = size });
          freed = erase w.freed user;
        },
      )

  -- The rest of `DebugHeap::allocate`, once the inner allocator has answered.
  pub after_inner :
      World inner.State
      → (size : ℕ) → Option ℕ × (inner.State × Bytes)
      → Option ℕ × World inner.State
  after_inner w size (none, (below, mem)) = (none, record w { inner = below; mem = mem })
  after_inner w size (some raw, (below, mem)) =
      let (user, w') = guard_block (record w { inner = below; mem = mem }) raw size in
      (some user, w')

  -- `DebugHeap::allocate`
  pub allocate : World inner.State → (size alignment : ℕ) → Option ℕ × World inner.State
  unfolding after_inner
  allocate w size alignment =
      let total = add_word (add_word guard_bytes size) guard_bytes in
      after_inner w size (inner.allocate w.inner w.mem total default_align)

  -- The memory when the inner allocator gets a block back.
  abbrev pub poisoned : World inner.State → (user : ℕ) → AllocMeta → Bytes
  poisoned w user meta =
      fill w.mem (sub_word user guard_bytes)
        (add_word (add_word guard_bytes meta.user_size) guard_bytes) poison

  -- What `DebugHeap::deallocate` of a live block comes to, once the inner allocator has the block.
  abbrev pub released :
      World inner.State → (user : ℕ) → AllocMeta → inner.State × Bytes → World inner.State
  released w user meta (below, mem) =
      let raw = sub_word user guard_bytes in
      let smashed =
        not (check_canary w.mem raw) || not (check_canary w.mem (add_word user meta.user_size)) in
      record {
        live = erase w.live user;
        freed = insert w.freed user 0;
        counted = if smashed then count_violation w.counted else w.counted;
        mem = mem;
        inner = below;
      }

  -- The end of `DebugHeap::deallocate`, for the block that was live.
  pub release : World inner.State → (user : ℕ) → AllocMeta → Outcome (World inner.State)
  release w user meta = elim (inner.deallocate w.inner (poisoned w user meta) (raw_of user)) [
    | returns next ↦ returns (released w user meta next)
    | aborts ↦ aborts
  ]

  -- `DebugHeap::deallocate`
  pub deallocate : World inner.State → (ptr : ℕ) → Outcome (World inner.State)
  deallocate w ptr = if ptr == 0 then returns w else elim (lookup w.live ptr) [
    | none ↦ returns (if contains w.freed ptr then count_double w else count_invalid w)
    | some meta ↦ release w ptr meta
  ]

  -- The loop of the destructor, over the blocks that are left.
  pub destroy_loop : Dict AllocMeta → Bytes → inner.State → Outcome (inner.State × Bytes)
  destroy_loop [] mem below = returns (below, mem)
  destroy_loop ((p, m) ∷ live) mem below =
      let raw = sub_word p guard_bytes in
      let mem' = fill mem raw (add_word (add_word guard_bytes m.user_size) guard_bytes) poison in
      elim (inner.deallocate below mem' (raw_of p)) [
        | returns (below', mem'') ↦ destroy_loop live mem'' below'
        | aborts ↦ aborts
      ]

  -- The destructor: the memory and the inner allocator as it leaves them.
  pub destroy : World inner.State → Outcome (inner.State × Bytes)
  unfolding destroy_loop
  destroy w = destroy_loop w.live w.mem w.inner

  -- `DebugHeap::stats`
  pub get_stats : World inner.State → Stats
  get_stats w = inner.get_stats w.inner

  -- `DebugHeap::walk`
  pub walk : World inner.State → List BlockInfo
  walk w = inner.walk w.inner
