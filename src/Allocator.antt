-- ===== src/Allocator.antt =====
-- What all allocators share (c/include/heapforge/hf_allocator.h): the statistics, the entries
-- that `walk` reports, and the outcome of a call whose assertions may fail.
pub mod Tiles
use heapforge.Prelude.{
  ◌+◌, ◌≤◌, ◌<◌, ◌≡◌, ◌⊎◌, some, Option, List, ℕ, Bool, true, false, if◌then◌else◌, ltb, add_word,
}
use heapforge.Prelude.Bytes.{Bytes}

-- `hf_stats`
pub record Stats : Type 0 where
  pub capacity : ℕ
  pub used : ℕ
  pub peak_used : ℕ
  pub alloc_calls : ℕ
  pub free_calls : ℕ
  pub failed_allocs : ℕ

-- `hf_block_info`
pub record BlockInfo : Type 0 where
  pub offset : ℕ
  pub size : ℕ
  pub is_free : Bool

-- A call returns, or the process stops: a failed `assert`, or a read through a NULL pointer.
pub data Outcome {ℓ} (A : Type ℓ) : Type ℓ where
  returns : A → Outcome A
  aborts : Outcome A

abbrev pub checked {ℓ} : {A : Type ℓ} → Bool → Outcome A → Outcome A
checked true rest = rest
checked false rest = aborts

-- `calloc` of the statistics, then `stats.capacity = n`.
abbrev pub fresh_stats : ℕ → Stats
fresh_stats n = record {
  capacity = n;
  used = 0;
  peak_used = 0;
  alloc_calls = 0;
  free_calls = 0;
  failed_allocs = 0;
}

-- alloc_calls++
abbrev pub count_alloc : Stats → Stats
count_alloc s = record s { alloc_calls = add_word s.alloc_calls 1 }

-- free_calls++
abbrev pub count_free : Stats → Stats
count_free s = record s { free_calls = add_word s.free_calls 1 }

-- failed_allocs++
abbrev pub count_failed : Stats → Stats
count_failed s = record s { failed_allocs = add_word s.failed_allocs 1 }

-- used = n; if (used > peak_used) peak_used = used;
abbrev pub set_used : Stats → ℕ → Stats
set_used s n = record s { used = n; peak_used = if ltb s.peak_used n then n else s.peak_used }

-- `hf_allocator_vtable` with the state that `self` points to, less the name and `destroy`. A call may
-- also change the memory, in which allocators keep headers and links.
pub record Interface : Type 1 where
  pub State : Type 0
  pub allocate : State → Bytes → (size alignment : ℕ) → Option ℕ × (State × Bytes)
  pub deallocate : State → Bytes → Option ℕ → Outcome (State × Bytes)
  pub get_stats : State → Stats
  pub walk : State → List BlockInfo

-- The allocator takes `raw` back, whatever the `n` bytes from `at` hold by then.
abbrev pub TakesBack : (I : Interface) → (below : I.State) → (mem : Bytes) → (at n raw : ℕ) → Type 0
TakesBack I below mem at n raw =
    (mem' : Bytes)
    → ((p : ℕ) → (p < at) ⊎ (at + n ≤ p) → mem' p ≡ mem p)
    → (next : I.State × Bytes) × (I.deallocate below mem' (some raw) ≡ returns next)
