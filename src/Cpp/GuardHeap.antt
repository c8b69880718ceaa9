-- ===== src/Cpp/GuardHeap.antt =====
-- include/heapforge/guard_heap.h on a POSIX system: a registry of 4096 regions that all guard heaps of
-- the process share, and the state of one of them. Unlike the version in C it gives the regions of its
-- quarantine back, the oldest first. Calls are taken one after another, `mprotect` is taken to
-- succeed, and recorded call stacks and the log are left out. A pointer is an address and NULL is 0.
pub mod Calls
pub mod Fault
use heapforge.Prelude.{
  ℕ, zero, suc, ◌+◌, ◌-◌, ◌^◌, bit_and, Bool, true, false, not, ◌&&◌, ◌||◌, ◌==◌, ltb, leb,
  if◌then◌else◌, Option, none, some, List, [], ◌∷◌, ◌++◌, length, add_word, sub_word, not_word,
}
use heapforge.Prelude.Bytes.{Bytes, fill}
use heapforge.Allocator.{Stats, BlockInfo, count_alloc, count_free, count_failed, set_used}
use heapforge.Platform.{align_up, is_pow2}

-- `Protection`
pub data Protection : Type 0 where
  no_access : Protection
  read_only : Protection
  read_write : Protection

-- `ViolationPolicy`
pub data ViolationPolicy : Type 0 where
  abort : ViolationPolicy
  continue : ViolationPolicy

-- The values of `state` in a `Region`
pub data Phase : Type 0 where
  vacant : Phase
  active : Phase
  quarantined : Phase

-- `GuardHeap::Region`, less the frames
pub record Region : Type 0 where
  pub phase : Phase
  pub base : ℕ
  pub total : ℕ
  pub user : ℕ
  pub user_size : ℕ
  pub policy : ViolationPolicy
  pub underflow_mode : Bool

-- What the guard heaps of a process share: the static members, the memory, and how it is protected;
-- `none` is not mapped.
pub record Process : Type 0 where
  pub regions : ℕ → Region
  pub owner_of : ℕ → ℕ
  pub violations : ℕ
  pub mem : Bytes
  pub access : ℕ → Option Protection

-- The members of a `GuardHeap`, which is at address `this`.
pub record Heap : Type 0 where
  pub this : ℕ
  pub policy : ViolationPolicy
  pub underflow : Bool
  pub quarantine_cap : ℕ
  pub quarantine : List ℕ
  pub stats : Stats

pub record World : Type 0 where
  pub process : Process
  pub heap : Heap

-- kMaxRegions, kSlackFill, kPoison
abbrev pub max_regions : ℕ
max_regions = 4096

abbrev pub slack_fill : ℕ
slack_fill = 0xFD

abbrev pub poison : ℕ
poison = 0xCD

-- A call ends, waits for a mutex that it holds itself, or writes to a page that it may not write.
pub data Locking {ℓ} (A : Type ℓ) : Type ℓ where
  ends : A → Locking A
  deadlock : Locking A
  faults : Locking A

abbrev pub is_vacant : Phase → Bool
is_vacant p = elim p [ Phase.vacant ↦ true | Phase.active ↦ false | Phase.quarantined ↦ false ]

abbrev pub is_active : Phase → Bool
is_active p = elim p [ Phase.vacant ↦ false | Phase.active ↦ true | Phase.quarantined ↦ false ]

abbrev pub is_quarantined : Phase → Bool
is_quarantined p = elim p [ Phase.vacant ↦ false | Phase.active ↦ false | Phase.quarantined ↦ true ]

abbrev pub set_region : (ℕ → Region) → (at : ℕ) → Region → ℕ → Region
set_region regions at r i = if i == at then r else regions i

abbrev pub set_owner : (ℕ → ℕ) → (at owner : ℕ) → ℕ → ℕ
set_owner owner_of at owner i = if i == at then owner else owner_of i

-- `VM::protect`, or what `VM::reserve` and `VM::release` do to the pages
abbrev pub protect :
    (ℕ → Option Protection) → (at n : ℕ) → Option Protection → ℕ → Option Protection
protect access at n to p = if leb at p && ltb p (at + n) then to else access p
