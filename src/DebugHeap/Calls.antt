-- ===== src/DebugHeap/Calls.antt =====
-- The calls of c/src/hf_debug_heap.c that reach the backend.
pub mod Alloc
pub mod Free
pub mod Forget
pub mod Scan
use heapforge.Prelude.{
  ℕ, zero, suc, ◌+◌, ◌-◌, ◌*◌, ◌/◌, ◌%◌, ◌^◌, bit_and, bit_xor, Bool, true, false, not, ◌&&◌, ◌||◌,
  ◌==◌, ltb, leb, if◌then◌else◌, Option, none, some, List, add_word, sub_word, mul_word,
}
use heapforge.Prelude.Bytes.{Bytes, store, load, fill}
use heapforge.DebugHeap.HashTable.{Entry, Table, no_entry, set_entry, find, put}
use heapforge.Allocator.{Stats, BlockInfo, Outcome, returns, aborts, Interface}
use heapforge.DebugHeap.{
  DebugHeap, Report, head_size, tail_size, fill_byte, poison, write_guards, verify_block, is_live,
}

-- The memory, the debug heap and its backend.
pub record World (state : Type 0) : Type 0 where
  pub mem : Bytes
  pub heap : DebugHeap
  pub below : state

module _ (backend : Interface) where
  -- The end of `dh_allocate`, where the backend has a block.
  pub guard_block : World backend.State → (raw size : ℕ) → ℕ × World backend.State
  guard_block w raw size =
      let user = add_word raw head_size in
      let rep = w.heap.rep in
      (
        user,
        record {
          mem = fill (write_guards w.mem raw size) user size fill_byte;
          heap = record {
            entries = put w.heap.entries user raw size;
            rep = record rep {
              total_allocs = add_word rep.total_allocs 1;
              active_allocs = add_word rep.active_allocs 1;
            };
          };
          below = w.below;
        },
      )

  -- The rest of `dh_allocate`, once the backend has answered.
  pub after_backend :
      World backend.State
      → (size : ℕ) → Option ℕ × (backend.State × Bytes)
      → Option ℕ × World backend.State
  after_backend w size (none, (below, mem)) = (none, record w { below = below; mem = mem })
  after_backend w size (some raw, (below, mem)) =
      let (user, w') = guard_block (record w { below = below; mem = mem }) raw size in
      (some user, w')

  -- `dh_allocate`
  pub allocate : World backend.State → (size alignment : ℕ) → Option ℕ × World backend.State
  unfolding after_backend
  allocate w size alignment =
      after_backend w size
        (backend.allocate w.below w.mem (add_word (add_word head_size size) tail_size) alignment)

  -- The end of `dh_deallocate` for the entry at index `at`, which is not freed.
  pub release : World backend.State → (ptr at : ℕ) → Outcome (World backend.State)
  release w ptr at =
      let e = w.heap.entries.table at in
      let (_, rep) = verify_block w.mem w.heap.rep e.raw e.size in
      let entries = w.heap.entries in
      let freed_entry = record e { freed = true; raw = 0 } in
      let heap : DebugHeap = record {
        entries = record entries { table = set_entry entries.table at freed_entry };
        rep = record rep {
          total_frees = add_word rep.total_frees 1;
          active_allocs = sub_word rep.active_allocs 1;
        };
      } in
      let mem = fill w.mem ptr e.size poison in
      if e.raw == 0 then aborts else elim (backend.deallocate w.below mem (some e.raw)) [
        | returns (below, mem') ↦ returns (record { mem = mem'; heap = heap; below = below })
        | aborts ↦ aborts
      ]

  abbrev pub count_invalid : World backend.State → World backend.State
  count_invalid w =
      let h = w.heap in
      let r = h.rep in
      record w { heap = record h { rep = record r { invalid_frees = add_word r.invalid_frees 1 } } }

  abbrev pub count_double : World backend.State → World backend.State
  count_double w =
      let h = w.heap in
      let r = h.rep in
      record w { heap = record h { rep = record r { double_frees = add_word r.double_frees 1 } } }

  -- `dh_deallocate`
  pub deallocate : World backend.State → (ptr : ℕ) → Outcome (World backend.State)
  deallocate w ptr = if ptr == 0 then returns w else elim (find w.heap.entries ptr) [
    | none ↦ returns (count_invalid w)
    | some at ↦
        let e = w.heap.entries.table at in
        if not (e.user == ptr)
        then returns (count_invalid w)
        else (if e.freed then returns (count_double w) else release w ptr at)
  ]

  -- `dh_get_stats`
  pub get_stats : World backend.State → Stats
  get_stats w = backend.get_stats w.below

  -- `dh_walk`
  pub walk : World backend.State → List BlockInfo
  walk w = backend.walk w.below

  -- The loop of `dh_destroy`: the backend gets the blocks that are left.
  pub destroy_loop :
      (ℕ → Entry) → (rounds i : ℕ) → backend.State × Bytes → Outcome (backend.State × Bytes)
  destroy_loop table zero i below = returns below
  destroy_loop table (suc rounds) i below =
      let e = table i in
      elim (if is_live e then backend.deallocate below.0 below.1 (some e.raw) else returns below) [
        | returns below' ↦ destroy_loop table rounds (i + 1) below'
        | aborts ↦ aborts
      ]

  -- `dh_destroy`: the state in which it leaves the backend and the memory.
  pub destroy : World backend.State → Outcome (backend.State × Bytes)
  unfolding destroy_loop
  destroy w = destroy_loop w.heap.entries.table w.heap.entries.cap 0 (w.below, w.mem)
