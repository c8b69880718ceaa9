-- ===== src/DebugHeap.antt =====
-- c/src/hf_debug_heap.c: a wrapper over any allocator that puts canaries round each block and keeps
-- a hash table of the blocks. A pointer is a number and NULL is 0. The backend is any `Interface`,
-- which has its own state and may write to the memory `mem` that holds the blocks. `calloc` of the
-- table in `dh_rehash` is taken to succeed.
pub mod HashTable
pub mod Calls
pub mod Guards
mod Tests
use heapforge.Prelude.{
  ℕ, zero, suc, ◌+◌, ◌-◌, ◌*◌, ◌/◌, ◌%◌, ◌^◌, bit_and, bit_xor, Bool, true, false, not, ◌&&◌, ◌||◌,
  ◌==◌, ltb, leb, if◌then◌else◌, Option, none, some, List, add_word, sub_word, mul_word,
}
use heapforge.Prelude.Bytes.{Bytes, store, load, fill}
use heapforge.DebugHeap.HashTable.{Entry, Table, no_entry, set_entry, find, put}
use heapforge.Allocator.{Stats, BlockInfo, Outcome, returns, aborts, Interface}

-- DH_CANARY, DH_POISON, DH_FILL, DH_HEAD, DH_TAIL
abbrev pub canary : ℕ
canary = 0xDEADBEEF

abbrev pub poison : ℕ
poison = 0xCD

abbrev pub fill_byte : ℕ
fill_byte = 0xAB

abbrev pub head_size : ℕ
head_size = 12

abbrev pub tail_size : ℕ
tail_size = 4

-- `hf_debug_report`
pub record Report : Type 0 where
  pub active_allocs : ℕ
  pub total_allocs : ℕ
  pub total_frees : ℕ
  pub canary_violations : ℕ
  pub double_frees : ℕ
  pub invalid_frees : ℕ
  pub leaked_blocks : ℕ
  pub leaked_bytes : ℕ

-- `dh_heap`
pub record DebugHeap : Type 0 where
  pub entries : Table
  pub rep : Report

abbrev no_report : Report
no_report = record {
  active_allocs = 0;
  total_allocs = 0;
  total_frees = 0;
  canary_violations = 0;
  double_frees = 0;
  invalid_frees = 0;
  leaked_blocks = 0;
  leaked_bytes = 0;
}

-- `head_canary`
pub head_canary : Bytes → (raw : ℕ) → ℕ
head_canary mem raw = load 4 mem raw

-- `tail_canary`
pub tail_canary : Bytes → (raw size : ℕ) → ℕ
tail_canary mem raw size = load 4 mem (add_word (add_word raw head_size) size)

-- `write_guards`
pub write_guards : Bytes → (raw size : ℕ) → Bytes
write_guards mem raw size =
    let headed = store 4 mem raw canary in
    let sized = store 8 headed (add_word raw 4) size in
    store 4 sized (add_word (add_word raw head_size) size) canary

-- The tests of `verify_block`
abbrev pub is_intact : Bytes → (raw size : ℕ) → Bool
is_intact mem raw size = (head_canary mem raw == canary) && (tail_canary mem raw size == canary)

abbrev pub count_violation : Report → Report
count_violation r = record r { canary_violations = add_word r.canary_violations 1 }

-- `verify_block`
pub verify_block : Bytes → Report → (raw size : ℕ) → Bool × Report
verify_block mem rep raw size =
    let ok = is_intact mem raw size in (ok, if ok then rep else count_violation rep)

-- e->user && !e->freed && e->raw
abbrev pub is_live : Entry → Bool
is_live e = not (e.user == 0) && not e.freed && not (e.raw == 0)

-- The loop of `hf_debug_heap_check` from index `i`, with the rounds that are left.
pub check_loop : Bytes → (ℕ → Entry) → (rounds i bad : ℕ) → Report → ℕ × Report
check_loop mem table zero i bad rep = (bad, rep)
check_loop mem table (suc rounds) i bad rep =
    let e = table i in
    let (ok, rep') = verify_block mem rep e.raw e.size in
    check_loop mem table rounds (i + 1) (if is_live e && not ok then add_word bad 1 else bad)
      (if is_live e then rep' else rep)

-- `hf_debug_heap_check`
pub check : Bytes → DebugHeap → ℕ × DebugHeap
unfolding check_loop
check mem h =
    let (bad, rep) = check_loop mem h.entries.table h.entries.cap 0 0 h.rep in
    (bad, record h { rep = rep })

-- The loop of `hf_debug_heap_report`.
pub report_loop : (ℕ → Entry) → (rounds i : ℕ) → Report → Report
report_loop table zero i out = out
report_loop table (suc rounds) i out =
    let e = table i in
    let counted = record out {
      leaked_blocks = add_word out.leaked_blocks 1;
      leaked_bytes = add_word out.leaked_bytes e.size;
    } in
    report_loop table rounds (i + 1) (if is_live e then counted else out)

-- `hf_debug_heap_report`
pub report : DebugHeap → Report
unfolding report_loop
report h =
    let r = h.rep in
    report_loop h.entries.table h.entries.cap 0 (record r { leaked_blocks = 0; leaked_bytes = 0 })

-- `hf_debug_heap_create`; whether the two calls of `calloc` have room are parameters.
pub create : (has_backend struct_ok table_ok : Bool) → Option DebugHeap
create has_backend struct_ok table_ok =
    if has_backend && struct_ok && table_ok
    then some (record {
      entries = record { table = λ _. no_entry; cap = 64; count = 0 };
      rep = no_report;
    })
    else none
