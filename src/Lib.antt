-- ===== src/Lib.antt =====
-- HeapForge: the C library of allocators and the parts of the C++ one that differ from it.
--
-- The program is a set of allocators (c/src) behind one interface (c/include/heapforge/hf_allocator.h)
-- over small helpers and system calls (c/include/heapforge/hf_platform.h). Modelled are the helpers,
-- the block pool, the stack, the slab, free-list and buddy allocators, the persistent pool with its
-- recovery after a crash, the debug heap, which wraps any allocator, the registry of the guard heap,
-- and snapshots.
--
-- Prelude: the native ℕ, lists, Boolean tests, wrapping 64-bit words (add_word, sub_word, mul_word,
--   not_word), bits of a number (Prelude.Bits), counting (Prelude.Count), and memory as bytes
--   with little-endian numbers in it (Prelude.Bytes).
-- Platform: hf_align_up, hf_is_pow2, hf_next_pow2 and hf_log2_floor. The loop of the last has fuel
--   64, since a 64-bit word is zero after 64 shifts.
-- Allocator: hf_stats, hf_block_info, and the outcome of a call that may stop at an `assert`
--   (for the block pool assertions are on: NDEBUG is not defined) or read through NULL. Interface
--   is hf_allocator_vtable as a record; Tiles says that entries cover a range.
-- BlockPool: c/src/hf_block_pool.c. The record BlockPool is bp_alloc less its table and mutex.
--   allocate, deallocate, walk and create are bp_allocate, bp_deallocate, bp_walk and
--   hf_block_pool_create. Each call takes a pool and returns the next one. A pointer is an address
--   below 2 ^ 64, NULL is `none`. The loop over the words of the bitmap has as many rounds as
--   there are words.
-- PersistentPool: c/src/hf_persistent_pool.c. An Image is what the file holds (header, two
--   metadata slots, a ring of 256 log entries, bitmap); a Pool is the Image with the fields of the
--   struct hf_persistent_pool. Checksum has fnv1a. PersistentPool itself has the steps of commit
--   and the choice of the slot, Recovery has recover, Api the functions that users call. The data
--   area holds the user's bytes, which no operation reads.
-- PersistentPool.Recovery.Crash: the points at which a crash can strike commit. Each step writes
--   one range and waits for it, so only the range of the current step can be half written. Half-written
--   data that passes its checksum is taken to be complete or old (IsPlausible): this is the only
--   thing that is relied on about the checksum.
-- Stack: c/src/hf_stack.c. The record Stack is st_alloc less its table and mutex; the headers, which
--   the C code keeps in the memory before each payload, are a map from offsets to st_header, which
--   holds as long as users write only to their payloads. deallocate and rewind take whether
--   assertions are on. Frames has the live allocations that the headers chain.
-- Slab: c/src/hf_slab.c. Slab is sl_alloc; Memory has the links, which the C code keeps in the free
--   slots, and the thread's tl_magazine. Links, Grow and Refill have the lists, Valid the invariant,
--   Serve the calls, Shared two allocators in one thread. A batch has 32 slots, as in the code.
-- FreeList: c/src/hf_free_list.c, with the memory as a map from addresses to words, since every header,
--   ring node and offset is made of words at multiples of 8; users write only to their payloads. Fit
--   and Choose have find_fit, whose loops have as many rounds as the memory has bytes; Ring, Rotate,
--   Unlink, Cycle and Linked have the ring of free blocks, Layout, Nodes, Tags and Split the blocks one
--   after another, Held the two together. Calls has the operations: Absorb, Give, Back and Free are
--   about fl_deallocate, Carve, Take, Lookup and Allot about fl_allocate.
-- Buddy: c/src/hf_buddy.c, with such a memory; free_lists and order_map are functions. The loops over
--   the orders have as many rounds as there are orders.
-- DebugHeap: c/src/hf_debug_heap.c. HashTable has dh_find, dh_put and dh_rehash on a function from
--   indices to entries; a probing loop has as many rounds as the table has places, which is all of
--   them, and the recursion of dh_put through dh_rehash has fuel 1. Calls has the operations over an
--   Interface. The bytes of the blocks are one memory, which the backend gets and hands back
--   with each call, since it may keep its own headers and links there.
-- GuardHeap: c/src/hf_guard_heap.c, its registry as a function from 4096 indices, which the loops go
--   through; Place has the layout of a mapping.
-- Cpp: the debug heap and the guard heap of the C++ version, which are not what the C files are. Cpp.Dict
--   is std::unordered_map. Cpp.DebugHeap is include/heapforge/debug_heap.h over an Interface, with Guard
--   on what its canaries find and Again on blocks that are freed twice. Cpp.GuardHeap is
--   include/heapforge/guard_heap.h: the registry of 4096 places that all guard heaps share, the memory
--   and its protection; Calls has the operations, whose loops go through all places, and Fault the
--   handler. A mutex that its holder locks again is an outcome, deadlock, and so is a write to a guard page.
-- Analyzer: hf_snapshot_take of c/src/hf_analyzer.c, on the statistics and the entries that an
--   allocator hands over; Conserve puts it together with the block pool.
--
-- All calls hold the mutex of their allocator, save that dh_allocate and dh_deallocate call the backend
-- outside of it and that the guard heap has none; a history is a sequence of calls. The operating system is a parameter: the page size, whether memory or a file is granted,
-- and at which address. Sequence numbers are 64-bit: statements on the persistent pool ask for
-- some numbers that are left (next_seq + 1 < 2 ^ 64, or for recovery a watermark w with w + 257 <
-- 2 ^ 64), and for at most 2 ^ 32 blocks, since the log keeps an index in 32 bits. The replay loop of
-- recover counts in words up to a word that may have wrapped; it tests its condition at most 257
-- times or never ends (Recovery.Bound), which is the result `none`.
--
-- Not modelled: msync and its kin, flush and close, which change nothing a model holds; destroy, save that of
-- the debug heap;
-- the page protection of the guard heap in C; signals, and calls of a guard heap from several threads; the
-- texts of hf_analyzer.c and hf_logger.c; the other C++ headers (include), which do what the C files do;
-- and the Rust port (rust).
pub mod Allocator
pub mod Analyzer
pub mod BlockPool
pub mod Buddy
pub mod Cpp
pub mod DebugHeap
pub mod FreeList
pub mod GuardHeap
pub mod PersistentPool
pub mod Platform
pub mod Prelude
pub mod Slab
pub mod Stack
