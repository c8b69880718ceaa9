-- ===== src/PersistentPool/Recovery.antt =====
-- `recover` of c/src/hf_persistent_pool.c: what an opened pool makes of the file that it finds.
pub mod Choice
pub mod Replay
pub mod Crash
pub mod Again
pub mod Outcome
pub mod Bound
use heapforge.Prelude.{
  ℕ, zero, suc, ◌+◌, ◌%◌, Bool, true, false, not, ◌&&◌, ◌==◌, ltb, leb, if◌then◌else◌, Option, none,
  some, List, get_or, add_word,
}
use heapforge.PersistentPool.{
  Pool, WalEntry, Slot, no_entry, wal_entries, wal_ok, bit_test, apply_op, meta_commit, best_slot,
}

-- The loop that rebuilds `used_blocks` from the bitmap: blocks from `i` on, with the rounds left.
pub count_bits : List ℕ → (rounds i acc : ℕ) → ℕ
count_bits bitmap zero i acc = acc
count_bits bitmap (suc rounds) i acc =
    count_bits bitmap rounds (i + 1) (if bit_test bitmap i then add_word acc 1 else acc)

-- What the replay loop carries: the pool, `max_seq` and `replayed`.
pub record Replayed : Type 0 where
  pub pool : Pool
  pub max_seq : ℕ
  pub replayed : Bool

-- `p->wal[s % WAL_ENTRIES]`
abbrev pub entry_at : Pool → ℕ → WalEntry
entry_at p s = get_or p.image.wal (s % wal_entries) no_entry

-- One round of the replay loop.
pub replay_one : Replayed → ℕ → Replayed
replay_one r s =
    let e = entry_at r.pool s in
    if e.seq == s && wal_ok e
    then record {
      pool = apply_op r.pool e.op e.index;
      max_seq = if ltb r.max_seq s then s else r.max_seq;
      replayed = true;
    }
    else r

-- The replay loop from `s` up to `bound`, both `uint64_t`, where its condition is tested `tests` times
-- at most: `none` if it still goes on after them.
pub replay : Replayed → (bound tests s : ℕ) → Option Replayed
replay r bound zero s = none
replay r bound (suc tests) s =
    let rest = replay (replay_one r s) bound tests (add_word s 1) in
    if leb s bound then rest else some r

-- The part of `recover` before the replay: watermark, active slot and number of used blocks.
pub rebuild : Pool → Slot → Pool
unfolding count_bits
rebuild p best = record p {
  active_meta = best;
  used_blocks = count_bits p.image.bitmap p.block_count 0 0;
}

-- The part of `recover` behind the replay.
pub settle : Replayed → Pool
settle r =
    let p = record (r.pool) { next_seq = add_word r.max_seq 1 } in
    if r.replayed then meta_commit p r.max_seq else p

-- The end of `recover`, unless the replay loop does not end.
pub finish : Option Replayed → Option Pool
finish none = none
finish (some r) = some (settle r)

-- `recover`; `none` is a loop that does not end. A loop that ends tests its condition 257 times at most.
pub recover : Pool → Option Pool
recover p =
    let (best, best_seq) = best_slot p.image in
    let from : Replayed = record { pool = rebuild p best; max_seq = best_seq; replayed = false } in
    finish (replay from (add_word best_seq wal_entries) (suc wal_entries) (add_word best_seq 1))
