-- ===== src/PersistentPool/Recovery/Crash/Redo.antt =====
-- The two ways in which recovery completes or drops an operation that a crash cut off.
use heapforge.Prelude.{
  ℕ, ◌+◌, ◌-◌, ◌%◌, ◌^◌, ◌≤◌, ◌<◌, ◌≡◌, inl, refl, ◌∙◌, ap, arith, Bool, List, [], ◌∷◌, length,
  length-set, set, get_or-set_self,
}
use heapforge.Prelude.Count.{count_below}
use heapforge.PersistentPool.{
  Pool, Image, Slot, WalEntry, wal_entries, no_entry, bits_of, apply_bits,
}
use heapforge.PersistentPool.Effect.{marked, IsSound, effect}
use heapforge.PersistentPool.Settled.{IsQuiet, IsWatermark, IsSettled, set-IsQuiet, suc-IsQuiet}
use heapforge.PersistentPool.Recovery.{recover}
use heapforge.PersistentPool.Recovery.Replay.{Op, Logs, Pending, InRange, run_effect}
use heapforge.PersistentPool.Recovery.Outcome.{IsRecoverable, Recovered, recover-Recovered}
use heapforge.PersistentPool.Api.{attach}
use heapforge.PersistentPool.Recovery.Crash.{Survives}

pub recount : (n : ℕ) (b : List ℕ × ℕ) → IsSound n b → IsSound n (b.0, count_below n (marked b.0))
recount n b s = record {
  small = s.small;
  bitmap_len = s.bitmap_len;
  bytes = s.bytes;
  used_eq = refl;
}

module _ (p : Pool) (op index base : ℕ) (v : IsSettled p) (h : index < p.block_count)
    (room : p.next_seq + wal_entries + 1 < 2 ^ 64) where
  abbrev pub k : ℕ
  k = p.next_seq % wal_entries

  abbrev pub done : List ℕ × ℕ
  done = apply_bits op index (bits_of p)

  -- A file with the parts that recovery wants.
  pub assemble :
      (m : Image) (i : Slot) (w : ℕ) (os : List Op)
      → IsWatermark m i w
      → m.header ≡ p.image.header
      → length m.wal ≡ wal_entries
      → Pending m.wal (w + 1) os
      → length os ≤ wal_entries
      → InRange p.block_count os
      → w + wal_entries + 1 < 2 ^ 64
      → IsSound p.block_count (m.bitmap, count_below p.block_count (marked m.bitmap))
      → IsRecoverable (attach base m) w os
  assemble m i w os mark header len pending few range below sound =
      let n : m.header.block_count ≡ p.block_count =
        ap (λ r. r.block_count) header ∙ v.same_count in
      record {
        slot = i;
        watermark = mark;
        sound = rw n sound;
        wal_len = len;
        pending = pending;
        few = few;
        in_range = rw n range;
        room = below;
        same_count = refl;
        same_size = refl;
      }

  pub k_in : k < length p.image.wal
  k_in = omega (arith, v.wal_len)

  -- The log with a complete entry for the operation.
  pub Pending-logged :
      (e : WalEntry)
      → Logs e p.next_seq (op, index)
      → Pending (set p.image.wal k e) (p.next_seq - 1 + 1) ((op, index) ∷ [])
  unfolding Pending
  Pending-logged e logs =
      let s : p.next_seq - 1 + 1 ≡ p.next_seq = omega (arith, v.next_pos) in
      rw (s, get_or-set_self p.image.wal k e no_entry k_in)
        (
          logs,
          set-IsQuiet p.image.wal k (p.next_seq + 1) e k_in (suc-IsQuiet _ p.next_seq v.quiet)
              (λ _. omega (arith, logs.seq)),
        )

  -- A file that keeps the old watermark and logs the operation, with any sound bitmap.
  pub logged-IsRecoverable :
      (m : Image) (e : WalEntry)
      → IsWatermark m p.active_meta (p.next_seq - 1)
      → m.header ≡ p.image.header
      → m.wal ≡ set p.image.wal k e
      → IsSound p.block_count (m.bitmap, count_below p.block_count (marked m.bitmap))
      → Logs e p.next_seq (op, index)
      → IsRecoverable (attach base m) (p.next_seq - 1) ((op, index) ∷ [])
  unfolding InRange
  logged-IsRecoverable m e mark header wal sound logs =
      assemble m p.active_meta (p.next_seq - 1) ((op, index) ∷ []) mark header
        (rw wal (length-set p.image.wal k e ∙ v.wal_len)) (rw wal (Pending-logged e logs))
        (omega arith) (h, tt) (omega (arith, v.next_pos)) sound

  -- If its bitmap shows the blocks in use with the operation done or not.
  pub redo :
      (m : Image) (e : WalEntry)
      → IsWatermark m p.active_meta (p.next_seq - 1)
      → m.header ≡ p.image.header
      → m.wal ≡ set p.image.wal k e
      → IsSound p.block_count (m.bitmap, count_below p.block_count (marked m.bitmap))
      → Logs e p.next_seq (op, index)
      → ((j : ℕ) → effect op index (marked m.bitmap) j ≡ effect op index (marked p.image.bitmap) j)
      → (logged : Bool) → Survives p op index logged (recover (attach base m))
  unfolding run_effect
  redo m e mark header wal sound logs same logged =
      let r =
        recover-Recovered (attach base m) (p.next_seq - 1) ((op, index) ∷ [])
          (logged-IsRecoverable m e mark header wal sound logs) in
      record {
        pool = r.pool;
        returns = r.returns;
        settled = r.settled;
        outcome = inl (λ j. r.marks j ∙ same j);
      }

  -- A file with nothing logged behind its watermark.
  pub nothing_pending :
      (m : Image) (i : Slot) (w : ℕ)
      → IsWatermark m i w
      → m.header ≡ p.image.header
      → length m.wal ≡ wal_entries
      → IsQuiet m.wal (w + 1)
      → IsSound p.block_count (m.bitmap, count_below p.block_count (marked m.bitmap))
      → w ≤ p.next_seq
      → Recovered (attach base m) w [] (recover (attach base m))
  unfolding InRange Pending
  nothing_pending m i w mark header len quiet sound small =
      recover-Recovered (attach base m) w []
        (assemble m i w [] mark header len quiet (omega arith) tt (omega arith) sound)
