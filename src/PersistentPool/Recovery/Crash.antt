-- ===== src/PersistentPool/Recovery/Crash.antt =====
-- A crash during `commit`, and the pool that the next `hf_pool_open` makes of what is on disk.
-- Each step of `commit` writes one range of the file and waits until it is on disk, so at any
-- moment only the range of the current step may be half written.
pub mod Redo
pub mod Survival
use heapforge.Prelude.{
  ℕ, zero, suc, ◌+◌, ◌-◌, ◌%◌, ◌^◌, ◌≤◌, ◌<◌, ◌≡◌, ◌⊎◌, inl, inr, refl, sym, ◌∙◌, ap, arith, Bool,
  true, false, Option, some, List, [], ◌∷◌, length, length-set, get_or, set, get_or-set_self,
  get_or-set_ne, Bool-cases,
}
use heapforge.Prelude.Count.{count_below}
use heapforge.PersistentPool.{
  Pool, Image, Slot, MetaSlot, WalEntry, other, wal_entries, no_entry, wal_ok, meta_ok, entry_of,
  slot_of, bits_of, with_bits, wal_append, apply_bits, apply_op, take_seq, set_meta, meta_at,
  meta_commit, commit,
}
use heapforge.PersistentPool.Effect.{
  marked, IsSound, effect, effect-effect, Applied, apply_bits-Applied,
}
use heapforge.PersistentPool.Settled.{
  IsQuiet, IsWatermark, IsSettled, keep-IsWatermark, set-IsQuiet, suc-IsQuiet, entry_of-ok,
  other-other, meta_at-set_self, meta_at-set_other,
}
use heapforge.PersistentPool.Recovery.{recover}
use heapforge.PersistentPool.Recovery.Replay.{Op, Logs, Pending, InRange, run_effect}
use heapforge.PersistentPool.Recovery.Outcome.{IsRecoverable, Recovered, recover-Recovered}
use heapforge.PersistentPool.Api.{attach}
use native.Mathlib.Decide.{ℕ_discrete}

-- While the log entry is written (the disk holds `e` in its place), while the byte of the bitmap
-- is (a byte is old or new), or while the metadata slot is (the disk holds `m`).
pub data CrashPoint : Type 0 where
  in_log : WalEntry → CrashPoint
  in_bitmap : (written : Bool) → CrashPoint
  in_slot : MetaSlot → CrashPoint

abbrev logged_pool : Pool → (op index : ℕ) → Pool
logged_pool p op index = wal_append (take_seq p) p.next_seq op index

-- The file after a crash in `commit p op index`.
pub crash_image : Pool → (op index : ℕ) → CrashPoint → Image
crash_image p op index (in_log e) = record p.image {
  wal = set p.image.wal (p.next_seq % wal_entries) e;
}
crash_image p op index (in_bitmap false) = (logged_pool p op index).image
crash_image p op index (in_bitmap true) = (apply_op (logged_pool p op index) op index).image
crash_image p op index (in_slot m) =
    set_meta (apply_op (logged_pool p op index) op index).image (other p.active_meta) m

-- Once the slot is complete, that is the file that `commit` leaves.
crash_image-commit :
    (p : Pool) (op index : ℕ)
    → crash_image p op index
        (in_slot (slot_of p.next_seq (apply_op (logged_pool p op index) op index).used_blocks))
      ≡ (commit p op index).image
unfolding crash_image commit meta_commit apply_op wal_append
crash_image-commit p op index = refl

-- What the checksums are relied on for: half-written data that passes its check is the complete
-- new data, or data from before.
unfoldable pub IsPlausible : Pool → (op index : ℕ) → CrashPoint → Type 0
IsPlausible p op index (in_log e) =
    wal_ok e ≡ true → Logs e p.next_seq (op, index) ⊎ (e.seq < p.next_seq)
IsPlausible p op index (in_bitmap written) = Unit {0}
IsPlausible p op index (in_slot m) =
    meta_ok m ≡ true → (m.seq ≡ p.next_seq) ⊎ (m.seq + 1 < p.next_seq)

-- The log entry is on disk.
abbrev pub is_logged : CrashPoint → Bool
is_logged (in_log e) = false
is_logged (in_bitmap written) = true
is_logged (in_slot m) = true

-- After the crash the operation is done, or, if its log entry was not yet on disk, it has not
-- happened; the pool is settled in either case.
pub record Survives (p : Pool) (op index : ℕ) (logged : Bool) (r : Option Pool) : Type 0 where
  pub pool : Pool
  pub returns : r ≡ some pool
  pub settled : IsSettled pool
  pub outcome :
      ((j : ℕ) → marked pool.image.bitmap j ≡ effect op index (marked p.image.bitmap) j)
      ⊎ ((logged ≡ false) × ((j : ℕ) → marked pool.image.bitmap j ≡ marked p.image.bitmap j))
