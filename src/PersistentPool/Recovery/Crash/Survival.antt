-- ===== src/PersistentPool/Recovery/Crash/Survival.antt =====
-- A crash at any point of `commit` is survived.
use heapforge.Prelude.{
  ℕ, ◌+◌, ◌-◌, ◌^◌, ◌<◌, ◌≡◌, inl, inr, refl, ◌∙◌, arith, Bool, true, false, length-set, set,
  Bool-cases,
}
use heapforge.PersistentPool.{
  Pool, Image, MetaSlot, WalEntry, wal_entries, other, wal_ok, meta_ok, entry_of, bits_of,
  wal_append, apply_bits, apply_op, set_meta,
}
use heapforge.PersistentPool.Effect.{
  marked, effect, effect-effect, effect-congr, Applied, apply_bits-Applied,
}
use heapforge.PersistentPool.Settled.{
  IsWatermark, IsSettled, keep-IsWatermark, set-IsQuiet, suc-IsQuiet, entry_of-ok, other-other,
  meta_at-set_self, meta_at-set_other,
}
use heapforge.PersistentPool.Recovery.{recover}
use heapforge.PersistentPool.Recovery.Replay.{Logs, run_effect}
use heapforge.PersistentPool.Api.{attach}
use heapforge.PersistentPool.Recovery.Crash.{
  CrashPoint, in_log, in_bitmap, in_slot, crash_image, IsPlausible, is_logged, Survives,
}
use heapforge.PersistentPool.Recovery.Crash.Redo.{k, done, k_in, recount, redo, nothing_pending}

module _ (p : Pool) (op index base : ℕ) (v : IsSettled p) (h : index < p.block_count)
    (room : p.next_seq + wal_entries + 1 < 2 ^ 64) where
  unlogged :
      (e : WalEntry)
      → (wal_ok e ≡ true → e.seq < p.next_seq)
      → Survives p op index false (recover (attach base (crash_image p op index (in_log e))))
  unfolding crash_image run_effect
  unlogged e old =
      let wal = set p.image.wal (k p op index base v h room) e in
      let m : Image = record p.image { wal = wal } in
      let s : p.next_seq - 1 + 1 ≡ p.next_seq = omega (arith, v.next_pos) in
      let quiet =
        set-IsQuiet p.image.wal _ p.next_seq e (k_in p op index base v h room) v.quiet old in
      let kept =
        keep-IsWatermark p.image wal p.image.bitmap p.active_meta (p.next_seq - 1) v.watermark in
      let r =
        nothing_pending p op index base v h room m p.active_meta (p.next_seq - 1) kept refl
          (length-set p.image.wal _ e ∙ v.wal_len) (rw s quiet)
          (recount p.block_count (bits_of p) v.sound) (omega arith) in
      record {
        pool = r.pool;
        returns = r.returns;
        settled = r.settled;
        outcome = inr (refl, r.marks);
      }

  complete :
      (e : WalEntry)
      → Logs e p.next_seq (op, index)
      → (logged : Bool)
      → Survives p op index logged (recover (attach base (crash_image p op index (in_log e))))
  unfolding crash_image
  complete e logs logged =
      let wal = set p.image.wal (k p op index base v h room) e in
      let m : Image = record p.image { wal = wal } in
      let kept =
        keep-IsWatermark p.image wal p.image.bitmap p.active_meta (p.next_seq - 1) v.watermark in
      redo p op index base v h room m e kept refl refl (recount p.block_count (bits_of p) v.sound)
        logs (λ j. refl) logged

  in_log-Survives :
      (e : WalEntry)
      → IsPlausible p op index (in_log e)
      → Survives p op index false (recover (attach base (crash_image p op index (in_log e))))
  unfolding IsPlausible
  in_log-Survives e plausible = elim (Bool-cases (wal_ok e)) [
    | inl ok ↦ elim (plausible ok) [
      | inl logs ↦ complete e logs false
      | inr old ↦ unlogged e (λ _. old)
    ]
    | inr bad ↦ unlogged e (λ ok. cc)
  ]

  logs : Logs (entry_of p.next_seq op index) p.next_seq (op, index)
  logs = record { seq = refl; ok = entry_of-ok p.next_seq op index; op = refl; index = refl }

  applied : Applied p.block_count op index (bits_of p) (apply_bits op index (bits_of p))
  applied = apply_bits-Applied p.block_count op index (bits_of p) v.sound h

  again :
      (j : ℕ)
      → effect op index (marked (apply_bits op index (bits_of p)).0) j
        ≡ effect op index (marked p.image.bitmap) j
  again j =
      effect-congr op index (marked (apply_bits op index (bits_of p)).0)
        (effect op index (marked p.image.bitmap)) j (applied.marks j)
      ∙ effect-effect op index (marked p.image.bitmap) j

  in_bitmap-Survives :
      (written : Bool)
      → Survives p op index true
          (recover (attach base (crash_image p op index (in_bitmap written))))
  unfolding crash_image wal_append apply_op
  in_bitmap-Survives false = complete (entry_of p.next_seq op index) logs true
  in_bitmap-Survives true =
      let wal = set p.image.wal (k p op index base v h room) (entry_of p.next_seq op index) in
      let m : Image = record p.image { wal = wal; bitmap = (done p op index base v h room).0 } in
      let kept =
        keep-IsWatermark p.image wal (done p op index base v h room).0 p.active_meta
          (p.next_seq - 1) v.watermark in
      redo p op index base v h room m (entry_of p.next_seq op index) kept refl refl
        (recount p.block_count _ applied.sound) logs again true

  -- The log and the bitmap when the slot is written, with the old watermark.
  abbrev written : Image
  written = record p.image {
    wal = set p.image.wal (k p op index base v h room) (entry_of p.next_seq op index);
    bitmap = (done p op index base v h room).0;
  }

  written_mark : IsWatermark written p.active_meta (p.next_seq - 1)
  written_mark =
      keep-IsWatermark p.image written.wal written.bitmap p.active_meta (p.next_seq - 1) v.watermark

  -- The new slot is on disk: nothing is pending any more.
  new_slot :
      (m : MetaSlot)
      → meta_ok m ≡ true
      → m.seq ≡ p.next_seq
      → Survives p op index true (recover (attach base (crash_image p op index (in_slot m))))
  unfolding crash_image wal_append apply_op run_effect
  new_slot m ok new =
      let a = p.active_meta in
      let self = meta_at-set_self written (other a) m in
      let mark : IsWatermark (set_meta written (other a) m) (other a) p.next_seq = record {
        valid = rw self ok;
        seq = rw self new;
        older =
            rw (other-other a, meta_at-set_other written a m)
              (λ _. omega (arith, written_mark.seq, v.next_pos));
      } in
      let quiet =
        set-IsQuiet p.image.wal _ (p.next_seq + 1) (entry_of p.next_seq op index)
          (k_in p op index base v h room) (suc-IsQuiet _ p.next_seq v.quiet) (λ _. omega arith) in
      let r =
        nothing_pending p op index base v h room (set_meta written (other a) m) (other a) p.next_seq
          mark refl (length-set p.image.wal _ _ ∙ v.wal_len) quiet
          (recount p.block_count _ applied.sound) (omega arith) in
      record {
        pool = r.pool;
        returns = r.returns;
        settled = r.settled;
        outcome = inl (λ j. r.marks j ∙ applied.marks j);
      }

  -- The new slot is damaged or still the old one: the operation is done again.
  old_slot :
      (m : MetaSlot)
      → (meta_ok m ≡ true → m.seq < p.next_seq - 1)
      → Survives p op index true (recover (attach base (crash_image p op index (in_slot m))))
  unfolding crash_image wal_append apply_op
  old_slot m old =
      let a = p.active_meta in
      let same = meta_at-set_other written a m in
      let mark : IsWatermark (set_meta written (other a) m) a (p.next_seq - 1) = record {
        valid = rw same written_mark.valid;
        seq = rw same written_mark.seq;
        older = rw (meta_at-set_self written (other a) m) old;
      } in
      redo p op index base v h room (set_meta written (other a) m) (entry_of p.next_seq op index)
        mark refl refl (recount p.block_count _ applied.sound) logs again true

  in_slot-Survives :
      (m : MetaSlot)
      → IsPlausible p op index (in_slot m)
      → Survives p op index true (recover (attach base (crash_image p op index (in_slot m))))
  unfolding IsPlausible
  in_slot-Survives m plausible = elim (Bool-cases (meta_ok m)) [
    | inl ok ↦ elim (plausible ok) [
      | inl new ↦ new_slot m ok new
      | inr old ↦ old_slot m (λ _. omega (arith, old))
    ]
    | inr bad ↦ old_slot m (λ ok. cc)
  ]

-- For a settled pool, a block in range and a next sequence number that with 257 is below 2 ^ 64, a
-- crash at any point of `commit`, with any plausible contents of the range being written, is
-- repaired by `recover`, which ends: the result is settled, and the operation has happened as a
-- whole or, before its log entry was on disk, not at all.
pub crash-Survives :
    (p : Pool) (op index base : ℕ) (point : CrashPoint)
    → IsSettled p
    → index < p.block_count
    → p.next_seq + wal_entries + 1 < 2 ^ 64
    → IsPlausible p op index point
    → Survives p op index (is_logged point) (recover (attach base (crash_image p op index point)))
crash-Survives p op index base (in_log e) v h room ok =
    in_log-Survives p op index base v h room e ok
crash-Survives p op index base (in_bitmap b) v h room ok =
    in_bitmap-Survives p op index base v h room b
crash-Survives p op index base (in_slot m) v h room ok =
    in_slot-Survives p op index base v h room m ok
