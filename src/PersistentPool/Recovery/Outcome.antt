-- ===== src/PersistentPool/Recovery/Outcome.antt =====
-- What `recover` as a whole achieves.
use heapforge.Prelude.{
  ℕ, ◌+◌, ◌-◌, ◌^◌, ◌≤◌, ◌<◌, ◌≡◌, refl, suc, ap, ap₂, ◌∙◌, arith, true, false, List, [], ◌∷◌,
  length, add_word, inl, inr, Bool-cases, Option, some,
}
use heapforge.Prelude.Count.{count_below}
use heapforge.PersistentPool.{Pool, Slot, wal_entries, with_bits, bits_of, meta_commit}
use heapforge.PersistentPool.Effect.{marked, IsSound}
use heapforge.PersistentPool.Settled.{
  IsQuiet, IsWatermark, IsSettled, set_meta-IsWatermark, keep-IsWatermark,
}
use heapforge.PersistentPool.Recovery.{Replayed, rebuild, replay, settle, finish, recover}
use heapforge.PersistentPool.Recovery.Choice.{best_slot-eq, count_bits-eq}
use heapforge.PersistentPool.Recovery.Replay.{
  Op, Pending, InRange, run_bits, run_effect, any, run_rounds, replay-run_rounds,
  run_rounds-Replays, run_bits-IsSound, run_bits-marked,
}
use mathlib.Core.Bool.{or-false}

-- A file that holds watermark `w`, a bitmap, and the operations `os` logged behind the watermark.
pub record IsRecoverable (p : Pool) (w : ℕ) (os : List Op) : Type 0 where
  pub slot : Slot
  pub watermark : IsWatermark p.image slot w
  pub sound :
      IsSound p.block_count (p.image.bitmap, count_below p.block_count (marked p.image.bitmap))
  pub wal_len : length p.image.wal ≡ wal_entries
  pub pending : Pending p.image.wal (w + 1) os
  pub few : length os ≤ wal_entries
  pub in_range : InRange p.block_count os
  pub room : w + wal_entries + 1 < 2 ^ 64
  pub same_count : p.image.header.block_count ≡ p.block_count
  pub same_size : p.image.header.block_size ≡ p.block_size

-- The pool that is made of it: the logged operations are done, in order, and the next sequence
-- number is the one behind theirs.
pub record Recovered (p : Pool) (w : ℕ) (os : List Op) (r : Option Pool) : Type 0 where
  pub pool : Pool
  pub returns : r ≡ some pool
  pub marks : (j : ℕ) → marked pool.image.bitmap j ≡ run_effect os (marked p.image.bitmap) j
  pub next : pool.next_seq ≡ w + length os + 1
  pub count : pool.block_count ≡ p.block_count
  pub settled : IsSettled pool

record Repaired (p : Pool) (w : ℕ) (os : List Op) (q : Pool) : Type 0 where
  marks : (j : ℕ) → marked q.image.bitmap j ≡ run_effect os (marked p.image.bitmap) j
  next : q.next_seq ≡ w + length os + 1
  count : q.block_count ≡ p.block_count
  settled : IsSettled q

Pending-IsQuiet :
    (wal : List _) (s : ℕ) (os : List Op) → Pending wal s os → IsQuiet wal (s + length os)
unfolding Pending
Pending-IsQuiet wal s [] h = λ i ok. omega (arith, h i ok)
Pending-IsQuiet wal s (o ∷ os) h = λ i ok. omega (arith, Pending-IsQuiet wal (s + 1) os h.1 i ok)

any_some : (os : List Op) (w : ℕ) → any os ≡ true → w < w + length os
any_some [] w e = cc
any_some (o ∷ os) w e = omega arith

any_none : (os : List Op) (w : ℕ) → any os ≡ false → w + length os ≡ w
any_none [] w e = omega arith
any_none (o ∷ os) w e = cc

module _ (p : Pool) (w : ℕ) (os : List Op) (r : IsRecoverable p w os) where
  abbrev start : Pool
  start = rebuild p r.slot

  start-IsSound : IsSound p.block_count (bits_of start)
  unfolding rebuild
  start-IsSound = rw (count_bits-eq p.image.bitmap p.block_count r.sound.small) r.sound

  abbrev caught_up : Replayed
  caught_up = record {
    pool = with_bits start (run_bits os (bits_of start));
    max_seq = w + length os;
    replayed = any os;
  }

  replay-caught_up :
      run_rounds (record { pool = start; max_seq = w; replayed = false }) wal_entries (w + 1)
      ≡ caught_up
  unfolding rebuild
  replay-caught_up =
      let from : Replayed = record { pool = start; max_seq = w; replayed = false } in
      let t =
        run_rounds-Replays from wal_entries (w + 1) (w + 1 + length os) os r.pending r.few refl
          refl in
      let last : (run_rounds from wal_entries (w + 1)).max_seq ≡ w + length os =
        omega (arith, t.max_seq) in
      let some_done = t.replayed ∙ or-false (any os) in
      λ i. record { pool = t.pool i; max_seq = last i; replayed = some_done i }

  settle-caught_up : Repaired p w os (settle caught_up)
  unfolding settle rebuild meta_commit
  settle-caught_up = elim (Bool-cases (any os)) [
    | inl e ↦ rw e (record {
      marks = bits;
      next = next;
      count = refl;
      settled = record {
        sound = sound;
        wal_len = r.wal_len;
        watermark = rw last (
            set_meta-IsWatermark (caught_up.pool.image) r.slot w (w + length os) _ kept
              (any_some os w e));
        next_pos = omega (arith, next);
        quiet = rw next (λ i ok. omega (arith, quiet i ok));
        same_count = r.same_count;
        same_size = r.same_size;
      };
    })
    | inr e ↦ rw e (record {
      marks = bits;
      next = next;
      count = refl;
      settled = record {
        sound = sound;
        wal_len = r.wal_len;
        watermark = rw (last, any_none os w e) kept;
        next_pos = omega (arith, next);
        quiet = rw next (λ i ok. omega (arith, quiet i ok));
        same_count = r.same_count;
        same_size = r.same_size;
      };
    })
  ]
    where
      sound : IsSound p.block_count (run_bits os (bits_of start))
      sound = run_bits-IsSound p.block_count os (bits_of start) start-IsSound r.in_range

      bits :
          (j : ℕ)
          → marked (run_bits os (bits_of start)).0 j ≡ run_effect os (marked p.image.bitmap) j
      bits = run_bits-marked p.block_count os (bits_of start) start-IsSound r.in_range

      next : add_word (w + length os) 1 ≡ w + length os + 1
      next = omega (arith, r.room, r.few)

      last : add_word (w + length os) 1 - 1 ≡ w + length os
      last = omega (arith, r.room, r.few)

      quiet : IsQuiet p.image.wal (w + 1 + length os)
      quiet = Pending-IsQuiet p.image.wal (w + 1) os r.pending

      kept : IsWatermark (caught_up.pool.image) r.slot w
      kept =
          keep-IsWatermark p.image p.image.wal (run_bits os (bits_of start)).0 r.slot w r.watermark

-- `recover` of a file with a watermark that with 257 is below 2 ^ 64 and at most 256 operations
-- logged behind it, on blocks in range, ends: it does these operations in order on what the bitmap
-- shows, numbers on behind them, and gives a settled pool.
pub recover-Recovered :
    (p : Pool) (w : ℕ) (os : List Op) → IsRecoverable p w os → Recovered p w os (recover p)
unfolding recover finish
recover-Recovered p w os r =
    let t = settle-caught_up p w os r in
    let from : Replayed = record { pool = rebuild p r.slot; max_seq = w; replayed = false } in
    let bound : add_word w wal_entries ≡ w + wal_entries = omega (arith, r.room) in
    let first : add_word w 1 ≡ w + 1 = omega (arith, r.room) in
    let ends =
      replay-run_rounds from (w + wal_entries) wal_entries (w + 1) (omega arith)
        (omega (arith, r.room)) in
    let run : Slot × ℕ → Option Pool = λ b. finish (
      replay (record { pool = rebuild p b.0; max_seq = b.1; replayed = false })
        (add_word b.1 wal_entries) (suc wal_entries) (add_word b.1 1)) in
    record {
      pool = settle (caught_up p w os r);
      returns =
          ap run (best_slot-eq p.image r.slot w r.watermark)
          ∙ ap₂ (λ b s. finish (replay from b (suc wal_entries) s)) bound first
          ∙ ap finish (ends ∙ ap some (replay-caught_up p w os r));
      marks = t.marks;
      next = t.next;
      count = t.count;
      settled = t.settled;
    }
