-- ===== src/PersistentPool/Recovery/Again.antt =====
-- A crash during `recover` itself, and the recovery that follows. The replay changes only the
-- bitmap before the slot is written, and nothing forces the order in which its bytes reach the disk.
use heapforge.Prelude.{
  ℕ, zero, suc, ◌≡◌, refl, sym, ◌∙◌, arith, Bool, ◌==◌, inl, inr, some, List, [], ◌∷◌, take,
  Bool-cases,
}
use heapforge.Prelude.Count.{count_below}
use heapforge.PersistentPool.{Pool}
use heapforge.PersistentPool.Effect.{marked, IsSound, effect, effect-congr}
use heapforge.PersistentPool.Settled.{IsSettled, keep-IsWatermark}
use heapforge.PersistentPool.Recovery.{recover}
use heapforge.PersistentPool.Recovery.Replay.{Op, run_effect}
use heapforge.PersistentPool.Recovery.Outcome.{IsRecoverable, recover-Recovered}

-- What becomes of a block depends on that block alone.
run_effect-congr :
    (os : List Op) (f g : ℕ → Bool) (j : ℕ) → f j ≡ g j → run_effect os f j ≡ run_effect os g j
unfolding run_effect
run_effect-congr [] f g j e = e
run_effect-congr (o ∷ os) f g j e =
    run_effect-congr os (effect o.0 o.1 f) (effect o.0 o.1 g) j (effect-congr o.0 o.1 f g j e)

-- Doing the operations once more after the first `n` of them comes to the same.
run_effect-take :
    (n : ℕ) (os : List Op) (f : ℕ → Bool) (j : ℕ)
    → run_effect os (run_effect (take n os) f) j ≡ run_effect os f j
unfolding run_effect
run_effect-take zero os f j = refl
run_effect-take (suc n) [] f j = refl
run_effect-take (suc n) (o ∷ os) f j =
    let g = run_effect (take n os) (effect o.0 o.1 f) in
    elim (Bool-cases (j == o.1)) [
      | inl own ↦
          run_effect-congr os (effect o.0 o.1 g) (effect o.0 o.1 f) j (rw own (ground arith))
      | inr other_block ↦
          run_effect-congr os (effect o.0 o.1 g) g j (rw other_block (ground arith))
          ∙ run_effect-take n os (effect o.0 o.1 f) j
    ]

-- The pool with another bitmap on the disk.
abbrev pub with_bitmap : Pool → List ℕ → Pool
with_bitmap p bitmap = record p { image = record p.image { bitmap = bitmap } }

-- If a crash stops `recover` during the replay, with each block's bit as it was after some number
-- of the pending operations, where the watermark with 257 is below 2 ^ 64, `recover` of that file
-- ends and comes to the same blocks in use and the same next sequence number as without the crash,
-- in a settled pool.
pub recover-again :
    (p : Pool) (w : ℕ) (os : List Op) (bitmap : List ℕ) (done : ℕ → ℕ)
    → IsRecoverable p w os
    → IsSound p.block_count (bitmap, count_below p.block_count (marked bitmap))
    → ((j : ℕ) → marked bitmap j ≡ run_effect (take (done j) os) (marked p.image.bitmap) j)
    → (q whole : Pool) × (recover (with_bitmap p bitmap) ≡ some q)
      × (recover p ≡ some whole)
      × ((j : ℕ) → marked q.image.bitmap j ≡ marked whole.image.bitmap j)
      × (q.next_seq ≡ whole.next_seq)
      × IsSettled q
recover-again p w os bitmap done r sound midway =
    let undisturbed = recover-Recovered p w os r in
    let again = recover-Recovered (with_bitmap p bitmap) w os (record {
      slot = r.slot;
      watermark = keep-IsWatermark p.image p.image.wal bitmap r.slot w r.watermark;
      sound = sound;
      wal_len = r.wal_len;
      pending = r.pending;
      few = r.few;
      in_range = r.in_range;
      room = r.room;
      same_count = r.same_count;
      same_size = r.same_size;
    }) in
    (
      again.pool,
      undisturbed.pool,
      again.returns,
      undisturbed.returns,
      λ j.
          again.marks j
          ∙ run_effect-congr os _ _ j (midway j)
          ∙ run_effect-take (done j) os _ j
          ∙ sym (undisturbed.marks j),
      again.next ∙ sym undisturbed.next,
      again.settled,
    )
