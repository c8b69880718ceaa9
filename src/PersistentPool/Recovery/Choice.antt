-- ===== src/PersistentPool/Recovery/Choice.antt =====
-- `recover` finds the watermark, and rebuilds `used_blocks` from the bitmap.
use heapforge.Prelude.{
  ℕ, zero, suc, ◌+◌, ◌^◌, ◌≤◌, ◌<◌, ◌≡◌, ◌∙◌, ap, arith, List, if◌then◌else◌, add_word,
}
use native.Mathlib.Numerals.{add-one}
use heapforge.Prelude.Count.{count_below, count_below-le}
use heapforge.PersistentPool.{Image, Slot, first, second, consider, best_slot, bit_test}
use heapforge.PersistentPool.Effect.{marked, bit_test-marked}
use heapforge.PersistentPool.Settled.{IsWatermark}
use heapforge.PersistentPool.Recovery.{count_bits}

-- The slot that holds the watermark is the one that is chosen.
pub best_slot-eq : (m : Image) (i : Slot) (w : ℕ) → IsWatermark m i w → best_slot m ≡ (i, w)
unfolding best_slot consider
best_slot-eq m first w h = ground arith
best_slot-eq m second w h = ground arith

count_step :
    (bitmap : List ℕ) (i : ℕ)
    → i < 2 ^ 32
    → (if bit_test bitmap i
        then add_word (count_below i (marked bitmap)) 1
        else count_below i (marked bitmap))
      ≡ count_below (suc i) (marked bitmap)
unfolding count_below
count_step bitmap i h = ground (arith, bit_test-marked bitmap i, count_below-le i (marked bitmap))

count_from :
    (bitmap : List ℕ) (rounds i : ℕ)
    → i + rounds ≤ 2 ^ 32
    → count_bits bitmap rounds i (count_below i (marked bitmap))
      ≡ count_below (i + rounds) (marked bitmap)
unfolding count_bits
count_from bitmap zero i h = ap (λ k. count_below k (marked bitmap)) (omega arith)
count_from bitmap (suc rounds) i h =
    let most = count_below-le i (marked bitmap) in
    let step : (if bit_test bitmap i
          then add_word (count_below i (marked bitmap)) 1
          else count_below i (marked bitmap))
        ≡ count_below (i + 1) (marked bitmap) =
      rw (add-one i) (count_step bitmap i (omega arith)) in
    let end : i + 1 + rounds ≡ i + suc rounds = omega arith in
    rw (step, ← end) (count_from bitmap rounds (i + 1) (omega arith))

pub count_bits-eq :
    (bitmap : List ℕ) (n : ℕ) → n ≤ 2 ^ 32 → count_bits bitmap n 0 0 ≡ count_below n (marked bitmap)
unfolding count_below
count_bits-eq bitmap n h =
    count_from bitmap n 0 (omega arith) ∙ ap (λ k. count_below k (marked bitmap)) (omega arith)
