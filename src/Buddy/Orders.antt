-- ===== src/Buddy/Orders.antt =====
-- The order of the blocks that a request gets.
use heapforge.Prelude.{ℕ, suc, ◌^◌, ◌≤◌, ◌<◌, ◌≡◌, inl, inr, ◌∙◌, ap, arith, ltb, Bool-cases}
use native.Mathlib.Nat.{pow-le-pow_right, pow-suc, one-le-pow}
use heapforge.Platform.{next_pow2, log2_floor}
use heapforge.Platform.Pow2.{next_pow2_lem, log2_floor_lem}
use heapforge.Buddy.{order_for}

-- `order_for` of a number of bytes in (2 ^ k, 2 ^ (k + 1)] with k < 63 is the least order that is
-- large enough and not below the smallest order.
pub order_for_lem :
    (min_order k bytes : ℕ)
    → k < 63
    → 2 ^ k < bytes
    → bytes ≤ 2 ^ suc k
    → let o = order_for min_order bytes in
      (bytes ≤ 2 ^ o) × (min_order ≤ o) × ((j : ℕ) → bytes ≤ 2 ^ j → min_order ≤ j → o ≤ j)
unfolding order_for
order_for_lem min_order k bytes small lo hi =
    let power : log2_floor (next_pow2 bytes) ≡ suc k =
      ap log2_floor (next_pow2_lem k bytes small lo hi)
      ∙ log2_floor_lem (suc k) (2 ^ suc k) (omega arith) (omega arith)
          (omega (arith, pow-suc 2 (suc k), one-le-pow (suc k) 2 (omega arith))) in
    elim (Bool-cases (ltb (suc k) min_order)) [
      | inl less ↦
          rw (power, less)
            (
              let up =
                    pow-le-pow_right {n = 2} (omega arith) {i = suc k} {j = min_order}
                      (ground (arith, less)) in
                  omega (arith, up),
              omega arith,
              λ j _ h. h,
            )
      | inr more ↦ rw (power, more) (hi, ground (arith, more), λ j room _. least j room)
    ]
  where
    least : (j : ℕ) → bytes ≤ 2 ^ j → suc k ≤ j
    least j room = elim (Bool-cases (ltb k j)) [
      | inl h ↦ ground (arith, h)
      | inr h ↦ absurd (
          let up = pow-le-pow_right {n = 2} (omega arith) {i = j} {j = k} (ground (arith, h)) in
          omega (arith, up))
    ]
