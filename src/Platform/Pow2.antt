-- ===== src/Platform/Pow2.antt =====
-- Powers of two (`hf_next_pow2`) and the binary logarithm (`hf_log2_floor`).
use heapforge.Prelude.{ℕ, zero, suc, ◌+◌, ◌-◌, ◌/◌, ◌^◌, ◌≤◌, ◌<◌, ◌≡◌, ◌∙◌, arith, true}
use heapforge.Prelude.Bits.{test_bit, test_bit-bit_or, test_bit-div, bit_or-lt}
use heapforge.Platform.{smear, smear_all, next_pow2, log2_loop, log2_floor}
use native.Mathlib.Nat.{pow-le-pow_right, pow-suc, one-le-pow, div-le_self, le_trans}
use mathlib.Core.Bool.{or-true}
use native.Mathlib.Decide.{dec_lt}
use Prim.Native.Nat.{suc-le-suc}

-- `x` has `k + 1` bits, and the `t` highest of them are ones.
pub record Filled (x k t : ℕ) : Type 0 where
  pub below : x < 2 ^ suc k
  pub ones : (j : ℕ) → j ≤ k → k < j + t → test_bit x j ≡ true

pub smear-Filled : (x k t : ℕ) → Filled x k t → Filled (smear x t) k (t + t)
unfolding smear
smear-Filled x k t f = record {
  below =
      bit_or-lt (suc k) x (x / 2 ^ t) f.below
        (le_trans (suc-le-suc (div-le_self x (2 ^ t))) f.below);
  ones = λ j hj near. rw test_bit-bit_or (elim (dec_lt k (j + t)) [
    | yes own ↦ rw (f.ones j hj own)
    | no far ↦
        rw (test_bit-div, f.ones (t + j) (omega arith) (omega arith)) (or-true (test_bit x j))
  ]);
}

Filled-eq : (x k : ℕ) → Filled x k (suc k) → x + 1 ≡ 2 ^ suc k
unfolding test_bit
Filled-eq x zero f = ground (arith, f.ones 0)
Filled-eq x (suc k) f = ground (
  arith,
  f.ones 0,
  pow-suc 2 k,
  pow-suc 2 (suc k),
  Filled-eq (x / 2) k (record {
    below = omega (arith, f.below, pow-suc 2 (suc k));
    ones = λ j hj near. f.ones (suc j) (omega arith) (omega arith);
  }),
)

log2_loop_lem : (fuel k n r : ℕ) → k < fuel → 2 ^ k ≤ n → n < 2 ^ suc k → log2_loop fuel n r ≡ r + k
unfolding log2_loop
log2_loop_lem zero k n r h lo hi = absurd (omega arith)
log2_loop_lem (suc fuel) zero n r h lo hi = ground (arith)
log2_loop_lem (suc fuel) (suc k) n r h lo hi =
    ground
      (arith, log2_loop_lem fuel k (n / 2) (r + 1), pow-suc 2 k, pow-suc 2 (suc k), one-le-pow k 2)

-- `hf_log2_floor` of a 64-bit word in [2 ^ k, 2 ^ (k + 1)) is `k`; 64 rounds of its loop are
-- enough.
pub log2_floor_lem : (k n : ℕ) → k < 64 → 2 ^ k ≤ n → n < 2 ^ suc k → log2_floor n ≡ k
unfolding log2_floor
log2_floor_lem k n h lo hi = log2_loop_lem 64 k n 0 h lo hi ∙ omega arith

top_bit : (k x : ℕ) → 2 ^ k ≤ x → x < 2 ^ suc k → test_bit x k ≡ true
unfolding test_bit
top_bit zero x lo hi = ground arith
top_bit (suc k) x lo hi =
    top_bit k (x / 2) (omega (arith, pow-suc 2 k)) (omega (arith, pow-suc 2 (suc k)))

start-Filled : (x k : ℕ) → 2 ^ k ≤ x → x < 2 ^ suc k → Filled x k 1
start-Filled x k lo hi = record {
  below = hi;
  ones = λ j hj near. let e : j ≡ k = omega arith in rw e (top_bit k x lo hi);
}

-- Filled up to 64 bits, or as many as there are.
smear_all-Filled : (x k : ℕ) → Filled x k 1 → Filled (smear_all x) k 64
unfolding smear_all
smear_all-Filled x k f = smear-Filled _ k 32 (
    smear-Filled _ k 16
      (smear-Filled _ k 8 (smear-Filled _ k 4 (smear-Filled _ k 2 (smear-Filled x k 1 f)))))

-- `hf_next_pow2` of an `n` with 1 < n ≤ 2 ^ 63 is the least power of two that is not below `n`.
pub next_pow2_lem : (k n : ℕ) → k < 63 → 2 ^ k < n → n ≤ 2 ^ suc k → next_pow2 n ≡ 2 ^ suc k
unfolding next_pow2
next_pow2_lem k n h lo hi =
    let low : 1 ≤ 2 ^ k = one-le-pow k 2 (omega arith) in
    let f = smear_all-Filled (n - 1) k (start-Filled (n - 1) k (omega arith) (omega arith)) in
    let e =
      Filled-eq (smear_all (n - 1)) k
        (record { below = f.below; ones = λ j hj near. f.ones j hj (omega arith) }) in
    ground (arith, e, pow-le-pow_right {n = 2} (omega arith) {i = suc k} {j = 63} h)
