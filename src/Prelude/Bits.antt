-- ===== src/Prelude/Bits.antt =====
-- The bits of a word: what `&`, `|` and `~` do to each, and masks as arithmetic.
mod Step
use Step.{bit_and_step, bit_or_step}
use Prim.Native.Nat.{
  ℕ, zero, suc, ◌+◌, ◌-◌, ◌*◌, ◌/◌, ◌%◌, ◌^◌, ◌<◌, ◌≤◌, min, max, bit_and, bit_or, bit_and-bitwise,
}
use mathlib.Core.Path.{◌≡◌, refl, ap, ◌∙◌, sym}
use mathlib.Core.Bool.{Bool, true, false, not, ◌&&◌, ◌||◌}
use native.Mathlib.Nat.{
  pow-suc, pow-succ', div-div-eq-div-mul, one-le-pow, pow-le-pow_right, div-add-mod', mul_assoc,
}
use native.Mathlib.Omega.{arith}
use heapforge.Prelude.Tests.{◌==◌}

-- Bit `k` of `x`.
unfoldable pub test_bit : ℕ → ℕ → Bool
test_bit x zero = x % 2 == 1
test_bit x (suc k) = test_bit (x / 2) k

pub test_bit-zero : (k : ℕ) → test_bit 0 k ≡ false
unfolding test_bit
test_bit-zero zero = refl
test_bit-zero (suc k) = test_bit-zero k

min_bits : (a b : ℕ) → (min (a % 2) (b % 2) == 1) ≡ ((a % 2 == 1) && (b % 2 == 1))
min_bits a b = ground arith

max_bits : (a b : ℕ) → (max (a % 2) (b % 2) == 1) ≡ ((a % 2 == 1) || (b % 2 == 1))
max_bits a b = ground arith

pub test_bit-bit_and : (k a b : ℕ) → test_bit (bit_and a b) k ≡ (test_bit a k && test_bit b k)
unfolding test_bit
test_bit-bit_and zero a b =
    let e : bit_and a b % 2 ≡ min (a % 2) (b % 2) = omega (arith, bit_and_step a b) in
    rw e (min_bits a b)
test_bit-bit_and (suc k) a b =
    let e : bit_and a b / 2 ≡ bit_and (a / 2) (b / 2) = omega (arith, bit_and_step a b) in
    rw e (test_bit-bit_and k (a / 2) (b / 2))

pub test_bit-bit_or : (k a b : ℕ) → test_bit (bit_or a b) k ≡ (test_bit a k || test_bit b k)
unfolding test_bit
test_bit-bit_or zero a b =
    let e : bit_or a b % 2 ≡ max (a % 2) (b % 2) = omega (arith, bit_or_step a b) in
    rw e (max_bits a b)
test_bit-bit_or (suc k) a b =
    let e : bit_or a b / 2 ≡ bit_or (a / 2) (b / 2) = omega (arith, bit_or_step a b) in
    rw e (test_bit-bit_or k (a / 2) (b / 2))

-- `1 << k` has bit `k` alone.
pub test_bit-pow : (k j : ℕ) → test_bit (2 ^ k) j ≡ (k == j)
unfolding test_bit
test_bit-pow zero zero = refl
test_bit-pow zero (suc j) = test_bit-zero j ∙ ground arith
test_bit-pow (suc k) zero =
    let e : 2 ^ suc k % 2 ≡ 0 = omega (arith, pow-suc 2 k) in rw e (ground arith)
test_bit-pow (suc k) (suc j) =
    let e : 2 ^ suc k / 2 ≡ 2 ^ k = omega (arith, pow-suc 2 k) in
    rw e (test_bit-pow k j ∙ ground arith)

-- `~x` in `w` bits flips each of them.
pub test_bit-compl :
    (w k x : ℕ) → k < w → x < 2 ^ w → test_bit (2 ^ w - 1 - x) k ≡ not (test_bit x k)
unfolding test_bit
test_bit-compl zero k x h small = absurd (omega arith)
test_bit-compl (suc w) zero x h small =
    let e : (2 ^ suc w - 1 - x) % 2 ≡ 1 - x % 2 = omega (arith, pow-suc 2 w) in rw e (ground arith)
test_bit-compl (suc w) (suc k) x h small =
    let e : (2 ^ suc w - 1 - x) / 2 ≡ 2 ^ w - 1 - x / 2 = omega (arith, pow-suc 2 w) in
    rw e (test_bit-compl w k (x / 2) (omega arith) (omega (arith, pow-suc 2 w)))

pub bit_and-lt : (w a b : ℕ) → a < 2 ^ w → bit_and a b < 2 ^ w
bit_and-lt zero a b h = let e : a ≡ 0 = omega arith in rw e (omega (arith, bit_and-bitwise 0 b))
bit_and-lt (suc w) a b h = omega (
  arith,
  bit_and_step a b,
  bit_and-lt w (a / 2) (b / 2) (omega (arith, pow-suc 2 w)),
  pow-suc 2 w,
)

pub bit_or-lt : (w a b : ℕ) → a < 2 ^ w → b < 2 ^ w → bit_or a b < 2 ^ w
bit_or-lt zero a b h k =
    let e : a ≡ 0 = omega arith in let f : b ≡ 0 = omega arith in rw (e, f) (omega arith)
bit_or-lt (suc w) a b h k =
    let ih =
      bit_or-lt w (a / 2) (b / 2) (omega (arith, pow-suc 2 w)) (omega (arith, pow-suc 2 w)) in
    omega (arith, bit_or_step a b, ih, pow-suc 2 w)

-- Reading bit `k` by a shift.
pub test_bit-shift : (k x : ℕ) → test_bit x k ≡ (x / 2 ^ k % 2 == 1)
unfolding test_bit
test_bit-shift zero x = let e : x / 2 ^ zero ≡ x = omega arith in rw e
test_bit-shift (suc k) x =
    let e : x / 2 ^ suc k ≡ x / 2 / 2 ^ k = rw (pow-succ', div-div-eq-div-mul) in
    rw e (test_bit-shift k (x / 2))

bit_and-zero : (w x : ℕ) → x < 2 ^ w → bit_and x 0 ≡ 0
bit_and-zero zero x h = let e : x ≡ 0 = omega arith in rw e (omega (arith, bit_and-bitwise 0 0))
bit_and-zero (suc w) x h =
    omega (arith, bit_and_step x 0, bit_and-zero w (x / 2) (omega (arith, pow-suc 2 w)))

-- Reading bit `k` by the mask `1 << k`.
pub test_bit-mask : (w k x : ℕ) → x < 2 ^ w → (bit_and x (2 ^ k) == 0) ≡ not (test_bit x k)
unfolding test_bit
test_bit-mask zero k x h =
    let e : x ≡ 0 = omega arith in
    let z : bit_and 0 (2 ^ k) ≡ 0 = bit_and-bitwise 0 (2 ^ k) in rw (e, z, test_bit-zero k)
test_bit-mask (suc w) zero x h =
    ground (arith, bit_and_step x 1, bit_and-zero w (x / 2) (omega (arith, pow-suc 2 w)))
test_bit-mask (suc w) (suc k) x h =
    let e : 2 ^ suc k / 2 ≡ 2 ^ k = omega (arith, pow-suc 2 k) in
    let z : 2 ^ suc k % 2 ≡ 0 = omega (arith, pow-suc 2 k) in
    let ih = test_bit-mask w k (x / 2) (omega (arith, pow-suc 2 w)) in
    ground (arith, bit_and_step x (2 ^ suc k), e, z, ih)

pub mod-pow-suc : (k x : ℕ) → x % 2 ^ suc k ≡ x / 2 % 2 ^ k * 2 + x % 2
mod-pow-suc k x =
    let m = 2 ^ k in
    let q : x / 2 ^ suc k ≡ x / 2 / m = rw (pow-succ', div-div-eq-div-mul) in
    let d : x / 2 / m * 2 ^ suc k + x % 2 ^ suc k ≡ x = rw q at (div-add-mod' x (2 ^ suc k)) in
    let p : x / 2 / m * 2 ^ suc k ≡ x / 2 / m * m * 2 = rw (pow-suc 2 k) (sym (mul_assoc _ _ _)) in
    omega (arith, d, p, div-add-mod' (x / 2) m)

-- The mask of all but the lowest `k` of `w` bits clears those bits.
pub bit_and_high : (w k x : ℕ) → k ≤ w → x < 2 ^ w → bit_and x (2 ^ w - 2 ^ k) + x % 2 ^ k ≡ x
bit_and_high zero k x h small =
    let e : x ≡ 0 = omega arith in rw e (omega (arith, bit_and-bitwise 0 (2 ^ 0 - 2 ^ k)))
bit_and_high (suc w) zero x h small =
    let ih = bit_and_high w 0 (x / 2) (omega arith) (omega (arith, pow-suc 2 w)) in
    let e : (2 ^ suc w - 1) / 2 ≡ 2 ^ w - 1 = omega (arith, pow-suc 2 w, one-le-pow w 2) in
    let m : (2 ^ suc w - 1) % 2 ≡ 1 = omega (arith, pow-suc 2 w, one-le-pow w 2) in
    ground (arith, bit_and_step x (2 ^ suc w - 1), e, m, ih)
bit_and_high (suc w) (suc k) x h small =
    let ih = bit_and_high w k (x / 2) (omega arith) (omega (arith, pow-suc 2 w)) in
    let n = 2 ^ suc w - 2 ^ suc k in
    let e : n / 2 ≡ 2 ^ w - 2 ^ k = omega (arith, pow-suc 2 w, pow-suc 2 k) in
    let m : n % 2 ≡ 0 = omega (arith, pow-suc 2 w, pow-suc 2 k) in
    ground (arith, bit_and_step x n, e, m, ih, mod-pow-suc k x)

lt-two_pow : (n : ℕ) → n < 2 ^ n
lt-two_pow zero = omega arith
lt-two_pow (suc n) = omega (arith, lt-two_pow n, pow-suc 2 n)

-- The mask of the lowest `k` bits is the remainder.
pub bit_and_low : (k x : ℕ) → bit_and x (2 ^ k - 1) ≡ x % 2 ^ k
bit_and_low zero x = let e : x % 2 ^ 0 ≡ 0 = omega arith in rw e (bit_and-zero x x (lt-two_pow x))
bit_and_low (suc k) x =
    let e : (2 ^ suc k - 1) / 2 ≡ 2 ^ k - 1 = omega (arith, pow-suc 2 k, one-le-pow k 2) in
    let m : (2 ^ suc k - 1) % 2 ≡ 1 = omega (arith, pow-suc 2 k, one-le-pow k 2) in
    ground (arith, bit_and_step x (2 ^ suc k - 1), e, m, bit_and_low k (x / 2), mod-pow-suc k x)

-- A shift right moves each bit down.
pub test_bit-div : (t x j : ℕ) → test_bit (x / 2 ^ t) j ≡ test_bit x (t + j)
unfolding test_bit
test_bit-div zero x j =
    let e : x / 2 ^ zero ≡ x = omega arith in let f : zero + j ≡ j = omega arith in rw (e, f)
test_bit-div (suc t) x j =
    let e : x / 2 ^ suc t ≡ x / 2 / 2 ^ t = rw (pow-succ', div-div-eq-div-mul) in
    let f : suc t + j ≡ suc (t + j) = omega arith in rw (e, f) (test_bit-div t (x / 2) j)

-- A remainder of zero has no low bits.
pub test_bit-low : (w k x : ℕ) → k < w → x % 2 ^ w ≡ 0 → test_bit x k ≡ false
unfolding test_bit
test_bit-low zero k x h e = absurd (omega arith)
test_bit-low (suc w) zero x h e = ground (arith, mod-pow-suc w x)
test_bit-low (suc w) (suc k) x h e =
    test_bit-low w k (x / 2) (omega arith) (omega (arith, mod-pow-suc w x))

-- The bits of a word end at its width.
pub test_bit-high : (w k x : ℕ) → w ≤ k → x < 2 ^ w → test_bit x k ≡ false
unfolding test_bit
test_bit-high zero k x h small = let e : x ≡ 0 = omega arith in rw e (test_bit-zero k)
test_bit-high (suc w) zero x h small = absurd (omega arith)
test_bit-high (suc w) (suc k) x h small =
    test_bit-high w k (x / 2) (omega arith) (omega (arith, pow-suc 2 w))

-- The low `w + v` bits, from the low `w` and the `v` above them.
pub mod-pow-add : (w v x : ℕ) → x % 2 ^ (w + v) ≡ x / 2 ^ w % 2 ^ v * 2 ^ w + x % 2 ^ w
mod-pow-add zero v x =
    let e : zero + v ≡ v = omega arith in
    let f : x / 2 ^ zero ≡ x = omega arith in rw (e, f) (omega arith)
mod-pow-add (suc w) v x =
    let e : suc w + v ≡ suc (w + v) = omega arith in
    let q : x / 2 ^ suc w ≡ x / 2 / 2 ^ w = rw (pow-succ', div-div-eq-div-mul) in
    let r = x / 2 / 2 ^ w % 2 ^ v in
    let p : r * 2 ^ suc w ≡ r * 2 ^ w * 2 = rw (pow-suc 2 w) (sym (mul_assoc _ _ _)) in
    rw (e, q) (omega (arith, mod-pow-suc (w + v) x, mod-pow-suc w x, mod-pow-add w v (x / 2), p))

-- A mask of ones with one zero clears that bit.
pub bit_and-clear :
    (w o x : ℕ) → o < w → x < 2 ^ w → bit_and x (2 ^ w - 1 - 2 ^ o) + x / 2 ^ o % 2 * 2 ^ o ≡ x
bit_and-clear zero o x lt small = absurd (omega arith)
bit_and-clear (suc w) zero x lt small =
    let mask : 2 ^ suc w - 1 - 2 ^ 0 ≡ 2 ^ suc w - 2 ^ 1 = omega arith in
    rw mask (omega (arith, bit_and_high (suc w) 1 x (omega arith) small))
bit_and-clear (suc w) (suc o) x lt small =
    let room = pow-le-pow_right {n = 2} (omega arith) {i = suc o} {j = w} (omega arith) in
    let m = 2 ^ suc w - 1 - 2 ^ suc o in
    let half : m / 2 ≡ 2 ^ w - 1 - 2 ^ o = omega (arith, pow-suc 2 w, pow-suc 2 o, room) in
    let odd : m % 2 ≡ 1 = omega (arith, pow-suc 2 w, pow-suc 2 o, room) in
    let ih = bit_and-clear w o (x / 2) (omega arith) (omega (arith, pow-suc 2 w)) in
    let q : x / 2 ^ suc o ≡ x / 2 / 2 ^ o = rw (pow-succ', div-div-eq-div-mul) in
    let r = x / 2 / 2 ^ o % 2 in
    let p : r * 2 ^ suc o ≡ r * 2 ^ o * 2 = rw (pow-suc 2 o) (sym (mul_assoc _ _ _)) in
    let s : bit_and x m ≡ bit_and (x / 2) (2 ^ w - 1 - 2 ^ o) * 2 + min (x % 2) 1 =
      rw (half, odd) at (bit_and_step x m) in
    rw q (omega (arith, s, ih, p))

pub bit_or_zero : (w a : ℕ) → a < 2 ^ w → bit_or a 0 ≡ a
bit_or_zero zero a h = let e : a ≡ 0 = omega arith in rw e refl
bit_or_zero (suc w) a h =
    let ih = bit_or_zero w (a / 2) (omega (arith, pow-suc 2 w)) in
    omega (arith, bit_or_step a 0, ih)

-- Setting the lowest bit of an even number.
pub bit_or_one : (w a : ℕ) → a < 2 ^ w → a % 2 ≡ 0 → bit_or a 1 ≡ a + 1
bit_or_one zero a h even = let e : a ≡ 0 = omega arith in rw e refl
bit_or_one (suc w) a h even =
    let low = bit_or_zero w (a / 2) (omega (arith, pow-suc 2 w)) in
    omega (arith, bit_or_step a 1, low)
