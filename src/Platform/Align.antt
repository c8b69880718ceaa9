-- ===== src/Platform/Align.antt =====
-- Rounding up to an alignment (`hf_align_up`).
use heapforge.Prelude.{
  ℕ, true, bit_and, ne→==, ◌∙◌, refl, ◌+◌, ◌-◌, ◌*◌, ◌/◌, ◌%◌, ◌^◌, ◌≤◌, ◌<◌, ◌≡◌, arith, add_word,
  sub_word, not_word,
}
use heapforge.Prelude.Bits.{bit_and_high, bit_and_low}
use heapforge.Platform.{is_pow2, align_up, default_align}
use native.Mathlib.Nat.{pow-le-pow_right, one-le-pow, mod_self, mod-lt, div-add-mod', mul-mod_left}

pub pow-le-word : (k : ℕ) → k ≤ 63 → 2 ^ k ≤ 2 ^ 63
pow-le-word k h = pow-le-pow_right (omega arith) h

-- Rounding up is dropping the remainder of `n + 2 ^ k - 1`.
pub align_up-add-mod :
    (n k : ℕ)
    → k ≤ 63
    → n + 2 ^ k ≤ 2 ^ 64
    → align_up n (2 ^ k) + (n + 2 ^ k - 1) % 2 ^ k ≡ n + 2 ^ k - 1
unfolding align_up
align_up-add-mod n k h small =
    let low : 1 ≤ 2 ^ k = one-le-pow k 2 (omega arith) in
    let high : 2 ^ k ≤ 2 ^ 63 = pow-le-word k h in
    let sum : sub_word (add_word n (2 ^ k)) 1 ≡ n + 2 ^ k - 1 = omega arith in
    let mask : not_word (sub_word (2 ^ k) 1) ≡ 2 ^ 64 - 2 ^ k = omega arith in
    rw (sum, mask) (bit_and_high 64 k (n + 2 ^ k - 1) (omega arith) (omega arith))

-- `hf_align_up` to a power of two is, if `n + align` does not overflow, a multiple of the
-- alignment, at least `n`, and less than `n + align`.
pub align_up_lem :
    (n k : ℕ)
    → k ≤ 63
    → n + 2 ^ k ≤ 2 ^ 64
    → (align_up n (2 ^ k) % 2 ^ k ≡ 0) × (n ≤ align_up n (2 ^ k)) × (align_up n (2 ^ k) < n + 2 ^ k)
align_up_lem n k h small =
    let y = n + 2 ^ k - 1 in
    let low : 1 ≤ 2 ^ k = one-le-pow k 2 (omega arith) in
    let kept = align_up-add-mod n k h small in
    let whole : align_up n (2 ^ k) ≡ y / 2 ^ k * 2 ^ k = omega (arith, div-add-mod' y (2 ^ k)) in
    let rest : y % 2 ^ k < 2 ^ k = mod-lt y low in
    (rw (whole, mul-mod_left), omega arith, omega arith)

pub default_align_lem :
    (n : ℕ)
    → n + 16 ≤ 2 ^ 64
    → (align_up n default_align % 16 ≡ 0)
      × (n ≤ align_up n default_align)
      × (align_up n default_align < n + 16)
default_align_lem n h = align_up_lem n 4 (omega arith) h

pub is_pow2_lem : (k : ℕ) → k ≤ 63 → is_pow2 (2 ^ k) ≡ true
unfolding is_pow2
is_pow2_lem k h =
    let low : 1 ≤ 2 ^ k = one-le-pow k 2 (omega arith) in
    let high : 2 ^ k ≤ 2 ^ 63 = pow-le-word k h in
    let some_bit = ne→== (2 ^ k) 0 (λ z. omega (arith, z, low)) in
    let less : sub_word (2 ^ k) 1 ≡ 2 ^ k - 1 = omega (arith, low, high) in
    let none_left : bit_and (2 ^ k) (2 ^ k - 1) ≡ 0 = bit_and_low k (2 ^ k) ∙ mod_self (2 ^ k) in
    rw (some_bit, less, none_left) refl
