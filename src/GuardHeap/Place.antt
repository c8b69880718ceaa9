-- ===== src/GuardHeap/Place.antt =====
-- Where the user's bytes of an allocation lie between the two guard pages.
use heapforge.Prelude.{
  ℕ, ◌+◌, ◌-◌, ◌*◌, ◌/◌, ◌%◌, ◌^◌, ◌≤◌, ◌<◌, ◌≡◌, ◌∙◌, ap, arith, bit_and, ltb, inl, inr,
  Bool-cases, add_word, sub_word, not_word,
}
use native.Mathlib.Nat.{pow-le-pow_right, one-le-pow, div-add-mod', mul-mod_left, mod-lt}
use heapforge.Prelude.Bits.{bit_and_high}
use heapforge.GuardHeap.{place_user}

-- The mask of an alignment rounds down to a multiple of it.
pub mask_lem :
    (k x : ℕ)
    → k ≤ 63
    → x < 2 ^ 64
    → let low = bit_and x (not_word (sub_word (2 ^ k) 1)) in
      (low % 2 ^ k ≡ 0) × (low ≤ x) × (x < low + 2 ^ k)
mask_lem k x small fits =
    let pos = one-le-pow k 2 (omega arith) in
    let top = pow-le-pow_right {n = 2} (omega arith) {i = k} {j = 63} small in
    let mask : not_word (sub_word (2 ^ k) 1) ≡ 2 ^ 64 - 2 ^ k = omega (arith, pos, top) in
    let high = bit_and_high 64 k x (omega arith) fits in
    let whole : bit_and x (2 ^ 64 - 2 ^ k) ≡ x / 2 ^ k * 2 ^ k =
      omega (arith, high, div-add-mod' x (2 ^ k)) in
    rw mask (
      ap (λ y. y % 2 ^ k) whole ∙ mul-mod_left (x / 2 ^ k) (2 ^ k),
      omega (arith, high),
      omega (arith, high, mod-lt x pos),
    )

-- The user's bytes of a guarded allocation lie in the data pages, at a multiple of the alignment,
-- and end less than the alignment before the protected page behind them, for an alignment that is a
-- power of two and divides the address of the data pages, a size that fits them, and a mapping
-- below the end of the address space.
pub place_user_lem :
    (page base data_pages size k : ℕ)
    → k ≤ 63
    → base + page + data_pages < 2 ^ 64
    → size ≤ data_pages
    → (base + page) % 2 ^ k ≡ 0
    → let user = place_user page base data_pages size (2 ^ k) in
      (base + page ≤ user)
      × (user + size ≤ base + page + data_pages)
      × (base + page + data_pages < user + size + 2 ^ k)
      × (user % 2 ^ k ≡ 0)
unfolding place_user
place_user_lem page base data_pages size k small fits room aligned =
    let start : add_word base page ≡ base + page = omega arith in
    let data_end : add_word (base + page) data_pages ≡ base + page + data_pages = omega arith in
    let x = base + page + data_pages - size in
    let at : sub_word (base + page + data_pages) size ≡ x = omega arith in
    let (round, below, near) = mask_lem k x small (omega arith) in
    let low = bit_and x (not_word (sub_word (2 ^ k) 1)) in
    elim (Bool-cases (ltb low (base + page))) [
      | inl before ↦
          rw (start, data_end, at, before)
            (omega arith, omega arith, ground (arith, before, near), aligned)
      | inr inside ↦
          rw (start, data_end, at, inside)
            (ground (arith, inside), omega (arith, below), omega (arith, near), round)
    ]
