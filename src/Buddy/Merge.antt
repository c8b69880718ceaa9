-- ===== src/Buddy/Merge.antt =====
-- Coalescing: the offset of a merged block.
use heapforge.Prelude.{
  ℕ, zero, suc, ◌+◌, ◌*◌, ◌/◌, ◌%◌, ◌^◌, ◌≤◌, ◌<◌, ◌≡◌, ◌⊎◌, inl, inr, ◌∙◌, ap, arith, bit_and, ltb,
  Bool-cases, ◌&&◌, not_word, bit_xor, add_word,
}
use native.Mathlib.Nat.{pow-suc, div-add-mod', mul-mod_left}
use heapforge.Prelude.Bits.{bit_and-clear}
use heapforge.Buddy.{Buddy, merge, is_free_at, unlink}

-- A block with the bytes of another.
pub record Contains (off order top off' order' : ℕ) : Type 0 where
  pub grown : order ≤ order'
  pub bounded : order' ≤ order ⊎ order' ≤ top
  pub aligned : off' % 2 ^ order' ≡ 0
  pub from_below : off' ≤ off
  pub to_above : off + 2 ^ order ≤ off' + 2 ^ order'

unlink-max_order : (a : Buddy) (n order : ℕ) → (unlink a n order).max_order ≡ a.max_order
unfolding unlink
unlink-max_order a n order = ground arith

pair_up : (h b p : ℕ) → (h * 2 + b) * p ≡ h * (p * 2) + b * p
pair_up h b p = grind arith

at_most_one : (b p : ℕ) → b < 2 → b * p ≤ p
at_most_one zero p lt = omega arith
at_most_one (suc zero) p lt = let one : suc zero * p ≡ p = grind arith in omega (arith, one)
at_most_one (suc (suc b)) p lt = absurd (omega arith)

-- Where the bit of the order is cleared, the two buddies begin.
clear_lem :
    (off order : ℕ)
    → off < 2 ^ 64
    → order < 64
    → off % 2 ^ order ≡ 0
    → let low = bit_and off (not_word (2 ^ order)) in
      (low % 2 ^ suc order ≡ 0) × (low ≤ off) × (off ≤ low + 2 ^ order)
clear_lem off order small lt aligned =
    let q = off / 2 ^ order in
    let whole : q * 2 ^ order ≡ off = omega (arith, div-add-mod' off (2 ^ order), aligned) in
    let bit = bit_and-clear 64 order off lt small in
    let low = bit_and off (not_word (2 ^ order)) in
    let is : low + q % 2 * 2 ^ order ≡ off = bit in
    let half : q ≡ q / 2 * 2 + q % 2 = omega arith in
    let split : q * 2 ^ order ≡ q / 2 * (2 ^ order * 2) + q % 2 * 2 ^ order =
      ap (λ k. k * 2 ^ order) half ∙ pair_up (q / 2) (q % 2) (2 ^ order) in
    let power : q / 2 * 2 ^ suc order ≡ q / 2 * (2 ^ order * 2) =
      ap (λ k. q / 2 * k) (pow-suc 2 order) in
    let pairs : low ≡ q / 2 * 2 ^ suc order = omega (arith, is, whole, split, power) in
    let one = at_most_one (q % 2) (2 ^ order) (omega arith) in
    (
      ap (λ x. x % 2 ^ suc order) pairs ∙ mul-mod_left (q / 2) (2 ^ suc order),
      omega (arith, is),
      omega (arith, is, one),
    )

-- The loop of `bd_deallocate`, for a greatest order below 64 and a block at a multiple of its size,
-- ends with a block at a multiple of its size that contains the first one and does not exceed the
-- greatest order, unless the first one does.
pub merge-Contains :
    (a : Buddy) (rounds off order : ℕ)
    → a.max_order < 64
    → off < 2 ^ 64
    → off % 2 ^ order ≡ 0
    → let (off', order', _) = merge a rounds off order in Contains off order a.max_order off' order'
unfolding merge
merge-Contains a zero off order top small aligned = record {
  grown = omega arith;
  bounded = inl (omega arith);
  aligned = aligned;
  from_below = omega arith;
  to_above = omega arith;
}
merge-Contains a (suc rounds) off order top small aligned =
    let buddy = add_word a.mem (bit_xor off (2 ^ order)) in
    elim (Bool-cases (ltb order a.max_order && is_free_at a buddy order)) [
      | inr stops ↦ rw stops (record {
        grown = omega arith;
        bounded = inl (omega arith);
        aligned = aligned;
        from_below = omega arith;
        to_above = omega arith;
      })
      | inl joins ↦
          let below : order < a.max_order = ground (arith, joins) in
          let kept = unlink-max_order a buddy order in
          let (round, down, up) = clear_lem off order small (omega arith) aligned in
          let next : order + 1 ≡ suc order = omega arith in
          let c =
            merge-Contains (unlink a buddy order) rounds (bit_and off (not_word (2 ^ order)))
              (order + 1) (omega (arith, kept)) (omega (arith, down))
              (ap (λ k. bit_and off (not_word (2 ^ order)) % 2 ^ k) next ∙ round) in
          let power : 2 ^ (order + 1) ≡ 2 ^ order * 2 = ap (λ k. 2 ^ k) next ∙ pow-suc 2 order in
          rw joins (record {
            grown = omega (arith, c.grown);
            bounded =
                inr (elim c.bounded [ inl h ↦ omega (arith, h) | inr h ↦ omega (arith, h, kept) ]);
            aligned = c.aligned;
            from_below = omega (arith, c.from_below, down);
            to_above = omega (arith, c.to_above, up, power);
          })
    ]
