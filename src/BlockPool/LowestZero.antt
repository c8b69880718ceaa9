-- ===== src/BlockPool/LowestZero.antt =====
-- `lowest_zero` finds the lowest zero bit of a word by halving.
use heapforge.Prelude.{
  ℕ, ◌+◌, ◌-◌, ◌%◌, ◌^◌, ◌≤◌, ◌<◌, ◌≡◌, ◌≢◌, refl, sym, ◌∙◌, arith, true, false, not, bit_and, ◌==◌,
  not_word, inl, inr, Bool-cases, ==→eq, ==_iff, ap, Bool,
}
use heapforge.Prelude.Bits.{
  test_bit, bit_and_low, test_bit-compl, test_bit-div, test_bit-low, test_bit-high, mod-pow-add,
}
use heapforge.BlockPool.{narrow, lowest_zero}
use native.Mathlib.Decide.{dec_lt}

-- The state (n, inv) stands for the word `x`, shifted by `n`: the bits below `n` are zero, bits
-- from `n` on are those of `inv`, and the lowest one of `inv` is among its low `w` bits.
pub record Scans (x w : ℕ) (s : ℕ × ℕ) : Type 0 where
  pub skipped : (j : ℕ) → j < s.0 → test_bit x j ≡ false
  pub shifted : (j : ℕ) → test_bit s.1 j ≡ test_bit x (s.0 + j)
  pub found : s.1 % 2 ^ w ≢ 0

narrow-Scans : (x w : ℕ) (s : ℕ × ℕ) → Scans x (w + w) s → Scans x w (narrow w s)
unfolding narrow
narrow-Scans x w (n, inv) h = elim (Bool-cases (bit_and inv (2 ^ w - 1) == 0)) [
  | inl e ↦
      let low : inv % 2 ^ w ≡ 0 = sym (bit_and_low w inv) ∙ ==→eq _ _ e in
      rw e (record {
        skipped = λ j hj. elim (dec_lt j n) [
          | yes old ↦ h.skipped j old
          | no new ↦ skipped_new j low hj (omega arith)
        ];
        shifted = λ j. test_bit-div w inv j ∙ h.shifted (w + j) ∙ ap (test_bit x) (omega arith);
        found = λ z. h.found (mod-pow-add w w inv ∙ rw (z, low) (omega arith));
      })
  | inr e ↦ rw e (record {
    skipped = h.skipped;
    shifted = h.shifted;
    found = λ z. true-ne-false ((==_iff _ 0).1 (bit_and_low w inv ∙ z)) e;
  })
]
  where
    skipped_new : (j : ℕ) → inv % 2 ^ w ≡ 0 → j < n + w → n ≤ j → test_bit x j ≡ false
    skipped_new j low hj hn =
        let at : n + (j - n) ≡ j = omega arith in
        rw (sym at) (sym (h.shifted (j - n)) ∙ test_bit-low w (j - n) inv (omega arith) low)

    true-ne-false : {b : Bool} → b ≡ true → b ≡ false → ⊥
    true-ne-false p q = cc

start-Scans : (x : ℕ) → x < 2 ^ 64 → x ≢ 0 → Scans x 64 (0, x)
start-Scans x small nz = record {
  skipped = λ j hj. absurd (omega arith);
  shifted = λ j. ap (test_bit x) (omega arith);
  found = omega arith;
}

Scans-end : (x : ℕ) (s : ℕ × ℕ) → Scans x 1 s → test_bit x s.0 ≡ true
unfolding test_bit
Scans-end x (n, inv) h =
    let e : n + 0 ≡ n = omega arith in rw (sym e) (sym (h.shifted 0) ∙ ground (arith, h.found))

six_lines :
    (bits : ℕ)
    → bits < 2 ^ 64 - 1
    → (s : ℕ × ℕ) × Scans (not_word bits) 1 s × (lowest_zero bits ≡ s.0)
unfolding lowest_zero
six_lines bits h =
    let x = not_word bits in
    (
      _,
      narrow-Scans x 1 _ (
          narrow-Scans x 2 _ (
            narrow-Scans x 4 _ (
              narrow-Scans x 8 _ (
                narrow-Scans x 16 _
                  (narrow-Scans x 32 _ (start-Scans x (omega arith) (omega arith))))))),
      refl,
    )

-- `lowest_zero` of a word that is not all ones is the index of its lowest zero bit.
pub lowest_zero_lem :
    (bits : ℕ)
    → bits < 2 ^ 64 - 1
    → (lowest_zero bits < 64)
      × (test_bit bits (lowest_zero bits) ≡ false)
      × ((j : ℕ) → j < lowest_zero bits → test_bit bits j ≡ true)
lowest_zero_lem bits h =
    let x = not_word bits in
    let (s, scans, e) = six_lines bits h in
    let top : test_bit x s.0 ≡ true = Scans-end x s scans in
    let small : s.0 < 64 = below s.0 top in
    let flip = λ (j : ℕ) (hj : j < 64). test_bit-compl 64 j bits hj (omega arith) in
    rw e (
      small,
      not_true (sym (flip s.0 small) ∙ top),
      λ j hj. not_false (sym (flip j (omega arith)) ∙ scans.skipped j hj),
    )
  where
    below : (n : ℕ) → test_bit (not_word bits) n ≡ true → n < 64
    below n t = elim (dec_lt n 64) [
      | yes p ↦ p
      | no q ↦ cc (test_bit-high 64 n (not_word bits) (omega arith) (omega arith))
    ]

    not_true : {b : Bool} → not b ≡ true → b ≡ false
    not_true {b} p = ground arith

    not_false : {b : Bool} → not b ≡ false → b ≡ true
    not_false {b} p = ground arith
