-- ===== src/PersistentPool/Effect.antt =====
-- The bitmap of the pool: what setting and clearing a bit does to the set of blocks in use and to
-- `used_blocks`.
use heapforge.Prelude.{
  ℕ, ◌+◌, ◌-◌, ◌/◌, ◌%◌, ◌^◌, ◌≤◌, ◌<◌, ◌≡◌, sym, ◌∙◌, arith, bit_and, bit_or, Bool, true, false,
  not, ◌&&◌, ◌||◌, ◌==◌, if◌then◌else◌, List, length, length-set, get_or, set, get_or-set_self,
  get_or-set_ne, Bool-cases, inl, inr, add_word, sub_word,
}
use heapforge.Prelude.Bits.{
  test_bit, test_bit-shift, bit_and_low, test_bit-bit_or, test_bit-bit_and, test_bit-pow,
  test_bit-compl, bit_or-lt, bit_and-lt,
}
use heapforge.Prelude.Count.{count_below, count_below-add, count_below-sub, count_below-le}
use heapforge.PersistentPool.{op_alloc, bit_test, bit_set, bit_clear, apply_bits}
use native.Mathlib.Decide.{ℕ_discrete}
use native.Mathlib.Nat.{pow-le-pow_right}

-- Block `j` is marked as in use.
abbrev pub marked : List ℕ → ℕ → Bool
marked bitmap j = test_bit (get_or bitmap (j / 8) 0) (j % 8)

abbrev pub IsBytes : List ℕ → Type 0
IsBytes bitmap = (i : ℕ) → get_or bitmap i 0 < 2 ^ 8

-- The bitmap and the counter of a pool of `n` blocks, in agreement.
pub record IsSound (n : ℕ) (b : List ℕ × ℕ) : Type 0 where
  pub small : n ≤ 2 ^ 32
  pub bitmap_len : length b.0 ≡ (n + 7) / 8
  pub bytes : IsBytes b.0
  pub used_eq : b.1 ≡ count_below n (marked b.0)

-- What an operation means for the set of blocks in use: 1 adds the block, all else removes it.
abbrev pub effect : (op index : ℕ) → (ℕ → Bool) → ℕ → Bool
effect op index f j = if op == op_alloc then (j == index) || f j else not (j == index) && f j

mask_small : (k : ℕ) → k < 8 → 2 ^ k ≤ 2 ^ 7
mask_small k h = pow-le-pow_right (omega arith) {j = 7} (omega arith)

pub bit_test-marked : (bitmap : List ℕ) (i : ℕ) → bit_test bitmap i ≡ marked bitmap i
unfolding bit_test
bit_test-marked bitmap i =
    let x = get_or bitmap (i / 8) 0 in
    let e : bit_and (x / 2 ^ (i % 8)) 1 ≡ x / 2 ^ (i % 8) % 2 = bit_and_low 1 (x / 2 ^ (i % 8)) in
    ground (arith, e, test_bit-shift (i % 8) x)

and_flip :
    (b : Bool) (m k : ℕ) (same : Bool) → same ≡ (m == k) → (b && not (m == k)) ≡ (not same && b)
and_flip true m k same e = ground arith
and_flip false m k same e = ground arith

module _ (bitmap : List ℕ) (i : ℕ) (bytes : IsBytes bitmap) (inside : i / 8 < length bitmap) where
  pub marked-bit_set : (j : ℕ) → marked (bit_set bitmap i) j ≡ ((j == i) || marked bitmap j)
  unfolding bit_set
  marked-bit_set j =
      let m = mask_small (i % 8) (omega arith) in
      let x = get_or bitmap (i / 8) 0 in
      let plain : 2 ^ (i % 8) % 2 ^ 8 ≡ 2 ^ (i % 8) = omega (arith, m) in
      rw plain (elim (ℕ_discrete (i / 8) (j / 8)) [
        | yes e ↦
            rw
              (
                ← e,
                get_or-set_self bitmap (i / 8) (bit_or x (2 ^ (i % 8))) 0 inside,
                test_bit-bit_or,
                test_bit-pow,
              )
              (ground arith)
        | no ne ↦ rw (get_or-set_ne bitmap (i / 8) (j / 8) _ 0 ne) (ground arith)
      ])

  pub marked-bit_clear : (j : ℕ) → marked (bit_clear bitmap i) j ≡ (not (j == i) && marked bitmap j)
  unfolding bit_clear
  marked-bit_clear j =
      let m = mask_small (i % 8) (omega arith) in
      let x = get_or bitmap (i / 8) 0 in
      let plain : (2 ^ 32 - 1 - 2 ^ (i % 8)) % 2 ^ 8 ≡ 2 ^ 8 - 1 - 2 ^ (i % 8) = omega (arith, m) in
      rw plain (elim (ℕ_discrete (i / 8) (j / 8)) [
        | yes e ↦
            rw
              (
                ← e,
                get_or-set_self bitmap (i / 8) (bit_and x (2 ^ 8 - 1 - 2 ^ (i % 8))) 0 inside,
                test_bit-bit_and,
                test_bit-compl 8 (j % 8) (2 ^ (i % 8)) (omega arith) (omega (arith, m)),
                test_bit-pow,
              )
              (and_flip _ (i % 8) (j % 8) (j == i) (ground arith))
        | no ne ↦ rw (get_or-set_ne bitmap (i / 8) (j / 8) _ 0 ne) (ground arith)
      ])

  set_byte : (w k : ℕ) → w < 2 ^ 8 → get_or (set bitmap (i / 8) w) k 0 < 2 ^ 8
  set_byte w k h = elim (ℕ_discrete (i / 8) k) [
    | yes e ↦ rw (← e, get_or-set_self bitmap (i / 8) w 0 inside) h
    | no ne ↦ rw (get_or-set_ne bitmap (i / 8) k w 0 ne) (bytes k)
  ]

  bit_set-IsBytes : IsBytes (bit_set bitmap i)
  unfolding bit_set
  bit_set-IsBytes k = set_byte _ k (bit_or-lt 8 _ _ (bytes (i / 8)) (omega arith))

  bit_clear-IsBytes : IsBytes (bit_clear bitmap i)
  unfolding bit_clear
  bit_clear-IsBytes k = set_byte _ k (bit_and-lt 8 _ _ (bytes (i / 8)))

length-bit_set : (bitmap : List ℕ) (i : ℕ) → length (bit_set bitmap i) ≡ length bitmap
unfolding bit_set
length-bit_set bitmap i = length-set bitmap (i / 8) _

length-bit_clear : (bitmap : List ℕ) (i : ℕ) → length (bit_clear bitmap i) ≡ length bitmap
unfolding bit_clear
length-bit_clear bitmap i = length-set bitmap (i / 8) _

-- The result of an operation: the set of blocks in use changes as the operation means, and the
-- counter still agrees with the bitmap.
pub record Applied (n op index : ℕ) (b c : List ℕ × ℕ) : Type 0 where
  pub marks : (j : ℕ) → marked c.0 j ≡ effect op index (marked b.0) j
  pub sound : IsSound n c

module _ (n i : ℕ) (b : List ℕ × ℕ) (s : IsSound n b) (h : i < n) where
  byte_in : i / 8 < length b.0
  byte_in = omega (arith, s.bitmap_len)

  -- Setting a bit that is clear.
  set_clear : marked b.0 i ≡ false → IsSound n (bit_set b.0 i, add_word b.1 1)
  set_clear off =
      let marks = marked-bit_set b.0 i s.bytes byte_in in
      let more = count_below-add n i (marked b.0) (marked (bit_set b.0 i)) h off marks in
      let most = count_below-le n (marked (bit_set b.0 i)) in
      record {
        small = s.small;
        bitmap_len = length-bit_set b.0 i ∙ s.bitmap_len;
        bytes = bit_set-IsBytes b.0 i s.bytes byte_in;
        used_eq = omega (arith, more, most, s.used_eq, s.small);
      }

  -- Clearing a bit that is set.
  clear_set : marked b.0 i ≡ true → IsSound n (bit_clear b.0 i, sub_word b.1 1)
  clear_set on =
      let marks = marked-bit_clear b.0 i s.bytes byte_in in
      let less = count_below-sub n i (marked b.0) (marked (bit_clear b.0 i)) h on marks in
      let most = count_below-le n (marked b.0) in
      record {
        small = s.small;
        bitmap_len = length-bit_clear b.0 i ∙ s.bitmap_len;
        bytes = bit_clear-IsBytes b.0 i s.bytes byte_in;
        used_eq = omega (arith, less, most, s.used_eq, s.small);
      }

or_same : (f : ℕ → Bool) (i j : ℕ) → f i ≡ true → ((j == i) || f j) ≡ f j
or_same f i j on = elim (ℕ_discrete j i) [
  | yes e ↦ rw (e, on) (ground arith)
  | no ne ↦ ground arith
]

and_same : (f : ℕ → Bool) (i j : ℕ) → f i ≡ false → (not (j == i) && f j) ≡ f j
and_same f i j off = elim (ℕ_discrete j i) [
  | yes e ↦ rw (e, off) (ground arith)
  | no ne ↦ ground arith
]

pub effect-congr :
    (op i : ℕ) (f g : ℕ → Bool) (j : ℕ) → f j ≡ g j → effect op i f j ≡ effect op i g j
effect-congr op i f g j e = rw e

-- Doing an operation once more changes nothing.
pub effect-effect :
    (op i : ℕ) (f : ℕ → Bool) (j : ℕ) → effect op i (effect op i f) j ≡ effect op i f j
effect-effect op i f j = ground arith

-- `apply_op` of a block in range does what the operation means, whether or not the bit has to
-- change, and keeps the counter equal to the number of marked blocks.
pub apply_bits-Applied :
    (n op i : ℕ) (b : List ℕ × ℕ) → IsSound n b → i < n → Applied n op i b (apply_bits op i b)
unfolding apply_bits
apply_bits-Applied n op i b s h = elim (Bool-cases (op == op_alloc)) [
  | inl e ↦ elim (Bool-cases (marked b.0 i)) [
    | inl on ↦
        rw (e, bit_test-marked b.0 i, on)
          (record { marks = λ j. rw e (sym (or_same (marked b.0) i j on)); sound = s })
    | inr off ↦
        rw (e, bit_test-marked b.0 i, off)
          (record {
            marks = λ j. rw e (marked-bit_set b.0 i s.bytes (byte_in n i b s h) j);
            sound = set_clear n i b s h off;
          })
  ]
  | inr e ↦ elim (Bool-cases (marked b.0 i)) [
    | inl on ↦
        rw (e, bit_test-marked b.0 i, on)
          (record {
            marks = λ j. rw e (marked-bit_clear b.0 i s.bytes (byte_in n i b s h) j);
            sound = clear_set n i b s h on;
          })
    | inr off ↦
        rw (e, bit_test-marked b.0 i, off)
          (record { marks = λ j. rw e (sym (and_same (marked b.0) i j off)); sound = s })
  ]
]
