-- ===== src/BlockPool/Valid.antt =====
-- What a block pool promises between calls, and what its bits say.
use heapforge.Prelude.{
  ℕ, ◌+◌, ◌*◌, ◌/◌, ◌%◌, ◌^◌, ◌≤◌, ◌<◌, ◌≡◌, arith, Bool, true, false, not, ◌||◌, ◌&&◌, ◌==◌,
  bit_and, length, get_or, set, get_or-set_self, get_or-set_ne, set-out, bit_or, List, not_word,
}
use heapforge.Prelude.Bits.{
  test_bit, test_bit-mask, test_bit-bit_or, test_bit-bit_and, test_bit-pow, test_bit-compl,
}
use heapforge.Prelude.Count.{count_below}
use heapforge.BlockPool.{BlockPool, word_at, test, address}
use heapforge.Platform.Align.{pow-le-word}
use native.Mathlib.Decide.{ℕ_discrete, dec_lt}

-- Block `j` is in use: its bit is set.
abbrev pub is_used : BlockPool → ℕ → Bool
is_used a j = test_bit (word_at a (j / 64)) (j % 64)

abbrev pub used_blocks : BlockPool → ℕ
used_blocks a = count_below a.block_count (is_used a)

pub record IsValid (a : BlockPool) : Type 0 where
  pub block_size_min : 16 ≤ a.block_size
  pub count_pos : 0 < a.block_count
  pub words_eq : a.words ≡ (a.block_count + 63) / 64
  pub bitmap_len : length a.bitmap ≡ a.words
  pub word_small : (i : ℕ) → word_at a i < 2 ^ 64
  pub hint_in : a.hint < a.words
  pub fits : a.block_size * a.block_count ≤ a.capacity
  pub in_space : a.mem + a.capacity < 2 ^ 64
  pub used_eq : a.stats.used ≡ a.block_size * used_blocks a

module _ (a : BlockPool) (v : IsValid a) where
  pub test_lem : (j : ℕ) → test a j ≡ is_used a j
  unfolding test
  test_lem j =
      let e = test_bit-mask 64 (j % 64) (word_at a (j / 64)) (v.word_small (j / 64)) in
      ground (arith, e)

  pub count_small : a.block_count ≤ 2 ^ 60
  count_small = grind (arith, v.fits, v.in_space, v.block_size_min)

  pub block_in : (idx : ℕ) → idx < a.block_count → idx * a.block_size + a.block_size ≤ a.capacity
  block_in idx h = grind (arith, v.fits)

  -- The address of a block is computed without wrap-around.
  pub address-eq : (idx : ℕ) → idx < a.block_count → address a idx ≡ a.mem + idx * a.block_size
  unfolding address
  address-eq idx h = omega (arith, block_in idx h, v.in_space, v.block_size_min)

-- Writing a word with one more bit.
pub set_bit :
    (bitmap : List ℕ) (wi bit j : ℕ)
    → bit < 64
    → wi < length bitmap
    → test_bit (get_or (set bitmap wi (bit_or (get_or bitmap wi 0) (2 ^ bit))) (j / 64) 0) (j % 64)
      ≡ ((j == wi * 64 + bit) || test_bit (get_or bitmap (j / 64) 0) (j % 64))
set_bit bitmap wi bit j hb hw = elim (ℕ_discrete wi (j / 64)) [
  | yes e ↦
      rw
        (
          ← e,
          get_or-set_self bitmap wi (bit_or (get_or bitmap wi 0) (2 ^ bit)) 0 hw,
          test_bit-bit_or,
          test_bit-pow,
        )
        (ground arith)
  | no ne ↦ rw (get_or-set_ne bitmap wi (j / 64) _ 0 ne) (ground arith)
]

-- Writing a word with one bit less.
pub clear_bit :
    (bitmap : List ℕ) (wi bit j : ℕ)
    → bit < 64
    → wi < length bitmap
    → test_bit
        (get_or (set bitmap wi (bit_and (get_or bitmap wi 0) (not_word (2 ^ bit)))) (j / 64) 0)
        (j % 64)
      ≡ (not (j == wi * 64 + bit) && test_bit (get_or bitmap (j / 64) 0) (j % 64))
clear_bit bitmap wi bit j hb hw = elim (ℕ_discrete wi (j / 64)) [
  | yes e ↦
      let mask : 2 ^ bit ≤ 2 ^ 63 = pow-le-word bit (omega arith) in
      rw
        (
          ← e,
          get_or-set_self bitmap wi (bit_and (get_or bitmap wi 0) (not_word (2 ^ bit))) 0 hw,
          test_bit-bit_and,
          test_bit-compl 64 (j % 64) (2 ^ bit) (omega arith) (omega arith),
          test_bit-pow,
        )
        (clear_bits _ bit (j % 64) (j == wi * 64 + bit) (ground arith))
  | no ne ↦ rw (get_or-set_ne bitmap wi (j / 64) _ 0 ne) (ground arith)
]
  where
    clear_bits :
        (b : Bool) (m k : ℕ) (same : Bool) → same ≡ (m == k) → (b && not (m == k)) ≡ (not same && b)
    clear_bits true m k same e = ground arith
    clear_bits false m k same e = ground arith

-- A word array stays one of 64-bit words.
pub set_small :
    (bitmap : List ℕ) (wi w i : ℕ)
    → ((j : ℕ) → get_or bitmap j 0 < 2 ^ 64)
    → w < 2 ^ 64
    → get_or (set bitmap wi w) i 0 < 2 ^ 64
set_small bitmap wi w i old new = elim (ℕ_discrete wi i) [
  | yes e ↦ elim (dec_lt wi (length bitmap)) [
    | yes h ↦ rw (← e, get_or-set_self bitmap wi w 0 h) new
    | no h ↦ rw (set-out bitmap wi w (omega arith)) (old i)
  ]
  | no ne ↦ rw (get_or-set_ne bitmap wi i w 0 ne) (old i)
]
