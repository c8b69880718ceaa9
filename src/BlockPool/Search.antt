-- ===== src/BlockPool/Search.antt =====
-- The search of `bp_allocate`: it settles on a free block, and passes over full words only.
use heapforge.Prelude.{
  ℕ, zero, suc, ◌+◌, ◌-◌, ◌*◌, ◌%◌, ◌^◌, ◌≤◌, ◌<◌, ◌≡◌, inl, inr, ◌∙◌, arith, true, false, ◌==◌,
  add_word, none, some, Option-cases, Bool-cases, ==→eq,
}
use heapforge.Prelude.Bits.{test_bit, test_bit-compl, test_bit-zero}
use heapforge.BlockPool.{BlockPool, word_at, lowest_zero, try_word, find_free}
use heapforge.BlockPool.LowestZero.{lowest_zero_lem}
use heapforge.BlockPool.Valid.{IsValid, count_small}
use native.Mathlib.Nat.{mod-lt}
use native.Mathlib.Decide.{ℕ_discrete, dec_lt}

-- What the search may return: a block in range whose bit is clear.
pub record IsFree (a : BlockPool) (s : ℕ × ℕ) : Type 0 where
  pub word_in : s.0 < a.words
  pub bit_in : s.1 < 64
  pub block_in : s.0 * 64 + s.1 < a.block_count
  pub clear : test_bit (word_at a s.0) s.1 ≡ false

-- All blocks that word `wi` stands for are in use.
abbrev pub WordFull : BlockPool → ℕ → Type 0
WordFull a wi = (b : ℕ) → b < 64 → wi * 64 + b < a.block_count → test_bit (word_at a wi) b ≡ true

module _ (a : BlockPool) (v : IsValid a) where
  word_in : (w : ℕ) → add_word a.hint w % a.words < a.words
  word_in w = mod-lt (add_word a.hint w) (omega (arith, v.hint_in))

  try_word_sound : (wi : ℕ) (s : ℕ × ℕ) → wi < a.words → try_word a wi ≡ some s → IsFree a s
  unfolding try_word
  try_word_sound wi s hw h =
      let small = v.word_small wi in
      let not_full : word_at a wi < 2 ^ 64 - 1 = ground arith in
      let low = lowest_zero_lem (word_at a wi) not_full in
      let near : (word_at a wi == 2 ^ 64 - 1) ≡ false = ground arith in
      let taken = rw near at h in
      let found : (s.0 ≡ wi)
          × (s.1 ≡ lowest_zero (word_at a wi))
          × (s.0 * 64 + s.1 < a.block_count) =
        ground (arith, low.0, count_small a v, v.words_eq) in
      record {
        word_in = omega (arith, found.0);
        bit_in = omega (arith, found.1, low.0);
        block_in = found.2;
        clear = rw (found.0, found.1) low.1;
      }

  -- A word that is passed over has no free block.
  try_word_complete : (wi : ℕ) → wi < a.words → try_word a wi ≡ none → WordFull a wi
  unfolding try_word
  try_word_complete wi hw h b hb inside = elim (Bool-cases (word_at a wi == 2 ^ 64 - 1)) [
    | inl e ↦
        let eq : word_at a wi ≡ 2 ^ 64 - 1 = ==→eq _ _ e in
        rw eq (test_bit-compl 64 b 0 hb (omega arith) ∙ rw (test_bit-zero b))
    | inr e ↦
        let small = v.word_small wi in
        let low = lowest_zero_lem (word_at a wi) (ground arith) in
        elim (dec_lt b (lowest_zero (word_at a wi))) [
          | yes below ↦ low.2 b below
          | no above ↦ absurd (ground (arith, low.0, count_small a v, v.words_eq))
        ]
  ]

  pub find_free_sound : (rounds w : ℕ) (s : ℕ × ℕ) → find_free a rounds w ≡ some s → IsFree a s
  unfolding find_free
  find_free_sound zero w s h = cc
  find_free_sound (suc rounds) w s h =
      elim (Option-cases (try_word a (add_word a.hint w % a.words))) [
        | inl e ↦ find_free_sound rounds (w + 1) s (rw (e, find_free) at h)
        | inr (s', e) ↦ try_word_sound _ s (word_in w) (e ∙ (rw (e, find_free) at h))
      ]

  pub find_free_complete :
      (rounds w : ℕ)
      → find_free a rounds w ≡ none
      → (i : ℕ) → w ≤ i
      → i < w + rounds
      → WordFull a (add_word a.hint i % a.words)
  unfolding find_free
  find_free_complete zero w h i lo hi = absurd (omega arith)
  find_free_complete (suc rounds) w h i lo hi =
      elim (Option-cases (try_word a (add_word a.hint w % a.words))) [
        | inr (s', e) ↦ cc (rw (e, find_free) at h)
        | inl e ↦ elim (ℕ_discrete i w) [
          | yes same ↦ rw same (try_word_complete _ (word_in w) e)
          | no ne ↦
              find_free_complete rounds (w + 1) (rw (e, find_free) at h) i (omega arith)
                (omega arith)
        ]
      ]
