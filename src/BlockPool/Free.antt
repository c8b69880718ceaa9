-- ===== src/BlockPool/Free.antt =====
-- `bp_deallocate`: what it accepts, and what it changes.
use heapforge.Prelude.{
  ℕ, ◌+◌, ◌*◌, ◌/◌, ◌%◌, ◌^◌, ◌<◌, ◌≡◌, refl, sym, ◌∙◌, arith, true, false, not, ◌&&◌, ◌==◌,
  bit_and, length-set, add_word, sub_word, not_word, set, ltb, some, Bool-cases, inl, inr, ==→eq,
  lt→ltb, ltb→lt, ==_refl,
}
use heapforge.Prelude.Bits.{test_bit-mask, bit_and-lt}
use heapforge.Prelude.Count.{count_below-sub, count_below-congr, count_below-le}
use heapforge.Allocator.{returns}
use heapforge.BlockPool.{BlockPool, word_at, allocate, deallocate}
use heapforge.BlockPool.Valid.{is_used, IsValid, block_in, clear_bit, set_small}
use heapforge.BlockPool.Alloc.{SameLayout, Allocated, allocate-Allocated}
use native.Mathlib.Decide.{ℕ_discrete}
use native.Mathlib.Nat.{mul-mod_left, mul-div_cancel, div-add-mod'}

-- The outcome of freeing block `idx`: it is free now, no other block changes, and the count of
-- used bytes falls by one block.
pub record Freed (a b : BlockPool) (idx : ℕ) : Type 0 where
  pub marks : (j : ℕ) → is_used b j ≡ (not (j == idx) && is_used a j)
  pub used : b.stats.used + a.block_size ≡ a.stats.used
  pub layout : SameLayout a b
  pub valid : IsValid b

-- The new pool, where the assertions hold.
abbrev released : BlockPool → ℕ → BlockPool
released a idx = record a {
  bitmap = set a.bitmap (idx / 64) (bit_and (word_at a (idx / 64)) (not_word (2 ^ (idx % 64))));
  hint = idx / 64;
  stats = record a.stats {
    free_calls = add_word a.stats.free_calls 1;
    used = sub_word a.stats.used a.block_size;
  };
}

module _ (a : BlockPool) (v : IsValid a) (idx : ℕ) (inside : idx < a.block_count) where
  word_in : idx / 64 < a.words
  word_in = omega (arith, v.words_eq)

  marks : (j : ℕ) → is_used (released a idx) j ≡ (not (j == idx) && is_used a j)
  marks j =
      let e : idx / 64 * 64 + idx % 64 ≡ idx = omega arith in
      rw e at (
        clear_bit a.bitmap (idx / 64) (idx % 64) j (omega arith)
          (omega (arith, word_in, v.bitmap_len)))

  released-Freed : is_used a idx ≡ true → Freed a (released a idx) idx
  released-Freed on =
      let c =
        count_below-sub a.block_count idx (is_used a) (is_used (released a idx)) inside on marks in
      let small = count_below-le a.block_count (is_used a) in
      let used : sub_word a.stats.used a.block_size + a.block_size ≡ a.stats.used =
        grind (arith, c, small, v.used_eq, v.fits, v.in_space) in
      record {
        marks = marks;
        used = used;
        layout = record { mem = refl; capacity = refl; block_size = refl; block_count = refl };
        valid = record {
          block_size_min = v.block_size_min;
          count_pos = v.count_pos;
          words_eq = v.words_eq;
          bitmap_len = length-set a.bitmap (idx / 64) _ ∙ v.bitmap_len;
          word_small = λ i.
              set_small a.bitmap (idx / 64) _ i v.word_small
                (bit_and-lt 64 _ _ (v.word_small (idx / 64)));
          hint_in = word_in;
          fits = v.fits;
          in_space = v.in_space;
          used_eq = grind (arith, c, used, v.used_eq);
        };
      }

  -- `bp_deallocate` of the address of a block in use, on a valid pool, returns a valid pool of the
  -- same layout in which exactly that block is no longer in use and the used bytes are one block
  -- fewer.
  pub deallocate-Freed :
      is_used a idx ≡ true
      → (b : BlockPool) × (deallocate a (some (a.mem + idx * a.block_size)) ≡ returns b)
        × Freed a b idx
  unfolding deallocate
  deallocate-Freed on =
      let off : sub_word (a.mem + idx * a.block_size) a.mem ≡ idx * a.block_size =
        omega (arith, block_in a v idx inside, v.in_space, v.block_size_min) in
      let q : idx * a.block_size / a.block_size ≡ idx =
        mul-div_cancel idx (omega (arith, v.block_size_min)) in
      let m : idx * a.block_size % a.block_size ≡ 0 = mul-mod_left idx a.block_size in
      let bit : (bit_and (word_at a (idx / 64)) (2 ^ (idx % 64)) == 0) ≡ false =
        test_bit-mask 64 (idx % 64) _ (v.word_small (idx / 64)) ∙ rw on in
      (released a idx, rw (off, m, q, lt→ltb _ _ inside, bit), released-Freed on)

-- `bp_deallocate` of a non-NULL pointer returns, on a valid pool, only if the pointer is the
-- address of a block in use; otherwise an assertion stops it.
pub deallocate-returns :
    (a : BlockPool) (p : ℕ) (b : BlockPool)
    → IsValid a
    → p < 2 ^ 64
    → deallocate a (some p) ≡ returns b
    → (idx : ℕ) × (idx < a.block_count) × (p ≡ a.mem + idx * a.block_size) × (is_used a idx ≡ true)
unfolding deallocate
deallocate-returns a p b v hp h =
    let off = sub_word p a.mem in
    let idx = off / a.block_size in
    let bits = word_at a (idx / 64) in
    elim (Bool-cases (off % a.block_size == 0)) [
      | inr e ↦ cc (rw e at h)
      | inl aligned ↦ elim (Bool-cases (ltb idx a.block_count)) [
        | inr e ↦ cc (rw (aligned, e) at h)
        | inl inside ↦ elim (Bool-cases (bit_and bits (2 ^ (idx % 64)) == 0)) [
          | inl e ↦ cc (rw (aligned, inside, e) at h)
          | inr on ↦
              let lt = ltb→lt _ _ inside in
              let whole : idx * a.block_size ≡ off =
                omega (arith, div-add-mod' off a.block_size, ==→eq _ _ aligned) in
              let bit = test_bit-mask 64 (idx % 64) bits (v.word_small (idx / 64)) in
              (
                idx,
                lt,
                omega (arith, whole, block_in a v idx lt, v.in_space, v.block_size_min),
                ground (arith, on, bit),
              )
        ]
      ]
    ]

deallocate-at :
    (a : BlockPool) (p idx : ℕ)
    → IsValid a
    → idx < a.block_count
    → is_used a idx ≡ true
    → p ≡ a.mem + idx * a.block_size
    → (b : BlockPool) × (deallocate a (some p) ≡ returns b) × Freed a b idx
deallocate-at a p idx v inside on e = rw e (deallocate-Freed a v idx inside on)

-- The state that a call leaves, taken back.
module _ (a b c : BlockPool) (p : ℕ) (v : IsValid a) (r : Allocated a b p)
    (f : Freed b c r.idx) where
  same_marks : (j : ℕ) → is_used c j ≡ is_used a j
  same_marks j = elim (ℕ_discrete j r.idx) [
    | yes e ↦ let off : is_used a j ≡ false = rw e r.was_free in ground (arith, f.marks j, off)
    | no ne ↦ ground (arith, f.marks j, r.marks j)
  ]

  same_used : c.stats.used ≡ a.stats.used
  same_used =
      let n : c.block_count ≡ a.block_count = f.layout.block_count ∙ r.layout.block_count in
      let z : c.block_size ≡ a.block_size = f.layout.block_size ∙ r.layout.block_size in
      let k = count_below-congr a.block_count (is_used a) (is_used c) (λ j _. same_marks j) in
      f.valid.used_eq ∙ rw (n, z, k) (sym v.used_eq)

restored :
    (a b : BlockPool) (p : ℕ)
    → IsValid a
    → Allocated a b p
    → (c : BlockPool) × (deallocate b (some p) ≡ returns c)
      × ((j : ℕ) → is_used c j ≡ is_used a j)
      × (c.stats.used ≡ a.stats.used)
      × IsValid c
restored a b p v r = close (deallocate-at b p r.idx r.valid inside on at)
  where
    inside : r.idx < b.block_count
    inside = rw r.layout.block_count r.in_range

    on : is_used b r.idx ≡ true
    on = rw (r.marks r.idx, ==_refl)

    at : p ≡ b.mem + r.idx * b.block_size
    at = rw (r.layout.mem, r.layout.block_size) r.pointer

    close :
        (c : BlockPool) × (deallocate b (some p) ≡ returns c) × Freed b c r.idx
        → (c : BlockPool) × (deallocate b (some p) ≡ returns c)
          × ((j : ℕ) → is_used c j ≡ is_used a j)
          × (c.stats.used ≡ a.stats.used)
          × IsValid c
    close (c, run, f) = (c, run, same_marks a b c p v r f, same_used a b c p v r f, f.valid)

-- Freeing what `bp_allocate` of a valid pool has just returned succeeds and restores the blocks in
-- use and the used bytes, in a valid pool.
pub allocate-deallocate :
    (a : BlockPool) {b : BlockPool} {p : ℕ} (size alignment : ℕ)
    → IsValid a
    → allocate a size alignment ≡ (some p, b)
    → (c : BlockPool) × (deallocate b (some p) ≡ returns c)
      × ((j : ℕ) → is_used c j ≡ is_used a j)
      × (c.stats.used ≡ a.stats.used)
      × IsValid c
allocate-deallocate a {b} {p} size alignment v h =
    restored a b p v (allocate-Allocated a size alignment v h).0
