-- ===== src/BlockPool/Create.antt =====
-- `hf_block_pool_create`: a new pool is valid, and all its blocks are free.
use heapforge.Prelude.{
  ℕ, ◌+◌, ◌*◌, ◌/◌, ◌%◌, ◌^◌, ◌≤◌, ◌<◌, ◌≡◌, refl, arith, Bool, false, Option, some, ◌&&◌, mul_word,
  add_word, length-replicate, get_or-replicate, Bool-cases, inl, inr, Option-cases,
}
use heapforge.Prelude.Bits.{test_bit-zero}
use heapforge.Prelude.Count.{count_below-none}
use heapforge.Platform.{align_up, default_align}
use heapforge.Platform.Align.{align_up_lem, default_align_lem}
use native.Mathlib.Nat.{one-le-pow, mul-le-mul_right}
use heapforge.BlockPool.{BlockPool, fresh, create}
use heapforge.BlockPool.Valid.{IsValid, is_used}

pub record IsNew (block_size block_count : ℕ) (a : BlockPool) : Type 0 where
  pub valid : IsValid a
  pub all_free : (j : ℕ) → is_used a j ≡ false
  pub size : block_size ≤ a.block_size
  pub count : a.block_count ≡ block_count

fresh-free : (mem bytes size count j : ℕ) → is_used (fresh mem bytes size count) j ≡ false
unfolding fresh
fresh-free mem bytes size count j =
    rw (get_or-replicate {A = ℕ} (add_word count 63 / 64) (j / 64) 0) (test_bit-zero (j % 64))

pub fresh-IsValid :
    (mem bytes size count : ℕ)
    → 16 ≤ size
    → 0 < count
    → size * count ≤ bytes
    → mem + bytes < 2 ^ 64
    → IsValid (fresh mem bytes size count)
unfolding fresh
fresh-IsValid mem bytes size count hs hc fits space =
    let small : count ≤ 2 ^ 60 = grind arith in
    let words = add_word count 63 / 64 in
    record {
      block_size_min = hs;
      count_pos = hc;
      words_eq = omega arith;
      bitmap_len = length-replicate words 0;
      word_small = λ i. rw (get_or-replicate {A = ℕ} words i 0) (omega arith);
      hint_in = omega arith;
      fits = fits;
      in_space = space;
      used_eq =
          let none_used =
            count_below-none count (is_used (fresh mem bytes size count))
              (fresh-free mem bytes size count) in
          rw none_used (omega arith);
    }

fresh-IsNew :
    (k block_size block_count mem : ℕ)
    → k ≤ 63
    → 0 < block_size
    → 0 < block_count
    → (block_size + 15) * block_count + 2 ^ k ≤ 2 ^ 64
    → let size = align_up block_size default_align in
      let bytes = align_up (mul_word size block_count) (2 ^ k) in
      mem + bytes < 2 ^ 64 → IsNew block_size block_count (fresh mem bytes size block_count)
unfolding fresh
fresh-IsNew k block_size block_count mem hk hs hc room space =
    let page : 1 ≤ 2 ^ k = one-le-pow k 2 (omega arith) in
    let size = align_up block_size default_align in
    let bytes = align_up (mul_word (align_up block_size default_align) block_count) (2 ^ k) in
    let small : block_size + 16 ≤ 2 ^ 64 = grind arith in
    let (whole, low, high) = default_align_lem block_size small in
    let product : size * block_count ≤ (block_size + 15) * block_count =
      mul-le-mul_right block_count (omega (arith, high)) in
    let plain : mul_word size block_count ≡ size * block_count = omega (arith, product) in
    let round = align_up_lem (mul_word size block_count) k hk (omega (arith, product, plain)) in
    record {
      valid =
          fresh-IsValid mem bytes size block_count (omega (arith, whole, low)) hc
            (omega (arith, plain, round.1)) space;
      all_free = fresh-free mem bytes size block_count;
      size = low;
      count = refl;
    }

-- A pool that `hf_block_pool_create` returns, for a page size that is a power of two, memory below
-- the end of the address space, and a size and a number of blocks that are not 0 and do not
-- overflow when rounded up, is valid, has all blocks free, as many as asked for, each at least as
-- large as asked for.
pub create-IsNew :
    (k : ℕ) (reserve : ℕ → Option ℕ) (struct_ok bitmap_ok : Bool) (block_size block_count : ℕ)
    {a : BlockPool}
    → k ≤ 63
    → 0 < block_size
    → 0 < block_count
    → (block_size + 15) * block_count + 2 ^ k ≤ 2 ^ 64
    → ((n m : ℕ) → reserve n ≡ some m → m + n < 2 ^ 64)
    → create (2 ^ k) reserve struct_ok bitmap_ok block_size block_count ≡ some a
    → IsNew block_size block_count a
unfolding create
create-IsNew k reserve struct_ok bitmap_ok block_size block_count {a} hk hs hc room space h =
    let size = align_up block_size default_align in
    let bytes = align_up (mul_word size block_count) (2 ^ k) in
    elim (Bool-cases (struct_ok && bitmap_ok)) [
      | inr no_memory ↦ cc (rw no_memory at h)
      | inl ready ↦ elim (Option-cases (reserve bytes)) [
        | inl failed ↦ cc (rw (ready, failed) at h)
        | inr (mem, got) ↦
            let e : some (fresh mem bytes size block_count) ≡ some a = rw (ready, got) at h in
            let e' : fresh mem bytes size block_count ≡ a = cc in
            rw (← e') (fresh-IsNew k block_size block_count mem hk hs hc room (space bytes mem got))
      ]
    ]
