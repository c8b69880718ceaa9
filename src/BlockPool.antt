-- ===== src/BlockPool.antt =====
-- c/src/hf_block_pool.c: blocks of one size, a bitmap of 64-bit words (0 = free), and a hint at
-- which word the next search starts. Pointers are addresses, and `none` is NULL. The lock is held
-- during each call, so calls do not interleave.
pub mod Alloc
pub mod Create
pub mod Free
pub mod LowestZero
pub mod Search
mod Tests
pub mod Valid
pub mod Walk
use heapforge.Prelude.{
  ℕ, zero, suc, ◌+◌, ◌-◌, ◌*◌, ◌/◌, ◌%◌, ◌^◌, bit_and, bit_or, Bool, true, false, not, ◌&&◌, ◌==◌,
  ltb, leb, if◌then◌else◌, Option, none, some, List, [], ◌∷◌, get_or, set, replicate, add_word,
  sub_word, mul_word, not_word,
}
use mathlib.Core.Bool.{xor}
use heapforge.Allocator.{
  Stats, BlockInfo, Outcome, returns, aborts, checked, fresh_stats, count_alloc, count_free,
  count_failed, set_used,
}
use heapforge.Platform.{align_up, default_align}

-- `bp_alloc`
pub record BlockPool : Type 0 where
  pub mem : ℕ
  pub capacity : ℕ
  pub block_size : ℕ
  pub block_count : ℕ
  pub hint : ℕ
  pub bitmap : List ℕ
  pub words : ℕ
  pub stats : Stats

-- One line of `lowest_zero`: if the low `w` bits are zero, skip them.
pub narrow : ℕ → ℕ × ℕ → ℕ × ℕ
narrow w (n, inv) = if bit_and inv (2 ^ w - 1) == 0 then (n + w, inv / 2 ^ w) else (n, inv)

-- The last line does not shift `inv`, which is not read any more.
pub lowest_zero : ℕ → ℕ
lowest_zero bits =
    (narrow 1 (narrow 2 (narrow 4 (narrow 8 (narrow 16 (narrow 32 (0, not_word bits))))))).0

-- `a->bitmap[i]`
abbrev pub word_at : BlockPool → ℕ → ℕ
word_at a i = get_or a.bitmap i 0

-- `bp_test`
pub test : BlockPool → ℕ → Bool
test a idx = not (bit_and (word_at a (idx / 64)) (2 ^ (idx % 64)) == 0)

-- The guards of one round of the loop of `bp_allocate` on word `wi`: the word and the bit that the
-- search settles on, or `none` where it continues.
pub try_word : BlockPool → ℕ → Option (ℕ × ℕ)
try_word a wi =
    let bits = word_at a wi in
    let bit = lowest_zero bits in
    if bits == 2 ^ 64 - 1
    then none
    else (if leb a.block_count (add_word (mul_word wi 64) bit) then none else some (wi, bit))

-- The loop of `bp_allocate` from round `w`, with the rounds that are left.
pub find_free : BlockPool → ℕ → ℕ → Option (ℕ × ℕ)
find_free a zero w = none
find_free a (suc rounds) w = elim (try_word a (add_word a.hint w % a.words)) [
  | some s ↦ some s
  | none ↦ find_free a rounds (w + 1)
]

-- The body of the loop after its guards.
pub claim : BlockPool → ℕ × ℕ → BlockPool
claim a (wi, bit) = record a {
  bitmap = set a.bitmap wi (bit_or (word_at a wi) (2 ^ bit));
  hint = wi;
  stats = set_used a.stats (add_word a.stats.used a.block_size);
}

pub address : BlockPool → ℕ → ℕ
address a idx = add_word a.mem (mul_word idx a.block_size)

finish : BlockPool → Option (ℕ × ℕ) → Option ℕ × BlockPool
finish a none = (none, record a { stats = count_failed a.stats })
finish a (some (wi, bit)) = (some (address a (add_word (mul_word wi 64) bit)), claim a (wi, bit))

-- `bp_allocate`; the alignment is ignored.
pub allocate : BlockPool → (size alignment : ℕ) → Option ℕ × BlockPool
unfolding finish
allocate a size alignment =
    let b = record a { stats = count_alloc a.stats } in
    if ltb b.block_size size
    then (none, record b { stats = count_failed b.stats })
    else finish b (find_free b b.words 0)

-- `bp_deallocate`
pub deallocate : BlockPool → Option ℕ → Outcome BlockPool
deallocate a none = returns a
deallocate a (some ptr) =
    let off = sub_word ptr a.mem in
    let idx = off / a.block_size in
    let mask = 2 ^ (idx % 64) in
    let bits = word_at a (idx / 64) in
    checked (off % a.block_size == 0) (
      checked (ltb idx a.block_count) (
        checked (not (bit_and bits mask == 0)) (
          returns (record a {
            bitmap = set a.bitmap (idx / 64) (bit_and bits (not_word mask));
            hint = idx / 64;
            stats = let s = count_free a.stats in record s { used = sub_word s.used a.block_size };
          }))))

-- The loop of `bp_walk` from index `i`, with the rounds that are left.
pub walk_loop : BlockPool → ℕ → (i run_start : ℕ) → Bool → List BlockInfo
walk_loop a zero i run_start run_used = []
walk_loop a (suc rounds) i run_start run_used =
    let used = if ltb i a.block_count then test a i else not run_used in
    let same = walk_loop a rounds (i + 1) run_start run_used in
    let next = walk_loop a rounds (i + 1) i used in
    let block : BlockInfo = record {
      offset = mul_word run_start a.block_size;
      size = mul_word (sub_word i run_start) a.block_size;
      is_free = not run_used;
    } in
    if xor used run_used then block ∷ next else same

-- `bp_walk`, as the list of the entries that it hands to its callback
pub walk : BlockPool → List BlockInfo
unfolding walk_loop
walk a = walk_loop a a.block_count 1 0 (test a 0)

-- The pool once its memory is reserved at `mem`.
pub fresh : (mem bytes block_size block_count : ℕ) → BlockPool
fresh mem bytes block_size block_count =
    let words = add_word block_count 63 / 64 in
    record {
      mem = mem;
      capacity = bytes;
      block_size = block_size;
      block_count = block_count;
      hint = 0;
      bitmap = replicate words 0;
      words = words;
      stats = fresh_stats bytes;
    }

-- `hf_block_pool_create`. The page size, what the system reserves for a number of bytes, and
-- whether `calloc` of the struct and of the bitmap succeed are the environment's.
pub create :
    (page : ℕ) (reserve : ℕ → Option ℕ) (struct_ok bitmap_ok : Bool) (block_size block_count : ℕ)
    → Option BlockPool
unfolding fresh
create page reserve struct_ok bitmap_ok block_size block_count =
    let size = align_up block_size default_align in
    let bytes = align_up (mul_word size block_count) page in
    if struct_ok && bitmap_ok
    then elim (reserve bytes) [ none ↦ none | some mem ↦ some (fresh mem bytes size block_count) ]
    else none
