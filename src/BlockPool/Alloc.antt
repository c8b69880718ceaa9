-- ===== src/BlockPool/Alloc.antt =====
-- `bp_allocate`: which block it hands out, and when it hands out none.
use heapforge.Prelude.{
  ℕ, ◌+◌, ◌-◌, ◌*◌, ◌/◌, ◌%◌, ◌^◌, ◌≤◌, ◌<◌, ◌≡◌, ◌↔◌, ◌⊎◌, inl, inr, refl, ◌∙◌, arith, true, false,
  ◌||◌, ◌==◌, length-set, add_word, mul_word, ltb, Option, none, some, Option-cases, Bool-cases, ap,
  ltb→ge, lt→ltb, ltb→lt,
}
use heapforge.Prelude.Bits.{bit_or-lt}
use heapforge.Prelude.Count.{count_below-add, count_below-le}
use heapforge.Allocator.{count_alloc}
use heapforge.BlockPool.{BlockPool, find_free, claim, finish, address, allocate}
use heapforge.BlockPool.Search.{IsFree, find_free_sound, find_free_complete}
use heapforge.BlockPool.Valid.{
  is_used, used_blocks, IsValid, count_small, address-eq, set_bit, set_small,
}
use native.Mathlib.Nat.{mod-lt, mod-eq_of_lt, add-mod_right}
use native.Mathlib.Decide.{dec_lt}
use heapforge.Platform.Align.{pow-le-word}

abbrev pub AllUsed : BlockPool → Type 0
AllUsed a = (j : ℕ) → j < a.block_count → is_used a j ≡ true

-- What calls never change.
pub record SameLayout (a b : BlockPool) : Type 0 where
  pub mem : b.mem ≡ a.mem
  pub capacity : b.capacity ≡ a.capacity
  pub block_size : b.block_size ≡ a.block_size
  pub block_count : b.block_count ≡ a.block_count

module _ (a : BlockPool) (v : IsValid a) (s : ℕ × ℕ) (free : IsFree a s) where
  abbrev index : ℕ
  index = s.0 * 64 + s.1

  index-free : is_used a index ≡ false
  index-free =
      let q : index / 64 ≡ s.0 = omega (arith, free.bit_in) in
      let r : index % 64 ≡ s.1 = omega (arith, free.bit_in) in rw (q, r) free.clear

  is_used-claim : (j : ℕ) → is_used (claim a s) j ≡ ((j == index) || is_used a j)
  unfolding claim
  is_used-claim j =
      set_bit a.bitmap s.0 s.1 j free.bit_in (omega (arith, free.word_in, v.bitmap_len))

  used-claim : used_blocks (claim a s) ≡ used_blocks a + 1
  unfolding claim
  used-claim =
      count_below-add a.block_count index (is_used a) (is_used (claim a s)) free.block_in index-free
        is_used-claim

  used_sum : add_word a.stats.used a.block_size ≡ a.block_size * (used_blocks a + 1)
  unfolding claim
  used_sum =
      let room = count_below-le a.block_count (is_used (claim a s)) in
      grind (arith, used-claim, room, v.used_eq, v.fits, v.in_space)

  claim-IsValid : IsValid (claim a s)
  unfolding claim
  claim-IsValid = record {
    block_size_min = v.block_size_min;
    count_pos = v.count_pos;
    words_eq = v.words_eq;
    bitmap_len = length-set a.bitmap s.0 _ ∙ v.bitmap_len;
    word_small = λ i. set_small a.bitmap s.0 _ i v.word_small (
        bit_or-lt 64 _ _ (v.word_small s.0)
          (omega (arith, pow-le-word s.1 (omega (arith, free.bit_in)))));
    hint_in = free.word_in;
    fits = v.fits;
    in_space = v.in_space;
    used_eq = rw used-claim used_sum;
  }

claim-SameLayout : (a : BlockPool) (s : ℕ × ℕ) → SameLayout a (claim a s)
unfolding claim
claim-SameLayout a s = record { mem = refl; capacity = refl; block_size = refl; block_count = refl }

-- The outcome of a call that returns a block: block `idx` was free and is now in use, no other
-- block changes, the pointer is its address, and the pool stays valid.
pub record Allocated (a b : BlockPool) (p : ℕ) : Type 0 where
  pub idx : ℕ
  pub in_range : idx < a.block_count
  pub pointer : p ≡ a.mem + idx * a.block_size
  pub was_free : is_used a idx ≡ false
  pub marks : (j : ℕ) → is_used b j ≡ ((j == idx) || is_used a j)
  pub layout : SameLayout a b
  pub valid : IsValid b

count_alloc-IsValid :
    (a : BlockPool) → IsValid a → IsValid (record a { stats = count_alloc a.stats })
count_alloc-IsValid a v = assumption

some_eq : {p q : ℕ} → some p ≡ some q → p ≡ q
some_eq h = cc

finish-Allocated :
    (a b : BlockPool) (p : ℕ) (found : Option (ℕ × ℕ))
    → IsValid a
    → ((s : ℕ × ℕ) → found ≡ some s → IsFree a s)
    → finish a found ≡ (some p, b)
    → Allocated a b p
unfolding finish
finish-Allocated a b p none v sound h = cc (ap (λ r. r.0) h)
finish-Allocated a b p (some s) v sound h =
    let free = sound s refl in
    let eb : claim a s ≡ b = ap (λ r. r.1) h in
    let ep : address a (add_word (mul_word s.0 64) s.1) ≡ p = some_eq (ap (λ r. r.0) h) in
    let n = count_small a v in
    let plain : add_word (mul_word s.0 64) s.1 ≡ s.0 * 64 + s.1 = omega (arith, free.block_in) in
    rw (← eb, ← ep, plain)
      (record {
        idx = s.0 * 64 + s.1;
        in_range = free.block_in;
        pointer = address-eq a v (s.0 * 64 + s.1) free.block_in;
        was_free = index-free a v s free;
        marks = is_used-claim a v s free;
        layout = claim-SameLayout a s;
        valid = claim-IsValid a v s free;
      })

-- A pointer that `bp_allocate` of a valid pool returns is the address of a block that was free;
-- exactly this block is in use in addition, the request fits it, the layout is kept, and the pool
-- stays valid.
pub allocate-Allocated :
    (a : BlockPool) {b : BlockPool} {p : ℕ} (size alignment : ℕ)
    → IsValid a
    → allocate a size alignment ≡ (some p, b)
    → Allocated a b p × (size ≤ a.block_size)
unfolding allocate
allocate-Allocated a {b} {p} size alignment v h = elim (Bool-cases (ltb a.block_size size)) [
  | inl big ↦ cc (ap (λ r. r.0) (rw big at h))
  | inr fits ↦
      let c = record a { stats = count_alloc a.stats } in
      let vc = count_alloc-IsValid a v in
      let r =
        finish-Allocated c b p (find_free c c.words 0) vc (find_free_sound c vc c.words 0)
          (rw fits at h) in
      (
        record {
          idx = r.idx;
          in_range = r.in_range;
          pointer = r.pointer;
          was_free = r.was_free;
          marks = r.marks;
          layout = record {
            mem = r.layout.mem;
            capacity = r.layout.capacity;
            block_size = r.layout.block_size;
            block_count = r.layout.block_count;
          };
          valid = r.valid;
        },
        ltb→ge _ _ fits,
      )
]

go_round : (h q w : ℕ) → h < w → q < w → w ≤ 2 ^ 60 → add_word h ((q + w - h) % w) % w ≡ q
go_round h q w hh hq hw = elim (dec_lt q h) [
  | yes p ↦
      let e : (q + w - h) % w ≡ q + w - h = mod-eq_of_lt (omega arith) in
      let f : add_word h (q + w - h) ≡ q + w = omega arith in
      rw (e, f) (add-mod_right q w ∙ mod-eq_of_lt hq)
  | no p ↦
      let e : q + w - h ≡ (q - h) + w = omega arith in
      let f : (q + w - h) % w ≡ q - h =
        rw e (add-mod_right (q - h) w ∙ mod-eq_of_lt (omega arith)) in
      let g : add_word h (q - h) ≡ q = omega arith in rw (f, g) (mod-eq_of_lt hq)
]

-- The search starts at the hint and goes round, so it meets every word.
every_word : (a : BlockPool) (v : IsValid a) → find_free a a.words 0 ≡ none → AllUsed a
every_word a v e j hj =
    let round = (j / 64 + a.words - a.hint) % a.words in
    let n = count_small a v in
    let in_words : j / 64 < a.words = omega (arith, v.words_eq) in
    let lt : round < a.words = mod-lt _ (omega (arith, v.hint_in)) in
    let full = find_free_complete a v a.words 0 e round (omega arith) (omega arith) in
    let at : add_word a.hint round % a.words ≡ j / 64 =
      go_round a.hint (j / 64) a.words v.hint_in in_words (omega (arith, v.words_eq)) in
    rw at at (full (j % 64)) (omega arith) (omega arith)

-- `bp_allocate` of a valid pool returns NULL exactly if the request exceeds the block size or all
-- blocks are in use.
pub allocate-none :
    (a : BlockPool) (size alignment : ℕ)
    → IsValid a
    → ((allocate a size alignment).0 ≡ none) ↔ ((a.block_size < size) ⊎ AllUsed a)
unfolding allocate finish
allocate-none a size alignment v = (needs, gives)
  where
    c : BlockPool
    c = record a { stats = count_alloc a.stats }

    vc : IsValid c
    vc = count_alloc-IsValid a v

    needs : (allocate a size alignment).0 ≡ none → (a.block_size < size) ⊎ AllUsed a
    needs h = elim (Bool-cases (ltb a.block_size size)) [
      | inl big ↦ inl (ltb→lt _ _ big)
      | inr small ↦ elim (Option-cases (find_free c c.words 0)) [
        | inl e ↦ inr (every_word c vc e)
        | inr (s, e) ↦ cc (rw (small, e, finish) at h)
      ]
    ]

    gives : (a.block_size < size) ⊎ AllUsed a → (allocate a size alignment).0 ≡ none
    gives (inl big) = rw (lt→ltb _ _ big)
    gives (inr full) = elim (Option-cases (allocate a size alignment).0) [
      | inl e ↦ e
      | inr (p, e) ↦
          let r =
            (allocate-Allocated a size alignment v (λ i. (e i, (allocate a size alignment).1))).0 in
          cc (r.was_free, full r.idx r.in_range)
    ]
