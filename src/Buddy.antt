-- ===== src/Buddy.antt =====
-- c/src/hf_buddy.c: blocks whose sizes are powers of two, a list of free blocks for each power, and
-- a byte for each smallest block that has the order and the state of the block that begins there.
-- The words of the memory are a map from addresses; a pointer is an address and NULL is 0.
-- Assertions are on, and the lock is held during each call.
pub mod Orders
pub mod Merge
mod Tests
use heapforge.Prelude.{
  ℕ, zero, suc, ◌+◌, ◌-◌, ◌*◌, ◌/◌, ◌%◌, ◌^◌, bit_and, bit_or, bit_xor, Bool, true, false, not,
  ◌&&◌, ◌||◌, ◌==◌, ltb, leb, if◌then◌else◌, Option, none, some, List, [], ◌∷◌, add_word, sub_word,
  mul_word, not_word,
}
use heapforge.Allocator.{
  Stats, BlockInfo, Outcome, returns, aborts, checked, fresh_stats, count_alloc, count_free,
  count_failed, set_used,
}
use heapforge.Platform.{next_pow2, log2_floor}

-- `bd_alloc` with the words of its memory; `free_lists` and `order_map` by their indices.
pub record Buddy : Type 0 where
  pub words : ℕ → ℕ
  pub mem : ℕ
  pub capacity : ℕ
  pub min_order : ℕ
  pub max_order : ℕ
  pub free_lists : ℕ → ℕ
  pub order_map : ℕ → ℕ
  pub stats : Stats

-- BD_HDR
abbrev pub header_bytes : ℕ
header_bytes = 16

abbrev pub update : (ℕ → ℕ) → (at v : ℕ) → ℕ → ℕ
update f at v p = if p == at then v else f p

-- n->next, n->prev
abbrev pub next : Buddy → (n : ℕ) → ℕ
next a n = a.words n

abbrev pub set_next : Buddy → (n v : ℕ) → Buddy
set_next a n v = record a { words = update a.words n v }

abbrev pub prev : Buddy → (n : ℕ) → ℕ
prev a n = a.words (add_word n 8)

abbrev pub set_prev : Buddy → (n v : ℕ) → Buddy
set_prev a n v = record a { words = update a.words (add_word n 8) v }

abbrev pub set_list : Buddy → (order n : ℕ) → Buddy
set_list a order n = record a { free_lists = update a.free_lists order n }

-- `slot_of`
pub slot_of : Buddy → (p : ℕ) → ℕ
slot_of a p = sub_word p a.mem / 2 ^ a.min_order

-- `bd_push`
pub push : Buddy → (n order : ℕ) → Buddy
push a n order =
    let b = set_next (set_prev a n 0) n (a.free_lists order) in
    let c = if next b n == 0 then b else set_prev b (next b n) n in
    let d = set_list c order n in
    record d { order_map = update d.order_map (slot_of a n) (bit_or order 0x40 % 256) }

-- `bd_pop` of a list that is not empty
pub pop : Buddy → (order : ℕ) → ℕ × Buddy
pop a order =
    let n = a.free_lists order in
    let b = set_list a order (next a n) in (n, if next b n == 0 then b else set_prev b (next b n) 0)

-- `bd_unlink`
pub unlink : Buddy → (n order : ℕ) → Buddy
unlink a n order =
    let b =
      if prev a n == 0 then set_list a order (next a n) else set_next a (prev a n) (next a n) in
    if next b n == 0 then b else set_prev b (next b n) (prev b n)

-- `bd_mark_used`
pub mark_used : Buddy → (p order : ℕ) → Buddy
mark_used a p order = record a {
  order_map = update a.order_map (slot_of a p) (bit_or (bit_or order 0x80) 0x40 % 256);
}

-- `bd_is_free_at`
pub is_free_at : Buddy → (buddy order : ℕ) → Bool
is_free_at a buddy order =
    let enc = a.order_map (slot_of a buddy) in
    not (bit_and enc 0x40 == 0) && (bit_and enc 0x80 == 0) && (bit_and enc 0x3F == order)

-- `order_for`
pub order_for : (min_order bytes : ℕ) → ℕ
order_for min_order bytes =
    let o = log2_floor (next_pow2 bytes) in if ltb o min_order then min_order else o

-- The loop of `bd_allocate` over the orders from `o`, with the rounds that are left.
pub find_order : Buddy → (rounds o : ℕ) → ℕ
find_order a zero o = o
find_order a (suc rounds) o =
    let rest = find_order a rounds (o + 1) in
    if leb o a.max_order && (a.free_lists o == 0) then rest else o

-- The loop of `bd_allocate` that halves the block at `blk` `rounds` times, down to `order`.
pub split : Buddy → (blk order rounds : ℕ) → Buddy
split a blk order zero = a
split a blk order (suc rounds) =
    let o = order + rounds in split (push a (add_word blk (2 ^ o)) o) blk order rounds

-- The end of `bd_allocate`, with a block of order `o`.
pub serve : Buddy → (order o : ℕ) → Option ℕ × Buddy
unfolding split
serve a order o =
    let (blk, b) = pop a o in
    let c = mark_used (split b blk order (o - order)) blk order in
    let used = add_word c.stats.used (2 ^ order) in
    let d = record c { stats = set_used c.stats used } in
    (some (add_word blk header_bytes), record d { words = update d.words blk order })

-- The bytes that a request needs.
abbrev pub needed : (size alignment : ℕ) → ℕ
needed size alignment =
    let need = add_word size header_bytes in
    if ltb need alignment then add_word alignment header_bytes else need

-- `bd_allocate`
pub allocate : Buddy → (size alignment : ℕ) → Option ℕ × Buddy
unfolding find_order
allocate a size alignment =
    let order = order_for a.min_order (needed size alignment) in
    let b = record a { stats = count_alloc a.stats } in
    let o = find_order b (suc b.max_order) order in
    let failed = record b { stats = count_failed b.stats } in
    if ltb b.max_order order
    then (none, failed)
    else (if ltb b.max_order o then (none, failed) else serve b order o)

-- The loop of `bd_deallocate`: the offset and the order of the merged block.
pub merge : Buddy → (rounds off order : ℕ) → ℕ × ℕ × Buddy
merge a zero off order = (off, order, a)
merge a (suc rounds) off order =
    let buddy = add_word a.mem (bit_xor off (2 ^ order)) in
    let rest =
      merge (unlink a buddy order) rounds (bit_and off (not_word (2 ^ order))) (order + 1) in
    if ltb order a.max_order && is_free_at a buddy order then rest else (off, order, a)

-- `bd_deallocate`. An order is below `max_order` in each round of the loop, so there are not more.
pub deallocate : Buddy → (ptr : ℕ) → Outcome Buddy
unfolding merge
deallocate a ptr =
    let blk = sub_word ptr header_bytes in
    let order = a.words blk % 2 ^ 32 in
    let s = count_free a.stats in
    let b = record a { stats = record s { used = sub_word s.used (2 ^ order) } } in
    let (off, top, c) = merge b b.max_order (sub_word blk b.mem) order in
    if ptr == 0
    then returns a
    else checked (leb a.min_order order && leb order a.max_order)
        (returns (push c (add_word c.mem off) top))

-- The loop of `bd_walk` from slot `slot`, with the rounds that are left.
pub walk_loop : Buddy → (rounds slot : ℕ) → List BlockInfo
walk_loop a zero slot = []
walk_loop a (suc rounds) slot =
    let enc = a.order_map slot in
    let order = bit_and enc 0x3F in
    let skip = (order == 0) && (bit_and enc 0x40 == 0) in
    let rest =
      walk_loop a rounds (if skip then slot + 1 else add_word slot (2 ^ order / 2 ^ a.min_order)) in
    let entry : BlockInfo = record {
      offset = mul_word slot (2 ^ a.min_order);
      size = 2 ^ order;
      is_free = bit_and enc 0x80 == 0;
    } in
    if ltb slot (a.capacity / 2 ^ a.min_order) then (if skip then rest else entry ∷ rest) else []

-- `bd_walk`, as the list of the entries that it hands to its callback
pub walk : Buddy → List BlockInfo
unfolding walk_loop
walk a = walk_loop a (suc (a.capacity / 2 ^ a.min_order)) 0

-- The struct that `hf_buddy_create` fills, before the whole memory becomes a free block.
abbrev pub fresh : (mem capacity min_block : ℕ) → Buddy
fresh mem capacity min_block = record {
  words = λ _. 0;
  mem = mem;
  capacity = capacity;
  min_order = log2_floor min_block;
  max_order = log2_floor capacity;
  free_lists = λ _. 0;
  order_map = λ _. 0;
  stats = fresh_stats capacity;
}

-- `hf_buddy_create`. `struct_ok` and `tables_ok` are whether `calloc` has room, and `reserved` is what
-- the system reserves.
pub create :
    (struct_ok tables_ok : Bool) (reserved : Option ℕ) (capacity min_block : ℕ) → Option Buddy
create struct_ok tables_ok reserved capacity min_block =
    let smallest = next_pow2 (if ltb min_block 32 then 32 else min_block) in
    let bytes = next_pow2 (if ltb capacity smallest then smallest else capacity) in
    if struct_ok && tables_ok
    then elim reserved [
      | none ↦ none
      | some mem ↦ let a = fresh mem bytes smallest in some (push a mem a.max_order)
    ]
    else none
