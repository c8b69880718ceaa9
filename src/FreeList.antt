-- ===== src/FreeList.antt =====
-- c/src/hf_free_list.c: blocks with boundary tags and a ring of the free ones, under three policies.
-- The memory is a map from addresses to 64-bit words, since every header, node and offset consists of
-- aligned words; a pointer is an address and NULL is 0. Assertions are on, and the lock is held
-- during each call.
pub mod Calls
pub mod Fit
pub mod Ring
pub mod Rotate
pub mod Nodes
pub mod Cycle
pub mod Linked
pub mod Tags
pub mod Held
pub mod Split
pub mod Unlink
pub mod Choose
pub mod Layout
use heapforge.Prelude.{
  ℕ, zero, suc, ◌+◌, ◌-◌, ◌*◌, ◌%◌, ◌^◌, bit_and, bit_or, Bool, true, false, not, ◌&&◌, ◌==◌, ltb,
  leb, if◌then◌else◌, Option, none, some, List, [], ◌∷◌, add_word, sub_word, not_word,
}
use heapforge.Allocator.{
  Stats, BlockInfo, Outcome, returns, aborts, checked, fresh_stats, count_alloc, count_free,
  count_failed, set_used,
}
use heapforge.Platform.{align_up, default_align}

-- `hf_fit_policy`
pub data Policy : Type 0 where
  first_fit : Policy
  best_fit : Policy
  next_fit : Policy

abbrev pub Words : Type 0
Words = ℕ → ℕ

abbrev pub write : Words → (at v : ℕ) → Words
write words at v p = if p == at then v else words p

-- `fl_alloc` with the words of its memory.
pub record FreeList : Type 0 where
  pub words : Words
  pub mem : ℕ
  pub capacity : ℕ
  pub policy : Policy
  pub free_head : ℕ
  pub cursor : ℕ
  pub stats : Stats

-- FL_HDR, FL_MIN
abbrev pub header_bytes : ℕ
header_bytes = 16

abbrev pub min_block : ℕ
min_block = 32

-- `hdr_size`
pub hdr_size : Words → (h : ℕ) → ℕ
hdr_size words h = bit_and (words h) (not_word 1)

-- `hdr_used`
pub hdr_used : Words → (h : ℕ) → Bool
hdr_used words h = not (bit_and (words h) 1 == 0)

-- `hdr_set`
pub hdr_set : Words → (h sz : ℕ) (used : Bool) → Words
hdr_set words h sz used = write words h (bit_or sz (if used then 1 else 0))

-- h->prev_phys
abbrev pub prev_phys : Words → (h : ℕ) → ℕ
prev_phys words h = words (add_word h 8)

abbrev pub set_prev_phys : Words → (h v : ℕ) → Words
set_prev_phys words h v = write words (add_word h 8) v

-- n->next, n->prev
abbrev pub next : Words → (n : ℕ) → ℕ
next words n = words n

abbrev pub set_next : Words → (n v : ℕ) → Words
set_next words n v = write words n v

abbrev pub prev : Words → (n : ℕ) → ℕ
prev words n = words (add_word n 8)

abbrev pub set_prev : Words → (n v : ℕ) → Words
set_prev words n v = write words (add_word n 8) v

-- `payload_node`, `header_of`
abbrev pub payload_node : ℕ → ℕ
payload_node h = add_word h header_bytes

abbrev pub header_of : ℕ → ℕ
header_of n = sub_word n header_bytes

-- `next_phys`; NULL is 0.
pub next_phys : FreeList → (h : ℕ) → ℕ
next_phys a h =
    let n = add_word h (hdr_size a.words h) in if ltb n (add_word a.mem a.capacity) then n else 0

-- `plausible_header`
pub plausible_header : FreeList → (h : ℕ) → Bool
plausible_header a h =
    let sz = hdr_size a.words h in
    not (ltb h a.mem)
    && ltb h (add_word a.mem a.capacity)
    && hdr_used a.words h
    && leb min_block sz
    && (sz % default_align == 0)
    && leb (add_word h sz) (add_word a.mem a.capacity)

-- `fl_insert`
pub insert : FreeList → (n : ℕ) → FreeList
insert a n =
    let cursor = if a.cursor == 0 then n else a.cursor in
    if a.free_head == 0
    then record a { words = set_next (set_prev a.words n n) n n; free_head = n; cursor = cursor }
    else let w1 = set_next a.words n (next a.words a.free_head) in
      let w2 = set_prev w1 n a.free_head in
      let w3 = set_prev w2 (next w2 a.free_head) n in
      record a { words = set_next w3 a.free_head n; cursor = cursor }

-- `fl_unlink`
pub unlink : FreeList → (n : ℕ) → FreeList
unlink a n =
    let w1 = set_next a.words (prev a.words n) (next a.words n) in
    let w2 = set_prev w1 (next w1 n) (prev w1 n) in
    if next a.words n == n then record a { free_head = 0; cursor = 0 } else record a {
      words = w2;
      free_head = if a.free_head == n then next w2 n else a.free_head;
      cursor = if a.cursor == n then next w2 n else a.cursor;
    }

-- The loops of `find_fit` that stop at the first block with room, from node `n`, with the rounds that
-- are left.
pub fit_loop : Words → (need start rounds n : ℕ) → Option ℕ
fit_loop words need start zero n = none
fit_loop words need start (suc rounds) n =
    let m = next words n in
    let rest = fit_loop words need start rounds m in
    if leb need (hdr_size words (header_of n)) then some n else (if m == start then none else rest)

-- The loop of `find_fit` that looks for the smallest block with room; `best` is 0 for NULL.
pub best_loop : Words → (need start rounds n best best_sz : ℕ) → ℕ
best_loop words need start zero n best best_sz = best
best_loop words need start (suc rounds) n best best_sz =
    let sz = hdr_size words (header_of n) in
    let better = leb need sz && ltb sz best_sz in
    let best' = if better then n else best in
    let best_sz' = if better then sz else best_sz in
    let m = next words n in
    let rest = best_loop words need start rounds m best' best_sz' in
    if m == start then best' else rest

-- The three searches of `find_fit`. A ring in the memory has fewer nodes than the memory has bytes.
pub search : FreeList → (need : ℕ) → Option ℕ
unfolding fit_loop best_loop
search a need = elim a.policy [
  | first_fit ↦ fit_loop a.words need a.free_head a.capacity a.free_head
  | best_fit ↦
      let best = best_loop a.words need a.free_head a.capacity a.free_head 0 (2 ^ 64 - 1) in
      if best == 0 then none else some best
  | next_fit ↦
      let start = if a.cursor == 0 then a.free_head else a.cursor in
      fit_loop a.words need start a.capacity start
]

-- `find_fit`: the node, and the allocator with its cursor moved.
pub find_fit : FreeList → (need : ℕ) → Option ℕ × FreeList
unfolding search
find_fit a need =
    let moved : Policy → Option ℕ → FreeList = λ policy found. elim policy [
      | first_fit ↦ a
      | best_fit ↦ a
      | next_fit ↦ elim found [ none ↦ a | some n ↦ record a { cursor = next a.words n } ]
    ] in
    if a.free_head == 0 then (none, a) else (search a need, moved a.policy (search a need))
