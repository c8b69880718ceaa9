-- ===== src/FreeList/Calls.antt =====
-- The calls of c/src/hf_free_list.c: allocation with splitting, deallocation with coalescing, the walk.
pub mod Walk
pub mod Absorb
pub mod Give
pub mod Back
pub mod Free
pub mod Carve
pub mod Take
pub mod Lookup
pub mod Allot
mod Tests
use heapforge.Prelude.{
  ℕ, zero, suc, ◌+◌, ◌-◌, ◌*◌, ◌%◌, ◌^◌, bit_and, bit_or, Bool, true, false, not, ◌&&◌, ◌==◌, ltb,
  leb, if◌then◌else◌, Option, none, some, List, [], ◌∷◌, add_word, sub_word, not_word,
}
use heapforge.Allocator.{
  Stats, BlockInfo, Outcome, returns, aborts, checked, fresh_stats, count_alloc, count_free,
  count_failed, set_used,
}
use heapforge.Platform.{align_up, default_align}
use heapforge.FreeList.{
  FreeList, Policy, Words, write, header_bytes, min_block, hdr_size, hdr_used, hdr_set,
  set_prev_phys, prev_phys, set_next, set_prev, payload_node, next_phys, plausible_header, insert,
  unlink, find_fit, header_of,
}

-- The bytes that a request needs with its header.
pub needed : (size alignment : ℕ) → ℕ
needed size alignment =
    let some_size = if size == 0 then 1 else size in
    let room = if ltb default_align alignment then add_word some_size alignment else some_size in
    let need = align_up (add_word header_bytes room) default_align in
    if ltb need min_block then min_block else need

-- The part of `fl_allocate` that marks the block at `h`, which is in no ring any more, and splits off
-- what is left over.
pub carve : FreeList → (h need : ℕ) → FreeList
carve a h need =
    let remain = sub_word (hdr_size a.words h) need in
    let split = add_word h need in
    let w1 = set_prev_phys (hdr_set a.words split remain false) split h in
    let after = next_phys (record a { words = w1 }) split in
    let w2 = if after == 0 then w1 else set_prev_phys w1 after split in
    if leb min_block remain
    then insert (record a { words = hdr_set w2 h need true }) (payload_node split)
    else record a { words = hdr_set a.words h (hdr_size a.words h) true }

-- The end of `fl_allocate`: the pointer for the block at `h`, and the offset word before an aligned one.
pub place_pointer : FreeList → (h alignment : ℕ) → ℕ × FreeList
place_pointer a h alignment =
    let p = payload_node h in
    let aligned = align_up (add_word p 8) alignment in
    if ltb default_align alignment
    then (aligned, record a { words = write a.words (sub_word aligned 8) (sub_word aligned p) })
    else (p, a)

-- `fl_allocate` for the node that `find_fit` found.
pub take : FreeList → (node need alignment : ℕ) → ℕ × FreeList
take a node need alignment =
    let h = header_of node in
    let b = carve (unlink a node) h need in
    let used = add_word b.stats.used (hdr_size b.words h) in
    place_pointer (record b { stats = set_used b.stats used }) h alignment

-- `fl_allocate`
pub allocate : FreeList → (size alignment : ℕ) → Option ℕ × FreeList
allocate a size alignment =
    let need = needed size alignment in
    let (node, b) = find_fit (record a { stats = count_alloc a.stats }) need in
    elim node [
      | none ↦ (none, record b { stats = count_failed b.stats })
      | some n ↦ let (p, c) = take b n need alignment in (some p, c)
    ]

-- The header that `fl_deallocate` takes for the pointer's.
pub header_at : FreeList → (ptr : ℕ) → ℕ
header_at a ptr =
    let h = header_of ptr in
    if plausible_header a h then h else header_of (sub_word ptr (a.words (sub_word ptr 8)))

-- The neighbour at `block` leaves the ring, and the block at `into` takes in the one at `from`.
pub absorb : FreeList → (block into from : ℕ) → FreeList
absorb a block into from =
    let node = payload_node block in
    let b = unlink a node in
    let w = hdr_set b.words into (add_word (hdr_size b.words into) (hdr_size b.words from)) false in
    let c = record b { words = w; cursor = if b.cursor == node then 0 else b.cursor } in
    let nn = next_phys c into in
    if nn == 0 then c else record c { words = set_prev_phys c.words nn into }

-- The step of `fl_deallocate` that joins the next block, if it is free.
pub join_next : FreeList → (h : ℕ) → FreeList
join_next a h =
    let nb = next_phys a h in
    if not (nb == 0) && not (hdr_used a.words nb) then absorb a nb h nb else a

-- The step of `fl_deallocate` that joins the previous block, if it is free: the block that is left.
pub join_prev : FreeList → (h : ℕ) → ℕ × FreeList
join_prev a h =
    let pb = prev_phys a.words h in
    if not (pb == 0) && not (hdr_used a.words pb) then (pb, absorb a pb pb h) else (h, a)

-- `fl_deallocate`
pub deallocate : FreeList → (ptr : ℕ) → Outcome FreeList
deallocate a ptr =
    let b = record a { stats = count_free a.stats } in
    let h = header_at b ptr in
    let s = b.stats in
    let c = record b {
      words = hdr_set b.words h (hdr_size b.words h) false;
      stats = record s { used = sub_word s.used (hdr_size b.words h) };
    } in
    let (h', d) = join_prev (join_next c h) h in
    if ptr == 0
    then returns a
    else checked (hdr_used b.words h) (returns (insert d (payload_node h')))

-- The loop of `fl_walk` from address `c`, with the rounds that are left.
pub walk_loop : FreeList → (rounds c : ℕ) → List BlockInfo
walk_loop a zero c = []
walk_loop a (suc rounds) c =
    let size = hdr_size a.words c in
    let rest = walk_loop a rounds (add_word c size) in
    if ltb c (add_word a.mem a.capacity)
    then record { offset = sub_word c a.mem; size = size; is_free = not (hdr_used a.words c) }
      ∷ rest
    else []

-- `fl_walk`, as the list of the entries that it hands to its callback. No block is empty, so there
-- are not more blocks than bytes.
pub walk : FreeList → List BlockInfo
unfolding walk_loop
walk a = walk_loop a a.capacity a.mem

-- `hf_free_list_create`. `struct_ok` is whether `calloc` has room, and `reserved` what the system
-- reserves, which is all zeros.
pub create :
    (page : ℕ) (struct_ok : Bool) (reserved : Option ℕ) (capacity : ℕ) (policy : Policy)
    → Option FreeList
create page struct_ok reserved capacity policy =
    let bytes = align_up (if ltb capacity (2 * min_block) then 2 * min_block else capacity) page in
    if struct_ok
    then elim reserved [
      | none ↦ none
      | some mem ↦
          let w = set_prev_phys (hdr_set (λ _. 0) mem bytes false) mem 0 in
          let head = payload_node mem in
          some (record {
            words = set_next (set_prev w head head) head head;
            mem = mem;
            capacity = bytes;
            policy = policy;
            free_head = head;
            cursor = head;
            stats = fresh_stats bytes;
          })
    ]
    else none
