-- ===== src/PersistentPool/Api.antt =====
-- The public operations of c/src/hf_persistent_pool.c.
pub mod Backlog
pub mod Open
mod Tests
pub mod Use
use heapforge.Prelude.{
  ℕ, zero, suc, ◌+◌, ◌/◌, ◌*◌, Bool, true, false, not, ◌&&◌, ◌||◌, ◌==◌, ltb, leb, if◌then◌else◌,
  Option, none, some, List, replicate, add_word, mul_word, ◌%◌, ◌^◌,
}
use heapforge.Platform.{align_up, default_align}
use heapforge.PersistentPool.{
  Pool, Image, Header, MetaSlot, WalEntry, Slot, first, no_entry, wal_entries, pool_magic, op_alloc,
  op_free, bit_test, commit, wal_append, take_seq, meta_crc,
}
use heapforge.PersistentPool.Recovery.{recover}

-- The loop of `hf_pool_allocate` from block `i`, with the rounds that are left.
pub first_free : Pool → (rounds i : ℕ) → Option ℕ
first_free p zero i = none
first_free p (suc rounds) i =
    let rest = first_free p rounds (i + 1) in
    if not (bit_test p.image.bitmap i) then some i else rest

-- `p->data + index * p->block_size`
abbrev pub address : Pool → ℕ → ℕ
address p index =
    add_word (add_word p.base p.image.header.data_offset) (mul_word index p.block_size)

-- `hf_pool_allocate`: the index that goes to `*out_index` and the pointer, or NULL.
pub allocate : Pool → Option (ℕ × ℕ) × Pool
unfolding first_free
allocate p = elim (first_free p p.block_count 0) [
  | none ↦ (none, p)
  | some i ↦ (some (i, address p i), commit p op_alloc (i % 2 ^ 32))
]

-- `hf_pool_free`
pub free : Pool → ℕ → Pool
free p index =
    if ltb index p.block_count && bit_test p.image.bitmap index
    then commit p op_free (index % 2 ^ 32)
    else p

-- `hf_pool_at`
pub at : Pool → ℕ → Option ℕ
at p index =
    if leb p.block_count index || not (bit_test p.image.bitmap index)
    then none
    else some (address p index)

-- `hf_pool_debug_wal_only`
pub debug_wal_only : Pool → (index : ℕ) → (allocate : Bool) → Pool
debug_wal_only p index allocate =
    wal_append (take_seq p) p.next_seq (if allocate then op_alloc else op_free) (index % 2 ^ 32)

-- `hf_pool_debug_crash`: what is left of a pool.
abbrev pub debug_crash : Pool → Image
debug_crash p = p.image

-- The fields of the struct that `hf_pool_open` sets before it fills or reads the file.
abbrev pub attach : (base : ℕ) → Image → Pool
attach base m = record {
  image = m;
  base = base;
  block_size = m.header.block_size;
  block_count = m.header.block_count;
  used_blocks = 0;
  next_seq = 1;
  active_meta = first;
}

-- The header of a new file.
pub new_header : (page block_size block_count : ℕ) → Header
new_header page block_size block_count =
    let wal_off = page in
    let bitmap_off = add_word wal_off (align_up (24 * wal_entries) page) in
    let data_off = add_word bitmap_off (align_up (add_word block_count 7 / 8) page) in
    record {
      magic = pool_magic;
      block_size = block_size;
      block_count = block_count;
      wal_offset = wal_off;
      bitmap_offset = bitmap_off;
      data_offset = data_off;
      total_size = add_word data_off (align_up (mul_word block_size block_count) page);
    }

-- The file that `hf_pool_open` makes: zeros but for the header and the checksum of `meta[0]`.
pub new_image : Header → Image
new_image header = record {
  header = header;
  meta_first = record { seq = 0; used_blocks = 0; crc = meta_crc 0 0 };
  meta_second = record { seq = 0; used_blocks = 0; crc = 0 };
  wal = replicate wal_entries no_entry;
  bitmap = replicate (add_word header.block_count 7 / 8) 0;
}

-- What `hf_pool_open` comes to: NULL, a pool, an access that leaves the mapping, or a loop without end.
pub data Opening : Type 0 where
  null : Opening
  opened : Pool → Opening
  out_of_map : Opening
  endless : Opening

-- The log and the bitmap of a file lie in the mapping.
pub fits_map : Header → Bool
fits_map header =
    leb (header.wal_offset + 24 * wal_entries) header.total_size
    && leb (header.bitmap_offset + add_word header.block_count 7 / 8) header.total_size

-- `hf_pool_open` where the file is not there. `granted` is whether the system creates and
-- lengthens the file and has memory for the struct, and `mapped` where it maps it.
pub open_new : (granted : Bool) (mapped : Option ℕ) (page block_size block_count : ℕ) → Opening
open_new granted mapped page block_size block_count =
    let header = new_header page (align_up block_size default_align) block_count in
    if block_size == 0 || block_count == 0
    then null
    else (if granted
        then elim mapped [
          | none ↦ null
          | some base ↦
              if fits_map header then opened (attach base (new_image header)) else out_of_map
        ]
        else null)

-- What `hf_pool_open` makes of the recovered pool.
pub reopened : Option Pool → Opening
reopened none = endless
reopened (some p) = opened p

-- `hf_pool_open` where the file is there. `granted` is whether its header can be read and there
-- is memory for the struct.
pub open_existing : (granted : Bool) (mapped : Option ℕ) → Image → Opening
open_existing granted mapped m =
    if granted && (m.header.magic == pool_magic)
    then elim mapped [
      | none ↦ null
      | some base ↦ if fits_map m.header then reopened (recover (attach base m)) else out_of_map
    ]
    else null
