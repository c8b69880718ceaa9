-- ===== src/PersistentPool.antt =====
-- c/src/hf_persistent_pool.c: a pool of blocks in a mapped file, with a log of intended changes
-- (WAL), a bitmap, and two metadata slots that take turns in holding the watermark. An `Image` is
-- what the file holds; the other fields of a `Pool` are lost with the process. `msync` and its kin
-- change neither.
mod Checksum
pub mod Api
pub mod Effect
pub mod Recovery
pub mod Settled
use Checksum.{fnv1a, bytes_of}
use heapforge.Prelude.{
  ℕ, zero, suc, ◌+◌, ◌-◌, ◌*◌, ◌/◌, ◌%◌, ◌^◌, bit_and, bit_or, Bool, true, false, not, ◌&&◌, ◌||◌,
  ◌==◌, ltb, leb, if◌then◌else◌, Option, none, some, List, [], ◌∷◌, ◌++◌, get_or, set, replicate,
  add_word, sub_word, mul_word,
}
use heapforge.Platform.{align_up, default_align}

-- `meta_slot`
pub record MetaSlot : Type 0 where
  pub seq : ℕ
  pub used_blocks : ℕ
  pub crc : ℕ

-- `wal_entry`
pub record WalEntry : Type 0 where
  pub seq : ℕ
  pub op : ℕ
  pub index : ℕ
  pub crc : ℕ

-- The index of a metadata slot, 0 or 1, and `active_meta ^ 1`.
pub data Slot : Type 0 where
  first second : Slot

abbrev pub other : Slot → Slot
other first = second
other second = first

-- `pool_header`, less its metadata slots
pub record Header : Type 0 where
  pub magic : ℕ
  pub block_size : ℕ
  pub block_count : ℕ
  pub wal_offset : ℕ
  pub bitmap_offset : ℕ
  pub data_offset : ℕ
  pub total_size : ℕ

-- The mapped file: the header with `meta[0]` and `meta[1]`, the WAL ring and the bitmap.
pub record Image : Type 0 where
  pub header : Header
  pub meta_first : MetaSlot
  pub meta_second : MetaSlot
  pub wal : List WalEntry
  pub bitmap : List ℕ

-- `hf_persistent_pool`
pub record Pool : Type 0 where
  pub image : Image
  pub base : ℕ
  pub block_size : ℕ
  pub block_count : ℕ
  pub used_blocks : ℕ
  pub next_seq : ℕ
  pub active_meta : Slot

-- POOL_MAGIC, WAL_ENTRIES, WAL_OP_ALLOC, WAL_OP_FREE
abbrev pub pool_magic : ℕ
pool_magic = 0x4846505043020001

abbrev pub wal_entries : ℕ
wal_entries = 256

abbrev pub op_alloc : ℕ
op_alloc = 1

abbrev pub op_free : ℕ
op_free = 2

-- An entry of zeros: what `memset` leaves, and the default of a read out of range.
abbrev pub no_entry : WalEntry
no_entry = record { seq = 0; op = 0; index = 0; crc = 0 }

abbrev pub meta_at : Image → Slot → MetaSlot
meta_at m first = m.meta_first
meta_at m second = m.meta_second

abbrev pub set_meta : Image → Slot → MetaSlot → Image
set_meta m i s = record m {
  meta_first = elim i [ first ↦ s | second ↦ m.meta_first ];
  meta_second = elim i [ first ↦ m.meta_second | second ↦ s ];
}

-- The checksums cover all fields but the last.
pub meta_crc : (seq used_blocks : ℕ) → ℕ
meta_crc seq used_blocks = fnv1a (bytes_of 8 seq ++ bytes_of 8 used_blocks)

pub wal_crc : (seq op index : ℕ) → ℕ
wal_crc seq op index = fnv1a (bytes_of 8 seq ++ (bytes_of 4 op ++ bytes_of 4 index))

abbrev pub meta_ok : MetaSlot → Bool
meta_ok m = m.crc == meta_crc m.seq m.used_blocks

abbrev pub wal_ok : WalEntry → Bool
wal_ok e = e.crc == wal_crc e.seq e.op e.index

-- `bit_test`, `bit_set`, `bit_clear` on the bytes of the bitmap
pub bit_test : List ℕ → ℕ → Bool
bit_test bitmap i = not (bit_and (get_or bitmap (i / 8) 0 / 2 ^ (i % 8)) 1 == 0)

pub bit_set : List ℕ → ℕ → List ℕ
bit_set bitmap i = set bitmap (i / 8) (bit_or (get_or bitmap (i / 8) 0) (2 ^ (i % 8) % 2 ^ 8))

pub bit_clear : List ℕ → ℕ → List ℕ
bit_clear bitmap i =
    set bitmap (i / 8) (bit_and (get_or bitmap (i / 8) 0) ((2 ^ 32 - 1 - 2 ^ (i % 8)) % 2 ^ 8))

-- The entry that `wal_append` writes.
abbrev pub entry_of : (seq op index : ℕ) → WalEntry
entry_of seq op index = record { seq = seq; op = op; index = index; crc = wal_crc seq op index }

-- `wal_append`
pub wal_append : Pool → (seq op index : ℕ) → Pool
wal_append p seq op index = record p {
  image = record p.image { wal = set p.image.wal (seq % wal_entries) (entry_of seq op index) };
}

-- The two fields that `apply_op` may change: the bitmap and `used_blocks`.
pub apply_bits : (op index : ℕ) → List ℕ × ℕ → List ℕ × ℕ
apply_bits op index (bitmap, used) =
    if op == op_alloc
    then (if not (bit_test bitmap index)
        then (bit_set bitmap index, add_word used 1)
        else (bitmap, used))
    else (if bit_test bitmap index
        then (bit_clear bitmap index, sub_word used 1)
        else (bitmap, used))

abbrev pub bits_of : Pool → List ℕ × ℕ
bits_of p = (p.image.bitmap, p.used_blocks)

abbrev pub with_bits : Pool → List ℕ × ℕ → Pool
with_bits p b = record p { image = record p.image { bitmap = b.0 }; used_blocks = b.1 }

-- `apply_op`
pub apply_op : Pool → (op index : ℕ) → Pool
apply_op p op index = with_bits p (apply_bits op index (bits_of p))

-- The slot that `meta_commit` writes.
abbrev pub slot_of : (seq used_blocks : ℕ) → MetaSlot
slot_of seq used_blocks = record {
  seq = seq;
  used_blocks = used_blocks;
  crc = meta_crc seq used_blocks;
}

-- `meta_commit`
pub meta_commit : Pool → ℕ → Pool
meta_commit p seq = record p {
  image = set_meta p.image (other p.active_meta) (slot_of seq p.used_blocks);
  active_meta = other p.active_meta;
}

-- uint64_t seq = p->next_seq++;
abbrev pub take_seq : Pool → Pool
take_seq p = record p { next_seq = add_word p.next_seq 1 }

-- `commit`: log the intent, apply it, advance the watermark.
pub commit : Pool → (op index : ℕ) → Pool
commit p op index =
    let seq = p.next_seq in
    meta_commit (apply_op (wal_append (take_seq p) seq op index) op index) seq

-- `recover`, the choice of the slot: one round of its first loop, on the best slot so far.
pub consider : Image → Slot → Option Slot × ℕ → Option Slot × ℕ
consider m i (none, seq) =
    if meta_ok (meta_at m i) then (some i, (meta_at m i).seq) else (none, seq)
consider m i (some best, seq) =
    if meta_ok (meta_at m i) && leb seq (meta_at m i).seq
    then (some i, (meta_at m i).seq)
    else (some best, seq)

abbrev pub or_first : Option Slot × ℕ → Slot × ℕ
or_first (none, seq) = (first, 0)
or_first (some best, seq) = (best, seq)

pub best_slot : Image → Slot × ℕ
best_slot m = or_first (consider m second (consider m first (none, 0)))
