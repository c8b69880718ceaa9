-- ===== src/PersistentPool/Api/Open.antt =====
-- `hf_pool_open`: a new pool is settled, and a pool that was left between two operations is found
-- again as it was.
use heapforge.Prelude.{
  ℕ, ◌+◌, ◌-◌, ◌/◌, ◌%◌, ◌^◌, ◌≤◌, ◌<◌, ◌≡◌, refl, sym, ◌∙◌, ap, arith, true, false, ◌==◌, some, [],
  length-replicate, get_or-replicate, replicate, ==_refl, add_word, mul_word, le→leb, ◌*◌, ne→==,
}
use heapforge.Prelude.Bits.{test_bit-zero}
use heapforge.Prelude.Count.{count_below-none, count_below-congr}
use heapforge.Platform.{align_up, default_align}
use native.Mathlib.Nat.{le-mul_of_pos_right, mul-le-mul_right}
use heapforge.Platform.Align.{align_up_lem, default_align_lem}
use heapforge.PersistentPool.{Pool, Header, no_entry, wal_entries, pool_magic, meta_crc}
use heapforge.PersistentPool.Checksum.{fnv1a, bytes_of}
use heapforge.PersistentPool.Effect.{marked}
use heapforge.PersistentPool.Settled.{IsSettled}
use heapforge.PersistentPool.Recovery.{recover}
use heapforge.PersistentPool.Recovery.Replay.{Pending, InRange, run_effect}
use heapforge.PersistentPool.Recovery.Outcome.{IsRecoverable, recover-Recovered}
use heapforge.PersistentPool.Api.{
  attach, new_header, new_image, fits_map, open_new, open_existing, debug_crash, opened, reopened,
}

-- A new pool: settled, with all blocks free.
pub record IsNew (block_size block_count : ℕ) (p : Pool) : Type 0 where
  pub settled : IsSettled p
  pub all_free : (j : ℕ) → marked p.image.bitmap j ≡ false
  pub count : p.block_count ≡ block_count
  pub size : p.block_size ≡ align_up block_size default_align
  pub magic : p.image.header.magic ≡ pool_magic
  pub fits : fits_map p.image.header ≡ true

-- A slot of zeros does not pass its check.
zero_slot_damaged : {A : Type 0} → (0 == meta_crc 0 0) ≡ true → A
unfolding meta_crc fnv1a bytes_of
zero_slot_damaged ok = cc

zeros_free : (n j : ℕ) → marked (replicate n 0) j ≡ false
zeros_free n j = rw (get_or-replicate {A = ℕ} n (j / 8) 0) (test_bit-zero (j % 8))

pub attach-IsSettled :
    (base : ℕ) (header : Header)
    → header.block_count ≤ 2 ^ 32
    → IsSettled (attach base (new_image header))
unfolding new_image
attach-IsSettled base header small =
    let n = add_word header.block_count 7 / 8 in
    let free = zeros_free n in
    record {
      sound = record {
        small = small;
        bitmap_len = length-replicate n 0 ∙ omega arith;
        bytes = λ i. rw (get_or-replicate {A = ℕ} n i 0) (omega arith);
        used_eq = sym (count_below-none header.block_count _ free);
      };
      wal_len = length-replicate wal_entries no_entry;
      watermark = record { valid = ==_refl _; seq = refl; older = λ ok. zero_slot_damaged ok };
      next_pos = omega arith;
      quiet = λ i. rw (get_or-replicate wal_entries i no_entry) (λ _. omega arith);
      same_count = refl;
      same_size = refl;
    }

attach-IsNew :
    (base page block_size block_count : ℕ)
    → block_count ≤ 2 ^ 32
    → fits_map (new_header page (align_up block_size default_align) block_count) ≡ true
    → IsNew block_size block_count
        (attach base (new_image (new_header page (align_up block_size default_align) block_count)))
unfolding new_header new_image
attach-IsNew base page block_size block_count small fits =
    let header = new_header page (align_up block_size default_align) block_count in
    record {
      settled = attach-IsSettled base header small;
      all_free = zeros_free (add_word block_count 7 / 8);
      count = refl;
      size = refl;
      magic = refl;
      fits = fits;
    }

-- The offsets of a new file do not wrap.
new_header-fits_map :
    (k block_size block_count : ℕ)
    → k ≤ 63
    → 2 ^ k ≤ 2 ^ 32
    → block_count ≤ 2 ^ 32
    → block_size * block_count < 2 ^ 63
    → fits_map (new_header (2 ^ k) block_size block_count) ≡ true
unfolding new_header fits_map
new_header-fits_map k block_size block_count small page few room =
    let n : add_word block_count 7 / 8 ≤ 2 ^ 30 = omega (arith, few) in
    let all : mul_word block_size block_count ≡ block_size * block_count = omega (arith, room) in
    let (_, wal_low, wal_high) = align_up_lem (24 * wal_entries) k small (omega (arith, page)) in
    let (_, map_low, map_high) =
      align_up_lem (add_word block_count 7 / 8) k small (omega (arith, n, page)) in
    let (_, _, data_high) =
      align_up_lem (mul_word block_size block_count) k small (omega (arith, all, room, page)) in
    let page_size = 2 ^ k in
    let log = align_up (24 * wal_entries) (2 ^ k) in
    let map = align_up (add_word block_count 7 / 8) (2 ^ k) in
    let blocks = align_up (mul_word block_size block_count) (2 ^ k) in
    let at_map : add_word page_size log ≡ page_size + log = omega (arith, page, wal_high) in
    let at_blocks : add_word (add_word page_size log) map ≡ page_size + log + map =
      omega (arith, at_map, page, wal_high, map_high, n) in
    let total : add_word (add_word (add_word page_size log) map) blocks
        ≡ page_size + log + map + blocks =
      omega (arith, at_blocks, page, wal_high, map_high, n, data_high, all, room) in
    rw
      (
        le→leb (page_size + 24 * wal_entries)
            (add_word (add_word (add_word page_size log) map) blocks)
            (omega (arith, total, wal_low)),
        le→leb (add_word page_size log + add_word block_count 7 / 8)
            (add_word (add_word (add_word page_size log) map) blocks)
            (omega (arith, total, at_map, map_low)),
      )
      refl

-- `hf_pool_open` of a file that is not there, where the system creates and maps it, makes a settled
-- pool, with the asked number of blocks, of the asked size rounded up, all of them free, and with
-- what a later opening asks of the header, for at least one block and one byte, at most 2 ^ 32
-- blocks, a page of a power of two up to 2 ^ 32, and blocks that with 16 bytes more each come to
-- less than 2 ^ 63 bytes: nothing it writes leaves the mapping.
pub open_new-IsNew :
    (base k block_size block_count : ℕ)
    → k ≤ 63
    → 2 ^ k ≤ 2 ^ 32
    → 0 < block_size
    → 0 < block_count
    → block_count ≤ 2 ^ 32
    → (block_size + 16) * block_count < 2 ^ 63
    → (p : Pool) × (open_new true (some base) (2 ^ k) block_size block_count ≡ opened p)
      × IsNew block_size block_count p
unfolding open_new
open_new-IsNew base k block_size block_count small page some_size some_count few room =
    let size = align_up block_size default_align in
    let bound : block_size < 2 ^ 63 =
      omega (arith, room, le-mul_of_pos_right (block_size + 16) some_count) in
    let (_, _, high) = default_align_lem block_size (omega (arith, bound)) in
    let all : size * block_count < 2 ^ 63 = omega (
      arith,
      room,
      mul-le-mul_right {m = size} {n = block_size + 16} block_count (omega (arith, high)),
    ) in
    let fits = new_header-fits_map k size block_count small page few all in
    let size_test = ne→== block_size 0 (λ e. omega (arith, e, some_size)) in
    let count_test = ne→== block_count 0 (λ e. omega (arith, e, some_count)) in
    (
      attach base (new_image (new_header (2 ^ k) size block_count)),
      rw (size_test, count_test, fits) refl,
      attach-IsNew base (2 ^ k) block_size block_count few fits,
    )

recoverable :
    (base : ℕ) (p : Pool)
    → IsSettled p
    → p.next_seq + wal_entries < 2 ^ 64
    → IsRecoverable (attach base p.image) (p.next_seq - 1) []
unfolding Pending InRange
recoverable base p v room = record {
  slot = p.active_meta;
  watermark = v.watermark;
  sound = record {
    small = rw v.same_count v.sound.small;
    bitmap_len = rw v.same_count v.sound.bitmap_len;
    bytes = v.sound.bytes;
    used_eq = refl;
  };
  wal_len = v.wal_len;
  pending = λ i ok. omega (arith, v.quiet i ok, v.next_pos);
  few = omega arith;
  in_range = tt;
  room = omega (arith, v.next_pos);
  same_count = refl;
  same_size = refl;
}

found :
    (base : ℕ) (p : Pool)
    → IsSettled p
    → p.next_seq + wal_entries < 2 ^ 64
    → (r : Pool) × (recover (attach base p.image) ≡ some r)
      × IsSettled r
      × ((j : ℕ) → marked r.image.bitmap j ≡ marked p.image.bitmap j)
      × (r.used_blocks ≡ p.used_blocks)
      × (r.next_seq ≡ p.next_seq)
unfolding run_effect
found base p v room =
    let r =
      recover-Recovered (attach base p.image) (p.next_seq - 1) [] (recoverable base p v room) in
    let count : r.pool.block_count ≡ p.block_count = r.count ∙ v.same_count in
    let same =
      count_below-congr p.block_count (marked p.image.bitmap) (marked r.pool.image.bitmap)
        (λ j _. r.marks j) in
    let used = rw count at r.settled.sound.used_eq in
    (
      r.pool,
      r.returns,
      r.settled,
      r.marks,
      used ∙ same ∙ sym v.sound.used_eq,
      omega (arith, r.next, v.next_pos),
    )

-- `hf_pool_open` of the file of a settled pool, with the magic number in its header, its log and
-- bitmap within its size, and the next sequence number and 256 below 2 ^ 64, where the system opens
-- and maps it, ends and gives a settled pool with the same blocks in use, the same counter and the
-- same next sequence number.
pub reopen-IsSettled :
    (base : ℕ) (p : Pool)
    → IsSettled p
    → p.next_seq + wal_entries < 2 ^ 64
    → p.image.header.magic ≡ pool_magic
    → fits_map p.image.header ≡ true
    → (q : Pool) × (open_existing true (some base) (debug_crash p) ≡ opened q)
      × IsSettled q
      × ((j : ℕ) → marked q.image.bitmap j ≡ marked p.image.bitmap j)
      × (q.used_blocks ≡ p.used_blocks)
      × (q.next_seq ≡ p.next_seq)
unfolding open_existing reopened
reopen-IsSettled base p v room magic fits =
    let test : (p.image.header.magic == pool_magic) ≡ true =
      ap (λ m. m == pool_magic) magic ∙ ==_refl pool_magic in
    let (q, returns, settled, marks, used, next) = found base p v room in
    (q, rw (test, fits) (ap reopened returns), settled, marks, used, next)
