-- ===== src/PersistentPool/Settled.antt =====
-- The state of a pool between two operations, and `commit`, which leads from one to the next.
use heapforge.Prelude.{
  ℕ, ◌+◌, ◌-◌, ◌%◌, ◌^◌, ◌<◌, ◌≡◌, refl, ◌∙◌, arith, true, List, length, length-set, get_or, set,
  get_or-set_self, get_or-set_ne, add_word, ==_refl,
}
use heapforge.PersistentPool.{
  Pool, Image, MetaSlot, WalEntry, Slot, first, second, other, no_entry, wal_entries, meta_at,
  set_meta, meta_ok, wal_ok, entry_of, slot_of, wal_append, apply_bits, bits_of, apply_op,
  meta_commit, take_seq, commit,
}
use heapforge.PersistentPool.Effect.{marked, IsSound, effect, apply_bits-Applied}
use native.Mathlib.Decide.{ℕ_discrete}

-- No valid entry of the log has a sequence number from `s` on.
abbrev pub IsQuiet : List WalEntry → ℕ → Type 0
IsQuiet wal s = (i : ℕ) → wal_ok (get_or wal i no_entry) ≡ true → (get_or wal i no_entry).seq < s

-- Slot `i` holds the watermark `w`: it is valid, and the other slot is damaged or older.
pub record IsWatermark (m : Image) (i : Slot) (w : ℕ) : Type 0 where
  pub valid : meta_ok (meta_at m i) ≡ true
  pub seq : (meta_at m i).seq ≡ w
  pub older : meta_ok (meta_at m (other i)) ≡ true → (meta_at m (other i)).seq < w

pub record IsSettled (p : Pool) : Type 0 where
  pub sound : IsSound p.block_count (bits_of p)
  pub wal_len : length p.image.wal ≡ wal_entries
  pub watermark : IsWatermark p.image p.active_meta (p.next_seq - 1)
  pub next_pos : 0 < p.next_seq
  pub quiet : IsQuiet p.image.wal p.next_seq
  pub same_count : p.image.header.block_count ≡ p.block_count
  pub same_size : p.image.header.block_size ≡ p.block_size

pub other-other : (i : Slot) → other (other i) ≡ i
other-other first = refl
other-other second = refl

pub meta_at-set_self : (m : Image) (i : Slot) (s : MetaSlot) → meta_at (set_meta m i s) i ≡ s
meta_at-set_self m first s = refl
meta_at-set_self m second s = refl

pub meta_at-set_other :
    (m : Image) (i : Slot) (s : MetaSlot) → meta_at (set_meta m (other i) s) i ≡ meta_at m i
meta_at-set_other m first s = refl
meta_at-set_other m second s = refl

pub slot_of-ok : (seq used : ℕ) → meta_ok (slot_of seq used) ≡ true
slot_of-ok seq used = ==_refl _

pub entry_of-ok : (seq op index : ℕ) → wal_ok (entry_of seq op index) ≡ true
entry_of-ok seq op index = ==_refl _

-- Writing the other slot moves the watermark up.
pub set_meta-IsWatermark :
    (m : Image) (i : Slot) (v w used : ℕ)
    → IsWatermark m i v
    → v < w
    → IsWatermark (set_meta m (other i) (slot_of w used)) (other i) w
set_meta-IsWatermark m i v w used h lt = record {
  valid = rw (meta_at-set_self m (other i) (slot_of w used)) (slot_of-ok w used);
  seq = rw (meta_at-set_self m (other i) (slot_of w used));
  older = rw (other-other i, meta_at-set_other m i (slot_of w used)) (λ ok. omega (arith, h.seq));
}

-- The watermark does not depend on the log and the bitmap.
pub keep-IsWatermark :
    (m : Image) (wal : List WalEntry) (bitmap : List ℕ) (i : Slot) (w : ℕ)
    → IsWatermark m i w
    → IsWatermark (record m { wal = wal; bitmap = bitmap }) i w
keep-IsWatermark m wal bitmap first w h = record { valid = h.valid; seq = h.seq; older = h.older }
keep-IsWatermark m wal bitmap second w h = record { valid = h.valid; seq = h.seq; older = h.older }

-- One more entry in a quiet log.
pub set-IsQuiet :
    (wal : List WalEntry) (k s : ℕ) (e : WalEntry)
    → k < length wal
    → IsQuiet wal s
    → (wal_ok e ≡ true → e.seq < s)
    → IsQuiet (set wal k e) s
set-IsQuiet wal k s e h q new i = elim (ℕ_discrete k i) [
  | yes at ↦ rw (← at, get_or-set_self wal k e no_entry h) new
  | no ne ↦ rw (get_or-set_ne wal k i e no_entry ne) (q i)
]

pub suc-IsQuiet : (wal : List WalEntry) (s : ℕ) → IsQuiet wal s → IsQuiet wal (s + 1)
suc-IsQuiet wal s q i ok = omega (arith, q i ok)

-- The outcome of a committed operation.
pub record Committed (p : Pool) (op index : ℕ) (q : Pool) : Type 0 where
  pub marks : (j : ℕ) → marked q.image.bitmap j ≡ effect op index (marked p.image.bitmap) j
  pub next : q.next_seq ≡ p.next_seq + 1
  pub count : q.block_count ≡ p.block_count
  pub size : q.block_size ≡ p.block_size
  pub base : q.base ≡ p.base
  pub header : q.image.header ≡ p.image.header
  pub settled : IsSettled q

-- `commit` of an operation on a block in range, with sequence numbers left, has the operation's
-- effect on the set of blocks in use, takes one sequence number, keeps the layout, and keeps the
-- pool settled.
pub commit-Committed :
    (p : Pool) (op index : ℕ)
    → IsSettled p
    → index < p.block_count
    → p.next_seq + 1 < 2 ^ 64
    → Committed p op index (commit p op index)
unfolding commit apply_op wal_append meta_commit
commit-Committed p op index v h room =
    let seq = p.next_seq in
    let done = apply_bits-Applied p.block_count op index (bits_of p) v.sound h in
    let next : add_word seq 1 ≡ seq + 1 = omega arith in
    let kept =
      keep-IsWatermark p.image (set p.image.wal (seq % wal_entries) (entry_of seq op index))
        (apply_bits op index (bits_of p)).0 p.active_meta (seq - 1) v.watermark in
    let last : add_word seq 1 - 1 ≡ seq = omega arith in
    record {
      marks = done.marks;
      next = next;
      count = refl;
      size = refl;
      base = refl;
      header = refl;
      settled = record {
        sound = done.sound;
        wal_len = length-set p.image.wal (seq % wal_entries) _ ∙ v.wal_len;
        watermark = rw last (
            set_meta-IsWatermark (apply_op (wal_append (take_seq p) seq op index) op index).image
              p.active_meta (seq - 1) seq _ kept (omega (arith, v.next_pos)));
        next_pos = omega (arith, next);
        quiet = rw next (
            set-IsQuiet p.image.wal (seq % wal_entries) (seq + 1) (entry_of seq op index)
              (omega (arith, v.wal_len)) (suc-IsQuiet p.image.wal seq v.quiet) (λ ok. omega arith));
        same_count = v.same_count;
        same_size = v.same_size;
      };
    }
