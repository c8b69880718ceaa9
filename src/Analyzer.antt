-- ===== src/Analyzer.antt =====
-- c/src/hf_analyzer.c: the snapshot of an allocator. The name and the quotient of two figures, a
-- floating-point number, are left out, and so are the texts that are made of a snapshot.
pub mod Collect
pub mod Conserve
mod Tests
use heapforge.Prelude.{
  ℕ, ◌+◌, ◌*◌, Bool, true, false, ◌==◌, ltb, if◌then◌else◌, List, [], ◌∷◌, ◌++◌, length, add_word,
  mul_word,
}
use heapforge.Allocator.{Stats, BlockInfo}

-- `blk_vec`; `len` is the length of the list.
pub record BlkVec : Type 0 where
  pub v : List BlockInfo
  pub cap : ℕ

-- `vec_push`. `granted` is whether `realloc` has the room, where it is called.
pub vec_push : (granted : Bool) → BlkVec → BlockInfo → BlkVec
vec_push granted bv b =
    if length bv.v == bv.cap
    then (let nc = if bv.cap == 0 then 32 else mul_word bv.cap 2 in
        if granted then record { v = bv.v ++ (b ∷ []); cap = nc } else bv)
    else record bv { v = bv.v ++ (b ∷ []) }

-- What a walk with `collect_cb` makes of a vector. `grants i` is the answer to call `i`.
pub collect : (grants : ℕ → Bool) → (i : ℕ) → BlkVec → List BlockInfo → BlkVec
unfolding vec_push
collect grants i bv [] = bv
collect grants i bv (b ∷ bs) = collect grants (i + 1) (vec_push (grants i) bv b) bs

-- `hf_snapshot`
pub record Snapshot : Type 0 where
  pub capacity : ℕ
  pub used : ℕ
  pub free_bytes : ℕ
  pub block_count : ℕ
  pub free_block_count : ℕ
  pub largest_free : ℕ
  pub blocks : List BlockInfo

-- One round of the loop of `hf_snapshot_take`.
pub tally : Snapshot → BlockInfo → Snapshot
tally out b =
    let counted = record out { block_count = add_word out.block_count 1 } in
    if b.is_free
    then record counted {
      free_block_count = add_word out.free_block_count 1;
      free_bytes = add_word out.free_bytes b.size;
      largest_free = if ltb out.largest_free b.size then b.size else out.largest_free;
    }
    else counted

pub tally_all : Snapshot → List BlockInfo → Snapshot
tally_all out [] = out
tally_all out (b ∷ bs) = tally_all (tally out b) bs

-- `hf_snapshot_take` of an allocator with these statistics and this walk.
pub take_snapshot : (grants : ℕ → Bool) → Stats → List BlockInfo → Snapshot
take_snapshot grants st walked =
    let bv = collect grants 0 (record { v = []; cap = 0 }) walked in
    let out : Snapshot = record {
      capacity = st.capacity;
      used = st.used;
      free_bytes = 0;
      block_count = 0;
      free_block_count = 0;
      largest_free = 0;
      blocks = bv.v;
    } in
    tally_all out bv.v
