-- ===== src/Analyzer/Conserve.antt =====
-- A snapshot of a block pool.
use heapforge.Prelude.{
  ℕ, zero, suc, ◌+◌, ◌*◌, ◌^◌, ◌≤◌, ◌<◌, ◌≡◌, refl, arith, Bool, true, not, if◌then◌else◌, inl, inr,
  List, [], ◌∷◌, Bool-cases,
}
use heapforge.Prelude.Count.{count_below}
use heapforge.Allocator.{BlockInfo}
use heapforge.Analyzer.{Snapshot, take_snapshot}
use heapforge.Analyzer.Collect.{
  sum_free, collect-all, tally_all-used, tally_all-blocks, tally_all-free_bytes, tally_all-largest,
}
use heapforge.BlockPool.{BlockPool, walk}
use heapforge.BlockPool.Valid.{IsValid, is_used, used_blocks}
use heapforge.BlockPool.Walk.{Runs, walk-Runs}

-- Counting over a stretch in one state.
count_stretch :
    (f : ℕ → Bool) (i k : ℕ) (u : Bool)
    → ((j : ℕ) → i ≤ j → j < i + k → f j ≡ u)
    → count_below (i + k) f ≡ count_below i f + (if u then k else 0)
unfolding count_below
count_stretch f i zero u same = let at : i + 0 ≡ i = omega arith in rw at (ground arith)
count_stretch f i (suc k) u same =
    let rest = count_stretch f i k u (λ j lo hi. same j lo (omega arith)) in
    let last = same (i + k) (omega arith) (omega arith) in
    let at : i + suc k ≡ suc (i + k) = omega arith in rw at (ground (arith, rest, last))

count_none : (f : ℕ → Bool) → count_below 0 f ≡ 0
unfolding count_below
count_none f = refl

Runs-sum_free :
    (a : BlockPool) (i : ℕ) (es : List BlockInfo)
    → Runs a i es
    → sum_free es + used_blocks a * a.block_size + i * a.block_size
      ≡ a.block_count * a.block_size + count_below i (is_used a) * a.block_size
unfolding Runs
Runs-sum_free a i [] e = rw e (omega arith)
Runs-sum_free a i (e ∷ es) (n, run, rest) =
    let below = Runs-sum_free a (i + n) es rest in
    let more = count_stretch (is_used a) i n (not e.is_free) run.uniform in
    let size = run.size in
    elim (Bool-cases e.is_free) [
      | inl free ↦
          let same : count_below (i + n) (is_used a) ≡ count_below i (is_used a) =
            ground (arith, more) in
          rw free (grind (arith, rw same at below, size))
      | inr used ↦
          let grown : count_below (i + n) (is_used a) ≡ count_below i (is_used a) + n =
            ground (arith, more) in
          rw used (grind (arith, rw grown at below))
    ]

-- In a snapshot of a valid block pool, where the vector of entries can always grow, the used bytes
-- and the free bytes make up the pool, no entry of the walk is lost, and no free run is larger than
-- all free bytes together.
pub take_snapshot-conserves :
    (grants : ℕ → Bool) (a : BlockPool)
    → ((n : ℕ) → grants n ≡ true)
    → IsValid a
    → let s = take_snapshot grants a.stats (walk a) in
      (s.used + s.free_bytes ≡ a.block_count * a.block_size)
      × (s.blocks ≡ walk a)
      × (s.largest_free ≤ s.free_bytes)
unfolding take_snapshot
take_snapshot-conserves grants a all v =
    let kept = collect-all grants all 0 (record { v = []; cap = 0 }) (walk a) in
    let sum = Runs-sum_free a 0 (walk a) (walk-Runs a v) in
    let total : sum_free (walk a) + a.stats.used ≡ a.block_count * a.block_size =
      grind (arith, sum, v.used_eq, count_none (is_used a)) in
    let small : 0 + sum_free (walk a) < 2 ^ 64 = grind (arith, total, v.fits, v.in_space) in
    let start : Snapshot = record {
      capacity = a.stats.capacity;
      used = a.stats.used;
      free_bytes = 0;
      block_count = 0;
      free_block_count = 0;
      largest_free = 0;
      blocks = walk a;
    } in
    let used = tally_all-used start (walk a) in
    let free = tally_all-free_bytes start (walk a) small in
    rw kept (
      omega (arith, used, free, total),
      tally_all-blocks start (walk a),
      tally_all-largest start (walk a) small (omega arith),
    )
