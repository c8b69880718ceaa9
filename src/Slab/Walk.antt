-- ===== src/Slab/Walk.antt =====
-- `sl_walk`, which does not know the state of each slot: it spreads the used bytes over the slabs.
use heapforge.Prelude.{
  ℕ, ◌+◌, ◌-◌, ◌*◌, ◌^◌, ◌≤◌, ◌<◌, ◌≡◌, arith, ◌==◌, if◌then◌else◌, List, [], ◌∷◌, length, ltb,
  add_word, Bool-cases, inl, inr, suc,
}
use heapforge.Allocator.Tiles.{Tiles, Tiles-append, sum_used, sum_used-append}
use heapforge.Slab.{Slab, entries, walk_loop, walk}

entries-Tiles :
    (slab_bytes off used : ℕ)
    → used ≤ slab_bytes
    → off + slab_bytes < 2 ^ 64
    → Tiles off (off + slab_bytes) (entries slab_bytes off used)
      × (sum_used (entries slab_bytes off used) ≡ used)
unfolding Tiles
entries-Tiles slab_bytes off used h room = elim (Bool-cases (used == 0)) [
  | inl nothing ↦ elim (Bool-cases (ltb used slab_bytes)) [
    | inl some_free ↦ rw (nothing, some_free) (ground arith)
    | inr full ↦ rw (nothing, full) (ground arith)
  ]
  | inr something ↦ elim (Bool-cases (ltb used slab_bytes)) [
    | inl some_free ↦ rw (something, some_free) (ground arith)
    | inr full ↦ rw (something, full) (ground arith)
  ]
]

walk_loop-Tiles :
    (slab_bytes : ℕ) (slabs : List ℕ) (off remaining : ℕ)
    → off + length slabs * slab_bytes < 2 ^ 64
    → remaining ≤ length slabs * slab_bytes
    → let es = walk_loop slab_bytes slabs off remaining in
      Tiles off (off + length slabs * slab_bytes) es × (sum_used es ≡ remaining)
unfolding walk_loop Tiles
walk_loop-Tiles slab_bytes [] off remaining room h = (omega arith, omega arith)
walk_loop-Tiles slab_bytes (_ ∷ slabs) off remaining room h =
    let used : ℕ = if ltb remaining slab_bytes then remaining else slab_bytes in
    let prod : suc (length slabs) * slab_bytes ≡ slab_bytes + length slabs * slab_bytes =
      grind arith in
    let least : used ≤ slab_bytes = ground arith in
    let next : add_word off slab_bytes ≡ off + slab_bytes = omega arith in
    let left : remaining - used ≤ length slabs * slab_bytes = ground (arith, prod) in
    let own = entries-Tiles slab_bytes off used least (omega arith) in
    let rest =
      walk_loop-Tiles slab_bytes slabs (off + slab_bytes) (remaining - used) (omega arith) left in
    let at : off + slab_bytes + length slabs * slab_bytes ≡ off + suc (length slabs) * slab_bytes =
      omega arith in
    let part : used ≤ remaining = ground arith in
    rw next (
      rw (← at)
          (Tiles-append off (off + slab_bytes) _ (entries slab_bytes off used) _ own.0 rest.0),
      omega (
        arith,
        sum_used-append (entries slab_bytes off used)
            (walk_loop slab_bytes slabs (off + slab_bytes) (remaining - used)),
        own.1,
        rest.1,
      ),
    )

-- The entries that `sl_walk` reports cover the slabs as one range without gap or overlap, and their
-- used bytes add up to those of the statistics, where these are not more than the slabs have and
-- the slabs have fewer than 2 ^ 64 bytes.
pub walk-Tiles :
    (a : Slab)
    → length a.slabs * a.slab_bytes < 2 ^ 64
    → a.stats.used ≤ length a.slabs * a.slab_bytes
    → Tiles 0 (length a.slabs * a.slab_bytes) (walk a) × (sum_used (walk a) ≡ a.stats.used)
unfolding walk
walk-Tiles a room h =
    let from_zero : 0 + length a.slabs * a.slab_bytes ≡ length a.slabs * a.slab_bytes =
      omega arith in
    rw from_zero at (walk_loop-Tiles a.slab_bytes a.slabs 0 a.stats.used (omega arith) h)
