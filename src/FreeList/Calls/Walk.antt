-- ===== src/FreeList/Calls/Walk.antt =====
-- `fl_walk` and `hf_free_list_create`.
use heapforge.Prelude.{
  inl, inr, ℕ, zero, suc, ◌+◌, ◌-◌, ◌^◌, ◌≤◌, ◌<◌, ◌≡◌, refl, sym, ◌∙◌, ap, arith, not, lt→ltb,
  ge→ltb, List, [], ◌∷◌, length, Bool-cases, add_word, sub_word,
}
use mathlib.Core.Path.{subst}
use heapforge.Allocator.{BlockInfo}
use heapforge.Allocator.Tiles.{Tiles, sum_used}
use heapforge.FreeList.{FreeList, Words}
use heapforge.FreeList.Calls.{walk, walk_loop}
use heapforge.FreeList.Layout.{Block, Laid, Laid-le, hdr_lem, used_bytes}

-- The entries of blocks that begin at an offset.
unfoldable pub entries_of : (offset : ℕ) → List Block → List BlockInfo
entries_of offset [] = []
entries_of offset (b ∷ bs) =
    record { offset = offset; size = b.size; is_free = not b.is_used }
    ∷ entries_of (offset + b.size) bs

pub walk_loop-entries_of :
    (a : FreeList) (rounds before at : ℕ) (bs : List Block)
    → a.mem + a.capacity + 1 < 2 ^ 64
    → a.mem ≤ at
    → Laid a.words before at (a.mem + a.capacity) bs
    → length bs ≤ rounds
    → walk_loop a rounds at ≡ entries_of (at - a.mem) bs
unfolding walk_loop entries_of Laid
walk_loop-entries_of a zero before at [] fits above l enough = refl
walk_loop-entries_of a (suc rounds) before at [] fits above l enough =
    rw (ge→ltb at (add_word a.mem a.capacity) (omega (arith, l))) refl
walk_loop-entries_of a zero before at (b ∷ bs) fits above l enough = absurd (omega arith)
walk_loop-entries_of a (suc rounds) before at (b ∷ bs) fits above (e, _, big, round, l) enough =
    let ends = Laid-le a.words at (at + b.size) (a.mem + a.capacity) bs l in
    let (size, used) =
      hdr_lem a.words at b.size b.is_used e (omega (arith, round)) (omega (arith, ends)) in
    let on : add_word at b.size ≡ at + b.size = omega (arith, ends) in
    let offset : sub_word at a.mem ≡ at - a.mem = omega (arith, ends) in
    let later : at + b.size - a.mem ≡ at - a.mem + b.size = omega arith in
    let rest =
      walk_loop-entries_of a rounds at (at + b.size) bs fits (omega arith) l (omega arith) in
    rw
      (
        size,
        used,
        on,
        offset,
        lt→ltb at (add_word a.mem a.capacity) (omega (arith, ends, big)),
        rest,
        later,
      )
      refl

entries_of-Tiles :
    (words : Words) (before at to offset : ℕ) (bs : List Block)
    → Laid words before at to bs
    → Tiles offset (offset + (to - at)) (entries_of offset bs)
      × (sum_used (entries_of offset bs) ≡ used_bytes bs)
unfolding Laid Tiles entries_of
entries_of-Tiles words before at to offset [] l = (omega (arith, l), refl)
entries_of-Tiles words before at to offset (b ∷ bs) (_, _, big, _, l) =
    let (t, sum) = entries_of-Tiles words at (at + b.size) to (offset + b.size) bs l in
    let ends = Laid-le words at (at + b.size) to bs l in
    let same : offset + b.size + (to - (at + b.size)) ≡ offset + (to - at) = omega (arith, ends) in
    (
      (
        refl,
        omega arith,
        subst (λ k. Tiles (offset + b.size) k (entries_of (offset + b.size) bs)) same t,
      ),
      elim (Bool-cases b.is_used) [
        | inl u ↦ rw u (omega (arith, sum))
        | inr f ↦ rw f (omega (arith, sum))
      ],
    )

-- The entries that `fl_walk` reports are the blocks that fill the memory, in their order: they
-- cover it without gap or overlap, and their used bytes are those of the used blocks, where the
-- memory ends before the end of the address space.
pub walk-blocks :
    (a : FreeList) (bs : List Block)
    → a.mem + a.capacity + 1 < 2 ^ 64
    → Laid a.words 0 a.mem (a.mem + a.capacity) bs
    → (walk a ≡ entries_of 0 bs) × Tiles 0 a.capacity (walk a) × (sum_used (walk a) ≡ used_bytes bs)
unfolding walk
walk-blocks a bs fits l =
    let bound = Laid-le a.words 0 a.mem (a.mem + a.capacity) bs l in
    let from_zero : a.mem - a.mem ≡ 0 = omega arith in
    let same : walk a ≡ entries_of 0 bs =
      walk_loop-entries_of a a.capacity 0 a.mem bs fits (omega arith) l (omega (arith, bound))
      ∙ ap (λ o. entries_of o bs) from_zero in
    let (t, sum) = entries_of-Tiles a.words 0 a.mem (a.mem + a.capacity) 0 bs l in
    let whole : 0 + (a.mem + a.capacity - a.mem) ≡ a.capacity = omega arith in
    (
      same,
      subst (Tiles 0 a.capacity) (sym same) (subst (λ k. Tiles 0 k (entries_of 0 bs)) whole t),
      ap sum_used same ∙ sum,
    )
