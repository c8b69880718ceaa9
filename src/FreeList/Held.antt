-- ===== src/FreeList/Held.antt =====
-- The invariant of the free-list allocator: the blocks fill the memory, and the ring has the free ones.
use heapforge.Prelude.{
  ℕ, ◌+◌, ◌%◌, ◌^◌, ◌≤◌, ◌<◌, ◌≡◌, ◌⊎◌, inl, inr, sym, arith, List, [], ◌∷◌, add_word,
}
use mathlib.Core.Path.{subst, subst₂, ap₂}
use heapforge.Prelude.Occurrences.{count, count_self}
use heapforge.FreeList.{FreeList, Words, next, prev, unlink, insert}
use heapforge.FreeList.Fit.{In}
use heapforge.FreeList.Ring.{Segment-frame}
use heapforge.FreeList.Layout.{Block, Laid}
use heapforge.FreeList.Nodes.{free_nodes, IsPlaced, node-IsPlaced}
use heapforge.FreeList.Rotate.{count-In}
use heapforge.FreeList.Cycle.{
  Cycle, HasRing, IsOff, Same, unlink-Same, insert-Same, unlink-Unlinked,
}
use heapforge.FreeList.Linked.{insert-Inserted}

-- The memory is at a multiple of 16, is not at NULL and does not reach the end of the address space.
abbrev pub IsLocated : FreeList → Type 0
IsLocated a = (a.mem % 16 ≡ 0) × (0 < a.mem) × (a.mem + a.capacity + 16 < 2 ^ 64)

-- The blocks fill the memory, and the ring has the nodes of the free ones, less those in `out`.
pub record IsHeld (a : FreeList) (bs : List Block) (ns out : List ℕ) : Type 0 where
  pub located : IsLocated a
  pub laid : Laid a.words 0 a.mem (a.mem + a.capacity) bs
  pub ring : HasRing a ns
  pub counts : (z : ℕ) → count z out + count z ns ≡ count z (free_nodes a.mem bs)

-- Nodes of free blocks are placed.
pub placed :
    (a : FreeList) (bs : List Block) (ns : List ℕ)
    → IsLocated a
    → Laid a.words 0 a.mem (a.mem + a.capacity) bs
    → ((z : ℕ) → count z ns ≤ count z (free_nodes a.mem bs))
    → (z : ℕ) → In z ns
    → IsPlaced a.mem (a.mem + a.capacity) z bs
placed a bs ns (aligned, _, _) l counts z i =
    node-IsPlaced a.words 0 a.mem (a.mem + a.capacity) z bs aligned l
      (let own = count-In z ns i in omega (arith, own, counts z))

Cycle-words :
    (words words' : Words) (head : ℕ) (ns : List ℕ)
    → ((z : ℕ) → In z ns → (next words' z ≡ next words z) × (prev words' z ≡ prev words z))
    → Cycle words head ns
    → Cycle words' head ns
unfolding Cycle In
Cycle-words words words' head [] same c = c
Cycle-words words words' head (n ∷ ms) same (e, s) =
    (e, Segment-frame words words' n n ms (λ z i. (same z i).0) (λ z i. (same z i).1) s)

-- Writes off the nodes keep the ring.
pub HasRing-words :
    (a b : FreeList) (ns : List ℕ)
    → b.free_head ≡ a.free_head
    → (b.cursor ≡ 0) ⊎ (b.cursor ≡ a.cursor)
    → ((z : ℕ) → In z ns → (b.words z ≡ a.words z) × (b.words (z + 8) ≡ a.words (z + 8)))
    → HasRing a ns
    → HasRing b ns
HasRing-words a b ns head cursor same r = record {
  cycle =
      subst (λ h. Cycle b.words h ns) (sym head)
        (Cycle-words a.words b.words a.free_head ns
          (λ z i.
            let node = (r.nodes z i).0 in
            let word : add_word z 8 ≡ z + 8 = omega (arith, node) in
            ((same z i).0, rw word (same z i).1))
          r.cycle);
  cursor = elim cursor [ inl z ↦ inl z | inr e ↦ subst (λ c. (c ≡ 0) ⊎ In c ns) (sym e) r.cursor ];
  nodes = r.nodes;
  once = r.once;
}

IsLocated-Same : (a b : FreeList) → Same a b → IsLocated a → IsLocated b
IsLocated-Same a b same (aligned, some_mem, fits) = (
  omega (arith, aligned, same.mem),
  omega (arith, some_mem, same.mem),
  omega (arith, fits, same.mem, same.capacity),
)

-- A node leaves the ring.
pub unlink-IsHeld :
    (a : FreeList) (bs : List Block) (ns out : List ℕ) (x : ℕ)
    → IsHeld a bs ns out
    → In x ns
    → (left : List ℕ) × IsHeld (unlink a x) bs left (x ∷ out)
unlink-IsHeld a bs ns out x v i =
    let u = unlink-Unlinked a x ns v.ring i in
    let same = unlink-Same a x in
    let off : IsOff a.mem bs ns =
      λ z j. (placed a bs ns v.located v.laid (λ k. omega (arith, v.counts k)) z j).off in
    (
      u.left,
      record {
        located = IsLocated-Same a (unlink a x) same v.located;
        laid =
            subst₂ (λ m t. Laid (unlink a x).words 0 m t bs) (sym same.mem)
              (sym (ap₂ (λ m c. m + c) same.mem same.capacity))
              (u.laid 0 a.mem (a.mem + a.capacity) bs off v.laid);
        ring = u.ring;
        counts = λ z.
            subst (λ m. count z (x ∷ out) + count z u.left ≡ count z (free_nodes m bs))
              (sym same.mem) (omega (arith, v.counts z, u.counts z));
      },
    )

-- A node that is out enters the ring.
pub insert-IsHeld :
    (a : FreeList) (bs : List Block) (ns out : List ℕ) (x : ℕ)
    → IsHeld a bs ns (x ∷ out)
    → (all : List ℕ) × IsHeld (insert a x) bs all out
insert-IsHeld a bs ns out x v =
    let own = count_self x out in
    let among : 1 ≤ count x (free_nodes a.mem bs) = omega (arith, own, v.counts x) in
    let (aligned, some_mem, fits) = v.located in
    let p = node-IsPlaced a.words 0 a.mem (a.mem + a.capacity) x bs aligned v.laid among in
    let fresh : count x ns ≡ 0 = omega (arith, p.once, own, v.counts x) in
    let u =
      insert-Inserted a x ns v.ring (p.round, omega (arith, p.high, fits))
        (λ z. omega (arith, z, p.low)) fresh in
    let same = insert-Same a x in
    let off : IsOff a.mem bs ns =
      λ z j. (placed a bs ns v.located v.laid (λ k. omega (arith, v.counts k)) z j).off in
    (
      u.all,
      record {
        located = IsLocated-Same a (insert a x) same v.located;
        laid =
            subst₂ (λ m t. Laid (insert a x).words 0 m t bs) (sym same.mem)
              (sym (ap₂ (λ m c. m + c) same.mem same.capacity))
              (u.laid 0 a.mem (a.mem + a.capacity) bs off p.off v.laid);
        ring = u.ring;
        counts = λ z.
            subst (λ m. count z out + count z u.all ≡ count z (free_nodes m bs)) (sym same.mem)
              (omega (arith, v.counts z, u.counts z));
      },
    )
