-- ===== src/Slab/Shared.antt =====
-- What the code does where its thread uses two slab allocators, or where memory runs short.
use heapforge.Prelude.{
  ℕ, ◌+◌, ◌≤◌, ◌≡◌, refl, arith, Bool, true, false, ◌==◌, Option, some, List, ◌++◌, length, ge→ltb,
}
use heapforge.Slab.{Slab, Memory, grow, enter_slab, serve, pop, allocate, deallocate}
use heapforge.Prelude.Occurrences.{count}
use heapforge.Slab.Links.{Chain}
use heapforge.Slab.Grow.{slots, link_slots-Chain}

-- What is freed to one slab allocator is what the next allocation from any other returns in the
-- same thread, if the request fits the slots of the other, however small the slots of the first
-- are.
pub shared_magazine :
    (a b : Slab) (m : Memory) (p : ℕ) (reserved : Option ℕ) (granted : Bool) (size alignment : ℕ)
    → size ≤ b.obj_size
    → (allocate reserved granted b (deallocate a m (some p)).1 size alignment).0 ≡ some p
unfolding allocate deallocate serve pop
shared_magazine a b m p reserved granted size alignment fits = rw (ge→ltb b.obj_size size fits)

-- If `realloc` fails in `sl_grow`, the new slab is given back to the system, and yet its slots stay
-- on the central list.
pub grow_dangling :
    (mem : ℕ) (a : Slab) (m : Memory) (cs : List ℕ)
    → Chain m.next a.central_free cs
    → ((x : ℕ) → count x (slots mem a.obj_size a.slots_per_slab) + count x cs ≤ 1)
    → length a.slabs ≡ a.slab_cap
    → let r = grow (some mem) false a m in
      (r.0.slabs ≡ a.slabs)
      × Chain r.1.next r.0.central_free (slots mem a.obj_size a.slots_per_slab ++ cs)
unfolding grow enter_slab
grow_dangling mem a m cs chain apart full =
    let c = link_slots-Chain mem a.obj_size a.slots_per_slab a.central_free m.next cs apart chain in
    let test : (length a.slabs == a.slab_cap) ≡ true = ground (arith, full) in rw test (refl, c)
