-- ===== src/Slab/Tests.antt =====
-- An allocator with two slots to a slab, and the theorems there.
use heapforge.Prelude.{◌≤◌, ◌<◌, ◌≡◌, ◌⊎◌, refl, arith, true, false, none, some, [], ◌∷◌, ◌++◌}
use mathlib.Core.Path.{subst}
use heapforge.Allocator.Tiles.{Tiles, sum_used}
use heapforge.Platform.{align_up}
use heapforge.Slab.{
  Slab, Memory, create, allocate, deallocate, walk, grow, serve, refill, take_batch, pop, batch_end,
  enter_slab, link_slots,
}
use heapforge.Slab.Links.{Chain}
use heapforge.Slab.Grow.{slots}
use heapforge.Slab.Valid.{IsValid, IsFresh}
use heapforge.Slab.Serve.{Served, Empty, live, create-IsValid, allocate-Served, deallocate-IsValid}
use heapforge.Slab.Shared.{shared_magazine, grow_dangling}
use heapforge.Slab.Walk.{walk-Tiles}

abbrev idle : Memory
idle = record { next = λ _. none; magazine = none }

abbrev new : Slab
new = record {
  obj_size = 2048;
  slab_bytes = 4096;
  slots_per_slab = 2;
  slabs = [];
  slab_cap = 0;
  central_free = none;
  stats = record {
    capacity = 0;
    used = 0;
    peak_used = 0;
    alloc_calls = 0;
    free_calls = 0;
    failed_allocs = 0;
  };
}

create_run : create 4096 true 2040 4000 ≡ some new
unfolding create align_up
create_run = refl

create-IsValid_run : IsValid new idle [] [] [] × (2040 ≤ 2048)
create-IsValid_run = create-IsValid 4096 true 2040 4000 idle (omega arith) refl create_run

fresh : IsFresh new (some 65536)
unfolding IsFresh
fresh x = ground arith

allocate-Served_example :
    Served ((2048 < 100) ⊎ Empty [] [] (some 65536)) [] (allocate (some 65536) true new idle 100 16)
allocate-Served_example =
    allocate-Served new idle (some 65536) 100 16 [] [] [] create-IsValid_run.0 fresh

served :
    Served ((2048 < 100) ⊎ Empty [] [] (some 65536)) [] (allocate (some 65536) true new idle 100 16)
served = allocate-Served new idle (some 65536) 100 16 [] [] [] create-IsValid_run.0 fresh

allocate_run : (allocate (some 65536) true new idle 100 16).0 ≡ some 65536
unfolding allocate serve refill grow link_slots enter_slab take_batch batch_end pop
allocate_run = refl

-- The state after this allocation.
abbrev used : Slab
used = (allocate (some 65536) true new idle 100 16).1

abbrev busy : Memory
busy = (allocate (some 65536) true new idle 100 16).2

used-IsValid : IsValid used busy served.rest served.batch_slots (65536 ∷ [])
used-IsValid =
    subst (λ r. IsValid used busy served.rest served.batch_slots (live r [])) allocate_run
      served.valid

deallocate-IsValid_example :
    let r = deallocate used busy (some 65536) in
    IsValid r.0 r.1 served.rest (65536 ∷ served.batch_slots) []
deallocate-IsValid_example =
    deallocate-IsValid used busy 65536 served.rest served.batch_slots [] used-IsValid

-- A slot of 2048 bytes comes back as one of 4096 bytes.
abbrev large : Slab
large = record new { obj_size = 4096; slots_per_slab = 1 }

shared_magazine_example :
    (allocate none true large (deallocate used busy (some 65536)).1 4096 16).0 ≡ some 65536
shared_magazine_example = shared_magazine used large busy 65536 none true 4096 16 (omega arith)

grow_dangling_run :
    let r = grow (some 65536) false new idle in
    (r.0.slabs ≡ []) × Chain r.1.next r.0.central_free (slots 65536 2048 2 ++ [])
unfolding Chain
grow_dangling_run = grow_dangling 65536 new idle [] refl (λ x. ground arith) refl

abbrev one_live : Slab
one_live = record new {
  slabs = 65536 ∷ [];
  slab_cap = 8;
  stats = record {
    capacity = 4096;
    used = 2048;
    peak_used = 2048;
    alloc_calls = 1;
    free_calls = 0;
    failed_allocs = 0;
  };
}

walk-Tiles_run : Tiles 0 4096 (walk one_live) × (sum_used (walk one_live) ≡ 2048)
walk-Tiles_run = walk-Tiles one_live (omega arith) (omega arith)
