-- ===== src/FreeList/Calls/Tests.antt =====
-- Runs of the free-list allocator, and its theorems at a memory with two free blocks.
use heapforge.Prelude.{
  ℕ, ◌⊎◌, ◌+◌, ◌≤◌, ◌≡◌, ◌≢◌, inl, inr, refl, arith, true, false, ◌==◌, if◌then◌else◌, some, List,
  [], ◌∷◌,
}
use native.Mathlib.Decide.{ℕ_discrete}
use heapforge.Allocator.{fresh_stats, returns}
use heapforge.Prelude.Occurrences.{count, count_ne}
use heapforge.Allocator.Tiles.{Tiles, sum_used}
use heapforge.Platform.{align_up}
use heapforge.FreeList.{
  FreeList, Policy, Words, hdr_size, insert, unlink, best_loop, search, find_fit,
}
use heapforge.FreeList.Fit.{Run, In}
use heapforge.FreeList.Ring.{Segment, IsNode, Apart, insert-Segment}
use heapforge.FreeList.Unlink.{unlink-Segment}
use heapforge.FreeList.Choose.{IsRing, Found, find_fit-Found}
use heapforge.FreeList.Layout.{Block, Laid}
use heapforge.FreeList.Cycle.{Cycle, HasRing}
use heapforge.FreeList.Split.{block}
use heapforge.FreeList.Held.{IsHeld}
use heapforge.FreeList.Calls.{needed, carve, place_pointer, take, allocate, deallocate, walk}
use heapforge.FreeList.Calls.Free.{Given, deallocate-Given}
use heapforge.FreeList.Calls.Allot.{Missed, Allotted, allocate-Allotted}
use heapforge.FreeList.Calls.Take.{Taken, take-Taken}
use heapforge.FreeList.Calls.Walk.{walk-blocks, entries_of}

-- A free block of 64 bytes, a used one, and a free one that is the rest of a page at 4096.
abbrev page_words : Words
page_words p =
    if p == 4096
    then 64
    else (if p == 4112
        then 4240
        else (if p == 4120
            then 4240
            else (if p == 4160
                then 65
                else (if p == 4168
                    then 4096
                    else (if p == 4224
                        then 3968
                        else (if p == 4232
                            then 4160
                            else (if p == 4240 then 4112 else (if p == 4248 then 4112 else 0))))))))

abbrev heap : FreeList
heap = record {
  words = page_words;
  mem = 4096;
  capacity = 4096;
  policy = Policy.best_fit;
  free_head = 4240;
  cursor = 4240;
  stats = fresh_stats 4096;
}

heap-IsRing : IsRing heap 4240 (4112 ∷ [])
unfolding Run In hdr_size
heap-IsRing = record {
  begins = refl;
  run = (refl, (λ z. omega (arith, z)), refl);
  short = omega arith;
  nodes = λ x among. elim among [
    | inl e ↦ λ z. omega (arith, e, z)
    | inr (inl e) ↦ λ z. omega (arith, e, z)
    | inr (inr e) ↦ elim e [ ]
  ];
  sizes = λ x among. elim among [
    | inl e ↦ rw e (omega arith)
    | inr (inl e) ↦ rw e (omega arith)
    | inr (inr e) ↦ elim e [ ]
  ];
  some_free = λ z. omega (arith, z);
}

find_fit-Found_example : Found heap 48 (4240 ∷ 4112 ∷ []) (find_fit heap 48).0
find_fit-Found_example = find_fit-Found heap 48 4240 (4112 ∷ []) heap-IsRing

find_fit_run : (find_fit heap 48).0 ≡ some 4112
unfolding find_fit search best_loop hdr_size
find_fit_run = refl

abbrev blocks : List Block
blocks =
    record { size = 64; is_used = false }
    ∷ record { size = 64; is_used = true }
    ∷ record { size = 3968; is_used = false }
    ∷ []

heap-Laid : Laid heap.words 0 4096 (4096 + 4096) blocks
unfolding Laid
heap-Laid = (
  refl,
  refl,
  omega arith,
  refl,
  (refl, refl, omega arith, refl, (refl, refl, omega arith, refl, refl)),
)

walk-blocks_example :
    (walk heap ≡ entries_of 0 blocks) × Tiles 0 4096 (walk heap) × (sum_used (walk heap) ≡ 64)
walk-blocks_example = walk-blocks heap blocks (omega arith) heap-Laid

allocate_run : (allocate heap 40 16).0 ≡ some 4112
unfolding allocate take carve place_pointer needed align_up find_fit search best_loop hdr_size
    unlink
allocate_run = refl

-- The size of the request and its header wraps around: the smallest block is thought enough.
needed_run : needed 18446744073709551615 16 ≡ 32
unfolding needed align_up
needed_run = refl

ring-IsNode : (z : ℕ) → In z (4176 ∷ 4240 ∷ 4112 ∷ []) → IsNode z
unfolding In
ring-IsNode z (inl e) = rw e (refl, omega arith)
ring-IsNode z (inr (inl e)) = rw e (refl, omega arith)
ring-IsNode z (inr (inr (inl e))) = rw e (refl, omega arith)
ring-IsNode z (inr (inr (inr i))) = elim i [ ]

ring-Apart : Apart (4176 ∷ 4240 ∷ 4112 ∷ [])
unfolding In Apart
ring-Apart = (
  λ z i e. elim i [
    | inl a ↦ omega (arith, a, e)
    | inr (inl a) ↦ omega (arith, a, e)
    | inr (inr i') ↦ elim i' [ ]
  ],
  (
    λ z i e. elim i [ inl a ↦ omega (arith, a, e) | inr i' ↦ elim i' [ ] ],
    (λ z i e. elim i [ ], tt),
  ),
)

ring-Segment : Segment heap.words 4240 (4112 ∷ []) 4240
unfolding Segment
ring-Segment = (refl, refl, (refl, refl))

insert-Segment_run :
    let b = insert heap 4176 in (b.free_head ≡ 4240) × Segment b.words 4240 (4176 ∷ 4112 ∷ []) 4240
insert-Segment_run =
    insert-Segment heap 4176 (4112 ∷ []) (λ z. omega (arith, z)) ring-Segment ring-IsNode ring-Apart

two-IsNode : (z : ℕ) → In z (4112 ∷ 4240 ∷ []) → IsNode z
unfolding In
two-IsNode z (inl e) = rw e (refl, omega arith)
two-IsNode z (inr (inl e)) = rw e (refl, omega arith)
two-IsNode z (inr (inr i)) = elim i [ ]

two-Apart : Apart (4112 ∷ 4240 ∷ [])
unfolding In Apart
two-Apart = (
  λ z i e. elim i [ inl a ↦ omega (arith, a, e) | inr i' ↦ elim i' [ ] ],
  (λ z i e. elim i [ ], tt),
)

unlink-Segment_run :
    let b = unlink heap 4112 in
    Segment b.words 4240 [] 4240 × (b.free_head ≢ 4112) × (b.cursor ≢ 4112)
unlink-Segment_run = unlink-Segment heap 4240 4112 [] ring-Segment two-IsNode two-Apart

held_nodes : (z : ℕ) → In z (4240 ∷ 4112 ∷ []) → IsNode z × (z ≢ 0)
unfolding In
held_nodes z (inl e) = rw e ((refl, omega arith), (λ k. omega (arith, k)))
held_nodes z (inr (inl e)) = rw e ((refl, omega arith), (λ k. omega (arith, k)))
held_nodes z (inr (inr i)) = elim i [ ]

one_each : (z : ℕ) → count z (4240 ∷ 4112 ∷ []) ≤ 1
one_each z = elim (ℕ_discrete z 4240) [
  | yes e ↦ rw e (omega arith)
  | no ne ↦ elim (ℕ_discrete z 4112) [
    | yes e ↦ rw e (omega arith)
    | no ne' ↦ omega (arith, count_ne z 4240 (4112 ∷ []) ne, count_ne z 4112 [] ne')
  ]
]

heap-HasRing : HasRing heap (4240 ∷ 4112 ∷ [])
unfolding Cycle Segment In
heap-HasRing = record {
  cycle = (refl, (refl, refl, (refl, refl)));
  cursor = inr (inl refl);
  nodes = held_nodes;
  once = one_each;
}

heap-IsHeld : IsHeld heap blocks (4240 ∷ 4112 ∷ []) []
heap-IsHeld = record {
  located = (refl, omega arith, omega arith);
  laid = heap-Laid;
  ring = heap-HasRing;
  counts = λ z. omega arith;
}

deallocate-Given_example :
    (b : FreeList) × (deallocate heap 4176 ≡ returns b)
    × Given heap (block 64 false ∷ []) (block 3968 false ∷ []) 64 b
deallocate-Given_example =
    deallocate-Given heap (block 64 false ∷ []) (block 3968 false ∷ []) 64 (4240 ∷ 4112 ∷ [])
      heap-IsHeld

take-Taken_run : Taken heap blocks 4240 48 (take heap 4240 48 16)
unfolding In hdr_size
take-Taken_run =
    take-Taken heap blocks (4240 ∷ 4112 ∷ []) 4240 48 16 heap-IsHeld (inl refl) (omega arith) refl
      (omega arith) (omega arith)

allocate-Allotted_example :
    (56 ≤ needed 40 16)
    × (Missed heap blocks (4240 ∷ 4112 ∷ []) (needed 40 16) (allocate heap 40 16)
        ⊎ Allotted heap blocks (4240 ∷ 4112 ∷ []) (needed 40 16) (allocate heap 40 16))
allocate-Allotted_example =
    allocate-Allotted heap blocks (4240 ∷ 4112 ∷ []) 40 16 heap-IsHeld (omega arith) (omega arith)
