-- ===== src/Stack/Tests.antt =====
-- Runs of a stack of one page, and the theorems at it.
use heapforge.Prelude.{
  ℕ, ◌+◌, ◌^◌, ◌<◌, ◌≡◌, ◌↔◌, refl, arith, true, false, Option, some, none, [], ◌∷◌, ltb, add_word,
  if◌then◌else◌, ◌-◌,
}
use heapforge.Platform.{align_up}
use heapforge.Allocator.{returns, aborts, count_free, count_alloc, count_failed}
use heapforge.Stack.{
  Stack, st_none, allocate, deallocate, walk, create, rewind, mark, payload_at, write,
}
use heapforge.Stack.Frames.{Frame, Chain, IsValid}
use heapforge.Stack.Alloc.{Pushed, allocate-Pushed, allocate-TooBig}
use heapforge.Stack.Lifo.{
  deallocate-Popped, deallocate-NotLast, nested, AllFit, Restored, nested-Restored,
}
use heapforge.Stack.Rewind.{rewind-IsValid, Covers, walk-Covers, IsNew, create-IsEmpty}

abbrev empty : Stack
empty = record {
  mem = 65536;
  capacity = 4096;
  top = 0;
  last_payload = st_none;
  headers = λ _. record { prev_top = 0; prev_payload = 0 };
  stats = record {
    capacity = 4096;
    used = 0;
    peak_used = 0;
    alloc_calls = 0;
    free_calls = 0;
    failed_allocs = 0;
  };
}

abbrev reserve : ℕ → Option ℕ
reserve n = if ltb n (2 ^ 20) then some 65536 else none

reserve_below : (n m : ℕ) → reserve n ≡ some m → m + n < 2 ^ 64
reserve_below n m h = ground arith

create_run : create (2 ^ 12) reserve true 100 ≡ some empty
unfolding create align_up
create_run = refl

empty-IsNew : IsNew 100 empty
empty-IsNew =
    create-IsEmpty 12 reserve true 100 (omega arith) (omega arith) reserve_below create_run

empty-IsValid : IsValid empty []
empty-IsValid = empty-IsNew.valid

abbrev one : Stack
one = record empty {
  top = 164;
  last_payload = 64;
  headers = write empty.headers 48 (record { prev_top = 0; prev_payload = st_none });
  stats = record {
    capacity = 4096;
    used = 164;
    peak_used = 164;
    alloc_calls = 1;
    free_calls = 0;
    failed_allocs = 0;
  };
}

allocate_run : allocate empty 100 (2 ^ 6) ≡ (some 65600, one)
unfolding allocate payload_at align_up
allocate_run = refl

-- The sum of payload and request wraps around: a request of almost the whole address space is
-- granted.
huge_run : (allocate empty (2 ^ 64 - 16) 16).0 ≡ some 65552
unfolding allocate payload_at align_up
huge_run = refl

allocate-Pushed_example : (f : Frame) × Pushed empty 100 6 [] 65600 f one
allocate-Pushed_example =
    allocate-Pushed empty 100 6 [] empty-IsValid (omega arith) (omega arith) allocate_run

allocate-TooBig_run :
    let failed = record empty { stats = count_failed (count_alloc empty.stats) } in
    (((allocate empty 5000 16).0 ≡ none) ↔ (4096 < add_word (payload_at 0 16) 5000))
    × ((allocate empty 5000 16 ≡ (none, failed)) ↔ (4096 < add_word (payload_at 0 16) 5000))
allocate-TooBig_run = allocate-TooBig empty 5000 16

abbrev frame : Frame
frame = record { start = 0; payload = 64; stop = 164 }

one-IsValid : IsValid one (frame ∷ [])
unfolding Chain
one-IsValid = record {
  chain = (refl, refl, omega arith, omega arith, refl, refl);
  in_memory = omega arith;
  addressable = omega arith;
  used = refl;
}

deallocate-Popped_example :
    (b : Stack) × (deallocate true one (some 65600) ≡ returns b)
    × (b.top ≡ 0)
    × (b.mem ≡ one.mem)
    × (b.capacity ≡ one.capacity)
    × IsValid b []
deallocate-Popped_example = deallocate-Popped true one frame [] one-IsValid

deallocate-NotLast_run :
    (deallocate true one (some 65616) ≡ aborts)
    × (deallocate false one (some 65616) ≡ returns (record one { stats = count_free one.stats }))
deallocate-NotLast_run =
    deallocate-NotLast one frame [] 65616 one-IsValid (omega arith) (λ e. omega arith)

nested-Restored_example :
    (c : Stack) × (nested true empty ((100, 6) ∷ (8, 4) ∷ []) ≡ returns c) × Restored empty [] c
unfolding AllFit
nested-Restored_example =
    nested-Restored true ((100, 6) ∷ (8, 4) ∷ []) empty [] empty-IsValid
      (omega arith, omega arith, (omega arith, omega arith, tt))

rewind-IsValid_run :
    (b : Stack) × (rewind true one (mark empty) ≡ returns b)
    × (b.top ≡ 0)
    × (b.mem ≡ one.mem)
    × (b.capacity ≡ one.capacity)
    × IsValid b []
rewind-IsValid_run = rewind-IsValid true one (frame ∷ []) 0 one-IsValid (omega arith)

walk-Covers_run : Covers one.top 0 4096 (walk one)
walk-Covers_run = walk-Covers one (frame ∷ []) one-IsValid
