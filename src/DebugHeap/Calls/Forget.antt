-- ===== src/DebugHeap/Calls/Forget.antt =====
-- A table that grows forgets which entries are freed.
use heapforge.Prelude.{ℕ, ◌+◌, ◌^◌, ◌<◌, ◌≡◌, ◌≢◌, refl, ◌∙◌, ap, true, some}
use heapforge.Prelude.Bytes.{Bytes}
use heapforge.Allocator.{aborts, Interface}
use heapforge.DebugHeap.Calls.{World, allocate, deallocate, release}
use heapforge.DebugHeap.Guards.{Fits}
use heapforge.DebugHeap.HashTable.{Entry, is_full}
use heapforge.DebugHeap.HashTable.Insert.{IsValid, lookup, new_entry}
use heapforge.DebugHeap.Calls.Alloc.{allocate-Guarded}
use heapforge.DebugHeap.Calls.Free.{deallocate-release}

release-null :
    (B : Interface) (w : World B.State) (ptr at : ℕ)
    → (w.heap.entries.table at).raw ≡ 0
    → release B w ptr at ≡ aborts
unfolding release
release-null B w ptr at z = rw z refl

-- Where `dh_allocate` on a valid table makes it grow, a block that was freed before is no longer
-- known as freed: `dh_deallocate` of it reads through NULL instead of reporting a double free.
pub allocate-forgets :
    (B : Interface) (w : World B.State) (e : Entry) (size alignment raw : ℕ) (below : B.State)
    (mem : Bytes)
    → IsValid w.heap.entries
    → w.heap.entries.cap < 2 ^ 60
    → Fits raw size
    → B.allocate w.below w.mem (size + 16) alignment ≡ (some raw, (below, mem))
    → is_full w.heap.entries ≡ true
    → lookup w.heap.entries e.user ≡ some e
    → e.freed ≡ true
    → e.raw ≡ 0
    → e.user ≢ raw + 12
    → deallocate B (allocate B w size alignment).1 e.user ≡ aborts
allocate-forgets B w e size alignment raw below mem v small fits answer full has freed gone apart =
    let a = allocate-Guarded B w size alignment raw below mem v small fits answer in
    let w1 = (allocate B w size alignment).1 in
    let now : lookup w1.heap.entries e.user ≡ some (new_entry e.user e.raw e.size) =
      a.tracked.others e.user apart ∙ rw (full, has) refl in
    let (at, _, same, _, _, is_release) =
      deallocate-release B w1 e.user (new_entry e.user e.raw e.size) a.tracked.valid now refl in
    is_release ∙ release-null B w1 e.user at (ap (λ x. x.raw) same ∙ gone)
