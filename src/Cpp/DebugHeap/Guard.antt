-- ===== src/Cpp/DebugHeap/Guard.antt =====
-- Which writes to a block the debug heap of the C++ version finds.
use heapforge.Prelude.{
  ℕ, ◌+◌, ◌^◌, ◌≤◌, ◌<◌, ◌≡◌, ◌≢◌, ◌⊎◌, ◌↔◌, inl, inr, refl, arith, Bool, true, false, not, ◌&&◌,
  ◌||◌, if◌then◌else◌, some, none, add_word, sub_word, ne→==,
}
use heapforge.Prelude.Bytes.{Bytes, fill}
use heapforge.DebugHeap.Guards.{fill-in, fill-out}
use heapforge.Platform.{default_align}
use heapforge.Allocator.{returns, Interface, TakesBack}
use heapforge.Cpp.Dict.{lookup, assign, erase, insert, lookup-erase, lookup-assign, lookup-erase_ne}
use heapforge.Cpp.DebugHeap.{
  World, allocate, deallocate, release, released, after_inner, guard_block, verify, write_canary,
  check_canary, guard_bytes, raw_of, poison, count_violation,
}
use heapforge.Cpp.DebugHeap.Canary.{
  IsBytes, Same, check-Same, write_canary-out, write_canary-IsBytes,
}

-- The block with both guards does not reach the end of the address space.
abbrev pub Fits : (raw size : ℕ) → Type 0
Fits raw size = raw + size + 32 < 2 ^ 64

-- The address lies in one of the two guards.
abbrev pub InGuard : (raw size p : ℕ) → Type 0
InGuard raw size p = ((raw ≤ p) × (p < raw + 16)) ⊎ ((raw + 16 + size ≤ p) × (p < raw + 32 + size))

module _ (inner : Interface) (w : World inner.State) (size alignment raw : ℕ) (below : inner.State)
    (mem : Bytes) (fits : Fits raw size)
    (answer : inner.allocate w.inner w.mem (size + 32) default_align
      ≡ (some raw, (below, mem))) where
  -- What `allocate` comes to.
  abbrev guarded : World inner.State
  guarded = record {
    live = assign w.live (raw + 16) (record { user_size = size });
    freed = erase w.freed (raw + 16);
    counted = w.counted;
    mem = write_canary (write_canary mem raw) (raw + 16 + size);
    inner = below;
  }

  allocate_lem : allocate inner w size alignment ≡ (some (raw + 16), guarded)
  unfolding allocate after_inner guard_block
  allocate_lem =
      let total : add_word (add_word guard_bytes size) guard_bytes ≡ size + 32 = omega arith in
      let user : add_word raw guard_bytes ≡ raw + 16 = omega arith in
      let tail : add_word (raw + 16) size ≡ raw + 16 + size = omega arith in
      rw (total, answer, user, tail) refl

  -- The guards as `allocate` leaves them.
  guarded-IsBytes : IsBytes mem → IsBytes guarded.mem
  guarded-IsBytes b =
      write_canary-IsBytes (write_canary mem raw) (raw + 16 + size) (write_canary-IsBytes mem raw b)

  guarded-head : Same (write_canary mem raw) guarded.mem raw
  guarded-head p lo hi =
      write_canary-out (write_canary mem raw) (raw + 16 + size) p (omega arith) (inl (omega arith))

  -- Whether both guards are there as before.
  both_iff :
      (mem' : Bytes)
      → IsBytes mem
      → IsBytes mem'
      → ((check_canary mem' raw && check_canary mem' (raw + 16 + size)) ≡ true)
        ↔ ((p : ℕ) → InGuard raw size p → mem' p ≡ guarded.mem p)
  both_iff mem' b b' =
      let bytes = guarded-IsBytes b in
      let (forth, back) = check-Same mem guarded.mem mem' raw (omega arith) bytes b' guarded-head in
      let (forth', back') =
        check-Same (write_canary mem raw) guarded.mem mem' (raw + 16 + size) (omega arith) bytes b'
          (λ p lo hi. refl) in
      let head = check_canary mem' raw in
      let tail = check_canary mem' (raw + 16 + size) in
      (
        (λ ok p guard.
            let (one, two) = both_true head tail ok in
            elim guard [
              | inl (lo, hi) ↦ forth one p lo (omega arith)
              | inr (lo, hi) ↦ forth' two p lo (omega arith)
            ]),
        λ same.
            rw
              (
                back (λ p lo hi. same p (inl (lo, hi))),
                back' (λ p lo hi. same p (inr (lo, omega arith))),
              )
              refl,
      )
    where
      both_true : (x y : Bool) → (x && y) ≡ true → (x ≡ true) × (y ≡ true)
      both_true true y e = (refl, e)
      both_true false y e = absurd (ground (arith, e))

-- After `allocate` of the C++ debug heap, and any writes of the process, `verify` tells whether every
-- byte of the two guards is as it was, where the block with its guards ends before the end of the
-- address space.
pub verify-allocate :
    (inner : Interface) (w : World inner.State) (size alignment raw : ℕ) (below : inner.State)
    (mem mem' : Bytes)
    → Fits raw size
    → inner.allocate w.inner w.mem (size + 32) default_align ≡ (some raw, (below, mem))
    → IsBytes mem
    → IsBytes mem'
    → let w1 = (allocate inner w size alignment).1 in
      (verify (record w1 { mem = mem' }) (raw + 16) ≡ true)
      ↔ ((p : ℕ) → InGuard raw size p → mem' p ≡ w1.mem p)
unfolding verify
verify-allocate inner w size alignment raw below mem mem' fits answer b b' =
    let back : sub_word (raw + 16) guard_bytes ≡ raw = omega arith in
    let tail : add_word (raw + 16) size ≡ raw + 16 + size = omega arith in
    rw
      (
        allocate_lem inner w size alignment raw below mem fits answer,
        verify,
        lookup-assign w.live (raw + 16) (record { user_size = size }),
        back,
        tail,
      )
      (both_iff inner w size alignment raw below mem fits answer mem' b b')

-- The world after the block at `raw` has been freed. `left` is the memory as `allocate` left it, `w1`
-- the world before the call, and `handed` the memory when the inner allocator gets the block.
pub record Freed (inner : Interface) (left : Bytes) (w1 : World inner.State) (raw size : ℕ)
    (w' : World inner.State) : Type 0 where
  pub handed : Bytes
  pub poisoned : (p : ℕ) → raw ≤ p → p < raw + size + 32 → handed p ≡ poison
  pub elsewhere : (p : ℕ) → (p < raw) ⊎ (raw + size + 32 ≤ p) → handed p ≡ w1.mem p
  pub given_back : inner.deallocate w1.inner handed (some raw) ≡ returns (w'.inner, w'.mem)
  pub clean : ((p : ℕ) → InGuard raw size p → w1.mem p ≡ left p) → w'.counted ≡ w1.counted
  pub smashed :
      ¬ ((p : ℕ) → InGuard raw size p → w1.mem p ≡ left p) → w'.counted ≡ count_violation w1.counted
  pub gone : lookup w'.live (raw + 16) ≡ none
  pub others : (user : ℕ) → user ≢ raw + 16 → lookup w'.live user ≡ lookup w1.live user

smash_kept :
    {A : Type 0} (more same : A) (x y : Bool)
    → (x && y) ≡ true
    → (if not x || not y then more else same) ≡ same
smash_kept more same true true e = refl
smash_kept more same true false e = absurd (ground (arith, e))
smash_kept more same false y e = absurd (ground (arith, e))

smash_counted :
    {A : Type 0} (more same : A) (x y : Bool)
    → ¬ ((x && y) ≡ true)
    → (if not x || not y then more else same) ≡ more
smash_counted more same true true ne = absurd (ne refl)
smash_counted more same true false ne = refl
smash_counted more same false y ne = refl

module _ (inner : Interface) (w1 : World inner.State) (size raw : ℕ) (fits : Fits raw size)
    (some_raw : raw ≢ 0)
    (has : lookup w1.live (raw + 16) ≡ some (record { user_size = size })) where
  abbrev handed_over : Bytes
  handed_over = fill w1.mem raw (size + 32) poison

  abbrev freed_world : inner.State × Bytes → World inner.State
  freed_world next = record {
    live = erase w1.live (raw + 16);
    freed = insert w1.freed (raw + 16) 0;
    counted =
        if not (check_canary w1.mem raw) || not (check_canary w1.mem (raw + 16 + size))
        then count_violation w1.counted
        else w1.counted;
    mem = next.1;
    inner = next.0;
  }

  outside : (p : ℕ) → (p < raw) ⊎ (raw + (size + 32) ≤ p) → handed_over p ≡ w1.mem p
  outside p out = fill-out w1.mem raw (size + 32) poison p out

  deallocate_lem :
      (next : inner.State × Bytes)
      → inner.deallocate w1.inner handed_over (some raw) ≡ returns next
      → deallocate inner w1 (raw + 16) ≡ returns (freed_world next)
  unfolding deallocate release
  deallocate_lem next takes =
      let null = ne→== (raw + 16) 0 (λ e. omega (arith, e)) in
      let back : sub_word (raw + 16) guard_bytes ≡ raw = omega arith in
      let raw_null = ne→== raw 0 some_raw in
      let tail : add_word (raw + 16) size ≡ raw + 16 + size = omega arith in
      let total : add_word (add_word guard_bytes size) guard_bytes ≡ size + 32 = omega arith in
      rw (null, has, release, raw_of, back, raw_null, total, takes, released, back, tail) refl

  freed_world-Freed :
      (left : Bytes) (next : inner.State × Bytes)
      → inner.deallocate w1.inner handed_over (some raw) ≡ returns next
      → ((check_canary w1.mem raw && check_canary w1.mem (raw + 16 + size)) ≡ true)
        ↔ ((p : ℕ) → InGuard raw size p → w1.mem p ≡ left p)
      → Freed inner left w1 raw size (freed_world next)
  freed_world-Freed left next takes (forth, back) = record {
    handed = handed_over;
    poisoned = λ p lo hi. fill-in w1.mem raw (size + 32) poison p lo (omega arith);
    elsewhere = λ p out. outside p (elim out [ inl lo ↦ inl lo | inr hi ↦ inr (omega arith) ]);
    given_back = takes;
    clean = λ same.
        smash_kept _ _ (check_canary w1.mem raw) (check_canary w1.mem (raw + 16 + size))
          (back same);
    smashed = λ changed.
        smash_counted _ _ (check_canary w1.mem raw) (check_canary w1.mem (raw + 16 + size))
          (λ ok. changed (forth ok));
    gone = lookup-erase w1.live (raw + 16);
    others = λ user ne. lookup-erase_ne w1.live (raw + 16) user ne;
  }

-- `deallocate` of a live block that `allocate` of the C++ debug heap gave returns, whatever calls
-- and writes came between, if the inner allocator takes its block back, whatever the block holds by
-- then, and the block is not NULL and with its guards ends before the end of the address space:
-- when the inner allocator gets the block, it is poisoned with its guards and no other byte has
-- changed, the inner allocator and the memory are left as the inner allocator leaves them, the
-- block is not live any more, the other blocks are, and the violations go up by one exactly if a
-- byte of a guard is not as `allocate` left it.
pub deallocate-Freed :
    (inner : Interface) (w : World inner.State) (size alignment raw : ℕ) (below : inner.State)
    (mem : Bytes) (w1 : World inner.State)
    → Fits raw size
    → raw ≢ 0
    → inner.allocate w.inner w.mem (size + 32) default_align ≡ (some raw, (below, mem))
    → IsBytes mem
    → IsBytes w1.mem
    → lookup w1.live (raw + 16) ≡ some (record { user_size = size })
    → TakesBack inner w1.inner w1.mem raw (size + 32) raw
    → let (user, granted) = allocate inner w size alignment in
      (w' : World inner.State) × (user ≡ some (raw + 16))
      × (deallocate inner w1 (raw + 16) ≡ returns w')
      × Freed inner granted.mem w1 raw size w'
deallocate-Freed inner w size alignment raw below mem w1 fits some_raw answer b b' has takes =
    let handed = handed_over inner w1 size raw fits some_raw has in
    let (next, taken) = takes handed (outside inner w1 size raw fits some_raw has) in
    rw (allocate_lem inner w size alignment raw below mem fits answer) (
      freed_world inner w1 size raw fits some_raw has next,
      refl,
      deallocate_lem inner w1 size raw fits some_raw has next taken,
      freed_world-Freed inner w1 size raw fits some_raw has
          (guarded inner w size alignment raw below mem fits answer).mem next taken
          (both_iff inner w size alignment raw below mem fits answer w1.mem b b'),
    )
