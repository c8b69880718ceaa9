-- ===== src/Stack/Lifo.antt =====
-- Freeing in reverse order.
use heapforge.Prelude.{
  ℕ, ◌+◌, ◌^◌, ◌≤◌, ◌<◌, ◌≡◌, ◌≢◌, refl, ◌∙◌, arith, Bool, true, false, inl, inr, some, none, List,
  [], ◌∷◌, sub_word, Bool-cases, Option-cases, ==_refl, ==→eq, ◌==◌,
}
use heapforge.Allocator.{Outcome, returns, aborts, count_free}
use heapforge.Stack.{Stack, allocate, deallocate}
use heapforge.Stack.Frames.{Frame, Chain, IsValid}
use heapforge.Stack.Alloc.{allocate-refused, allocate-Pushed}

-- `st_deallocate` of the youngest payload of a valid stack takes exactly its frame off, and the top
-- is where it was before that allocation.
pub deallocate-Popped :
    (asserts : Bool) (a : Stack) (f : Frame) (fs : List Frame)
    → IsValid a (f ∷ fs)
    → (b : Stack) × (deallocate asserts a (some (a.mem + f.payload)) ≡ returns b)
      × (b.top ≡ f.start)
      × (b.mem ≡ a.mem)
      × (b.capacity ≡ a.capacity)
      × IsValid b fs
unfolding deallocate Chain
deallocate-Popped asserts a f fs v =
    let (is_last, is_top, low, up, back, rest) = v.chain in
    let off : sub_word (a.mem + f.payload) a.mem ≡ f.payload =
      omega (arith, v.addressable, v.in_memory) in
    let same : (f.payload == a.last_payload) ≡ true = rw is_last (==_refl f.payload) in
    rw (off, same)
      (
        _,
        refl,
        back,
        refl,
        refl,
        record {
          chain = rw back rest;
          in_memory = omega (arith, v.in_memory);
          addressable = v.addressable;
          used = refl;
        },
      )

-- `st_deallocate` on a valid stack with a live frame, of any 64-bit pointer but the youngest
-- payload, stops at the assertion, or, without assertions, changes only the count of calls.
pub deallocate-NotLast :
    (a : Stack) (f : Frame) (fs : List Frame) (ptr : ℕ)
    → IsValid a (f ∷ fs)
    → ptr < 2 ^ 64
    → ptr ≢ a.mem + f.payload
    → (deallocate true a (some ptr) ≡ aborts)
      × (deallocate false a (some ptr) ≡ returns (record a { stats = count_free a.stats }))
unfolding deallocate Chain
deallocate-NotLast a f fs ptr v word ne =
    let (is_last, is_top, low, up, back, rest) = v.chain in
    elim (Bool-cases (sub_word ptr a.mem == a.last_payload)) [
      | inl hit ↦ absurd (ne (omega (arith, ==→eq _ _ hit, v.addressable, v.in_memory)))
      | inr miss ↦ rw miss (refl, refl)
    ]

-- A nested use of the stack: each request is allocated, the requests after it are served and freed,
-- and then it is freed itself. A request that is refused ends the nesting.
pub nested : (asserts : Bool) → Stack → List (ℕ × ℕ) → Outcome Stack
nested asserts a [] = returns a
nested asserts a ((size, k) ∷ rs) =
    let (r, b) = allocate a size (2 ^ k) in
    elim r [
      | none ↦ returns b
      | some ptr ↦ elim (nested asserts b rs) [
        | aborts ↦ aborts
        | returns c ↦ deallocate asserts c (some ptr)
      ]
    ]

unfoldable pub AllFit : ℕ → List (ℕ × ℕ) → Type 0
AllFit capacity [] = Unit {0}
AllFit capacity ((size, k) ∷ rs) =
    (k ≤ 63) × (capacity + 24 + 2 ^ k + size < 2 ^ 64) × AllFit capacity rs

pub record Restored (a : Stack) (fs : List Frame) (c : Stack) : Type 0 where
  pub top : c.top ≡ a.top
  pub mem : c.mem ≡ a.mem
  pub capacity : c.capacity ≡ a.capacity
  pub valid : IsValid c fs

-- A nested use of a valid stack, with powers of two as alignments and no overflow, where each
-- request is freed after all the requests behind it, runs into no assertion and leaves the top and
-- the live frames as they were.
pub nested-Restored :
    (asserts : Bool) (rs : List (ℕ × ℕ)) (a : Stack) (fs : List Frame)
    → IsValid a fs
    → AllFit a.capacity rs
    → (c : Stack) × (nested asserts a rs ≡ returns c) × Restored a fs c
unfolding nested AllFit
nested-Restored asserts [] a fs v fit =
    (a, refl, record { top = refl; mem = refl; capacity = refl; valid = v })
nested-Restored asserts ((size, k) ∷ rs) a fs v (small, fit, fits) =
    elim (Option-cases (allocate a size (2 ^ k)).0) [
      | inl refused ↦
          rw (refused, nested)
            (
              _,
              refl,
              rw (allocate-refused a size (2 ^ k) refused) (record {
                top = refl;
                mem = refl;
                capacity = refl;
                valid = record {
                  chain = v.chain;
                  in_memory = v.in_memory;
                  addressable = v.addressable;
                  used = v.used;
                };
              }),
            )
      | inr (ptr, got) ↦
          let b = (allocate a size (2 ^ k)).1 in
          let (f, pushed) =
            allocate-Pushed a size k fs v small (omega (arith, v.in_memory)) (λ i. (got i, b)) in
          let (c, run, back) =
            nested-Restored asserts rs b (f ∷ fs) pushed.valid (rw pushed.capacity fits) in
          let (d, last, top, mem, capacity, valid) = deallocate-Popped asserts c f fs back.valid in
          let same : ptr ≡ c.mem + f.payload = pushed.pointer ∙ rw back.mem in
          rw (got, nested, run, same)
            (
              d,
              last,
              record {
                top = top ∙ pushed.start;
                mem = mem ∙ back.mem ∙ pushed.mem;
                capacity = capacity ∙ back.capacity ∙ pushed.capacity;
                valid = valid;
              },
            )
    ]
