-- ===== src/PersistentPool/Api/Use.antt =====
-- Allocating, freeing and finding blocks of an open pool.
use heapforge.Prelude.{
  ℕ, zero, suc, ◌+◌, ◌%◌, ◌^◌, ◌≤◌, ◌<◌, ◌≡◌, ◌↔◌, refl, sym, ◌∙◌, ap, arith, Bool, true, false,
  leb, Option, none, some, Bool-cases, Option-cases, inl, inr, lt→ltb, ==_refl,
}
use heapforge.PersistentPool.{Pool, op_alloc, op_free, commit}
use heapforge.PersistentPool.Effect.{marked, bit_test-marked}
use heapforge.PersistentPool.Settled.{IsSettled, Committed, commit-Committed}
use heapforge.PersistentPool.Api.{first_free, address, allocate, free, at}
use native.Mathlib.Decide.{ℕ_discrete}

-- Block `j` of a pool is in use.
abbrev pub is_used : Pool → ℕ → Bool
is_used p j = marked p.image.bitmap j

abbrev pub AllUsed : Pool → Type 0
AllUsed p = (j : ℕ) → j < p.block_count → is_used p j ≡ true

-- Block `j` is the first of those from `i` on that is free.
pub record IsFirstFree (p : Pool) (i j : ℕ) : Type 0 where
  pub from : i ≤ j
  pub free : is_used p j ≡ false
  pub before : (l : ℕ) → i ≤ l → l < j → is_used p l ≡ true

first_free-some :
    (p : Pool) (rounds i j : ℕ)
    → first_free p rounds i ≡ some j
    → IsFirstFree p i j × (j < i + rounds)
unfolding first_free
first_free-some p zero i j h = cc
first_free-some p (suc rounds) i j h = elim (Bool-cases (is_used p i)) [
  | inl on ↦
      let (f, lt) =
        first_free-some p rounds (i + 1) j (rw (bit_test-marked p.image.bitmap i, on) at h) in
      (
        record {
          from = omega (arith, f.from);
          free = f.free;
          before = λ l lo hi. elim (ℕ_discrete l i) [
            | yes e ↦ rw e on
            | no ne ↦ f.before l (omega arith) hi
          ];
        },
        omega (arith, lt),
      )
  | inr off ↦
      let e : some i ≡ some j = rw (bit_test-marked p.image.bitmap i, off) at h in
      let e' : j ≡ i = cc in
      (
        record { from = omega arith; free = rw e' off; before = λ l lo hi. absurd (omega arith) },
        omega arith,
      )
]

first_free-none :
    (p : Pool) (rounds i : ℕ)
    → first_free p rounds i ≡ none
    → (l : ℕ) → i ≤ l
    → l < i + rounds
    → is_used p l ≡ true
unfolding first_free
first_free-none p zero i h l lo hi = absurd (omega arith)
first_free-none p (suc rounds) i h l lo hi = elim (Bool-cases (is_used p i)) [
  | inl on ↦ elim (ℕ_discrete l i) [
    | yes e ↦ rw e on
    | no ne ↦
        first_free-none p rounds (i + 1) (rw (bit_test-marked p.image.bitmap i, on) at h) l
          (omega arith) (omega arith)
  ]
  | inr off ↦ cc (rw (bit_test-marked p.image.bitmap i, off) at h)
]

-- The outcome of a successful `hf_pool_allocate`.
pub record Taken (p : Pool) (i ptr : ℕ) (q : Pool) : Type 0 where
  pub in_range : i < p.block_count
  pub first : IsFirstFree p 0 i
  pub pointer : ptr ≡ address p i
  pub committed : Committed p op_alloc i q

-- `hf_pool_allocate` on a settled pool with sequence numbers left hands out the lowest free block
-- and commits that it is in use.
pub allocate-Taken :
    (p : Pool) {i ptr : ℕ} {q : Pool}
    → IsSettled p
    → p.next_seq + 1 < 2 ^ 64
    → allocate p ≡ (some (i, ptr), q)
    → Taken p i ptr q
unfolding allocate
allocate-Taken p {i} {ptr} {q} v room h = elim (Option-cases (first_free p p.block_count 0)) [
  | inl full ↦ cc (ap (λ r. r.0) (rw (full, allocate) at h))
  | inr (j, found) ↦
      let e : (some (j, address p j), commit p op_alloc (j % 2 ^ 32)) ≡ (some (i, ptr), q) =
        rw (found, allocate) at h in
      let (f, lt) = first_free-some p p.block_count 0 j found in
      let small : j < p.block_count = omega (arith, lt) in
      let narrow : j % 2 ^ 32 ≡ j = omega (arith, v.sound.small, lt) in
      taken j small f narrow (ap (λ r. r.0) e) (ap (λ r. r.1) e)
]
  where
    taken :
        (j : ℕ)
        → j < p.block_count
        → IsFirstFree p 0 j
        → j % 2 ^ 32 ≡ j
        → ◌≡◌ {A = Option (ℕ × ℕ)} (some (j, address p j)) (some (i, ptr))
        → commit p op_alloc (j % 2 ^ 32) ≡ q
        → Taken p i ptr q
    taken j small f narrow e e' =
        let index : j ≡ i = cc in
        let pointer : ptr ≡ address p i = cc in
        let state : commit p op_alloc i ≡ q = rw (narrow, index) at e' in
        record {
          in_range = rw index at small;
          first = rw index at f;
          pointer = pointer;
          committed = rw (← state) (commit-Committed p op_alloc i v (rw index at small) room);
        }

-- `hf_pool_allocate` returns NULL exactly if all blocks are in use, and then changes nothing.
pub allocate-AllUsed :
    (p : Pool) → (((allocate p).0 ≡ none) ↔ AllUsed p) × ((allocate p ≡ (none, p)) ↔ AllUsed p)
unfolding allocate
allocate-AllUsed p = elim (Option-cases (first_free p p.block_count 0)) [
  | inl full ↦
      let all : AllUsed p =
        λ j h. first_free-none p p.block_count 0 full j (omega arith) (omega arith) in
      rw (full, allocate) (((λ _. all), λ _. refl), ((λ _. all), λ _. refl))
  | inr (j, found) ↦
      let (f, lt) = first_free-some p p.block_count 0 j found in
      rw (found, allocate)
        (
          ((λ h. cc), λ all. cc (all j (omega (arith, lt)), f.free)),
          ((λ h. cc (ap (λ r. r.0) h)), λ all. cc (all j (omega (arith, lt)), f.free)),
        )
]

-- `hf_pool_free` of a block in use, on a settled pool with sequence numbers left, commits that the
-- block is free.
pub free-Committed :
    (p : Pool) (i : ℕ)
    → IsSettled p
    → p.next_seq + 1 < 2 ^ 64
    → i < p.block_count
    → is_used p i ≡ true
    → Committed p op_free i (free p i)
unfolding free
free-Committed p i v room inside on =
    let narrow : i % 2 ^ 32 ≡ i = omega (arith, v.sound.small) in
    rw (lt→ltb i p.block_count inside, bit_test-marked p.image.bitmap i, on, narrow)
      (commit-Committed p op_free i v inside room)

at-used : (p : Pool) (i : ℕ) → i < p.block_count → is_used p i ≡ true → at p i ≡ some (address p i)
unfolding at
at-used p i h on =
    let inside : leb p.block_count i ≡ false = ground arith in
    rw (inside, bit_test-marked p.image.bitmap i, on)

at-free : (p : Pool) (i : ℕ) → is_used p i ≡ false → at p i ≡ none
unfolding at
at-free p i off = rw (bit_test-marked p.image.bitmap i, off) (ground arith)

-- After a successful `hf_pool_allocate` on a settled pool with two sequence numbers left,
-- `hf_pool_at` finds the pointer; after `hf_pool_free` it finds nothing, and the blocks in use are
-- those from before.
pub allocate-at-free :
    (p : Pool) {i ptr : ℕ} {q : Pool}
    → IsSettled p
    → p.next_seq + 2 < 2 ^ 64
    → allocate p ≡ (some (i, ptr), q)
    → (at q i ≡ some ptr)
      × (at (free q i) i ≡ none)
      × ((j : ℕ) → is_used (free q i) j ≡ is_used p j)
allocate-at-free p {i} {ptr} {q} v room h =
    let a = allocate-Taken p v (omega arith) h in
    let c = a.committed in
    let inside : i < q.block_count = rw c.count a.in_range in
    let on : is_used q i ≡ true = c.marks i ∙ rw (==_refl i) in
    let f = free-Committed q i c.settled (omega (arith, c.next)) inside on in
    let same : address q i ≡ ptr = rw (c.base, c.header, c.size) (sym a.pointer) in
    let off : is_used (free q i) i ≡ false = f.marks i ∙ rw (==_refl i) in
    (at-used q i inside on ∙ ap some same, at-free (free q i) i off, back a c f)
  where
    back :
        Taken p i ptr q
        → Committed p op_alloc i q
        → Committed q op_free i (free q i)
        → (j : ℕ) → is_used (free q i) j ≡ is_used p j
    back a c f j = elim (ℕ_discrete j i) [
      | yes e ↦ let was : is_used p j ≡ false = rw e a.first.free in ground (arith, f.marks j, was)
      | no ne ↦ ground (arith, f.marks j, c.marks j)
    ]
