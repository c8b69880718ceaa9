-- ===== src/Stack/Rewind.antt =====
-- The frame interface of the stack (create, mark, rewind, reset), and `st_walk`.
use heapforge.Prelude.{
  ℕ, ◌+◌, ◌^◌, ◌≤◌, ◌<◌, ◌≡◌, refl, arith, Bool, true, false, not, ◌&&◌, inl, inr, Option, some,
  List, [], ◌∷◌, ltb, leb, Bool-cases, Option-cases, ◌==◌, if◌then◌else◌,
}
use heapforge.Platform.{align_up}
use heapforge.Platform.Align.{align_up_lem}
use heapforge.Allocator.{returns, BlockInfo, fresh_stats}
use heapforge.Stack.{Stack, walk, create, rewind, st_none}
use heapforge.Stack.Frames.{Frame, Chain, IsValid}

-- `hf_stack_rewind` of a valid stack to a mark that is not above the top succeeds, moves the top to
-- the mark, and gives a valid stack with no frame left that is freed on its own.
pub rewind-IsValid :
    (asserts : Bool) (a : Stack) (fs : List Frame) (marker : ℕ)
    → IsValid a fs
    → marker ≤ a.top
    → (b : Stack) × (rewind asserts a marker ≡ returns b)
      × (b.top ≡ marker)
      × (b.mem ≡ a.mem)
      × (b.capacity ≡ a.capacity)
      × IsValid b []
unfolding rewind Chain
rewind-IsValid asserts a fs marker v h =
    let below : leb marker a.top ≡ true = ground arith in
    let go : (asserts && not (leb marker a.top)) ≡ false = ground arith in
    rw go (
      _,
      refl,
      refl,
      refl,
      refl,
      record {
        chain = refl;
        in_memory = omega (arith, v.in_memory);
        addressable = v.addressable;
        used = refl;
      },
    )

-- Entries that cover a range without gap or overlap, none empty, each free exactly from `top` on.
unfoldable pub Covers : (top from to : ℕ) → List BlockInfo → Type 0
Covers top from to [] = from ≡ to
Covers top from to (b ∷ bs) =
    (b.offset ≡ from)
    × (0 < b.size)
    × (b.is_free ≡ leb top b.offset)
    × Covers top (from + b.size) to bs

-- The entries that `st_walk` reports for a valid stack cover its memory without gap or overlap,
-- none empty, used below the top and free from the top on.
pub walk-Covers : (a : Stack) (fs : List Frame) → IsValid a fs → Covers a.top 0 a.capacity (walk a)
unfolding walk Covers
walk-Covers a fs v = elim (Bool-cases (a.top == 0)) [
  | inl zero_top ↦ elim (Bool-cases (ltb a.top a.capacity)) [
    | inl room ↦ rw (zero_top, room) (ground arith, ground arith, ground arith, ground arith)
    | inr full ↦ rw (zero_top, full) (ground (arith, v.in_memory))
  ]
  | inr some_top ↦ elim (Bool-cases (ltb a.top a.capacity)) [
    | inl room ↦
        rw (some_top, room)
          (
            refl,
            ground arith,
            ground arith,
            (omega arith, ground arith, ground arith, ground arith),
          )
    | inr full ↦ rw (some_top, full) (refl, ground arith, ground arith, ground (arith, v.in_memory))
  ]
]

pub record IsNew (asked : ℕ) (a : Stack) : Type 0 where
  pub valid : IsValid a []
  pub empty : a.top ≡ 0
  pub room : asked ≤ a.capacity
  pub counted : a.stats.capacity ≡ a.capacity

abbrev new_stack : (mem n : ℕ) → Stack
new_stack mem n = record {
  mem = mem;
  capacity = n;
  top = 0;
  last_payload = st_none;
  headers = λ _. record { prev_top = 0; prev_payload = 0 };
  stats = fresh_stats n;
}

new_stack-IsNew : (mem n asked : ℕ) → asked ≤ n → mem + n < 2 ^ 64 → IsNew asked (new_stack mem n)
unfolding Chain
new_stack-IsNew mem n asked large space = record {
  valid = record { chain = refl; in_memory = omega arith; addressable = space; used = refl };
  empty = refl;
  room = large;
  counted = refl;
}

large :
    (k capacity : ℕ)
    → k ≤ 63
    → capacity + 2 ^ k ≤ 2 ^ 64
    → capacity ≤ align_up (if capacity == 0 then 2 ^ k else capacity) (2 ^ k)
large k capacity h room = elim (Bool-cases (capacity == 0)) [
  | inl nothing ↦ ground arith
  | inr some_bytes ↦ rw some_bytes (omega (arith, align_up_lem capacity k h room))
]

-- A stack that `hf_stack_create` returns, for a page size that is a power of two, memory below the
-- end of the address space, and a capacity that does not overflow when rounded up, is valid, empty,
-- and at least as large as asked for.
pub create-IsEmpty :
    (k : ℕ) (reserve : ℕ → Option ℕ) (struct_ok : Bool) (capacity : ℕ) {a : Stack}
    → k ≤ 63
    → capacity + 2 ^ k ≤ 2 ^ 64
    → ((n m : ℕ) → reserve n ≡ some m → m + n < 2 ^ 64)
    → create (2 ^ k) reserve struct_ok capacity ≡ some a
    → IsNew capacity a
unfolding create
create-IsEmpty k reserve struct_ok capacity {a} h room space e = elim (Bool-cases struct_ok) [
  | inr refused ↦ absurd (cc (rw refused at e))
  | inl granted ↦
      let n = align_up (if capacity == 0 then 2 ^ k else capacity) (2 ^ k) in
      elim (Option-cases (reserve n)) [
        | inl nothing ↦ absurd (cc (rw (granted, nothing) at e))
        | inr (mem, got) ↦
            let made : new_stack mem n ≡ a = cc (rw (granted, got) at e) in
            rw (← made) (new_stack-IsNew mem n capacity (large k capacity h room) (space n mem got))
      ]
]
