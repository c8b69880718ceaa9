-- ===== src/DebugHeap/Guards.antt =====
-- The canaries that `write_guards` leaves, and what a later write does to them.
use heapforge.Prelude.{ℕ, ◌+◌, ◌^◌, ◌≤◌, ◌<◌, ◌≡◌, ◌⊎◌, inl, inr, refl, ◌∙◌, arith, true, add_word}
use heapforge.Prelude.Bytes.{Bytes, store, load, fill, store-out, load-congr, load-store}
use heapforge.DebugHeap.{canary, head_size, head_canary, tail_canary, write_guards, is_intact}

-- The block with its guards does not reach the end of the address space.
abbrev pub Fits : (raw size : ℕ) → Type 0
Fits raw size = raw + size + 16 < 2 ^ 64

pub fill-out : (mem : Bytes) (at n b p : ℕ) → (p < at) ⊎ (at + n ≤ p) → fill mem at n b p ≡ mem p
unfolding fill
fill-out mem at n b p (inl below) = ground arith
fill-out mem at n b p (inr above) = ground arith

pub fill-in : (mem : Bytes) (at n b p : ℕ) → at ≤ p → p < at + n → fill mem at n b p ≡ b
unfolding fill
fill-in mem at n b p lo hi = ground arith

-- The canaries depend on four bytes before the size and four bytes behind the user's.
pub is_intact-congr :
    (mem mem' : Bytes) (raw size : ℕ)
    → Fits raw size
    → ((p : ℕ) → raw ≤ p → p < raw + 4 → mem' p ≡ mem p)
    → ((p : ℕ) → raw + 12 + size ≤ p → p < raw + 12 + size + 4 → mem' p ≡ mem p)
    → is_intact mem' raw size ≡ is_intact mem raw size
unfolding head_canary tail_canary
is_intact-congr mem mem' raw size fits head tail =
    let at : add_word (add_word raw head_size) size ≡ raw + 12 + size = omega arith in
    rw (at, load-congr 4 mem mem' raw head, load-congr 4 mem mem' (raw + 12 + size) tail)

pub write_guards-out :
    (mem : Bytes) (raw size p : ℕ)
    → Fits raw size
    → (p < raw) ⊎ (raw + size + 16 ≤ p)
    → write_guards mem raw size p ≡ mem p
unfolding write_guards
write_guards-out mem raw size p fits out =
    let at : add_word (add_word raw head_size) size ≡ raw + 12 + size = omega arith in
    let word : add_word raw 4 ≡ raw + 4 = omega arith in
    rw (at, word)
      (store-out 4 _ (raw + 12 + size) canary p
          (side (raw + 12 + size) 4 (omega arith) (omega arith))
        ∙ store-out 8 _ (raw + 4) size p (side (raw + 4) 8 (omega arith) (omega arith))
        ∙ store-out 4 mem raw canary p (side raw 4 (omega arith) (omega arith)))
  where
    side : (at n : ℕ) → raw ≤ at → at + n ≤ raw + size + 16 → (p < at) ⊎ (at + n ≤ p)
    side at n lo hi = elim out [ inl below ↦ inl (omega arith) | inr above ↦ inr (omega arith) ]

-- Both canaries of a block that got its guards are found again.
pub write_guards-is_intact :
    (mem : Bytes) (raw size : ℕ)
    → Fits raw size
    → is_intact (write_guards mem raw size) raw size ≡ true
unfolding write_guards head_canary tail_canary
write_guards-is_intact mem raw size fits =
    let at : add_word (add_word raw head_size) size ≡ raw + 12 + size = omega arith in
    let word : add_word raw 4 ≡ raw + 4 = omega arith in
    let headed = store 4 mem raw canary in
    let sized = store 8 headed (raw + 4) size in
    let full = store 4 sized (raw + 12 + size) canary in
    let tail : load 4 full (raw + 12 + size) ≡ canary =
      load-store 4 sized (raw + 12 + size) canary (omega arith) in
    let head : load 4 full raw ≡ canary =
      load-congr 4 headed full raw (λ p lo hi.
        store-out 4 sized (raw + 12 + size) canary p (inl (omega arith))
        ∙ store-out 8 headed (raw + 4) size p (inl (omega arith)))
      ∙ load-store 4 mem raw canary (omega arith) in
    rw (at, word, head, tail) refl
