-- ===== src/FreeList/Layout.antt =====
-- The blocks that follow one another in the memory, each with its boundary tags.
use heapforge.Prelude.{
  ℕ, ◌+◌, ◌*◌, ◌%◌, ◌^◌, ◌≤◌, ◌<◌, ◌≡◌, ◌≢◌, refl, sym, arith, bit_and, Bool, true, false,
  if◌then◌else◌, List, [], ◌∷◌, length, ne→==,
}
use heapforge.Prelude.Bits.{bit_and_high, bit_and_low}
use heapforge.FreeList.{Words, write, hdr_size, hdr_used}

-- A block: its bytes with the header, and whether it is used.
pub record Block : Type 0 where
  pub size : ℕ
  pub is_used : Bool

abbrev pub flag : Bool → ℕ
flag used = if used then 1 else 0

-- The word in a block's header.
abbrev pub tag : Block → ℕ
tag b = b.size + flag b.is_used

-- The blocks fill the memory from `at` to `to`, and each header knows the block before, `before` for
-- the first one.
unfoldable pub Laid : Words → (before at to : ℕ) → List Block → Type 0
Laid words before at to [] = at ≡ to
Laid words before at to (b ∷ bs) =
    (words at ≡ tag b)
    × (words (at + 8) ≡ before)
    × (32 ≤ b.size)
    × (b.size % 16 ≡ 0)
    × Laid words at (at + b.size) to bs

pub hdr_lem :
    (words : Words) (h sz : ℕ) (used : Bool)
    → words h ≡ sz + flag used
    → sz % 2 ≡ 0
    → sz + 1 < 2 ^ 64
    → (hdr_size words h ≡ sz) × (hdr_used words h ≡ used)
unfolding hdr_size hdr_used
hdr_lem words h sz true e even small =
    let high = bit_and_high 64 1 (words h) (omega arith) (omega (arith, e)) in
    let low = bit_and_low 1 (words h) in
    (
      omega (arith, high, e),
      let one : bit_and (words h) 1 ≡ 1 = omega (arith, low, e) in rw one refl,
    )
hdr_lem words h sz false e even small =
    let high = bit_and_high 64 1 (words h) (omega arith) (omega (arith, e)) in
    let low = bit_and_low 1 (words h) in
    (
      omega (arith, high, e),
      let nothing : bit_and (words h) 1 ≡ 0 = omega (arith, low, e) in rw nothing refl,
    )

pub Laid-le :
    (words : Words) (before at to : ℕ) (bs : List Block)
    → Laid words before at to bs
    → at + 32 * length bs ≤ to
unfolding Laid
Laid-le words before at to [] l = omega (arith, l)
Laid-le words before at to (b ∷ bs) (_, _, big, _, l) =
    omega (arith, big, Laid-le words at (at + b.size) to bs l)

abbrev pub used_bytes : List Block → ℕ
used_bytes [] = 0
used_bytes (b ∷ bs) = (if b.is_used then b.size else 0) + used_bytes bs

-- The address holds no header word of the blocks.
unfoldable pub Off : (at p : ℕ) → List Block → Type 0
Off at p [] = Unit {0}
Off at p (b ∷ bs) = (p ≢ at) × (p ≢ at + 8) × Off (at + b.size) p bs

-- A write off the headers.
pub Laid-write :
    (words : Words) (before at to p v : ℕ) (bs : List Block)
    → Off at p bs
    → Laid words before at to bs
    → Laid (write words p v) before at to bs
unfolding Laid Off
Laid-write words before at to p v [] off l = l
Laid-write words before at to p v (b ∷ bs) (ne, ne', off) (e, e', big, round, l) = (
  rw (ne→== at p (λ z. ne (sym z))) e,
  rw (ne→== (at + 8) p (λ z. ne' (sym z))) e',
  big,
  round,
  Laid-write words at (at + b.size) to p v bs off l,
)

-- An address before all blocks.
pub Off-below :
    (words : Words) (before at to p : ℕ) (bs : List Block)
    → Laid words before at to bs
    → p < at
    → Off at p bs
unfolding Laid Off
Off-below words before at to p [] l lt = tt
Off-below words before at to p (b ∷ bs) (_, _, big, _, l) lt = (
  λ z. omega (arith, z, lt),
  λ z. omega (arith, z, lt),
  Off-below words at (at + b.size) to p bs l (omega arith),
)
