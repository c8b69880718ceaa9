-- ===== src/FreeList/Tags.antt =====
-- The boundary tags that the calls write.
use heapforge.Prelude.{
  ℕ, ◌+◌, ◌%◌, ◌^◌, ◌<◌, ◌≡◌, ◌≢◌, inl, inr, refl, ◌∙◌, ap, arith, Bool, true, false, if◌then◌else◌,
  ◌==◌, List, [], ◌∷◌, Bool-cases, ltb, lt→ltb, ne→==, ==_refl, add_word,
}
use heapforge.Prelude.Bits.{bit_or_zero, bit_or_one}
use heapforge.FreeList.{FreeList, Words, write, hdr_set, set_prev_phys, next_phys}
use heapforge.FreeList.Layout.{Block, flag, Laid, Laid-le, Off, Off-below, Laid-write, hdr_lem}

pub hdr_set_lem :
    (words : Words) (h sz : ℕ) (used : Bool)
    → sz % 2 ≡ 0
    → sz < 2 ^ 64
    → hdr_set words h sz used ≡ write words h (sz + flag used)
unfolding hdr_set
hdr_set_lem words h sz true even small = ap (λ v. write words h v) (bit_or_one 64 sz small even)
hdr_set_lem words h sz false even small =
    ap (λ v. write words h v) (bit_or_zero 64 sz small ∙ (omega arith))

-- What the calls do to the block at `at`, if there is one before `to`: it learns the block before.
abbrev pub fixed : Words → (at to v : ℕ) → Words
fixed words at to v = if ltb at to then write words (at + 8) v else words

pub fixed-out : (words : Words) (at to v p : ℕ) → p ≢ at + 8 → fixed words at to v p ≡ words p
fixed-out words at to v p ne = elim (Bool-cases (ltb at to)) [
  | inl e ↦ rw (e, ne→== p (at + 8) ne) refl
  | inr e ↦ rw e refl
]

pub Laid-fixed_out :
    (words : Words) (before from to' at to v : ℕ) (bs : List Block)
    → Off from (at + 8) bs
    → Laid words before from to' bs
    → Laid (fixed words at to v) before from to' bs
Laid-fixed_out words before from to' at to v bs off l = elim (Bool-cases (ltb at to)) [
  | inl e ↦ rw e (Laid-write words before from to' (at + 8) v bs off l)
  | inr e ↦ rw e l
]

pub Laid-fixed :
    (words : Words) (before at to v : ℕ) (bs : List Block)
    → Laid words before at to bs
    → Laid (fixed words at to v) v at to bs
unfolding Laid
Laid-fixed words before at to v [] l = l
Laid-fixed words before at to v (b ∷ bs) (e, e', big, round, l) =
    let ends = Laid-le words at (at + b.size) to bs l in
    let on = lt→ltb at to (omega (arith, ends, big)) in
    (
      fixed-out words at to v at (λ z. omega (arith, z)) ∙ e,
      rw (on, ==_refl (at + 8)) refl,
      big,
      round,
      Laid-fixed_out words at (at + b.size) to at to v bs
          (Off-below words at (at + b.size) to (at + 8) bs l (omega (arith, big))) l,
    )

-- What the calls do to the block that follows the one at `k`.
pub next_phys_lem :
    (a : FreeList) (k sz : ℕ) (used : Bool)
    → a.words k ≡ sz + flag used
    → sz % 2 ≡ 0
    → k + sz + 16 < 2 ^ 64
    → a.mem + a.capacity < 2 ^ 64
    → next_phys a k ≡ (if ltb (k + sz) (a.mem + a.capacity) then k + sz else 0)
unfolding next_phys
next_phys_lem a k sz used e even fits small =
    let (size, _) = hdr_lem a.words k sz used e even (omega (arith, fits)) in
    let on : add_word k sz ≡ k + sz = omega (arith, fits) in
    let end : add_word a.mem a.capacity ≡ a.mem + a.capacity = omega (arith, small) in
    rw (size, on, end) refl

pub set_prev-fixed :
    (words : Words) (at to v : ℕ)
    → 0 < at
    → at + 16 < 2 ^ 64
    → let after = if ltb at to then at else 0 in
      (if after == 0 then words else set_prev_phys words after v) ≡ fixed words at to v
set_prev-fixed words at to v some_at small =
    let word : add_word at 8 ≡ at + 8 = omega (arith, small) in
    elim (Bool-cases (ltb at to)) [
      | inl e ↦ rw (e, ne→== at 0 (λ z. omega (arith, z, some_at)), word) refl
      | inr e ↦ rw e refl
    ]
