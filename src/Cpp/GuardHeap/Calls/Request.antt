-- ===== src/Cpp/GuardHeap/Calls/Request.antt =====
-- The sizes that `GuardHeap::allocate` of the C++ version computes, and where they do not wrap.
use heapforge.Prelude.{
  ℕ, ◌-◌, ◌+◌, ◌*◌, ◌^◌, sub_word, le→leb, ◌≤◌, ◌<◌, ◌≡◌, inl, inr, refl, arith, Bool, true, false,
  not, ◌&&◌, ◌||◌, ◌==◌, ltb, if◌then◌else◌, add_word, Bool-cases, ge→ltb,
}
use heapforge.Platform.{align_up, is_pow2}
use heapforge.Platform.Align.{align_up_lem}
use heapforge.Cpp.GuardHeap.Calls.{slack_fits}

pub aligned_ok :
    (page alignment : ℕ)
    → 16 ≤ page
    → alignment ≤ page
    → is_pow2 alignment ≡ true
    → let alignment' = if ltb alignment 16 then 16 else alignment in
      (ltb page alignment' || not (is_pow2 alignment')) ≡ false
unfolding is_pow2
aligned_ok page alignment big small power = elim (Bool-cases (ltb alignment 16)) [
  | inl e ↦ rw (e, ge→ltb page 16 big) refl
  | inr e ↦ rw (e, ge→ltb page alignment small, power) refl
]

-- A request that `allocate` rounds up without wrapping: pages of 2 ^ k bytes, an alignment of 2 ^ j.
pub record IsRequest (k j size : ℕ) : Type 0 where
  pub page_bits : k ≤ 63
  pub page : 16 ≤ 2 ^ k
  pub alignment_bits : j ≤ 63
  pub alignment : 2 ^ j ≤ 2 ^ k
  pub room : size + 5 * 2 ^ k < 2 ^ 63

-- The sizes that `allocate` computes.
abbrev pub rounded : (j size : ℕ) → ℕ
rounded j size = align_up (if size == 0 then 1 else size) (if ltb (2 ^ j) 16 then 16 else 2 ^ j)

pub record Rounds (k j size : ℕ) : Type 0 where
  pub some_size : 1 ≤ (if size == 0 then 1 else size)
  pub low : (if size == 0 then 1 else size) ≤ rounded j size
  pub pages : rounded j size ≤ align_up (rounded j size) (2 ^ k)
  pub high : align_up (rounded j size) (2 ^ k) + 2 * 2 ^ k < 2 ^ 63

round_alignment :
    (k j n : ℕ)
    → j ≤ 63
    → 16 ≤ 2 ^ k
    → 2 ^ j ≤ 2 ^ k
    → n + 2 ^ k ≤ 2 ^ 64
    → let aligned = align_up n (if ltb (2 ^ j) 16 then 16 else 2 ^ j) in
      (n ≤ aligned) × (aligned < n + 2 ^ k)
round_alignment k j n bits page less fits = elim (Bool-cases (ltb (2 ^ j) 16)) [
  | inl e ↦
      let (_, low, high) = align_up_lem n 4 (omega arith) (omega (arith, page, fits)) in
      rw e (low, omega (arith, high, page))
  | inr e ↦
      let (_, low, high) = align_up_lem n j bits (omega (arith, less, fits)) in
      rw e (low, omega (arith, high, less))
]

pub request-Rounds : (k j size : ℕ) → IsRequest k j size → Rounds k j size
request-Rounds k j size r =
    let size' = if size == 0 then 1 else size in
    let bound : (1 ≤ size') × (size' ≤ size + 1) = (ground arith, ground arith) in
    let (low, near) =
      round_alignment k j size' r.alignment_bits r.page r.alignment
        (omega (arith, bound.1, r.room)) in
    let (_, pages, high) =
      align_up_lem (rounded j size) k r.page_bits (omega (arith, near, bound.1, r.room)) in
    record {
      some_size = bound.0;
      low = low;
      pages = pages;
      high = omega (arith, high, near, bound.1, r.room, r.page);
    }

both_true : (x y : Bool) → ((x || true) && (y || true)) ≡ true
both_true true true = refl
both_true true false = refl
both_true false true = refl
both_true false false = refl

slack_fits_inside :
    (data_at data_end user size : ℕ)
    → user ≤ data_end
    → data_at ≤ add_word user size
    → slack_fits data_at data_end user size ≡ true
unfolding slack_fits
slack_fits_inside data_at data_end user size front back =
    rw (le→leb user data_end front, le→leb data_at (add_word user size) back)
      (both_true (not (ltb data_at user)) (not (ltb (add_word user size) data_end)))

pub slack_fits_lem :
    (base page size aligned data_bytes : ℕ) (underflow : Bool)
    → size ≤ aligned
    → aligned ≤ data_bytes
    → base + page + data_bytes + page < 2 ^ 64
    → let data_at = add_word base page in
      let user = if underflow then data_at else sub_word (add_word data_at data_bytes) aligned in
      slack_fits data_at (add_word data_at data_bytes) user size ≡ true
slack_fits_lem base page size aligned data_bytes true low pages fits =
    let data_at : add_word base page ≡ base + page = omega (arith, fits) in
    let data_end : add_word (base + page) data_bytes ≡ base + page + data_bytes =
      omega (arith, fits) in
    let rest : add_word (base + page) size ≡ base + page + size = omega (arith, low, pages, fits) in
    rw (data_at, data_end)
      (slack_fits_inside (base + page) (base + page + data_bytes) (base + page) size (omega arith)
        (omega (arith, rest)))
slack_fits_lem base page size aligned data_bytes false low pages fits =
    let data_at : add_word base page ≡ base + page = omega (arith, fits) in
    let data_end : add_word (base + page) data_bytes ≡ base + page + data_bytes =
      omega (arith, fits) in
    let user : sub_word (base + page + data_bytes) aligned ≡ base + page + data_bytes - aligned =
      omega (arith, pages, fits) in
    let at = base + page + data_bytes - aligned in
    let rest : add_word at size ≡ at + size = omega (arith, low, pages, fits) in
    rw (data_at, data_end, user)
      (slack_fits_inside (base + page) (base + page + data_bytes) at size (omega (arith, pages))
        (omega (arith, rest, pages)))
