-- ===== src/Analyzer/Collect.antt =====
-- The vector of entries, and the sums over it.
use heapforge.Prelude.{
  ℕ, ◌+◌, ◌*◌, ◌^◌, ◌≤◌, ◌<◌, ◌≡◌, refl, sym, ◌∙◌, ap, arith, Bool, true, ◌==◌, if◌then◌else◌, inl,
  inr, List, [], ◌∷◌, ◌++◌, length, mul_word, Bool-cases,
}
use heapforge.Allocator.{BlockInfo}
use heapforge.Analyzer.{BlkVec, vec_push, collect, Snapshot, tally, tally_all}

abbrev pub sum_free : List BlockInfo → ℕ
sum_free [] = 0
sum_free (b ∷ bs) = (if b.is_free then b.size else 0) + sum_free bs

append_one : (xs ys : List BlockInfo) (b : BlockInfo) → (xs ++ (b ∷ [])) ++ ys ≡ xs ++ (b ∷ ys)
append_one [] ys b = refl
append_one (x ∷ xs) ys b = ap (λ l. x ∷ l) (append_one xs ys b)

append_nil : (xs : List BlockInfo) → xs ++ [] ≡ xs
append_nil [] = refl
append_nil (x ∷ xs) = ap (λ l. x ∷ l) (append_nil xs)

vec_push-granted : (bv : BlkVec) (b : BlockInfo) → (vec_push true bv b).v ≡ bv.v ++ (b ∷ [])
unfolding vec_push
vec_push-granted bv b = elim (Bool-cases (length bv.v == bv.cap)) [
  | inl full ↦ rw full
  | inr room ↦ rw room
]

-- If `realloc` has room each time, no entry is lost.
pub collect-all :
    (grants : ℕ → Bool)
    → ((n : ℕ) → grants n ≡ true)
    → (i : ℕ) (bv : BlkVec) (bs : List BlockInfo) → (collect grants i bv bs).v ≡ bv.v ++ bs
unfolding collect
collect-all grants all i bv [] = sym (append_nil bv.v)
collect-all grants all i bv (b ∷ bs) =
    collect-all grants all (i + 1) (vec_push (grants i) bv b) bs
    ∙ ap (λ l. l ++ bs) (rw (all i) (vec_push-granted bv b))
    ∙ append_one bv.v bs b

length-append_one : (xs : List BlockInfo) (b : BlockInfo) → length (xs ++ (b ∷ [])) ≡ length xs + 1
length-append_one [] b = refl
length-append_one (x ∷ xs) b = let rest = length-append_one xs b in omega arith

-- The entries fit the allocated room, which is not more than double.
pub record IsBounded (bv : BlkVec) : Type 0 where
  pub inside : length bv.v ≤ bv.cap
  pub close : bv.cap ≤ 2 * length bv.v + 32

vec_push-IsBounded :
    (granted : Bool) (bv : BlkVec) (b : BlockInfo)
    → length bv.v < 2 ^ 60
    → IsBounded bv
    → IsBounded (vec_push granted bv b) × (length (vec_push granted bv b).v ≤ length bv.v + 1)
unfolding vec_push
vec_push-IsBounded granted bv b small h =
    let len = length-append_one bv.v b in
    elim (Bool-cases (length bv.v == bv.cap)) [
      | inl full ↦
          let nc : ℕ = if bv.cap == 0 then 32 else mul_word bv.cap 2 in
          let more : length bv.v + 1 ≤ nc = ground (arith, full, small) in
          let near : nc ≤ 2 * length bv.v + 32 = ground (arith, full, small) in
          elim (Bool-cases granted) [
            | inl more_room ↦
                rw (full, more_room)
                  (
                    record { inside = omega (arith, len, more); close = omega (arith, len, near) },
                    omega (arith, len),
                  )
            | inr refused ↦ rw (full, refused) (h, omega arith)
          ]
      | inr room ↦ rw room (
        record {
          inside = ground (arith, room, len, h.inside);
          close = omega (arith, len, h.close);
        },
        omega (arith, len),
      )
    ]

-- A vector whose entries fit its room, which is at most double and 32 more, stays so while fewer
-- than 2 ^ 60 entries are pushed, whether `realloc` grants more room or refuses.
pub collect-IsBounded :
    (grants : ℕ → Bool) (i : ℕ) (bv : BlkVec) (bs : List BlockInfo)
    → IsBounded bv
    → length bv.v + length bs < 2 ^ 60
    → IsBounded (collect grants i bv bs)
unfolding collect
collect-IsBounded grants i bv [] h small = h
collect-IsBounded grants i bv (b ∷ bs) h small =
    let (next, len) = vec_push-IsBounded (grants i) bv b (omega arith) h in
    collect-IsBounded grants (i + 1) (vec_push (grants i) bv b) bs next (omega arith)

pub tally_all-used : (out : Snapshot) (bs : List BlockInfo) → (tally_all out bs).used ≡ out.used
unfolding tally_all tally
tally_all-used out [] = refl
tally_all-used out (b ∷ bs) = tally_all-used (tally out b) bs ∙ ground arith

pub tally_all-blocks :
    (out : Snapshot) (bs : List BlockInfo) → (tally_all out bs).blocks ≡ out.blocks
unfolding tally_all tally
tally_all-blocks out [] = refl
tally_all-blocks out (b ∷ bs) = tally_all-blocks (tally out b) bs ∙ ground arith

tally-free_bytes :
    (out : Snapshot) (b : BlockInfo)
    → out.free_bytes + (if b.is_free then b.size else 0) < 2 ^ 64
    → (tally out b).free_bytes ≡ out.free_bytes + (if b.is_free then b.size else 0)
unfolding tally
tally-free_bytes out b room = ground arith

tally-largest :
    (out : Snapshot) (b : BlockInfo)
    → out.free_bytes + (if b.is_free then b.size else 0) < 2 ^ 64
    → out.largest_free ≤ out.free_bytes
    → (tally out b).largest_free ≤ (tally out b).free_bytes
unfolding tally
tally-largest out b room low = ground arith

pub tally_all-free_bytes :
    (out : Snapshot) (bs : List BlockInfo)
    → out.free_bytes + sum_free bs < 2 ^ 64
    → (tally_all out bs).free_bytes ≡ out.free_bytes + sum_free bs
unfolding tally_all
tally_all-free_bytes out [] room = omega arith
tally_all-free_bytes out (b ∷ bs) room =
    let one = tally-free_bytes out b (omega arith) in
    let rest = tally_all-free_bytes (tally out b) bs (omega arith) in omega arith

pub tally_all-largest :
    (out : Snapshot) (bs : List BlockInfo)
    → out.free_bytes + sum_free bs < 2 ^ 64
    → out.largest_free ≤ out.free_bytes
    → (tally_all out bs).largest_free ≤ (tally_all out bs).free_bytes
unfolding tally_all
tally_all-largest out [] room low = low
tally_all-largest out (b ∷ bs) room low =
    let one = tally-free_bytes out b (omega arith) in
    tally_all-largest (tally out b) bs (omega arith) (tally-largest out b (omega arith) low)
