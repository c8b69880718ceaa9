-- ===== src/Allocator/Tiles.antt =====
-- What the entries of a walk say of the memory.
use heapforge.Prelude.{ℕ, ◌+◌, ◌<◌, ◌≡◌, arith, if◌then◌else◌, List, [], ◌∷◌, ◌++◌}
use heapforge.Allocator.{BlockInfo}

-- The entries cover a range without gap or overlap, and none is empty.
unfoldable pub Tiles : (from to : ℕ) → List BlockInfo → Type 0
Tiles from to [] = from ≡ to
Tiles from to (b ∷ bs) = (b.offset ≡ from) × (0 < b.size) × Tiles (from + b.size) to bs

pub Tiles-append :
    (from mid to : ℕ) (xs ys : List BlockInfo)
    → Tiles from mid xs
    → Tiles mid to ys
    → Tiles from to (xs ++ ys)
unfolding Tiles
Tiles-append from mid to [] ys t u = rw t u
Tiles-append from mid to (x ∷ xs) ys (at, pos, t) u =
    (at, pos, Tiles-append (from + x.size) mid to xs ys t u)

abbrev pub sum_used : List BlockInfo → ℕ
sum_used [] = 0
sum_used (b ∷ bs) = (if b.is_free then 0 else b.size) + sum_used bs

pub sum_used-append : (xs ys : List BlockInfo) → sum_used (xs ++ ys) ≡ sum_used xs + sum_used ys
sum_used-append [] ys = omega arith
sum_used-append (x ∷ xs) ys = omega (arith, sum_used-append xs ys)
