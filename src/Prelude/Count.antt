-- ===== src/Prelude/Count.antt =====
-- How many indices below a bound satisfy a test, and what one changed index does to the number.
use Prim.Native.Nat.{ℕ, zero, suc, ◌+◌, ◌<◌, ◌≤◌}
use mathlib.Core.Path.{◌≡◌, refl, sym, ap}
use mathlib.Core.Bool.{Bool, true, false, not, ◌&&◌, ◌||◌}
use native.Mathlib.Decide.{ℕ_discrete}
use native.Mathlib.Omega.{arith}
use heapforge.Prelude.Tests.{◌==◌, if◌then◌else◌}

unfoldable pub count_below : ℕ → (ℕ → Bool) → ℕ
count_below zero f = 0
count_below (suc n) f = (if f n then 1 else 0) + count_below n f

pub count_below-le : (n : ℕ) (f : ℕ → Bool) → count_below n f ≤ n
unfolding count_below
count_below-le zero f = omega arith
count_below-le (suc n) f = ground (arith, count_below-le n f)

pub count_below-congr :
    (n : ℕ) (f g : ℕ → Bool) → ((j : ℕ) → j < n → g j ≡ f j) → count_below n g ≡ count_below n f
unfolding count_below
count_below-congr zero f g same = refl
count_below-congr (suc n) f g same =
    ground (arith, same n, count_below-congr n f g (λ j h. same j (omega arith)))

-- Turning one index on adds one.
pub count_below-add :
    (n i : ℕ) (f g : ℕ → Bool)
    → i < n
    → f i ≡ false
    → ((j : ℕ) → g j ≡ ((j == i) || f j))
    → count_below n g ≡ count_below n f + 1
unfolding count_below
count_below-add zero i f g h off change = absurd (omega arith)
count_below-add (suc n) i f g h off change = elim (ℕ_discrete i n) [
  | yes e ↦
      let rest = count_below-congr n f g (λ j hj. ground (arith, change j)) in
      let off' : f n ≡ false = rw (← e) off in ground (arith, change n, rest)
  | no ne ↦ ground (arith, change n, count_below-add n i f g (omega arith) off change)
]

-- Turning one index off takes one away.
pub count_below-sub :
    (n i : ℕ) (f g : ℕ → Bool)
    → i < n
    → f i ≡ true
    → ((j : ℕ) → g j ≡ (not (j == i) && f j))
    → count_below n g + 1 ≡ count_below n f
count_below-sub n i f g h on change =
    sym (count_below-add n i g f h (ground (arith, change i)) back)
  where
    back : (j : ℕ) → f j ≡ ((j == i) || g j)
    back j = elim (ℕ_discrete j i) [
      | yes e ↦ rw (e, on) (ground arith)
      | no ne ↦ ground (arith, change j)
    ]

pub count_below-none : (n : ℕ) (f : ℕ → Bool) → ((j : ℕ) → f j ≡ false) → count_below n f ≡ 0
unfolding count_below
count_below-none zero f off = refl
count_below-none (suc n) f off = ground (arith, off n, count_below-none n f off)

pub count_below-all : (n : ℕ) (f : ℕ → Bool) → ((j : ℕ) → j < n → f j ≡ true) → count_below n f ≡ n
unfolding count_below
count_below-all zero f on = refl
count_below-all (suc n) f on =
    ground (arith, on n (omega arith), count_below-all n f (λ j h. on j (omega arith)))

pub count_below_step :
    (n : ℕ) (f : ℕ → Bool) → count_below (n + 1) f ≡ (if f n then 1 else 0) + count_below n f
unfolding count_below
count_below_step n f = let e : n + 1 ≡ suc n = omega arith in ap (λ k. count_below k f) e
