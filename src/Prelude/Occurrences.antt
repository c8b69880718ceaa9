-- ===== src/Prelude/Occurrences.antt =====
-- How often a number stands in a list.
use Prim.Native.Nat.{ℕ, ◌+◌}
use mathlib.Core.Path.{◌≡◌, sym}
use mathlib.Core.Logic.{◌≢◌}
use mathlib.Core.List.{List, [], ◌∷◌, ◌++◌}
use native.Mathlib.Omega.{arith}
use heapforge.Prelude.Tests.{◌==◌, if◌then◌else◌, ==_refl, ne→==}

abbrev pub count : ℕ → List ℕ → ℕ
count x [] = 0
count x (y ∷ ys) = (if y == x then 1 else 0) + count x ys

pub count-append : (x : ℕ) (ys zs : List ℕ) → count x (ys ++ zs) ≡ count x ys + count x zs
count-append x [] zs = omega arith
count-append x (y ∷ ys) zs = omega (arith, count-append x ys zs)

pub count_self : (x : ℕ) (ys : List ℕ) → count x (x ∷ ys) ≡ 1 + count x ys
count_self x ys = rw (==_refl x)

pub count_ne : (x y : ℕ) (ys : List ℕ) → x ≢ y → count x (y ∷ ys) ≡ count x ys
count_ne x y ys ne = rw (ne→== y x (λ e. ne (sym e))) (omega arith)
