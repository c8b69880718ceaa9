-- ===== src/Prelude/Bytes.antt =====
-- Memory as bytes at addresses, and little-endian numbers in it.
use Prim.Native.Nat.{ℕ, zero, suc, ◌+◌, ◌*◌, ◌/◌, ◌%◌, ◌^◌, ◌≤◌, ◌<◌}
use mathlib.Core.Path.{◌≡◌, refl, ◌∙◌}
use mathlib.Core.Logic.{◌⊎◌, inl, inr}
use mathlib.Core.Bool.{◌&&◌}
use native.Mathlib.Nat.{pow-suc}
use native.Mathlib.Omega.{arith}
use heapforge.Prelude.Tests.{◌==◌, ltb, leb, if◌then◌else◌, ==_refl}

abbrev pub Bytes : Type 0
Bytes = ℕ → ℕ

abbrev pub store_byte : Bytes → (at b : ℕ) → Bytes
store_byte mem at b p = if p == at then b else mem p

-- The `n` bytes of `v`, lowest first.
unfoldable pub store : ℕ → Bytes → (at v : ℕ) → Bytes
store zero mem at v = mem
store (suc n) mem at v = store n (store_byte mem at (v % 256)) (at + 1) (v / 256)

unfoldable pub load : ℕ → Bytes → (at : ℕ) → ℕ
load zero mem at = 0
load (suc n) mem at = mem at + 256 * load n mem (at + 1)

-- `memset`
unfoldable pub fill : Bytes → (at n b : ℕ) → Bytes
fill mem at n b p = if leb at p && ltb p (at + n) then b else mem p

pub store-out :
    (n : ℕ) (mem : Bytes) (at v p : ℕ) → (p < at) ⊎ (at + n ≤ p) → store n mem at v p ≡ mem p
unfolding store
store-out zero mem at v p out = refl
store-out (suc n) mem at v p (inl below) =
    ground
      (arith, store-out n (store_byte mem at (v % 256)) (at + 1) (v / 256) p (inl (omega arith)))
store-out (suc n) mem at v p (inr above) =
    ground
      (arith, store-out n (store_byte mem at (v % 256)) (at + 1) (v / 256) p (inr (omega arith)))

pub load-congr :
    (n : ℕ) (mem mem' : Bytes) (at : ℕ)
    → ((p : ℕ) → at ≤ p → p < at + n → mem' p ≡ mem p)
    → load n mem' at ≡ load n mem at
unfolding load
load-congr zero mem mem' at same = refl
load-congr (suc n) mem mem' at same = omega (
  arith,
  same at (omega arith) (omega arith),
  load-congr n mem mem' (at + 1) (λ p lo hi. same p (omega arith) (omega arith)),
)

pub load-store : (n : ℕ) (mem : Bytes) (at v : ℕ) → v < 256 ^ n → load n (store n mem at v) at ≡ v
unfolding load store
load-store zero mem at v small = omega arith
load-store (suc n) mem at v small =
    let mem' = store_byte mem at (v % 256) in
    let head : store n mem' (at + 1) (v / 256) at ≡ v % 256 =
      store-out n mem' (at + 1) (v / 256) at (inl (omega arith)) ∙ rw (==_refl at) in
    let rest = load-store n mem' (at + 1) (v / 256) (omega (arith, small, pow-suc 256 n)) in
    omega (arith, head, rest)
