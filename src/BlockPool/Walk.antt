-- ===== src/BlockPool/Walk.antt =====
-- `bp_walk`: the reported runs cover the pool, in order, and agree with the bitmap.
use heapforge.Prelude.{
  ℕ, zero, suc, ◌+◌, ◌-◌, ◌*◌, ◌≤◌, ◌<◌, ◌≡◌, refl, sym, ◌∙◌, arith, Bool, true, false, not, ltb,
  List, [], ◌∷◌, mul_word, sub_word, Bool-cases, inl, inr, if◌then◌else◌, lt→ltb, ge→ltb,
}
use heapforge.Allocator.{BlockInfo}
use heapforge.BlockPool.{BlockPool, test, walk_loop, walk}
use heapforge.BlockPool.Valid.{IsValid, is_used, test_lem, block_in, count_small}
use mathlib.Core.Bool.{xor}
use mathlib.Core.Path.{subst}
use native.Mathlib.Decide.{ℕ_discrete}

-- The entry `e` stands for the `n` blocks from `i` on: they are all in the state that it says, and
-- the run is as long as it can be.
pub record IsRun (a : BlockPool) (i n : ℕ) (e : BlockInfo) : Type 0 where
  pub some_block : 0 < n
  pub inside : i + n ≤ a.block_count
  pub offset : e.offset ≡ i * a.block_size
  pub size : e.size ≡ n * a.block_size
  pub uniform : (j : ℕ) → i ≤ j → j < i + n → is_used a j ≡ not e.is_free
  pub maximal : i + n < a.block_count → is_used a (i + n) ≡ e.is_free

-- The entries are the runs from block `i` to the end of the pool, one behind the other.
unfoldable pub Runs : BlockPool → ℕ → List BlockInfo → Type 0
Runs a i [] = i ≡ a.block_count
Runs a i (e ∷ es) = (n : ℕ) × IsRun a i n e × Runs a (i + n) es

abbrev Uniform : BlockPool → ℕ → ℕ → Bool → Type 0
Uniform a start i u = (j : ℕ) → start ≤ j → j < i → is_used a j ≡ u

abbrev entry : BlockPool → ℕ → ℕ → Bool → BlockInfo
entry a i start u = record {
  offset = mul_word start a.block_size;
  size = mul_word (sub_word i start) a.block_size;
  is_free = not u;
}

xor-not : (u : Bool) → xor (not u) u ≡ true
unfolding xor
xor-not true = refl
xor-not false = refl

xor_change : (w u : Bool) → xor w u ≡ true → w ≡ not u
unfolding xor
xor_change true true h = cc
xor_change true false h = refl
xor_change false true h = refl
xor_change false false h = cc

xor_stay : (w u : Bool) → xor w u ≡ false → w ≡ u
unfolding xor
xor_stay true true h = refl
xor_stay true false h = cc
xor_stay false true h = cc
xor_stay false false h = refl

module _ (a : BlockPool) (v : IsValid a) where
  entry-IsRun :
      (i start : ℕ) (u : Bool)
      → start < i
      → i ≤ a.block_count
      → Uniform a start i u
      → (i < a.block_count → is_used a i ≡ not u)
      → IsRun a start (i - start) (entry a i start u)
  entry-IsRun i start u h hi same ends =
      let last = block_in a v (i - 1) (omega arith) in
      let bytes : (i - start) * a.block_size ≤ i * a.block_size = grind arith in
      let before : start * a.block_size ≤ i * a.block_size = grind arith in
      let all : i * a.block_size ≤ a.capacity = grind (arith, last) in
      let width : sub_word i start ≡ i - start = omega (arith, count_small a v) in
      let at : start + (i - start) ≡ i = omega arith in
      record {
        some_block = omega arith;
        inside = omega arith;
        offset = omega (arith, before, all, v.in_space);
        size = rw width (omega (arith, bytes, all, v.in_space));
        uniform = λ j lo hi. same j lo (omega arith) ∙ ground arith;
        maximal = λ lt. rw at (ends (omega arith));
      }

  -- What an emitted entry and the runs behind it make together.
  cons-Runs :
      (i start : ℕ) (u : Bool) (es : List BlockInfo)
      → start < i
      → IsRun a start (i - start) (entry a i start u)
      → Runs a i es
      → Runs a start (entry a i start u ∷ es)
  unfolding Runs
  cons-Runs i start u es h run rest =
      let at : start + (i - start) ≡ i = omega arith in (i - start, run, rw at rest)

  walk_loop-suc :
      (rounds i start : ℕ) (u w : Bool)
      → (if ltb i a.block_count then test a i else not u) ≡ w
      → walk_loop a (suc rounds) i start u ≡ (
          if xor w u
          then entry a i start u ∷ walk_loop a rounds (i + 1) i w
          else walk_loop a rounds (i + 1) start u)
  unfolding walk_loop
  walk_loop-suc rounds i start u w e = rw e

  at_end : (i : ℕ) → i ≡ a.block_count → Runs a i []
  unfolding Runs
  at_end i e = e

  walk_loop-Runs :
      (rounds i start : ℕ) (u : Bool)
      → i + rounds ≡ a.block_count
      → start < i
      → Uniform a start i u
      → Runs a start (walk_loop a (suc rounds) i start u)
  unfolding walk_loop
  walk_loop-Runs zero i start u e h same =
      let w : (if ltb i a.block_count then test a i else not u) ≡ not u =
        rw (ge→ltb i a.block_count (omega arith)) in
      let run = entry-IsRun i start u h (omega arith) same (λ lt. absurd (omega arith)) in
      rw (walk_loop-suc zero i start u (not u) w, xor-not u)
        (cons-Runs i start u [] h run (at_end i (omega arith)))
  walk_loop-Runs (suc rounds) i start u e h same =
      let w : (if ltb i a.block_count then test a i else not u) ≡ is_used a i =
        rw (lt→ltb i a.block_count (omega arith)) (test_lem a v i) in
      rw (walk_loop-suc (suc rounds) i start u (is_used a i) w)
        (elim (Bool-cases (xor (is_used a i) u)) [
          | inl change ↦
              let run = entry-IsRun i start u h (omega arith) same (λ _. xor_change _ u change) in
              let rest =
                walk_loop-Runs rounds (i + 1) i (is_used a i) (omega arith) (omega arith) (one i) in
              rw change (cons-Runs i start u _ h run rest)
          | inr stay ↦
              let more = extend i start u same (xor_stay _ u stay) in
              rw stay (walk_loop-Runs rounds (i + 1) start u (omega arith) (omega arith) more)
        ])
    where
      one : (i : ℕ) → Uniform a i (i + 1) (is_used a i)
      one i j lo hi = let e : j ≡ i = omega arith in rw e

      extend :
          (i start : ℕ) (u : Bool)
          → Uniform a start i u
          → is_used a i ≡ u
          → Uniform a start (i + 1) u
      extend i start u same e j lo hi = elim (ℕ_discrete j i) [
        | yes at ↦ rw at e
        | no ne ↦ same j lo (omega arith)
      ]

-- The entries that `bp_walk` reports for a valid pool are the maximal runs of free and used blocks,
-- from the first block to the last.
pub walk-Runs : (a : BlockPool) → IsValid a → Runs a 0 (walk a)
unfolding walk
walk-Runs a v =
    let n : a.block_count ≡ suc (a.block_count - 1) = omega (arith, v.count_pos) in
    let first : Uniform a 0 1 (test a 0) =
      λ j lo hi. let e : j ≡ 0 = omega arith in rw (e, test_lem a v 0) in
    let runs =
      walk_loop-Runs a v (a.block_count - 1) 1 0 (test a 0) (omega arith) (omega arith) first in
    subst (λ k. Runs a 0 (walk_loop a k 1 0 (test a 0))) (sym n) runs
