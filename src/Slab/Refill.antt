-- ===== src/Slab/Refill.antt =====
-- `sl_refill`: up to 32 slots move from the central list to the magazine.
use heapforge.Prelude.{
  ℕ, zero, suc, ◌+◌, ◌≤◌, ◌<◌, ◌≡◌, ◌≢◌, refl, sym, arith, Option, none, some, List, [], ◌∷◌, take,
  drop,
}
use mathlib.Core.Path.{subst}
use heapforge.Slab.{link, batch_end}
use heapforge.Prelude.Occurrences.{count, count_self}
use heapforge.Slab.Links.{Chain, Chain-link, link_self, link_ne}

pub count-take-drop :
    (x n : ℕ) (ys : List ℕ) → count x (take n ys) + count x (drop n ys) ≡ count x ys
count-take-drop x zero ys = omega arith
count-take-drop x (suc n) [] = omega arith
count-take-drop x (suc n) (y ∷ ys) = omega (arith, count-take-drop x n ys)

-- The slots from `x` on are cut behind the first `r + 1` of them, of which `t` is the last.
pub record Cut (next : ℕ → Option ℕ) (t r x : ℕ) (xs : List ℕ) : Type 0 where
  pub inside : 0 < count t (x ∷ xs)
  pub front : Chain (link next t none) (some x) (take (suc r) (x ∷ xs))
  pub back : Chain (link next t none) (next t) (drop (suc r) (x ∷ xs))

pub batch_end-Cut :
    (next : ℕ → Option ℕ) (r x : ℕ) (xs : List ℕ)
    → ((y : ℕ) → count y (x ∷ xs) ≤ 1)
    → Chain next (next x) xs
    → Cut next (batch_end next r x) r x xs
unfolding batch_end Chain
batch_end-Cut next zero x xs once c =
    let out : count x xs ≡ 0 = omega (arith, once x, count_self x xs) in
    record {
      inside = omega (arith, count_self x xs);
      front = (refl, link_self next x none);
      back = Chain-link next x none (next x) xs out c;
    }
batch_end-Cut next (suc r) x [] once c =
    rw (c, batch_end)
      (record {
        inside = omega (arith, count_self x []);
        front = (refl, link_self next x none);
        back = c;
      })
batch_end-Cut next (suc r) x (y ∷ ys) once (is, rest) =
    let cut = batch_end-Cut next r y ys (λ z. omega (arith, once z)) rest in
    let out : count x (y ∷ ys) ≡ 0 = omega (arith, once x, count_self x (y ∷ ys)) in
    let ne : x ≢ batch_end next r y =
      λ e. absurd (omega (arith, subst (λ t. 0 < count t (y ∷ ys)) (sym e) cut.inside, out)) in
    rw (is, batch_end)
      (record {
        inside = omega (arith, cut.inside);
        front = (refl, rw (link_ne next (batch_end next r y) x none ne, is) cut.front);
        back = cut.back;
      })
