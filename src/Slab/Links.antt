-- ===== src/Slab/Links.antt =====
-- Lists of slots in memory, and how often a slot stands in a list.
use heapforge.Prelude.{ℕ, ◌≡◌, ◌≢◌, arith, Option, none, some, List, [], ◌∷◌, ==_refl}
use heapforge.Prelude.Occurrences.{count}
use heapforge.Slab.{link}

-- The slots `xs` are linked in this order from `p` on.
unfoldable pub Chain : (ℕ → Option ℕ) → Option ℕ → List ℕ → Type 0
Chain next p [] = p ≡ none
Chain next p (x ∷ xs) = (p ≡ some x) × Chain next (next x) xs

pub link_self : (next : ℕ → Option ℕ) (at : ℕ) (v : Option ℕ) → link next at v at ≡ v
link_self next at v = rw (==_refl at)

pub link_ne : (next : ℕ → Option ℕ) (at p : ℕ) (v : Option ℕ) → p ≢ at → link next at v p ≡ next p
link_ne next at p v ne = ground (arith, ne)

-- A link in a slot that is not in the list.
pub Chain-link :
    (next : ℕ → Option ℕ) (at : ℕ) (v p : Option ℕ) (xs : List ℕ)
    → count at xs ≡ 0
    → Chain next p xs
    → Chain (link next at v) p xs
unfolding Chain
Chain-link next at v p [] out c = c
Chain-link next at v p (x ∷ xs) out (is, rest) =
    let ne : x ≢ at = λ e. absurd (ground (arith, out, e)) in
    let fewer : count at xs ≡ 0 = omega arith in
    (is, rw (link_ne next at x v ne) (Chain-link next at v (next x) xs fewer rest))
