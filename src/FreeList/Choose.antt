-- ===== src/FreeList/Choose.antt =====
-- `find_fit` under each of the three policies.
use heapforge.Prelude.{
  ℕ, ◌-◌, ◌^◌, ◌≤◌, ◌<◌, ◌≡◌, ◌≢◌, ◌⊎◌, inl, inr, refl, sym, ◌∙◌, ap, arith, ◌==◌, leb,
  if◌then◌else◌, Option, none, some, List, ◌∷◌, length, Bool-cases, ne→==,
}
use mathlib.Core.Path.{subst}
use heapforge.FreeList.{FreeList, Policy, fit_loop, best_loop, search, find_fit}
use heapforge.FreeList.Fit.{
  Run, In, size_of, Fits, first_of, smallest_of, Least, first_of-Fits, first_of-none,
  fit_loop-first_of, best_loop-smallest_of, smallest_of-Least,
}

-- The node at which the search begins.
abbrev pub start_of : FreeList → ℕ
start_of a = elim a.policy [
  | Policy.first_fit ↦ a.free_head
  | Policy.best_fit ↦ a.free_head
  | Policy.next_fit ↦ if a.cursor == 0 then a.free_head else a.cursor
]

-- The free blocks are the ring `n ∷ ms`, beginning where the search does.
pub record IsRing (a : FreeList) (n : ℕ) (ms : List ℕ) : Type 0 where
  pub begins : start_of a ≡ n
  pub run : Run a.words n n ms
  pub short : length ms < a.capacity
  pub nodes : (x : ℕ) → In x (n ∷ ms) → x ≢ 0
  pub sizes : (x : ℕ) → In x (n ∷ ms) → size_of a.words x < 2 ^ 64 - 1
  pub some_free : a.free_head ≢ 0

-- What a search over the nodes `ns` is to find.
pub record Found (a : FreeList) (need : ℕ) (ns : List ℕ) (r : Option ℕ) : Type 0 where
  pub missing : r ≡ none → (x : ℕ) → In x ns → size_of a.words x < need
  pub fits : (m : ℕ) → r ≡ some m → Fits a.words need ns m
  pub first : a.policy ≢ Policy.best_fit → r ≡ first_of a.words need ns
  pub least :
      a.policy ≡ Policy.best_fit
      → (m x : ℕ) → r ≡ some m
      → In x ns
      → need ≤ size_of a.words x
      → size_of a.words m ≤ size_of a.words x

pub Policy-cases :
    (p : Policy) → (p ≡ Policy.first_fit) ⊎ (p ≡ Policy.best_fit) ⊎ (p ≡ Policy.next_fit)
Policy-cases Policy.first_fit = inl refl
Policy-cases Policy.best_fit = inr (inl refl)
Policy-cases Policy.next_fit = inr (inr refl)

first_of-Found :
    (a : FreeList) (need : ℕ) (ns : List ℕ)
    → a.policy ≢ Policy.best_fit
    → Found a need ns (first_of a.words need ns)
first_of-Found a need ns other = record {
  missing = first_of-none a.words need ns;
  fits = first_of-Fits a.words need ns;
  first = λ _. refl;
  least = λ h. absurd (other h);
}

-- The result of the search for the smallest block, 0 for NULL.
smallest_of-Found :
    (a : FreeList) (need : ℕ) (ns : List ℕ) (r : ℕ)
    → a.policy ≡ Policy.best_fit
    → ((x : ℕ) → In x ns → x ≢ 0)
    → ((x : ℕ) → In x ns → size_of a.words x < 2 ^ 64 - 1)
    → Least a.words need ns 0 (2 ^ 64 - 1) r
    → Found a need ns (if r == 0 then none else some r)
smallest_of-Found a need ns r best nodes sizes l = elim l.found [
  | inl (e, all) ↦ rw (ap (λ x. x == 0) e) (record {
    missing = λ _ x among. elim (Bool-cases (leb need (size_of a.words x))) [
      | inl room ↦ absurd (omega (arith, sizes x among, all x among (ground (arith, room))))
      | inr small ↦ ground (arith, small)
    ];
    fits = λ m h. absurd (cc);
    first = λ h. absurd (h best);
    least = λ _ m x h. absurd (cc);
  })
  | inr (f, _, all) ↦ rw (ne→== _ _ (nodes r f.among)) (record {
    missing = λ h. absurd (cc);
    fits = λ m h. let at : r ≡ m = cc in subst (Fits a.words need ns) at f;
    first = λ h. absurd (h best);
    least = λ _ m x h among room.
        let at : r ≡ m = cc in
        subst (λ k. size_of a.words k ≤ size_of a.words x) at (all x among room);
  })
]

search-first :
    (a : FreeList) (need : ℕ)
    → a.policy ≢ Policy.best_fit
    → search a need ≡ fit_loop a.words need (start_of a) a.capacity (start_of a)
unfolding search
search-first a need other = elim (Policy-cases a.policy) [
  | inl p ↦ rw (search, p) refl
  | inr (inl p) ↦ absurd (other p)
  | inr (inr p) ↦ rw (search, p) refl
]

search-best :
    (a : FreeList) (need : ℕ)
    → a.policy ≡ Policy.best_fit
    → let best = best_loop a.words need (start_of a) a.capacity (start_of a) 0 (2 ^ 64 - 1) in
      search a need ≡ (if best == 0 then none else some best)
unfolding search
search-best a need p = rw (search, p) refl

-- `find_fit` on a ring of free blocks goes round once: first fit and next fit find the first block
-- with room, best fit the smallest, and NULL means that there is none.
pub search-Found :
    (a : FreeList) (need n : ℕ) (ms : List ℕ)
    → IsRing a n ms
    → Found a need (n ∷ ms) (search a need)
search-Found a need n ms v = elim (Policy-cases a.policy) [
  | inl p ↦ by_first (λ h. cc)
  | inr (inl p) ↦
      let r = smallest_of a.words need (n ∷ ms) 0 (2 ^ 64 - 1) in
      let same : best_loop a.words need (start_of a) a.capacity (start_of a) 0 (2 ^ 64 - 1) ≡ r =
        ap (λ s. best_loop a.words need s a.capacity s 0 (2 ^ 64 - 1)) v.begins
        ∙ best_loop-smallest_of a.words need n a.capacity n 0 (2 ^ 64 - 1) ms v.run v.short in
      subst (Found a need (n ∷ ms))
        (sym (search-best a need p ∙ ap (λ b. if b == 0 then none else some b) same))
        (smallest_of-Found a need (n ∷ ms) r p v.nodes v.sizes
          (smallest_of-Least a.words need (n ∷ ms) 0 (2 ^ 64 - 1)))
  | inr (inr p) ↦ by_first (λ h. cc)
]
  where
    by_first : a.policy ≢ Policy.best_fit → Found a need (n ∷ ms) (search a need)
    by_first other =
        let same : search a need ≡ first_of a.words need (n ∷ ms) =
          search-first a need other
          ∙ ap (λ s. fit_loop a.words need s a.capacity s) v.begins
          ∙ fit_loop-first_of a.words need n a.capacity n ms v.run v.short in
        subst (Found a need (n ∷ ms)) (sym same) (first_of-Found a need (n ∷ ms) other)

-- `find_fit` is that search where a block is free, and finds nothing where none is.
pub find_fit-search :
    (a : FreeList) (need : ℕ)
    → (find_fit a need).0 ≡ (if a.free_head == 0 then none else search a need)
unfolding find_fit
find_fit-search a need = elim (Bool-cases (a.free_head == 0)) [
  | inl e ↦ rw e refl
  | inr e ↦ rw e refl
]

-- `find_fit` on a ring of free blocks that are smaller than 2 ^ 64 - 1 bytes and whose nodes are
-- not NULL goes round once: under first fit and next fit it finds the first block with room that a
-- search of the list of nodes finds, under best fit one of the smallest, and NULL means that no
-- block has room.
pub find_fit-Found :
    (a : FreeList) (need n : ℕ) (ms : List ℕ)
    → IsRing a n ms
    → Found a need (n ∷ ms) (find_fit a need).0
find_fit-Found a need n ms v =
    let same : (find_fit a need).0 ≡ search a need =
      find_fit-search a need ∙ rw (ne→== _ _ v.some_free) refl in
    subst (Found a need (n ∷ ms)) (sym same) (search-Found a need n ms v)
