-- ===== src/Slab/Grow.antt =====
-- `sl_grow`: the slots of a new slab are linked in address order.
use heapforge.Prelude.{
  ℕ, zero, suc, ◌+◌, ◌≤◌, ◌≡◌, refl, ◌∙◌, arith, Option, some, List, [], ◌∷◌, ◌++◌,
}
use mathlib.Core.List.{append_assoc}
use heapforge.Slab.{link, slot, link_slots}
use heapforge.Prelude.Occurrences.{count, count-append, count_self}
use heapforge.Slab.Links.{Chain, Chain-link, link_self}

-- The first `n` slots of a slab.
abbrev pub slots : (mem obj_size n : ℕ) → List ℕ
slots mem obj_size zero = []
slots mem obj_size (suc n) = slots mem obj_size n ++ (slot mem obj_size n ∷ [])

-- The slots of all slabs in the array.
abbrev pub all_slots : (obj_size n : ℕ) → List ℕ → List ℕ
all_slots obj_size n [] = []
all_slots obj_size n (mem ∷ slabs) = slots mem obj_size n ++ all_slots obj_size n slabs

pub count-all_slots :
    (x obj_size n mem : ℕ) (slabs : List ℕ)
    → count x (all_slots obj_size n (slabs ++ (mem ∷ [])))
      ≡ count x (all_slots obj_size n slabs) + count x (slots mem obj_size n)
count-all_slots x obj_size n mem [] = count-append x (slots mem obj_size n) [] ∙ omega arith
count-all_slots x obj_size n mem (m ∷ slabs) = omega (
  arith,
  count-append x (slots m obj_size n) (all_slots obj_size n (slabs ++ (mem ∷ []))),
  count-append x (slots m obj_size n) (all_slots obj_size n slabs),
  count-all_slots x obj_size n mem slabs,
)

pub link_slots-Chain :
    (mem obj_size n : ℕ) (central : Option ℕ) (next : ℕ → Option ℕ) (xs : List ℕ)
    → ((x : ℕ) → count x (slots mem obj_size n) + count x xs ≤ 1)
    → Chain next central xs
    → let s = link_slots mem obj_size n (central, next) in
      Chain s.1 s.0 (slots mem obj_size n ++ xs)
unfolding link_slots Chain
link_slots-Chain mem obj_size zero central next xs apart c = c
link_slots-Chain mem obj_size (suc n) central next xs apart c =
    let at = slot mem obj_size n in
    let once = λ (x : ℕ). count-append x (slots mem obj_size n) (at ∷ []) in
    let out : count at xs ≡ 0 = omega (arith, once at, count_self at [], apart at) in
    let head : Chain (link next at central) (some at) (at ∷ xs) =
      (refl, rw (link_self next at central) (Chain-link next at central central xs out c)) in
    let rest =
      link_slots-Chain mem obj_size n (some at) (link next at central) (at ∷ xs)
        (λ x. omega (arith, once x, apart x)) head in
    rw (append_assoc (slots mem obj_size n) (at ∷ []) xs) rest
