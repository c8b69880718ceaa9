-- ===== src/Cpp/Dict.antt =====
-- `std::unordered_map` with addresses as keys, as the list of its entries. The library leaves open
-- in which order a loop visits them.
use heapforge.Prelude.{
  ℕ, ◌≡◌, ◌≢◌, refl, sym, ◌∙◌, Bool, true, false, if◌then◌else◌, ◌==◌, Option, none, some, List, [],
  ◌∷◌, inl, inr, ==_refl, ne→==, Bool-cases, ==→eq,
}
use native.Mathlib.Decide.{ℕ_discrete}

abbrev pub Dict {ℓ} : Type ℓ → Type ℓ
Dict A = List (ℕ × A)

-- m.find(k)
unfoldable pub lookup {ℓ} : {A : Type ℓ} → Dict A → (k : ℕ) → Option A
lookup [] k = none
lookup ((k', v) ∷ d) k = if k' == k then some v else lookup d k

-- m.erase(k)
unfoldable pub erase {ℓ} : {A : Type ℓ} → Dict A → (k : ℕ) → Dict A
erase [] k = []
erase ((k', v) ∷ d) k = let rest = erase d k in if k' == k then rest else (k', v) ∷ rest

-- m[k] = v
abbrev pub assign {ℓ} : {A : Type ℓ} → Dict A → (k : ℕ) → A → Dict A
assign d k v = (k, v) ∷ erase d k

-- m.count(k), as a test
abbrev pub contains {ℓ} : {A : Type ℓ} → Dict A → (k : ℕ) → Bool
contains d k = elim (lookup d k) [ none ↦ false | some v ↦ true ]

-- m.insert({k, v}), which keeps an entry that is there
abbrev pub insert {ℓ} : {A : Type ℓ} → Dict A → (k : ℕ) → A → Dict A
insert d k v = if contains d k then d else (k, v) ∷ d

pub lookup-erase {ℓ} : {A : Type ℓ} (d : Dict A) (k : ℕ) → lookup (erase d k) k ≡ none
unfolding lookup erase
lookup-erase [] k = refl
lookup-erase ((k', v) ∷ d) k = elim (Bool-cases (k' == k)) [
  | inl e ↦ rw e (lookup-erase d k)
  | inr e ↦ rw (e, e) (lookup-erase d k)
]

pub lookup-erase_ne {ℓ} :
    {A : Type ℓ} (d : Dict A) (k other : ℕ) → other ≢ k → lookup (erase d k) other ≡ lookup d other
unfolding lookup erase
lookup-erase_ne [] k other ne = refl
lookup-erase_ne ((k', v) ∷ d) k other ne = elim (Bool-cases (k' == k)) [
  | inl e ↦
      let off = ne→== k' other (λ z. ne (sym z ∙ ==→eq k' k e)) in
      rw (e, off) (lookup-erase_ne d k other ne)
  | inr e ↦ elim (Bool-cases (k' == other)) [
    | inl e' ↦ rw (e, e') refl
    | inr e' ↦ rw (e, e') (lookup-erase_ne d k other ne)
  ]
]

pub lookup-erase-none {ℓ} :
    {A : Type ℓ} (d : Dict A) (k other : ℕ)
    → lookup d other ≡ none
    → lookup (erase d k) other ≡ none
lookup-erase-none d k other gone = elim (ℕ_discrete other k) [
  | yes e ↦ rw e (lookup-erase d k)
  | no ne ↦ lookup-erase_ne d k other ne ∙ gone
]

pub lookup-assign {ℓ} : {A : Type ℓ} (d : Dict A) (k : ℕ) (v : A) → lookup (assign d k v) k ≡ some v
unfolding lookup
lookup-assign d k v = rw (==_refl k) refl

pub lookup-assign_ne {ℓ} :
    {A : Type ℓ} (d : Dict A) (k other : ℕ) (v : A)
    → other ≢ k
    → lookup (assign d k v) other ≡ lookup d other
unfolding lookup
lookup-assign_ne d k other v ne =
    rw (ne→== k other (λ z. ne (sym z))) (lookup-erase_ne d k other ne)

pub contains-insert {ℓ} :
    {A : Type ℓ} (d : Dict A) (k : ℕ) (v : A) → contains (insert d k v) k ≡ true
unfolding lookup
contains-insert d k v = elim (Bool-cases (contains d k)) [
  | inl e ↦ rw (e, e) refl
  | inr e ↦ rw (e, contains, ==_refl k) refl
]

-- An entry stays when another is put in.
pub contains-insert_more {ℓ} :
    {A : Type ℓ} (d : Dict A) (k other : ℕ) (v : A)
    → contains d other ≡ true
    → contains (insert d k v) other ≡ true
unfolding lookup
contains-insert_more d k other v has = elim (Bool-cases (contains d k)) [
  | inl e ↦ rw (e, has) refl
  | inr e ↦ elim (Bool-cases (k == other)) [
    | inl e' ↦ rw (e, contains, e') refl
    | inr e' ↦ rw (e, contains, e') has
  ]
]
