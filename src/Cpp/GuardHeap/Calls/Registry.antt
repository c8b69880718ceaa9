-- ===== src/Cpp/GuardHeap/Calls/Registry.antt =====
-- The registry of the guard heaps of the C++ version, and the quarantine of one of them.
use heapforge.Prelude.{
  ℕ, suc, ◌≤◌, ◌≡◌, ◌≢◌, ◌⊎◌, inl, inr, refl, sym, ◌∙◌, arith, Bool, true, false, not, ◌&&◌, ◌==◌,
  ltb, if◌then◌else◌, List, [], ◌∷◌, length, Bool-cases, ==_refl, ne→==, ltb→lt, ltb→ge,
}
use mathlib.Core.Path.{subst}
use native.Mathlib.Decide.{ℕ_discrete}
use heapforge.Prelude.Count.{count_below, count_below-sub}
use heapforge.Prelude.Occurrences.{count, count_self, count_ne}
use heapforge.Cpp.GuardHeap.{
  Phase, Process, World, max_regions, is_vacant, is_active, is_quarantined,
}
use heapforge.Cpp.GuardHeap.Calls.{give_back, evict}

-- The heap at `this` has a block in place `i`.
abbrev pub is_live : (this : ℕ) → Process → (i : ℕ) → Bool
is_live this p i = (p.owner_of i == this) && is_active (p.regions i).phase

-- Place `i` is in the quarantine of the heap at `this`.
abbrev pub is_held : (this : ℕ) → Process → (i : ℕ) → Bool
is_held this p i = ltb i max_regions && (p.owner_of i == this) && is_quarantined (p.regions i).phase

-- The places that can be taken are those without an owner, and the queue `q` has each place in
-- quarantine once and no others.
pub record IsKept (this : ℕ) (q : List ℕ) (p : Process) : Type 0 where
  pub paired : (i : ℕ) → is_vacant (p.regions i).phase ≡ (p.owner_of i == 0)
  pub listed : (i : ℕ) → count i q ≡ (if is_held this p i then 1 else 0)
  pub number : length q ≡ count_below max_regions (is_held this p)

-- The registry serves a heap, whose quarantine is not too long.
pub record IsValid (w : World) : Type 0 where
  pub kept : IsKept w.heap.this w.heap.quarantine w.process
  pub bounded : length w.heap.quarantine ≤ w.heap.quarantine_cap
  pub named : w.heap.this ≢ 0

abbrev pub live_count : World → ℕ
live_count w = count_below max_regions (is_live w.heap.this w.process)

-- No other heap has places.
abbrev pub IsAlone : (this : ℕ) → Process → Type 0
IsAlone this p = (i : ℕ) → (p.owner_of i ≡ 0) ⊎ (p.owner_of i ≡ this)

pub last_false : (x y : Bool) → (x && y && false) ≡ false
last_false true true = refl
last_false true false = refl
last_false false y = refl

-- What a place in quarantine is.
pub held_lem :
    (x y : Bool) (phase : Phase)
    → (x && y && is_quarantined phase) ≡ true
    → (x ≡ true) × (y ≡ true) × (is_active phase ≡ false)
held_lem true true Phase.quarantined e = (refl, refl, refl)
held_lem true true Phase.vacant e = absurd (ground (arith, e))
held_lem true true Phase.active e = absurd (ground (arith, e))
held_lem true false phase e = absurd (ground (arith, e))
held_lem false y phase e = absurd (ground (arith, e))

pub and_false : (x : Bool) → (x && false) ≡ false
and_false true = refl
and_false false = refl

-- A place in quarantine is given back.
module _ (this old : ℕ) (rest : List ℕ) (p : Process) (k : IsKept this (old ∷ rest) p) where
  old-held : is_held this p old ≡ true
  old-held = elim (Bool-cases (is_held this p old)) [
    | inl e ↦ e
    | inr e ↦
        let c : count old (old ∷ rest) ≡ 0 =
          subst (λ b. count old (old ∷ rest) ≡ (if b then 1 else 0)) e (k.listed old) in
        absurd (omega (arith, c, count_self old rest))
  ]

  give_back-held : (i : ℕ) → is_held this (give_back p old) i ≡ (not (i == old) && is_held this p i)
  give_back-held i = elim (ℕ_discrete i old) [
    | yes e ↦ rw (e, ==_refl old) (last_false (ltb old max_regions) (0 == this))
    | no ne ↦ rw (ne→== i old ne) refl
  ]

  pub give_back-live : (i : ℕ) → is_live this (give_back p old) i ≡ is_live this p i
  give_back-live i = elim (ℕ_discrete i old) [
    | yes e ↦
        let (_, _, quiet) =
          held_lem (ltb old max_regions) (p.owner_of old == this) (p.regions old).phase old-held in
        rw (e, ==_refl old, quiet)
          (and_false (0 == this) ∙ sym (and_false (p.owner_of old == this)))
    | no ne ↦ rw (ne→== i old ne) refl
  ]

  give_back-listed : (i : ℕ) → count i rest ≡ (if is_held this (give_back p old) i then 1 else 0)
  give_back-listed i = elim (ℕ_discrete i old) [
    | yes e ↦
        let own : count old (old ∷ rest) ≡ 1 =
          subst (λ b. count old (old ∷ rest) ≡ (if b then 1 else 0)) old-held (k.listed old) in
        rw (give_back-held i, e, ==_refl old) (omega (arith, own, count_self old rest))
    | no ne ↦ rw (give_back-held i, ne→== i old ne) (sym (count_ne i old rest ne) ∙ k.listed i)
  ]

  pub give_back-IsKept : IsKept this rest (give_back p old)
  give_back-IsKept =
      let (below, _, _) =
        held_lem (ltb old max_regions) (p.owner_of old == this) (p.regions old).phase old-held in
      let fewer =
        count_below-sub max_regions old (is_held this p) (is_held this (give_back p old))
          (ltb→lt old max_regions below) old-held give_back-held in
      record {
        paired = λ i. elim (ℕ_discrete i old) [
          | yes e ↦ rw (e, ==_refl old) refl
          | no ne ↦ rw (ne→== i old ne) (k.paired i)
        ];
        listed = give_back-listed;
        number =
            let n : suc (length rest) ≡ count_below max_regions (is_held this p) = k.number in
            omega (arith, n, fewer);
      }

pub give_back-IsAlone :
    (this old : ℕ) (p : Process) → IsAlone this p → IsAlone this (give_back p old)
give_back-IsAlone this old p alone i = elim (ℕ_discrete i old) [
  | yes e ↦ inl (rw (e, ==_refl old) refl)
  | no ne ↦ rw (ne→== i old ne) (alone i)
]

-- What `evict` does.
pub record Evicted (cap this : ℕ) (q : List ℕ) (p : Process) (q' : List ℕ) (p' : Process)
    : Type 0 where
  pub kept : IsKept this q' p'
  pub bounded : length q' ≤ cap
  pub same_live : (i : ℕ) → is_live this p' i ≡ is_live this p i
  pub alone : IsAlone this p → IsAlone this p'

pub evict-Evicted :
    (cap this : ℕ) (q : List ℕ) (p : Process)
    → IsKept this q p
    → Evicted cap this q p (evict cap q p).0 (evict cap q p).1
unfolding evict
evict-Evicted cap this [] p k = record {
  kept = k;
  bounded = omega arith;
  same_live = λ i. refl;
  alone = λ a. a;
}
evict-Evicted cap this (old ∷ rest) p k = elim (Bool-cases (ltb cap (length (old ∷ rest)))) [
  | inl e ↦
      let f = evict-Evicted cap this rest (give_back p old) (give_back-IsKept this old rest p k) in
      rw e (record {
        kept = f.kept;
        bounded = f.bounded;
        same_live = λ i. f.same_live i ∙ give_back-live this old rest p k i;
        alone = λ a. f.alone (give_back-IsAlone this old p a);
      })
  | inr e ↦ rw e (record {
    kept = k;
    bounded = ltb→ge cap (length (old ∷ rest)) e;
    same_live = λ i. refl;
    alone = λ a. a;
  })
]
