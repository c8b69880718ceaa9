-- ===== src/Cpp/GuardHeap/Calls/Retire.antt =====
-- `GuardHeap::deallocate` of the C++ version.
use heapforge.Prelude.{
  ℕ, zero, suc, ◌+◌, ◌≤◌, ◌<◌, ◌≡◌, ◌≢◌, inl, inr, refl, sym, ◌∙◌, arith, Bool, true, false, not,
  ◌&&◌, ◌||◌, ◌==◌, ltb, if◌then◌else◌, some, List, [], ◌∷◌, ◌++◌, length-append, Bool-cases,
  ==_refl, ne→==, ==→eq, lt→ltb,
}
use mathlib.Core.Path.{subst}
use native.Mathlib.Decide.{ℕ_discrete}
use heapforge.Prelude.Count.{count_below-add, count_below-sub}
use heapforge.Prelude.Occurrences.{count, count-append, count_self, count_ne}
use heapforge.Cpp.GuardHeap.{
  Phase, Process, World, max_regions, is_vacant, is_active, is_quarantined, set_region,
}
use heapforge.Cpp.GuardHeap.Calls.{find_loop, find_slot, retire, deallocate, lock_away}
use heapforge.Cpp.GuardHeap.Calls.Registry.{
  IsKept, IsValid, IsAlone, is_live, is_held, live_count, evict-Evicted, and_false, last_false,
}

three_true : (x y z : Bool) → (x && y && z) ≡ true → (x ≡ true) × (y ≡ true) × (z ≡ true)
three_true true true z e = (refl, refl, e)
three_true true false z e = absurd (ground (arith, e))
three_true false y z e = absurd (ground (arith, e))

two_true : (x y : Bool) → (x && y) ≡ true → (x ≡ true) × (y ≡ true)
two_true true y e = (refl, e)
two_true false y e = absurd (ground (arith, e))

active_not : (phase : Phase) → is_active phase ≡ true → is_quarantined phase ≡ false
active_not Phase.vacant e = refl
active_not Phase.active e = refl
active_not Phase.quarantined e = absurd (ground (arith, e))

active_not_vacant : (phase : Phase) → is_active phase ≡ true → is_vacant phase ≡ false
active_not_vacant Phase.vacant e = absurd (ground (arith, e))
active_not_vacant Phase.active e = refl
active_not_vacant Phase.quarantined e = refl

-- The place that `deallocate` finds.
find_loop_lem :
    (w : World) (ptr rounds i slot : ℕ)
    → find_loop w ptr rounds i ≡ some slot
    → (slot < i + rounds)
      × (is_live w.heap.this w.process slot ≡ true)
      × ((w.process.regions slot).user ≡ ptr)
unfolding find_loop
find_loop_lem w ptr zero i slot e = absurd (ground (arith, e))
find_loop_lem w ptr (suc rounds) i slot e =
    let r = w.process.regions i in
    let own = w.process.owner_of i == w.heap.this in
    elim (Bool-cases (own && (r.user == ptr) && is_active r.phase)) [
      | inl h ↦
          let (a, b, c) = three_true own (r.user == ptr) (is_active r.phase) h in
          let same : i ≡ slot = cc (rw h at e) in
          rw (← same, a, c) (omega arith, refl, ==→eq r.user ptr b)
      | inr h ↦
          let (a, b, c) = find_loop_lem w ptr rounds (i + 1) slot (cc (rw h at e)) in
          (omega (arith, a), b, c)
    ]

-- The region at `slot` goes into quarantine.
module _ (this slot : ℕ) (q : List ℕ) (p p1 : Process) (k : IsKept this q p)
    (lt : slot < max_regions) (live : is_live this p slot ≡ true)
    (regions : p1.regions
      ≡ set_region p.regions slot (record (p.regions slot) { phase = Phase.quarantined }))
    (owners : p1.owner_of ≡ p.owner_of) where
  slot_lem : ((p.owner_of slot == this) ≡ true) × (is_active (p.regions slot).phase ≡ true)
  slot_lem = two_true (p.owner_of slot == this) (is_active (p.regions slot).phase) live

  pub quarantine-live : (i : ℕ) → is_live this p1 i ≡ (not (i == slot) && is_live this p i)
  quarantine-live i = elim (ℕ_discrete i slot) [
    | yes e ↦ rw (regions, owners, e, ==_refl slot) (and_false (p.owner_of slot == this))
    | no ne ↦ rw (regions, owners, ne→== i slot ne) refl
  ]

  quarantine-held : (i : ℕ) → is_held this p1 i ≡ ((i == slot) || is_held this p i)
  quarantine-held i = elim (ℕ_discrete i slot) [
    | yes e ↦ rw (regions, owners, e, ==_refl slot, slot_lem.0, lt→ltb slot max_regions lt) refl
    | no ne ↦ rw (regions, owners, ne→== i slot ne) refl
  ]

  not_held : is_held this p slot ≡ false
  not_held =
      let quiet = active_not (p.regions slot).phase slot_lem.1 in
      rw quiet (last_false (ltb slot max_regions) (p.owner_of slot == this))

  quarantine-listed : (i : ℕ) → count i (q ++ (slot ∷ [])) ≡ (if is_held this p1 i then 1 else 0)
  quarantine-listed i = elim (ℕ_discrete i slot) [
    | yes e ↦
        let none_yet : count slot q ≡ 0 =
          subst (λ b. count slot q ≡ (if b then 1 else 0)) not_held (k.listed slot) in
        rw (quarantine-held i, e, ==_refl slot)
          (omega (arith, none_yet, count-append slot q (slot ∷ []), count_self slot []))
    | no ne ↦
        let same : count i (q ++ (slot ∷ [])) ≡ count i q =
          omega (arith, count-append i q (slot ∷ []), count_ne i slot [] ne) in
        rw (quarantine-held i, ne→== i slot ne) (same ∙ k.listed i)
  ]

  pub quarantine-IsKept : IsKept this (q ++ (slot ∷ [])) p1
  quarantine-IsKept = record {
    paired = λ i. elim (ℕ_discrete i slot) [
      | yes e ↦
          let taken : (p.owner_of slot == 0) ≡ false =
            sym (k.paired slot) ∙ active_not_vacant (p.regions slot).phase slot_lem.1 in
          rw (regions, owners, e, ==_refl slot, taken) refl
      | no ne ↦ rw (regions, owners, ne→== i slot ne) (k.paired i)
    ];
    listed = quarantine-listed;
    number =
        let more =
          count_below-add max_regions slot (is_held this p) (is_held this p1) lt not_held
            quarantine-held in
        omega (arith, more, k.number, length-append q (slot ∷ []));
  }

-- What `deallocate` of a live block comes to.
pub record Retired (w w' : World) : Type 0 where
  pub valid : IsValid w'
  pub fewer : live_count w' + 1 ≡ live_count w
  pub alone : IsAlone w.heap.this w.process → IsAlone w'.heap.this w'.process
  pub same_heap : (w'.heap.this ≡ w.heap.this) × (w'.heap.quarantine_cap ≡ w.heap.quarantine_cap)

retire-Retired :
    (page : ℕ) (w : World) (slot : ℕ)
    → IsValid w
    → slot < max_regions
    → is_live w.heap.this w.process slot ≡ true
    → Retired w (retire page w slot)
unfolding retire
retire-Retired page w slot v lt live =
    let this = w.heap.this in
    let q = w.heap.quarantine in
    let p1 = lock_away page w.process slot in
    let k1 = quarantine-IsKept this slot q w.process p1 v.kept lt live refl refl in
    let f = evict-Evicted w.heap.quarantine_cap this (q ++ (slot ∷ [])) p1 k1 in
    record {
      valid = record { kept = f.kept; bounded = f.bounded; named = v.named };
      fewer = count_below-sub max_regions slot (is_live this w.process) _ lt live (λ i.
          f.same_live i ∙ quarantine-live this slot q w.process p1 v.kept lt live refl refl i);
      alone = λ a. f.alone a;
      same_heap = (refl, refl);
    }

-- A live block is found.
find_loop-some :
    (w : World) (ptr rounds i j : ℕ)
    → i ≤ j
    → j < i + rounds
    → is_live w.heap.this w.process j ≡ true
    → (w.process.regions j).user ≡ ptr
    → (slot : ℕ) × (find_loop w ptr rounds i ≡ some slot)
unfolding find_loop
find_loop-some w ptr zero i j lo hi live own = absurd (omega arith)
find_loop-some w ptr (suc rounds) i j lo hi live own =
    let r = w.process.regions i in
    elim (Bool-cases
      ((w.process.owner_of i == w.heap.this) && (r.user == ptr) && is_active r.phase)) [
        | inl h ↦ (i, rw h refl)
        | inr h ↦ elim (ℕ_discrete i j) [
          | yes e ↦
              let (a, b) =
                two_true (w.process.owner_of j == w.heap.this)
                  (is_active (w.process.regions j).phase) live in
              absurd (
                let t : ((w.process.owner_of j == w.heap.this)
                      && ((w.process.regions j).user == ptr)
                      && is_active (w.process.regions j).phase)
                    ≡ true =
                  rw (a, own, ==_refl ptr, b) refl in
                let f : ((w.process.owner_of j == w.heap.this)
                      && ((w.process.regions j).user == ptr)
                      && is_active (w.process.regions j).phase)
                    ≡ false =
                  rw (← e) h in
                ground (arith, t, f))
          | no ne ↦
              rw h (find_loop-some w ptr rounds (i + 1) j (omega arith) (omega arith) live own)
        ]
      ]

found_slot :
    (w : World) (ptr at : ℕ)
    → at < max_regions
    → is_live w.heap.this w.process at ≡ true
    → (w.process.regions at).user ≡ ptr
    → (slot : ℕ) × (find_slot w ptr ≡ some slot)
      × (slot < max_regions)
      × (is_live w.heap.this w.process slot ≡ true)
unfolding find_slot
found_slot w ptr at lt live own =
    let (slot, found) =
      find_loop-some w ptr max_regions 0 at (omega arith) (omega arith) live own in
    let (below, live', _) = find_loop_lem w ptr max_regions 0 slot found in
    (slot, found, below, live')

-- `deallocate` of a live block of a valid guard heap of the C++ version makes exactly one block
-- less live and keeps the heap valid: the quarantine has each place of the heap's freed blocks
-- once, is not longer than its limit, and what leaves it can be taken again; if the heap was alone
-- in the process, it still is.
pub deallocate-Retired :
    (page : ℕ) (w : World) (ptr at : ℕ)
    → IsValid w
    → ptr ≢ 0
    → at < max_regions
    → is_live w.heap.this w.process at ≡ true
    → (w.process.regions at).user ≡ ptr
    → Retired w (deallocate page w ptr).1
unfolding deallocate
deallocate-Retired page w ptr at v some_ptr lt live own =
    let (slot, found, below, live') = found_slot w ptr at lt live own in
    rw (ne→== ptr 0 some_ptr, found) (retire-Retired page w slot v below live')
