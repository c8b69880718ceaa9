-- ===== src/Cpp/GuardHeap/Calls/Serve.antt =====
-- `GuardHeap::allocate` of the C++ version.
use heapforge.Prelude.{
  ℕ, zero, suc, ◌+◌, ◌^◌, ◌≤◌, ◌<◌, ◌≡◌, ◌≢◌, ◌⊎◌, inl, inr, refl, sym, ◌∙◌, ap, arith, Bool, true,
  false, not, ◌&&◌, ◌||◌, ◌==◌, ltb, if◌then◌else◌, Option, none, some, List, length, add_word,
  Bool-cases, ==_refl, ne→==, ==→eq, lt→ltb, Option-cases,
}
use mathlib.Core.Path.{subst}
use native.Mathlib.Decide.{ℕ_discrete}
use heapforge.Prelude.Count.{count_below, count_below-add, count_below-congr, count_below-all}
use heapforge.Platform.{align_up}
use heapforge.Platform.Align.{is_pow2_lem}
use heapforge.Cpp.GuardHeap.{
  Phase, Region, Process, World, max_regions, is_vacant, is_active, is_quarantined, set_region,
  set_owner, ends, deadlock,
}
use heapforge.Cpp.GuardHeap.Calls.{
  find_free_loop, find_free_slot, lay_out, enter, with_mapping, allocate,
}
use heapforge.Cpp.GuardHeap.Calls.Registry.{
  IsKept, IsValid, IsAlone, is_live, is_held, live_count, and_false, last_false,
}
use heapforge.Cpp.GuardHeap.Calls.Request.{
  aligned_ok, IsRequest, rounded, request-Rounds, slack_fits_lem,
}

-- A place that can be taken.
abbrev pub is_free : Process → (i : ℕ) → Bool
is_free p i = is_vacant (p.regions i).phase && (p.owner_of i == 0)

find_free_loop_lem :
    (p : Process) (rounds i slot : ℕ)
    → find_free_loop p rounds i ≡ some slot
    → (slot < i + rounds) × (is_free p slot ≡ true)
unfolding find_free_loop
find_free_loop_lem p zero i slot e = absurd (ground (arith, e))
find_free_loop_lem p (suc rounds) i slot e = elim (Bool-cases (is_free p i)) [
  | inl h ↦
      let same : i ≡ slot = cc (rw h at e) in
      (omega (arith, same), subst (λ k. is_free p k ≡ true) same h)
  | inr h ↦
      let (a, b) = find_free_loop_lem p rounds (i + 1) slot (cc (rw h at e)) in
      (omega (arith, a), b)
]

find_free_loop-none :
    (p : Process) (rounds i j : ℕ)
    → find_free_loop p rounds i ≡ none
    → i ≤ j
    → j < i + rounds
    → is_free p j ≡ false
unfolding find_free_loop
find_free_loop-none p zero i j e lo hi = absurd (omega arith)
find_free_loop-none p (suc rounds) i j e lo hi = elim (Bool-cases (is_free p i)) [
  | inl h ↦ absurd (cc (rw h at e))
  | inr h ↦ elim (ℕ_discrete i j) [
    | yes same ↦ subst (λ k. is_free p k ≡ false) same h
    | no ne ↦ find_free_loop-none p rounds (i + 1) j (cc (rw h at e)) (omega arith) (omega arith)
  ]
]

pub free_slot_lem :
    (p : Process) (slot : ℕ)
    → find_free_slot p ≡ some slot
    → (slot < max_regions) × (is_free p slot ≡ true)
unfolding find_free_slot
free_slot_lem p slot e = find_free_loop_lem p max_regions 0 slot e

pub free_slot-none :
    (p : Process) (j : ℕ) → find_free_slot p ≡ none → j < max_regions → is_free p j ≡ false
unfolding find_free_slot
free_slot-none p j e lt = find_free_loop-none p max_regions 0 j e (omega arith) (omega arith)

count_below_split :
    (n : ℕ) (f g h : ℕ → Bool)
    → ((j : ℕ) → j < n → (if f j then 1 else 0) ≡ (if g j then 1 else 0) + (if h j then 1 else 0))
    → count_below n f ≡ count_below n g + count_below n h
unfolding count_below
count_below_split zero f g h each = omega arith
count_below_split (suc n) f g h each =
    omega (arith, each n (omega arith), count_below_split n f g h (λ j lt. each j (omega arith)))

-- A place is free, has a live block or is in quarantine.
place_lem :
    (phase : Phase) (owner this : ℕ)
    → this ≢ 0
    → is_vacant phase ≡ (owner == 0)
    → (owner ≡ 0) ⊎ (owner ≡ this)
    → (if not (is_vacant phase && (owner == 0)) then 1 else 0)
      ≡ (if (owner == this) && is_active phase then 1 else 0)
        + (if true && (owner == this) && is_quarantined phase then 1 else 0)
place_lem phase owner this named paired (inl z) =
    let vacant : is_vacant phase ≡ true = paired ∙ rw z refl in
    let other = ne→== 0 this (λ e. named (sym e)) in rw (vacant, z, other) refl
place_lem Phase.vacant owner this named paired (inr z) = absurd (
    let none_here = ne→== this 0 named in
    let f : (this == 0) ≡ true = sym (subst (λ k. true ≡ (k == 0)) z paired) in
    ground (arith, none_here, f))
place_lem Phase.active owner this named paired (inr z) = rw (z, ==_refl this) refl
place_lem Phase.quarantined owner this named paired (inr z) = rw (z, ==_refl this) refl

-- If no place is free, the heap that is alone has all of them.
pub full_count :
    (w : World)
    → IsValid w
    → IsAlone w.heap.this w.process
    → find_free_slot w.process ≡ none
    → live_count w + length w.heap.quarantine ≡ max_regions
full_count w v alone full =
    let p = w.process in
    let this = w.heap.this in
    let taken : ℕ → Bool = λ i. not (is_free p i) in
    let all = count_below-all max_regions taken (λ j lt. rw (free_slot-none p j full lt) refl) in
    let split = count_below_split max_regions taken (is_live this p) (is_held this p) (λ j lt.
      rw (lt→ltb j max_regions lt)
        (place_lem (p.regions j).phase (p.owner_of j) this v.named (v.kept.paired j) (alone j))) in
    omega (arith, all, split, v.kept.number)

mid_false : (x z : Bool) → (x && false && z) ≡ false
mid_false true z = refl
mid_false false z = refl

-- A region enters the registry at a free place.
module _ (this slot : ℕ) (q : List ℕ) (p p1 : Process) (r : Region) (named : this ≢ 0)
    (k : IsKept this q p) (lt : slot < max_regions) (free : is_free p slot ≡ true)
    (fresh : r.phase ≡ Phase.active) (regions : p1.regions ≡ set_region p.regions slot r)
    (owners : p1.owner_of ≡ set_owner p.owner_of slot this) where
  enter-live : (i : ℕ) → is_live this p1 i ≡ ((i == slot) || is_live this p i)
  enter-live i = elim (ℕ_discrete i slot) [
    | yes e ↦ rw (regions, owners, e, ==_refl slot, ==_refl this, fresh) refl
    | no ne ↦ rw (regions, owners, ne→== i slot ne) refl
  ]

  no_owner : p.owner_of slot ≡ 0
  no_owner = elim (Bool-cases (p.owner_of slot == 0)) [
    | inl e ↦ ==→eq _ _ e
    | inr e ↦ absurd (
        let t : (is_vacant (p.regions slot).phase && false) ≡ true =
          subst (λ b. (is_vacant (p.regions slot).phase && b) ≡ true) e free in
        ground (arith, t, and_false (is_vacant (p.regions slot).phase)))
  ]

  not_own : (p.owner_of slot == this) ≡ false
  not_own = rw no_owner (ne→== 0 this (λ e. named (sym e)))

  not_live : is_live this p slot ≡ false
  not_live = rw not_own refl

  enter-held : (i : ℕ) → is_held this p1 i ≡ is_held this p i
  enter-held i = elim (ℕ_discrete i slot) [
    | yes e ↦
        rw (regions, owners, e, ==_refl slot, ==_refl this, fresh, not_own)
          (last_false (ltb slot max_regions) true
            ∙ sym (mid_false (ltb slot max_regions) (is_quarantined (p.regions slot).phase)))
    | no ne ↦ rw (regions, owners, ne→== i slot ne) refl
  ]

  enter-IsKept : IsKept this q p1
  enter-IsKept = record {
    paired = λ i. elim (ℕ_discrete i slot) [
      | yes e ↦ rw (regions, owners, e, ==_refl slot, fresh, ne→== this 0 named) refl
      | no ne ↦ rw (regions, owners, ne→== i slot ne) (k.paired i)
    ];
    listed = λ i. rw (enter-held i) (k.listed i);
    number =
        k.number
        ∙ sym (
            count_below-congr max_regions (is_held this p) (is_held this p1) (λ j h. enter-held j));
  }

  enter-IsAlone : IsAlone this p → IsAlone this p1
  enter-IsAlone alone i = elim (ℕ_discrete i slot) [
    | yes e ↦ inr (rw (owners, e, ==_refl slot) refl)
    | no ne ↦ rw (owners, ne→== i slot ne) (alone i)
  ]

-- What a successful `allocate` comes to.
pub record Granted (w w' : World) : Type 0 where
  pub valid : IsValid w'
  pub more : live_count w' ≡ live_count w + 1
  pub alone : IsAlone w.heap.this w.process → IsAlone w'.heap.this w'.process
  pub same_heap : (w'.heap.this ≡ w.heap.this) × (w'.heap.quarantine_cap ≡ w.heap.quarantine_cap)

pub enter-Granted :
    (w : World) (p0 : Process) (slot data_bytes : ℕ) (r : Region)
    → IsValid w
    → p0.regions ≡ w.process.regions
    → p0.owner_of ≡ w.process.owner_of
    → slot < max_regions
    → is_free w.process slot ≡ true
    → r.phase ≡ Phase.active
    → Granted w (enter (record w { process = p0 }) slot data_bytes r)
unfolding enter
enter-Granted w p0 slot data_bytes r v regions owners lt free fresh =
    let this = w.heap.this in
    let q = w.heap.quarantine in
    let w' = enter (record w { process = p0 }) slot data_bytes r in
    let regions' : w'.process.regions ≡ set_region w.process.regions slot r =
      ap (λ f. set_region f slot r) regions in
    let owners' : w'.process.owner_of ≡ set_owner w.process.owner_of slot this =
      ap (λ f. set_owner f slot this) owners in
    let p = w.process in
    let live' =
      enter-live this slot q p w'.process r v.named v.kept lt free fresh regions' owners' in
    let fewer = not_live this slot q p w'.process r v.named v.kept lt free fresh regions' owners' in
    record {
      valid = record {
        kept =
            enter-IsKept this slot q p w'.process r v.named v.kept lt free fresh regions' owners';
        bounded = v.bounded;
        named = v.named;
      };
      more =
          count_below-add max_regions slot (is_live this p) (is_live this w'.process) lt fewer
            live';
      alone =
          enter-IsAlone this slot q p w'.process r v.named v.kept lt free fresh regions' owners';
      same_heap = (refl, refl);
    }

mapping-Granted :
    (page : ℕ) (w : World) (base size aligned data_bytes slot : ℕ)
    → IsValid w
    → find_free_slot w.process ≡ some slot
    → size ≤ aligned
    → aligned ≤ data_bytes
    → base + page + data_bytes + page < 2 ^ 64
    → (ptr : ℕ) × (w' : World) × (with_mapping page w base size aligned data_bytes
        ≡ ends (some ptr, w'))
      × Granted w w'
unfolding with_mapping lay_out
mapping-Granted page w base size aligned data_bytes slot v found low pages fits =
    let (lt, free) = free_slot_lem w.process slot found in
    let ok = slack_fits_lem base page size aligned data_bytes w.heap.underflow low pages fits in
    rw (with_mapping, ok, found)
      (_, _, refl, enter-Granted w _ slot data_bytes _ v refl refl lt free refl)

-- What the system is asked for.
abbrev HasMemory : (ℕ → Option ℕ) → Type 0
HasMemory reserved =
    (n : ℕ) → n < 2 ^ 63 → (base : ℕ) × (reserved n ≡ some base) × (base + n < 2 ^ 64)

-- `allocate` of a valid guard heap of the C++ version that is alone in the process never fails
-- while its live blocks and the places that it may keep in quarantine are fewer than the registry
-- has, however many blocks it has handed out before: it returns a pointer, makes exactly one block
-- more live and keeps the heap valid, where the system has memory for any number of bytes below 2 ^
-- 63 and maps it below the end of the address space, pages and the alignment are powers of two,
-- pages have at least 16 bytes and are not smaller than the alignment, and the size and five pages
-- are below 2 ^ 63.
pub allocate-Granted :
    (reserved : ℕ → Option ℕ) (w : World) (k j size : ℕ)
    → IsValid w
    → IsAlone w.heap.this w.process
    → live_count w + w.heap.quarantine_cap < max_regions
    → IsRequest k j size
    → HasMemory reserved
    → (ptr : ℕ) × (w' : World) × (allocate (2 ^ k) reserved w size (2 ^ j) ≡ ends (some ptr, w'))
      × Granted w w'
unfolding allocate
allocate-Granted reserved w k j size v alone room r memory =
    let size' = if size == 0 then 1 else size in
    let aligned = rounded j size in
    let data_bytes = align_up aligned (2 ^ k) in
    let s = request-Rounds k j size r in
    let total : add_word (add_word (2 ^ k) data_bytes) (2 ^ k) ≡ 2 ^ k + data_bytes + 2 ^ k =
      omega (arith, s.high) in
    let (base, answer, below) = memory (2 ^ k + data_bytes + 2 ^ k) (omega (arith, s.high)) in
    let ok = aligned_ok (2 ^ k) (2 ^ j) r.page r.alignment (is_pow2_lem j r.alignment_bits) in
    elim (Option-cases (find_free_slot w.process)) [
      | inl full ↦ absurd (omega (arith, full_count w v alone full, v.bounded, room))
      | inr (slot, found) ↦
          rw (ok, total, answer)
            (mapping-Granted (2 ^ k) w base size' aligned data_bytes slot v found s.low s.pages
              (omega (arith, below)))
    ]

-- When every place of the registry has an owner, `allocate` of the C++ guard heap never returns: it
-- waits for the mutex that it holds itself, where the system has memory for any number of bytes
-- below 2 ^ 63 and maps it below the end of the address space, pages and the alignment are powers
-- of two, pages have at least 16 bytes and are not smaller than the alignment, and the size and
-- five pages are below 2 ^ 63.
pub allocate-deadlock :
    (reserved : ℕ → Option ℕ) (w : World) (k j size : ℕ)
    → ((i : ℕ) → i < max_regions → w.process.owner_of i ≢ 0)
    → IsRequest k j size
    → HasMemory reserved
    → allocate (2 ^ k) reserved w size (2 ^ j) ≡ deadlock
unfolding allocate with_mapping
allocate-deadlock reserved w k j size owned r memory =
    let size' = if size == 0 then 1 else size in
    let aligned = rounded j size in
    let data_bytes = align_up aligned (2 ^ k) in
    let s = request-Rounds k j size r in
    let total : add_word (add_word (2 ^ k) data_bytes) (2 ^ k) ≡ 2 ^ k + data_bytes + 2 ^ k =
      omega (arith, s.high) in
    let (base, answer, below) = memory (2 ^ k + data_bytes + 2 ^ k) (omega (arith, s.high)) in
    let ok = aligned_ok (2 ^ k) (2 ^ j) r.page r.alignment (is_pow2_lem j r.alignment_bits) in
    let fits =
      slack_fits_lem base (2 ^ k) size' aligned data_bytes w.heap.underflow s.low s.pages
        (omega (arith, below)) in
    elim (Option-cases (find_free_slot w.process)) [
      | inl full ↦ rw (ok, total, answer, with_mapping, fits, full) refl
      | inr (slot, found) ↦
          let (lt, free) = free_slot_lem w.process slot found in
          absurd (
            let taken = ne→== _ _ (owned slot lt) in
            let f = and_false (is_vacant (w.process.regions slot).phase) in
            let t : (is_vacant (w.process.regions slot).phase && false) ≡ true =
              subst (λ b. (is_vacant (w.process.regions slot).phase && b) ≡ true) taken free in
            ground (arith, f, t))
    ]
