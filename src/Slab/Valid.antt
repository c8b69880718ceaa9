-- ===== src/Slab/Valid.antt =====
-- A slab allocator whose thread uses no other: every slot of its slabs is on the central list, in
-- the magazine, or live, and in one of these places only.
use heapforge.Prelude.{
  ℕ, zero, suc, ◌+◌, ◌*◌, ◌%◌, ◌^◌, ◌≤◌, ◌<◌, ◌≡◌, ◌↔◌, refl, sym, ◌∙◌, ap, arith, true, ◌==◌,
  Option, none, some, List, [], ◌∷◌, ◌++◌, length, take, drop, inl, inr, Bool-cases, Option-cases,
}
use mathlib.Core.List.{append-nil}
use mathlib.Core.Path.{subst}
use heapforge.Slab.{Slab, Memory, slot, batch, link_slots, grow, enter_slab, take_batch, refill}
use heapforge.Prelude.Occurrences.{count}
use heapforge.Slab.Links.{Chain}
use heapforge.Slab.Grow.{slots, all_slots, count-all_slots, link_slots-Chain}
use heapforge.Slab.Refill.{batch_end-Cut, count-take-drop}

abbrev pub slots_of : Slab → List ℕ
slots_of a = all_slots a.obj_size a.slots_per_slab a.slabs

-- `cs` are the slots of the central list, `ms` those of the magazine, `ls` the live ones. The
-- counter of used bytes is a 64-bit word.
pub record IsValid (a : Slab) (m : Memory) (cs ms ls : List ℕ) : Type 0 where
  pub central : Chain m.next a.central_free cs
  pub magazine : Chain m.next m.magazine ms
  pub kept : (x : ℕ) → count x cs + count x ms + count x ls ≡ count x (slots_of a)
  pub once : (x : ℕ) → count x (slots_of a) ≤ 1
  pub used : a.stats.used ≡ length ls * a.obj_size % 2 ^ 64
  pub slots_pos : 0 < a.slots_per_slab
  pub small : a.obj_size < 2 ^ 64

-- The memory that the system reserves holds new slots.
unfoldable pub IsFresh : Slab → Option ℕ → Type 0
IsFresh a none = Unit {0}
IsFresh a (some mem) =
    (x : ℕ) → count x (slots mem a.obj_size a.slots_per_slab) + count x (slots_of a) ≤ 1

take_batch-IsValid :
    (a : Slab) (m : Memory) (head : ℕ) (xs ls : List ℕ)
    → IsValid a m (head ∷ xs) [] ls
    → a.central_free ≡ some head
    → IsValid
        (take_batch a m).0
        (take_batch a m).1
        (drop batch (head ∷ xs))
        (take batch (head ∷ xs))
        ls
unfolding take_batch Chain
take_batch-IsValid a m head xs ls v e =
    let cut =
      batch_end-Cut m.next 31 head xs (λ y. omega (arith, v.kept y, v.once y)) v.central.1 in
    rw (e, take_batch)
      (record {
        central = cut.back;
        magazine = cut.front;
        kept = λ x. omega (arith, v.kept x, count-take-drop x batch (head ∷ xs));
        once = v.once;
        used = v.used;
        slots_pos = v.slots_pos;
        small = v.small;
      })

enter_slab-slabs : (a : Slab) (mem : ℕ) → (enter_slab true a mem).slabs ≡ a.slabs ++ (mem ∷ [])
unfolding enter_slab
enter_slab-slabs a mem = elim (Bool-cases (length a.slabs == a.slab_cap)) [
  | inl full ↦ rw full
  | inr room ↦ rw room
]

pub record SameButSlabs (a b : Slab) : Type 0 where
  pub obj_size : b.obj_size ≡ a.obj_size
  pub slots_per_slab : b.slots_per_slab ≡ a.slots_per_slab
  pub central : b.central_free ≡ a.central_free
  pub used : b.stats.used ≡ a.stats.used

enter_slab-SameButSlabs : (a : Slab) (mem : ℕ) → SameButSlabs a (enter_slab true a mem)
unfolding enter_slab
enter_slab-SameButSlabs a mem = elim (Bool-cases (length a.slabs == a.slab_cap)) [
  | inl full ↦
      rw full (record { obj_size = refl; slots_per_slab = refl; central = refl; used = refl })
  | inr room ↦
      rw room (record { obj_size = refl; slots_per_slab = refl; central = refl; used = refl })
]

grow-IsValid :
    (mem : ℕ) (a : Slab) (m : Memory) (ls : List ℕ)
    → IsValid a m [] [] ls
    → IsFresh a (some mem)
    → let r = grow (some mem) true a m in
      IsValid r.0 r.1 (slots mem a.obj_size a.slots_per_slab) [] ls × (r.0.obj_size ≡ a.obj_size)
unfolding grow IsFresh Chain
grow-IsValid mem a m ls v fresh =
    let s = link_slots mem a.obj_size a.slots_per_slab (a.central_free, m.next) in
    let new = slots mem a.obj_size a.slots_per_slab in
    let c = record a { central_free = s.0 } in
    let b = enter_slab true c mem in
    let same = enter_slab-SameButSlabs c mem in
    let chain =
      link_slots-Chain mem a.obj_size a.slots_per_slab a.central_free m.next []
        (λ x. omega (arith, fresh x)) v.central in
    let sum = λ (x : ℕ). count-all_slots x a.obj_size a.slots_per_slab mem a.slabs in
    let total : slots_of b ≡ all_slots a.obj_size a.slots_per_slab (a.slabs ++ (mem ∷ [])) =
      rw (same.obj_size, same.slots_per_slab, enter_slab-slabs c mem) in
    (
      record {
        central = rw (same.central, sym (append-nil new)) chain;
        magazine = v.magazine;
        kept = λ x. rw total (omega (arith, sum x, v.kept x));
        once = λ x. rw total (omega (arith, sum x, fresh x));
        used = rw (same.used, same.obj_size) v.used;
        slots_pos = rw same.slots_per_slab v.slots_pos;
        small = rw same.obj_size v.small;
      },
      same.obj_size,
    )

take_batch-none : (a : Slab) (m : Memory) → a.central_free ≡ none → take_batch a m ≡ (a, m)
unfolding take_batch
take_batch-none a m e = ground (arith, e)

refill-empty :
    (reserved : Option ℕ) (a : Slab) (m : Memory)
    → a.central_free ≡ none
    → refill reserved true a m ≡ take_batch (grow reserved true a m).0 (grow reserved true a m).1
unfolding refill
refill-empty reserved a m e = ground (arith, e)

slots-cons :
    (mem obj_size n : ℕ) → 0 < n → (head : ℕ) × (xs : List ℕ) × (slots mem obj_size n ≡ head ∷ xs)
slots-cons mem obj_size zero h = absurd (omega arith)
slots-cons mem obj_size (suc zero) h = (slot mem obj_size 0, [], refl)
slots-cons mem obj_size (suc (suc n)) h =
    let (head, xs, e) = slots-cons mem obj_size (suc n) (omega arith) in
    (
      head,
      xs ++ (slot mem obj_size (suc n) ∷ []),
      ap (λ l. l ++ (slot mem obj_size (suc n) ∷ [])) e,
    )

take_batch-obj_size : (a : Slab) (m : Memory) → (take_batch a m).0.obj_size ≡ a.obj_size
unfolding take_batch
take_batch-obj_size a m = elim (Option-cases a.central_free) [
  | inl e ↦ rw (e, take_batch)
  | inr (head, e) ↦ rw (e, take_batch)
]

-- Where the magazine is empty: after `sl_refill` it has slots, unless the system has no memory.
pub record Refilled (a : Slab) (reserved : Option ℕ) (cs ls : List ℕ) (b : Slab) (n : Memory)
    : Type 0 where
  pub rest : List ℕ
  pub batch_slots : List ℕ
  pub valid : IsValid b n rest batch_slots ls
  pub size : b.obj_size ≡ a.obj_size
  pub empty : (batch_slots ≡ []) ↔ ((cs ≡ []) × (reserved ≡ none))

pub refill-Refilled :
    (reserved : Option ℕ) (a : Slab) (m : Memory) (cs ls : List ℕ)
    → IsValid a m cs [] ls
    → IsFresh a reserved
    → Refilled a reserved cs ls (refill reserved true a m).0 (refill reserved true a m).1
unfolding refill grow Chain
refill-Refilled reserved a m (head ∷ xs) ls v fresh =
    rw (v.central.0, refill)
      (record {
        rest = drop batch (head ∷ xs);
        batch_slots = take batch (head ∷ xs);
        valid = take_batch-IsValid a m head xs ls v v.central.0;
        size = take_batch-obj_size a m;
        empty = ((λ h. cc), λ h. cc (h.0));
      })
refill-Refilled none a m [] ls v fresh =
    let same : refill none true a m ≡ (a, m) =
      refill-empty none a m v.central ∙ take_batch-none a m v.central in
    rw same (record {
      rest = [];
      batch_slots = [];
      valid = v;
      size = refl;
      empty = ((λ _. (refl, refl)), λ _. refl);
    })
refill-Refilled (some mem) a m [] ls v fresh =
    let b = (grow (some mem) true a m).0 in
    let n = (grow (some mem) true a m).1 in
    let (grown, size) = grow-IsValid mem a m ls v fresh in
    let (head, xs, e) = slots-cons mem a.obj_size a.slots_per_slab v.slots_pos in
    let ready = subst (λ l. IsValid b n l [] ls) e grown in
    let same : refill (some mem) true a m ≡ take_batch b n =
      refill-empty (some mem) a m v.central in
    rw same (record {
      rest = drop batch (head ∷ xs);
      batch_slots = take batch (head ∷ xs);
      valid = take_batch-IsValid b n head xs ls ready ready.central.0;
      size = take_batch-obj_size b n ∙ size;
      empty = ((λ h. cc), λ h. cc (h.1));
    })
