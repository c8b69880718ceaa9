-- ===== src/DebugHeap/Calls/Free.antt =====
-- `dh_deallocate`: blocks of this heap, pointers that are none, and blocks that are freed twice.
use heapforge.Prelude.{
  ℕ, ◌+◌, ◌^◌, ◌≤◌, ◌<◌, ◌≡◌, ◌≢◌, ◌⊎◌, inl, inr, refl, sym, ◌∙◌, ap, arith, true, false,
  if◌then◌else◌, none, some, add_word, sub_word, Bool-cases, Option-cases, ==_refl, ne→==,
}
use mathlib.Core.Path.{subst}
use heapforge.Prelude.Bytes.{Bytes, fill}
use heapforge.Allocator.{returns, Interface, TakesBack}
use heapforge.DebugHeap.{Report, poison, is_intact, verify_block}
use heapforge.DebugHeap.Calls.{World, allocate, deallocate, release, count_invalid, count_double}
use heapforge.DebugHeap.Guards.{Fits, fill-out, fill-in}
use heapforge.DebugHeap.HashTable.{Entry, find, set_entry}
use heapforge.DebugHeap.HashTable.Insert.{IsValid, lookup, entry_at, new_entry}
use heapforge.DebugHeap.HashTable.Rehash.{find-user}
use heapforge.DebugHeap.HashTable.Put.{mark-Inserted}
use heapforge.DebugHeap.Calls.Alloc.{allocate-Guarded}

module _ (B : Interface) (w : World B.State) (ptr : ℕ) where
  -- A pointer that the table does not have changes nothing but the counter of invalid frees.
  pub deallocate-foreign :
      lookup w.heap.entries ptr ≡ none → ptr ≢ 0 → deallocate B w ptr ≡ returns (count_invalid B w)
  unfolding deallocate
  deallocate-foreign missing some_ptr = elim (Option-cases (find w.heap.entries ptr)) [
    | inl h ↦ rw (ne→== _ _ some_ptr, h)
    | inr (q, h) ↦ absurd (cc (sym missing ∙ ap (entry_at w.heap.entries) h))
  ]

  -- The entry behind a lookup.
  entry_of :
      (e : Entry)
      → IsValid w.heap.entries
      → lookup w.heap.entries ptr ≡ some e
      → (at : ℕ) × (find w.heap.entries ptr ≡ some at)
        × (w.heap.entries.table at ≡ e)
        × (e.user ≡ ptr)
        × (ptr ≢ 0)
  entry_of e v has = elim (Option-cases (find w.heap.entries ptr)) [
    | inl h ↦ absurd (cc (sym (ap (entry_at w.heap.entries) h) ∙ has))
    | inr (q, h) ↦
        let (f, own, _) = find-user w.heap.entries ptr q v h in
        let same : w.heap.entries.table q ≡ e = cc (sym (ap (entry_at w.heap.entries) h) ∙ has) in
        (q, h, same, sym (ap (λ x. x.user) same) ∙ own, λ z. f (own ∙ z))
  ]

  -- A freed block changes nothing but the counter of double frees.
  pub deallocate-freed :
      (e : Entry)
      → IsValid w.heap.entries
      → lookup w.heap.entries ptr ≡ some e
      → e.freed ≡ true
      → deallocate B w ptr ≡ returns (count_double B w)
  unfolding deallocate
  deallocate-freed e v has freed =
      let (at, h, same, own, some_ptr) = entry_of e v has in
      rw (ne→== _ _ some_ptr, h, same, own, ==_refl ptr, freed)

  pub deallocate-release :
      (e : Entry)
      → IsValid w.heap.entries
      → lookup w.heap.entries ptr ≡ some e
      → e.freed ≡ false
      → (at : ℕ) × (find w.heap.entries ptr ≡ some at)
        × (w.heap.entries.table at ≡ e)
        × (e.user ≡ ptr)
        × (ptr ≢ 0)
        × (deallocate B w ptr ≡ release B w ptr at)
  unfolding deallocate
  deallocate-release e v has kept =
      let (at, h, same, own, some_ptr) = entry_of e v has in
      (at, h, same, own, some_ptr, rw (ne→== _ _ some_ptr, h, same, own, ==_refl ptr, kept))

-- What a release of the entry `e` leaves; the memory that the backend gets is `handed`.
pub record Released (B : Interface) (w : World B.State) (e : Entry) (w' : World B.State)
    : Type 0 where
  pub valid : IsValid w'.heap.entries
  pub marked : lookup w'.heap.entries e.user ≡ some (record e { freed = true; raw = 0 })
  pub others :
      (other : ℕ) → other ≢ e.user → lookup w'.heap.entries other ≡ lookup w.heap.entries other
  pub violations : w'.heap.rep.canary_violations ≡ (
      if is_intact w.mem e.raw e.size
      then w.heap.rep.canary_violations
      else add_word w.heap.rep.canary_violations 1)
  pub handed : Bytes
  pub poisoned : (p : ℕ) → e.user ≤ p → p < e.user + e.size → handed p ≡ poison
  pub elsewhere : (p : ℕ) → (p < e.user) ⊎ (e.user + e.size ≤ p) → handed p ≡ w.mem p
  pub given_back : B.deallocate w.below handed (some e.raw) ≡ returns (w'.below, w'.mem)

violations_lem :
    (mem : Bytes) (rep : Report) (raw size : ℕ)
    → (verify_block mem rep raw size).1.canary_violations
      ≡ (if is_intact mem raw size then rep.canary_violations else add_word rep.canary_violations 1)
unfolding verify_block
violations_lem mem rep raw size = elim (Bool-cases (is_intact mem raw size)) [
  | inl ok ↦ rw ok
  | inr bad ↦ rw bad
]

-- `release` of the entry that the table has at `at`.
release-Released :
    (B : Interface) (w : World B.State) (at : ℕ)
    → let e = w.heap.entries.table at in
      IsValid w.heap.entries
      → e.user ≢ 0
      → find w.heap.entries e.user ≡ some at
      → e.raw ≢ 0
      → TakesBack B w.below w.mem e.user e.size e.raw
      → (w' : World B.State) × (release B w e.user at ≡ returns w') × Released B w e w'
unfolding release
release-Released B w at v some_ptr h some_raw takes =
    let e = w.heap.entries.table at in
    let e' : Entry = record e { freed = true; raw = 0 } in
    let r = mark-Inserted w.heap.entries at e' v some_ptr h in
    let (_, rep) = verify_block w.mem w.heap.rep e.raw e.size in
    let t = w.heap.entries in
    let handed = fill w.mem e.user e.size poison in
    let outside : (p : ℕ) → (p < e.user) ⊎ (e.user + e.size ≤ p) → handed p ≡ w.mem p =
      λ p out. fill-out w.mem e.user e.size poison p out in
    let (next, answer) = takes handed outside in
    let w' : World B.State = record {
      mem = next.1;
      heap = record {
        entries = record t { table = set_entry t.table at e' };
        rep = record rep {
          total_frees = add_word rep.total_frees 1;
          active_allocs = sub_word rep.active_allocs 1;
        };
      };
      below = next.0;
    } in
    (
      w',
      rw (ne→== _ _ some_raw, answer) refl,
      record {
        valid = r.valid;
        marked = r.own;
        others = r.others;
        violations = violations_lem w.mem w.heap.rep e.raw e.size;
        poisoned = λ p lo hi. fill-in w.mem e.user e.size poison p lo hi;
        handed = handed;
        elsewhere = outside;
        given_back = answer;
      },
    )

-- `dh_deallocate` of a live block of the debug heap whose backend takes the raw block back,
-- whatever the user's bytes hold by then, returns: when the backend gets the block, the user's
-- bytes are poisoned and no others have changed, the backend and the memory are left as the backend
-- leaves them, the entry is marked as freed without a raw block, the other entries are kept, and
-- the violations go up by one exactly if a canary is overwritten.
pub deallocate-Released :
    (B : Interface) (w : World B.State) (e : Entry)
    → IsValid w.heap.entries
    → lookup w.heap.entries e.user ≡ some e
    → e.freed ≡ false
    → e.raw ≢ 0
    → TakesBack B w.below w.mem e.user e.size e.raw
    → (w' : World B.State) × (deallocate B w e.user ≡ returns w') × Released B w e w'
deallocate-Released B w e v has kept some_raw takes =
    let (at, h, same, own, some_ptr, is_release) = deallocate-release B w e.user e v has kept in
    let found : find w.heap.entries (w.heap.entries.table at).user ≡ some at =
      ap (λ x. find w.heap.entries x.user) same ∙ h in
    let full : (w.heap.entries.table at).user ≢ 0 =
      λ z. some_ptr (ap (λ x. x.user) (sym same) ∙ z) in
    let raw' : (w.heap.entries.table at).raw ≢ 0 = λ z. some_raw (ap (λ x. x.raw) (sym same) ∙ z) in
    let (w', eq, r) =
      release-Released B w at v full found raw'
        (subst (λ x. TakesBack B w.below w.mem x.user x.size x.raw) (sym same) takes) in
    (
      w',
      is_release ∙ ap (λ x. release B w x.user at) (sym same) ∙ eq,
      subst (λ x. Released B w x w') same r,
    )

-- After `dh_deallocate` has released a live block of a valid debug heap whose backend takes the raw
-- block back, a second call with the same pointer returns and changes nothing but the counter of
-- double frees.
pub double_free_lem :
    (B : Interface) (w : World B.State) (e : Entry)
    → IsValid w.heap.entries
    → lookup w.heap.entries e.user ≡ some e
    → e.freed ≡ false
    → e.raw ≢ 0
    → TakesBack B w.below w.mem e.user e.size e.raw
    → (w' : World B.State) × (deallocate B w e.user ≡ returns w')
      × (deallocate B w' e.user ≡ returns (count_double B w'))
double_free_lem B w e v has kept some_raw takes =
    let (w', eq, r) = deallocate-Released B w e v has kept some_raw takes in
    (
      w',
      eq,
      deallocate-freed B w' e.user (record e { freed = true; raw = 0 }) r.valid r.marked refl,
    )

-- A block that `dh_allocate` returned is taken back by `dh_deallocate` without a violation, and the
-- backend gets the raw block that it had given, where the table is valid with fewer than 2 ^ 60
-- places, the block is not NULL and ends before the end of the address space, and the backend has
-- the block and takes it back, whatever it holds by then.
pub deallocate-allocate :
    (B : Interface) (w : World B.State) (size alignment raw : ℕ) (below : B.State) (mem : Bytes)
    → IsValid w.heap.entries
    → w.heap.entries.cap < 2 ^ 60
    → Fits raw size
    → raw ≢ 0
    → B.allocate w.below w.mem (size + 16) alignment ≡ (some raw, (below, mem))
    → TakesBack B below mem raw (size + 16) raw
    → let (user, w1) = allocate B w size alignment in
      (w2 : World B.State) × (user ≡ some (raw + 12))
      × (deallocate B w1 (raw + 12) ≡ returns w2)
      × ((handed : Bytes) × (B.deallocate below handed (some raw) ≡ returns (w2.below, w2.mem)))
      × (w2.heap.rep.canary_violations ≡ w1.heap.rep.canary_violations)
deallocate-allocate B w size alignment raw below mem v small fits some_raw answer takes =
    let a = allocate-Guarded B w size alignment raw below mem v small fits answer in
    let w1 = (allocate B w size alignment).1 in
    let e = new_entry (raw + 12) raw size in
    let taken_back : TakesBack B w1.below w1.mem (raw + 12) size raw =
      subst (λ s. TakesBack B s w1.mem (raw + 12) size raw) (sym a.backend_state)
        (λ mem' same.
          takes mem' (λ p out. same p (inside p out) ∙ a.elsewhere p (as_block p out))) in
    let (w2, eq, r) =
      deallocate-Released B w1 e a.tracked.valid a.tracked.own refl some_raw taken_back in
    let given = ap (λ s. B.deallocate s r.handed (some raw)) (sym a.backend_state) ∙ r.given_back in
    (w2, a.got, eq, (r.handed, given), r.violations ∙ rw a.intact)
  where
    inside : (p : ℕ) → (p < raw) ⊎ (raw + (size + 16) ≤ p) → (p < raw + 12) ⊎ (raw + 12 + size ≤ p)
    inside p (inl lo) = inl (omega arith)
    inside p (inr hi) = inr (omega arith)

    as_block : (p : ℕ) → (p < raw) ⊎ (raw + (size + 16) ≤ p) → (p < raw) ⊎ (raw + size + 16 ≤ p)
    as_block p (inl lo) = inl lo
    as_block p (inr hi) = inr (omega arith)
