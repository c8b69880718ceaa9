-- ===== src/FreeList/Calls/Allot.antt =====
-- `fl_allocate` as a whole.
use heapforge.Prelude.{
  ℕ, ◌+◌, ◌-◌, ◌%◌, ◌^◌, ◌≤◌, ◌<◌, ◌≡◌, ◌≢◌, ◌⊎◌, inl, inr, refl, sym, ◌∙◌, ap, arith, ◌==◌, ltb,
  if◌then◌else◌, Option, none, some, List, [], ◌∷◌, ◌++◌, Bool-cases, ==→eq, ge→ltb, ltb→lt, ltb→ge,
  add_word,
}
use mathlib.Core.Path.{subst}
use heapforge.Platform.{align_up, default_align}
use heapforge.Platform.Align.{default_align_lem}
use heapforge.Allocator.{count_alloc, count_failed}
use heapforge.FreeList.{FreeList, Policy, next, header_bytes, min_block, search, find_fit}
use heapforge.FreeList.Fit.{In, size_of}
use heapforge.FreeList.Choose.{search-Found}
use heapforge.FreeList.Layout.{Block}
use heapforge.FreeList.Rotate.{count-In, In_of_count}
use heapforge.FreeList.Held.{IsHeld}
use heapforge.FreeList.Cycle.{head_In}
use heapforge.FreeList.Calls.{needed, take, allocate}
use heapforge.FreeList.Calls.Give.{used_blocks}
use heapforge.FreeList.Calls.Take.{Taken, take-Taken, IsHeld-stats}
use heapforge.FreeList.Calls.Lookup.{start_lem, Kept, same_Kept, next_Kept, follow_In}

-- What `find_fit` comes to: a node with room, or none.
record Looked (a : FreeList) (bs : List Block) (ns : List ℕ) (need : ℕ) (r : Option ℕ × FreeList)
    : Type 0 where
  kept : Kept a r.1 bs ns
  missing : r.0 ≡ none → (x : ℕ) → In x ns → size_of a.words x < need
  fits : (x : ℕ) → r.0 ≡ some x → In x ns × (need ≤ size_of a.words x)

-- The search goes through the nodes of the ring.
search-Looked :
    (a : FreeList) (bs : List Block) (ns : List ℕ) (need : ℕ) (b : FreeList)
    → IsHeld a bs ns []
    → a.free_head ≢ 0
    → Kept a b bs ns
    → Looked a bs ns need (search a need, b)
search-Looked a bs ns need b v some_free kept =
    let s = start_lem a bs ns v some_free in
    let f = search-Found a need s.first s.rest s.ring in
    let all = s.first ∷ s.rest in
    record {
      kept = kept;
      missing = λ e x i.
          let own = count-In x ns i in
          f.missing e x (In_of_count x all (omega (arith, own, s.same x)));
      fits = λ x e.
          let m = f.fits x e in
          let own = count-In x all m.among in
          (In_of_count x ns (omega (arith, own, s.same x)), m.room);
    }

moved_Kept :
    (a : FreeList) (bs : List Block) (ns : List ℕ) (p : Policy) (r : Option ℕ)
    → IsHeld a bs ns []
    → ((x : ℕ) → r ≡ some x → In x ns)
    → Kept a
        (elim p [
          | Policy.first_fit ↦ a
          | Policy.best_fit ↦ a
          | Policy.next_fit ↦ elim r [ none ↦ a | some n ↦ record a { cursor = next a.words n } ]
        ])
        bs
        ns
moved_Kept a bs ns Policy.first_fit r v i = same_Kept a bs ns v
moved_Kept a bs ns Policy.best_fit r v i = same_Kept a bs ns v
moved_Kept a bs ns Policy.next_fit none v i = same_Kept a bs ns v
moved_Kept a bs ns Policy.next_fit (some n) v i =
    next_Kept a bs ns n v (follow_In a.words a.free_head n ns v.ring.cycle (i n refl))

none_free :
    (a : FreeList) (bs : List Block) (ns : List ℕ) (need : ℕ)
    → IsHeld a bs ns []
    → a.free_head ≡ 0
    → Looked a bs ns need (none, a)
none_free a bs ns need v e = record {
  kept = same_Kept a bs ns v;
  missing = λ _ x i.
      let h = head_In a.words a.free_head x ns v.ring.cycle i in
      absurd ((v.ring.nodes a.free_head h).1 e);
  fits = λ x h. absurd (cc);
}

find_fit-Looked :
    (a : FreeList) (bs : List Block) (ns : List ℕ) (need : ℕ)
    → IsHeld a bs ns []
    → Looked a bs ns need (find_fit a need)
unfolding find_fit
find_fit-Looked a bs ns need v = elim (Bool-cases (a.free_head == 0)) [
  | inl e ↦ rw e (none_free a bs ns need v (==→eq _ _ e))
  | inr e ↦
      let some_free : a.free_head ≢ 0 = λ z. ground (arith, e, z) in
      let l = search-Looked a bs ns need a v some_free (same_Kept a bs ns v) in
      rw e (
        search-Looked a bs ns need _ v some_free
          (moved_Kept a bs ns a.policy (search a need) v (λ x h. (l.fits x h).0)))
]

at_least :
    (need : ℕ)
    → need % 16 ≡ 0
    → (size : ℕ) → size + 16 ≤ need
    → let n = if ltb need min_block then min_block else need in
      (32 ≤ n) × (n % 16 ≡ 0) × (size + 16 ≤ n)
at_least need round size room = elim (Bool-cases (ltb need min_block)) [
  | inl e ↦ let lt = ltb→lt need 32 e in rw e (omega arith, refl, omega (arith, lt, room))
  | inr e ↦ let ge = ltb→ge need 32 e in rw e (omega (arith, ge), round, room)
]

needed_lem :
    (size alignment : ℕ)
    → size + 48 ≤ 2 ^ 64
    → alignment ≤ 16
    → (32 ≤ needed size alignment)
      × (needed size alignment % 16 ≡ 0)
      × (size + 16 ≤ needed size alignment)
unfolding needed
needed_lem size alignment fits small =
    let some_size = if size == 0 then 1 else size in
    let above : (size ≤ some_size) × (some_size ≤ size + 1) = (ground arith, ground arith) in
    let word : add_word 16 some_size ≡ 16 + some_size = omega (arith, above.1, fits) in
    let (round, low, _) =
      default_align_lem (add_word 16 some_size) (omega (arith, word, above.1, fits)) in
    let aligned = ge→ltb default_align alignment small in
    rw aligned (
      at_least (align_up (add_word header_bytes some_size) default_align) round size
        (omega (arith, low, word, above.0)))

-- What a call of `fl_allocate` comes to: NULL, since no block has room, or the address of a free one.
pub record Missed (a : FreeList) (bs : List Block) (ns : List ℕ) (need : ℕ)
    (r : Option ℕ × FreeList) : Type 0 where
  pub null : r.0 ≡ none
  pub small : (x : ℕ) → In x ns → size_of a.words x < need
  pub held : IsHeld r.1 bs ns []
  pub mem : r.1.mem ≡ a.mem

pub record Allotted (a : FreeList) (bs : List Block) (ns : List ℕ) (need : ℕ)
    (r : Option ℕ × FreeList) : Type 0 where
  pub node : ℕ
  pub pointer : r.0 ≡ some node
  pub among : In node ns
  pub room : need ≤ size_of a.words node
  pub taken : Taken a bs node need (node, r.1)

Taken-Kept :
    (a b : FreeList) (bs : List Block) (x need : ℕ) (r : ℕ × FreeList)
    → b.mem ≡ a.mem
    → Taken b bs x need r
    → Taken a bs x need (x, r.1)
Taken-Kept a b bs x need r mem t = record {
  size = t.size;
  blocks = t.blocks;
  ring = t.ring;
  before = t.before;
  behind = t.behind;
  pointer = refl;
  held = t.held;
  mem = t.mem ∙ mem;
  room = t.room;
  old = subst (λ m. used_blocks m bs ≡ t.before ++ t.behind) mem t.old;
  new = subst (λ m. used_blocks m t.blocks ≡ t.before ++ ((x - 16, t.size) ∷ t.behind)) mem t.new;
}

-- The two ends of `fl_allocate`.
finish : (need alignment : ℕ) → Option ℕ → FreeList → Option ℕ × FreeList
finish need alignment node b = elim node [
  | none ↦ (none, record b { stats = count_failed b.stats })
  | some n ↦ let (p, c) = take b n need alignment in (some p, c)
]

finish-Allotted :
    (a : FreeList) (bs : List Block) (ns : List ℕ) (need alignment : ℕ) (node : Option ℕ)
    (b : FreeList)
    → Looked a bs ns need (node, b)
    → 32 ≤ need
    → need % 16 ≡ 0
    → alignment ≤ 16
    → Missed a bs ns need (finish need alignment node b)
      ⊎ Allotted a bs ns need (finish need alignment node b)
unfolding finish
finish-Allotted a bs ns need alignment none b l big round small = inl (record {
  null = refl;
  small = l.missing refl;
  held = IsHeld-stats b (count_failed b.stats) bs ns [] l.kept.held;
  mem = l.kept.mem;
})
finish-Allotted a bs ns need alignment (some n) b l big round small =
    let (among, room) = l.fits n refl in
    let t =
      take-Taken b bs ns n need alignment l.kept.held among big round
        (subst (λ w. need ≤ size_of w n) (sym l.kept.words) room) small in
    inr (record {
      node = n;
      pointer = ap some t.pointer;
      among = among;
      room = room;
      taken = Taken-Kept a b bs n need (take b n need alignment) l.kept.mem t;
    })

-- `fl_allocate` of a size at most 2 ^ 64 - 48 and an alignment at most 16, where the memory is at a
-- multiple of 16, not at NULL, and ends more than 16 bytes before the end of the address space, the
-- blocks with their headers fill it, and the ring has each free one once, needs the size and its
-- header at least, and returns NULL with the blocks as they were, where no free block has the need,
-- or the address of the node of a free block that has: afterwards the blocks again fill the memory,
-- the ring has each free one once, and the used blocks are those from before and, in its place, the
-- one in front of the pointer, which has the need and less than the smallest block more.
pub allocate-Allotted :
    (a : FreeList) (bs : List Block) (ns : List ℕ) (size alignment : ℕ)
    → IsHeld a bs ns []
    → size + 48 ≤ 2 ^ 64
    → alignment ≤ 16
    → let need = needed size alignment in
      (size + 16 ≤ need)
      × (Missed a bs ns need (allocate a size alignment)
          ⊎ Allotted a bs ns need (allocate a size alignment))
unfolding allocate finish
allocate-Allotted a bs ns size alignment v fits small =
    let need = needed size alignment in
    let (big, round, room) = needed_lem size alignment fits small in
    let c = record a { stats = count_alloc a.stats } in
    let l = find_fit-Looked c bs ns need (IsHeld-stats a (count_alloc a.stats) bs ns [] v) in
    let (node, b) = find_fit c need in
    (
      room,
      elim (finish-Allotted c bs ns need alignment node b l big round small) [
        | inl m ↦ inl (record { null = m.null; small = m.small; held = m.held; mem = m.mem })
        | inr t ↦ inr (record {
          node = t.node;
          pointer = t.pointer;
          among = t.among;
          room = t.room;
          taken =
              Taken-Kept a c bs t.node need (t.node, (finish need alignment node b).1) refl t.taken;
        })
      ],
    )
