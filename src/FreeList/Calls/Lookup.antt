-- ===== src/FreeList/Calls/Lookup.antt =====
-- `find_fit` under the allocator's invariant: the ring goes round from where the search begins.
use heapforge.Prelude.{
  ℕ, ◌+◌, ◌-◌, ◌^◌, ◌≤◌, ◌<◌, ◌≡◌, ◌≢◌, ◌⊎◌, inl, inr, refl, sym, ◌∙◌, ap, arith, ◌==◌, false, List,
  [], ◌∷◌, length, Bool-cases,
}
use mathlib.Core.Path.{subst}
use native.Mathlib.Decide.{ℕ_discrete}
use heapforge.Prelude.Occurrences.{count, count_ne, count_self}
use heapforge.FreeList.{FreeList, Words, next, hdr_size, header_of}
use heapforge.FreeList.Fit.{Run, In, size_of}
use heapforge.FreeList.Ring.{Segment}
use heapforge.FreeList.Choose.{start_of, IsRing, Policy-cases}
use heapforge.FreeList.Layout.{Block, Laid}
use heapforge.FreeList.Nodes.{free_nodes, end_of}
use heapforge.FreeList.Rotate.{count-In, In_of_count, ring-From}
use heapforge.FreeList.Cycle.{Cycle, next_In}
use heapforge.FreeList.Held.{IsHeld}
use heapforge.FreeList.Calls.Give.{around}
use heapforge.FreeList.Calls.Take.{find-FreeBlock}

record Removed (n : ℕ) (ms : List ℕ) : Type 0 where
  left : List ℕ
  shorter : length ms ≡ 1 + length left
  counts : (z : ℕ) → count z ms ≡ count z (n ∷ left)

remove : (n : ℕ) (ms : List ℕ) → 1 ≤ count n ms → Removed n ms
remove n [] among = absurd (omega arith)
remove n (m ∷ ms) among = elim (ℕ_discrete n m) [
  | yes e ↦ record {
    left = ms;
    shorter = omega arith;
    counts = λ z. ap (λ k. count z (k ∷ ms)) (sym e);
  }
  | no ne ↦
      let r = remove n ms (omega (arith, among, count_ne n m ms ne)) in
      record {
        left = m ∷ r.left;
        shorter = omega (arith, r.shorter);
        counts = λ z. omega (arith, r.counts z);
      }
]

-- A list that has each number no more often than another is no longer.
length_le : (ns ms : List ℕ) → ((z : ℕ) → count z ns ≤ count z ms) → length ns ≤ length ms
length_le [] ms less = omega arith
length_le (n ∷ ns) ms less =
    let r = remove n ms (omega (arith, less n, count_self n ns)) in
    omega (arith, r.shorter, length_le ns r.left (λ z. omega (arith, less z, r.counts z)))

length-free_nodes :
    (words : Words) (before at to : ℕ) (bs : List Block)
    → Laid words before at to bs
    → at + length (free_nodes at bs) ≤ to
unfolding Laid
length-free_nodes words before at to [] l = omega (arith, l)
length-free_nodes words before at to (b ∷ bs) (_, _, big, _, l) =
    let rest = length-free_nodes words at (at + b.size) to bs l in
    elim (Bool-cases b.is_used) [
      | inl e ↦ rw e (omega (arith, rest, big))
      | inr e ↦ rw e (omega (arith, rest, big))
    ]

Segment-Run :
    (words : Words) (start n : ℕ) (ms : List ℕ)
    → Segment words n ms start
    → ((z : ℕ) → In z ms → z ≢ start)
    → Run words start n ms
unfolding Segment Run In
Segment-Run words start n [] (e, _) others = e
Segment-Run words start n (m ∷ ms) (e, _, s) others =
    (e, others m (inl refl), Segment-Run words start m ms s (λ z i. others z (inr i)))

-- The ring from where the search begins.
pub record Start (a : FreeList) (ns : List ℕ) : Type 0 where
  pub first : ℕ
  pub rest : List ℕ
  pub ring : IsRing a first rest
  pub same : (z : ℕ) → count z (first ∷ rest) ≡ count z ns

start_In :
    (a : FreeList) (ns : List ℕ)
    → In a.free_head ns
    → (a.cursor ≡ 0) ⊎ In a.cursor ns
    → In (start_of a) ns
start_In a ns head cursor = elim (Policy-cases a.policy) [
  | inl p ↦ rw p head
  | inr (inl p) ↦ rw p head
  | inr (inr p) ↦ rw p (elim (Bool-cases (a.cursor == 0)) [
    | inl z ↦ rw z head
    | inr nz ↦ rw nz (elim cursor [ inl z ↦ absurd (ground (arith, nz, z)) | inr i ↦ i ])
  ])
]

-- The free blocks are smaller than the address space.
size_lem :
    (a : FreeList) (bs : List Block) (ns : List ℕ) (x : ℕ)
    → IsHeld a bs ns []
    → In x ns
    → size_of a.words x < 2 ^ 64 - 1
size_lem a bs ns x v i =
    let own = count-In x ns i in
    let f = find-FreeBlock a.mem x bs (omega (arith, own, v.counts x)) in
    let laid = subst (λ l. Laid a.words 0 a.mem (a.mem + a.capacity) l) f.split v.laid in
    let r = around a f.pre f.post f.size false v.located laid in
    let (_, some_mem, fits) = v.located in
    let back : header_of x ≡ end_of a.mem f.pre = omega (arith, f.here, r.ends, fits) in
    let size : hdr_size a.words (header_of x) ≡ f.size =
      ap (λ k. hdr_size a.words k) back ∙ r.size in
    omega (arith, size, r.ends, fits)

pub start_lem :
    (a : FreeList) (bs : List Block) (ns : List ℕ)
    → IsHeld a bs ns []
    → a.free_head ≢ 0
    → Start a ns
unfolding Cycle In
start_lem a bs [] v some_free = absurd (some_free v.ring.cycle)
start_lem a bs (n ∷ ms) v some_free =
    let (e, s) = v.ring.cycle in
    let i = start_In a (n ∷ ms) (inl e) v.ring.cursor in
    let f = ring-From a.words n (start_of a) ms s i in
    let member : (x : ℕ) → In x (start_of a ∷ f.rest) → In x (n ∷ ms) = λ x j.
      In_of_count x (n ∷ ms)
        (let own = count-In x (start_of a ∷ f.rest) j in omega (arith, own, f.same x)) in
    let others : (z : ℕ) → In z f.rest → z ≢ start_of a = λ z j h.
      let again = count-In (start_of a) f.rest (subst (λ k. In k f.rest) h j) in
      omega (
        arith,
        again,
        f.same (start_of a),
        v.ring.once (start_of a),
        count_self (start_of a) f.rest,
      ) in
    let all =
      length_le (start_of a ∷ f.rest) (free_nodes a.mem bs)
        (λ z. omega (arith, f.same z, v.counts z)) in
    record {
      first = start_of a;
      rest = f.rest;
      ring = record {
        begins = refl;
        run = Segment-Run a.words (start_of a) (start_of a) f.rest f.ring others;
        short =
            omega (arith, all, length-free_nodes a.words 0 a.mem (a.mem + a.capacity) bs v.laid);
        nodes = λ x j. (v.ring.nodes x (member x j)).1;
        sizes = λ x j. size_lem a bs (n ∷ ms) x v (member x j);
        some_free = some_free;
      };
      same = f.same;
    }

-- What `find_fit` leaves as it was.
pub record Kept (a b : FreeList) (bs : List Block) (ns : List ℕ) : Type 0 where
  pub held : IsHeld b bs ns []
  pub mem : b.mem ≡ a.mem
  pub words : b.words ≡ a.words
  pub stats : b.stats ≡ a.stats

pub same_Kept : (a : FreeList) (bs : List Block) (ns : List ℕ) → IsHeld a bs ns [] → Kept a a bs ns
same_Kept a bs ns v = record { held = v; mem = refl; words = refl; stats = refl }

pub next_Kept :
    (a : FreeList) (bs : List Block) (ns : List ℕ) (x : ℕ)
    → IsHeld a bs ns []
    → In (next a.words x) ns
    → Kept a (record a { cursor = next a.words x }) bs ns
next_Kept a bs ns x v i = record {
  held = record {
    located = v.located;
    laid = v.laid;
    ring = record {
      cycle = v.ring.cycle;
      cursor = inr i;
      nodes = v.ring.nodes;
      once = v.ring.once;
    };
    counts = v.counts;
  };
  mem = refl;
  words = refl;
  stats = refl;
}

-- The links lead to nodes of the ring.
pub follow_In :
    (words : Words) (head x : ℕ) (ns : List ℕ)
    → Cycle words head ns
    → In x ns
    → In (next words x) ns
unfolding Cycle In
follow_In words head x [] c i = elim i [ ]
follow_In words head x (n ∷ ms) (_, s) i =
    let f = ring-From words n x ms s i in
    let own = count-In (next words x) (x ∷ f.rest) (next_In words x x f.rest f.ring) in
    In_of_count (next words x) (n ∷ ms) (omega (arith, own, f.same (next words x)))
