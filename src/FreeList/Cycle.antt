-- ===== src/FreeList/Cycle.antt =====
-- The ring of free blocks with its head and cursor, under `fl_unlink`.
use heapforge.Prelude.{
  ℕ, ◌+◌, ◌≤◌, ◌≡◌, ◌≢◌, ◌⊎◌, inl, inr, refl, sym, ◌∙◌, arith, true, false, if◌then◌else◌, ◌==◌,
  List, [], ◌∷◌, Bool-cases, ne→==, ==_refl, add_word,
}
use mathlib.Core.Path.{subst}
use heapforge.Prelude.Occurrences.{count, count_ne}
use heapforge.FreeList.{FreeList, Words, next, prev, set_next, insert, unlink}
use heapforge.FreeList.Fit.{In}
use heapforge.FreeList.Ring.{Segment, IsNode, Apart}
use heapforge.FreeList.Unlink.{bridged, bridged_eq, bridged-Segment, bridged-next_other}
use heapforge.FreeList.Layout.{Block, Laid, Off, Laid-write}
use heapforge.FreeList.Rotate.{From, ring-Before, ring-From, count-In, In_of_count, Apart-count}

-- The links lead round the nodes from the head.
unfoldable pub Cycle : Words → (head : ℕ) → List ℕ → Type 0
Cycle words head [] = head ≡ 0
Cycle words head (n ∷ ms) = (head ≡ n) × Segment words n ms n

-- The allocator's ring has the nodes `ns`, each once, at multiples of 16 and not NULL.
pub record HasRing (a : FreeList) (ns : List ℕ) : Type 0 where
  pub cycle : Cycle a.words a.free_head ns
  pub cursor : (a.cursor ≡ 0) ⊎ In a.cursor ns
  pub nodes : (z : ℕ) → In z ns → IsNode z × (z ≢ 0)
  pub once : (z : ℕ) → count z ns ≤ 1

-- The two words of each node hold no header.
abbrev pub IsOff : (at : ℕ) → List Block → List ℕ → Type 0
IsOff at bs ns = (z : ℕ) → In z ns → Off at z bs × Off at (z + 8) bs

-- What `fl_unlink` and `fl_insert` keep.
pub record Same (a b : FreeList) : Type 0 where
  pub mem : b.mem ≡ a.mem
  pub capacity : b.capacity ≡ a.capacity
  pub policy : b.policy ≡ a.policy
  pub stats : b.stats ≡ a.stats

pub unlink-Same : (a : FreeList) (x : ℕ) → Same a (unlink a x)
unfolding unlink
unlink-Same a x = elim (Bool-cases (next a.words x == x)) [
  | inl e ↦ rw e (record { mem = refl; capacity = refl; policy = refl; stats = refl })
  | inr e ↦ rw e (record { mem = refl; capacity = refl; policy = refl; stats = refl })
]

pub insert-Same : (a : FreeList) (u : ℕ) → Same a (insert a u)
unfolding insert
insert-Same a u = elim (Bool-cases (a.free_head == 0)) [
  | inl e ↦ rw e (record { mem = refl; capacity = refl; policy = refl; stats = refl })
  | inr e ↦ rw e (record { mem = refl; capacity = refl; policy = refl; stats = refl })
]

-- What `fl_unlink` of `x` comes to.
pub record Unlinked (a : FreeList) (x : ℕ) (ns : List ℕ) : Type 0 where
  pub left : List ℕ
  pub ring : HasRing (unlink a x) left
  pub counts : (z : ℕ) → count z ns ≡ count z (x ∷ left)
  pub laid :
      (before at to : ℕ) (bs : List Block)
      → IsOff at bs ns
      → Laid a.words before at to bs
      → Laid (unlink a x).words before at to bs

pub In_same : (z : ℕ) (ns ms : List ℕ) → ((k : ℕ) → count k ms ≡ count k ns) → In z ms → In z ns
In_same z ns ms same i = In_of_count z ns (let own = count-In z ms i in omega (arith, own, same z))

pub count-cons : (z x : ℕ) (ns : List ℕ) → count z ns ≤ count z (x ∷ ns)
count-cons z x ns = elim (Bool-cases (x == z)) [
  | inl e ↦ rw e (omega arith)
  | inr e ↦ rw e (omega arith)
]

-- The only node.
unlink_only :
    (a : FreeList) (x : ℕ) → next a.words x ≡ x → HasRing a (x ∷ []) → Unlinked a x (x ∷ [])
unfolding unlink Cycle In
unlink_only a x own r =
    let here : (next a.words x == x) ≡ true = rw own (==_refl x) in
    record {
      left = [];
      ring = rw here (record {
        cycle = refl;
        cursor = inl refl;
        nodes = λ z i. elim i [ ];
        once = λ z. omega arith;
      });
      counts = λ z. refl;
      laid = λ before at to bs off l. rw here l;
    }

alone_next : (words : Words) (n : ℕ) → Segment words n [] n → next words n ≡ n
unfolding Segment
alone_next words n (e, _) = e

pub next_In :
    (words : Words) (n y : ℕ) (ms : List ℕ) → Segment words n ms y → In (next words n) (y ∷ ms)
unfolding Segment In
next_In words n y [] (e, _) = inl e
next_In words n y (m ∷ ms) (e, _, _) = inr (inl e)

pub head_In :
    (words : Words) (head x : ℕ) (ns : List ℕ) → Cycle words head ns → In x ns → In head ns
unfolding Cycle In
head_In words head x [] c i = elim i [ ]
head_In words head x (n ∷ ms) (e, _) i = inl e

follower_of :
    (words : Words) (p x : ℕ) (rest : List ℕ)
    → Segment words p (x ∷ rest) p
    → (f : ℕ) × (next words x ≡ f) × (prev words x ≡ p) × In f (p ∷ rest)
unfolding Segment In
follower_of words p x [] (n, b, (n', b')) = (p, n', b, inl refl)
follower_of words p x (m ∷ ms) (n, b, (n', b', s)) = (m, n', b, inr (inl refl))

-- The node that follows `x`, and the one before, are others of the ring.
module _ (a : FreeList) (p x : ℕ) (rest ns : List ℕ) (r : HasRing a ns)
    (s : Segment a.words p (x ∷ rest) p)
    (same : (z : ℕ) → count z (p ∷ x ∷ rest) ≡ count z ns) where
  swap : (z : ℕ) → count z (x ∷ p ∷ rest) ≡ count z ns
  swap z = omega (arith, same z)

  member : (z : ℕ) → In z (x ∷ p ∷ rest) → IsNode z × (z ≢ 0)
  member z i = r.nodes z (In_same z ns (x ∷ p ∷ rest) swap i)

  apart : Apart (x ∷ p ∷ rest)
  apart = Apart-count (x ∷ p ∷ rest) (λ z. omega (arith, swap z, r.once z))

  x_among : In x (x ∷ p ∷ rest)
  unfolding In
  x_among = inl refl

  p_among : In p (x ∷ p ∷ rest)
  unfolding In
  p_among = inr (inl refl)

  p_ne : p ≢ x
  unfolding Apart In
  p_ne = let (away, _) = apart in away p (inl refl)

  follower : (f : ℕ) × (next a.words x ≡ f) × (prev a.words x ≡ p) × In f (p ∷ rest)
  follower = follower_of a.words p x rest s

  -- The links after the node is gone.
  kept_next : next (bridged a.words x) x ≡ next a.words x
  unfolding In
  kept_next =
      let (f, forth, back, i) = follower in
      let node_f = (member f (inr i)).0 in
      let node_x = (member x x_among).0 in
      let node_p = (member p p_among).0 in
      bridged-next_other a.words p x f node_p node_x node_f p_ne forth back x node_x
        (λ e. p_ne (sym e))

  -- What comes in the place of a node of the ring.
  moved : ℕ → ℕ
  moved h = if h == x then next (bridged a.words x) x else h

  moved-In : (h : ℕ) → In h ns → In (moved h) (p ∷ rest)
  unfolding moved
  moved-In h i = elim (Bool-cases (h == x)) [
    | inl e ↦
        let (f, forth, back, among) = follower in
        rw e (subst (λ k. In k (p ∷ rest)) (sym (kept_next ∙ forth)) among)
    | inr e ↦
        let h_ne : h ≢ x = λ same_x. ground (arith, e, same_x) in
        let own = count-In h ns i in
        rw e (In_of_count h (p ∷ rest) (omega (arith, own, swap h, count_ne h x (p ∷ rest) h_ne)))
  ]

  turned : (h : ℕ) → In h ns → From (bridged a.words x) (moved h) (p ∷ rest)
  turned h i =
      let seg = bridged-Segment a.words p x rest s (λ z i. (member z i).0) apart in
      ring-From (bridged a.words x) p (moved h) rest seg (moved-In h i)

  not_own : (next a.words x == x) ≡ false
  unfolding Apart
  not_own =
      let (f, forth, back, among) = follower in
      let (away, _) = apart in rw forth (ne→== f x (away f among))

  head_among : In a.free_head ns
  head_among = head_In a.words a.free_head x ns r.cycle (In_same x ns (x ∷ p ∷ rest) swap x_among)

  bridged-Laid :
      (before at to : ℕ) (bs : List Block)
      → IsOff at bs ns
      → Laid a.words before at to bs
      → Laid (bridged a.words x) before at to bs
  unfolding In
  bridged-Laid before at to bs off l =
      let (f, forth, back, among) = follower in
      let node_f = (member f (inr among)).0 in
      let node_x = (member x x_among).0 in
      let node_p = (member p p_among).0 in
      let off_p = off p (In_same p ns (x ∷ p ∷ rest) swap p_among) in
      let off_f = off f (In_same f ns (x ∷ p ∷ rest) swap (inr among)) in
      let word : add_word f 8 ≡ f + 8 = omega (arith, node_f) in
      subst (λ w. Laid w before at to bs)
        (sym (bridged_eq a.words p x f node_p node_x node_f p_ne forth back))
        (Laid-write (set_next a.words p f) before at to (add_word f 8) p bs
          (subst (λ k. Off at k bs) (sym word) off_f.1)
          (Laid-write a.words before at to p f bs off_p.0 l))

  unlink_more : Unlinked a x ns
  unfolding unlink moved Cycle
  unlink_more =
      let t = turned a.free_head head_among in
      let left = moved a.free_head ∷ t.rest in
      let counts : (z : ℕ) → count z ns ≡ count z (x ∷ left) =
        λ z. omega (arith, swap z, t.same z) in
      let own : (z : ℕ) → In z left → In z ns = λ z i.
        In_of_count z ns
          (let c = count-In z left i in omega (arith, c, counts z, count-cons z x left)) in
      let cursor' : (moved a.cursor ≡ 0) ⊎ In (moved a.cursor) left = elim r.cursor [
        | inl z ↦ inl (rw (z, ne→== 0 x (λ e. (member x x_among).1 (sym e))) refl)
        | inr i ↦
            let c = count-In (moved a.cursor) (p ∷ rest) (moved-In a.cursor i) in
            inr (In_of_count (moved a.cursor) left (omega (arith, c, t.same (moved a.cursor))))
      ] in
      record {
        left = left;
        ring = rw not_own (record {
          cycle = (refl, t.ring);
          cursor = cursor';
          nodes = λ z i. r.nodes z (own z i);
          once = λ z. omega (arith, r.once z, counts z, count-cons z x left);
        });
        counts = counts;
        laid = λ before at to bs off l. rw not_own (bridged-Laid before at to bs off l);
      }

-- `fl_unlink` of a node of the ring leaves the ring of the others, with the head and the cursor among
-- them, and touches no header of a block.
pub unlink-Unlinked :
    (a : FreeList) (x : ℕ) (ns : List ℕ) → HasRing a ns → In x ns → Unlinked a x ns
unfolding Cycle In
unlink-Unlinked a x [] r i = elim i [ ]
unlink-Unlinked a x (n ∷ []) r (inr i) = elim i [ ]
unlink-Unlinked a x (n ∷ []) r (inl e) =
    let own : next a.words n ≡ n = alone_next a.words n r.cycle.1 in
    subst (λ k. Unlinked a x (k ∷ [])) e
      (unlink_only a x (rw e own) (subst (λ k. HasRing a (k ∷ [])) (sym e) r))
unlink-Unlinked a x (n ∷ m ∷ ms) r i =
    let b = ring-Before a.words n x m ms r.cycle.1 i in
    unlink_more a b.first x b.rest (n ∷ m ∷ ms) r b.ring b.same
