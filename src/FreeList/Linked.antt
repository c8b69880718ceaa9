-- ===== src/FreeList/Linked.antt =====
-- The ring of free blocks with its head and cursor, under `fl_insert`.
use heapforge.Prelude.{
  ℕ, ◌+◌, ◌≤◌, ◌≡◌, ◌≢◌, ◌⊎◌, inl, inr, refl, sym, ◌∙◌, ap, arith, true, if◌then◌else◌, ◌==◌, List,
  [], ◌∷◌, Bool-cases, ne→==, add_word,
}
use mathlib.Core.Path.{subst}
use native.Mathlib.Decide.{ℕ_discrete}
use heapforge.Prelude.Occurrences.{count, count_ne, count_self}
use heapforge.FreeList.{FreeList, next, set_next, set_prev, insert}
use heapforge.FreeList.Fit.{In}
use heapforge.FreeList.Ring.{
  Segment, IsNode, Apart, spliced, insert-Segment, next-set_next, prev-set_prev, prev-set_next,
  next-set_prev, next-set_next_ne,
}
use heapforge.FreeList.Layout.{Block, Laid, Off, Laid-write}
use heapforge.FreeList.Rotate.{Apart-count}
use heapforge.FreeList.Cycle.{Cycle, HasRing, IsOff, next_In}

-- What `fl_insert` of `u` comes to.
pub record Inserted (a : FreeList) (u : ℕ) (ns : List ℕ) : Type 0 where
  pub all : List ℕ
  pub ring : HasRing (insert a u) all
  pub counts : (z : ℕ) → count z all ≡ count z (u ∷ ns)
  pub laid :
      (before at to : ℕ) (bs : List Block)
      → IsOff at bs ns
      → Off at u bs × Off at (u + 8) bs
      → Laid a.words before at to bs
      → Laid (insert a u).words before at to bs

no_cursor : (c : ℕ) → (c ≡ 0) ⊎ In c [] → (c == 0) ≡ true
unfolding In
no_cursor c (inl e) = rw e refl
no_cursor c (inr i) = elim i [ ]

insert_shape :
    (a : FreeList) (u : ℕ)
    → (a.free_head == 0) ≡ true
    → (a.cursor == 0) ≡ true
    → insert a u
      ≡ record a { words = set_next (set_prev a.words u u) u u; free_head = u; cursor = u }
unfolding insert
insert_shape a u e e' = rw (e, e') refl

insert_first : (a : FreeList) (u : ℕ) → HasRing a [] → IsNode u → u ≢ 0 → Inserted a u []
unfolding Cycle In Segment
insert_first a u r node some_u =
    let words = set_next (set_prev a.words u u) u u in
    let shape : insert a u ≡ record a { words = words; free_head = u; cursor = u } =
      insert_shape a u (rw r.cycle refl) (no_cursor a.cursor r.cursor) in
    let word : add_word u 8 ≡ u + 8 = omega (arith, node) in
    record {
      all = u ∷ [];
      ring = rw shape (record {
        cycle = (
          refl,
          (
            next-set_next (set_prev a.words u u) u u,
            prev-set_next (set_prev a.words u u) u u u node node ∙ prev-set_prev a.words u u,
          ),
        );
        cursor = inr (inl refl);
        nodes = λ z i. elim i [ inl e ↦ rw e (node, some_u) | inr none_more ↦ elim none_more [ ] ];
        once = λ z. elim (Bool-cases (u == z)) [
          | inl e ↦ rw e (omega arith)
          | inr e ↦ rw e (omega arith)
        ];
      });
      counts = λ z. refl;
      laid = λ before at to bs off off_u l. rw shape (
          Laid-write (set_prev a.words u u) before at to u u bs off_u.0 (
            Laid-write a.words before at to (add_word u 8) u bs
              (subst (λ k. Off at k bs) (sym word) off_u.1) l));
    }

insert_cursor :
    (a : FreeList) (u : ℕ) → (insert a u).cursor ≡ (if a.cursor == 0 then u else a.cursor)
unfolding insert
insert_cursor a u = elim (Bool-cases (a.free_head == 0)) [ inl e ↦ rw e refl | inr e ↦ rw e refl ]

insert_words :
    (a : FreeList) (u : ℕ) → a.free_head ≢ 0 → (insert a u).words ≡ spliced a.words a.free_head u
unfolding insert
insert_words a u some_head = rw (ne→== a.free_head 0 some_head) refl

-- The ring has a node already.
module _ (a : FreeList) (u n : ℕ) (ms : List ℕ) (r : HasRing a (n ∷ ms)) (node : IsNode u)
    (some_u : u ≢ 0) (fresh : count u (n ∷ ms) ≡ 0) where
  member_all : (z : ℕ) → In z (u ∷ n ∷ ms) → IsNode z × (z ≢ 0)
  unfolding In
  member_all z (inl e) = rw e (node, some_u)
  member_all z (inr i) = r.nodes z i

  once_all : (z : ℕ) → count z (u ∷ n ∷ ms) ≤ 1
  once_all z = elim (ℕ_discrete z u) [
    | yes e ↦
        subst (λ k. count k (u ∷ n ∷ ms) ≤ 1) (sym e) (omega (arith, count_self u (n ∷ ms), fresh))
    | no ne ↦ omega (arith, count_ne z u (n ∷ ms) ne, r.once z)
  ]

  later : (z : ℕ) → In z (n ∷ ms) → In z (n ∷ u ∷ ms)
  unfolding In
  later z (inl e) = inl e
  later z (inr i) = inr (inr i)

  turn : (z : ℕ) → In z (n ∷ u ∷ ms) → In z (u ∷ n ∷ ms)
  unfolding In
  turn z (inl e) = inr (inl e)
  turn z (inr (inl e)) = inl e
  turn z (inr (inr i)) = inr (inr i)

  head_is : (a.free_head ≡ n) × Segment a.words a.free_head ms a.free_head × (a.free_head ≢ 0)
  unfolding Cycle In
  head_is =
      let (e, s) = r.cycle in
      (e, subst (λ k. Segment a.words k ms k) (sym e) s, λ z. (r.nodes n (inl refl)).1 (sym e ∙ z))

  insert-Laid :
      (before at to : ℕ) (bs : List Block)
      → IsOff at bs (n ∷ ms)
      → Off at u bs × Off at (u + 8) bs
      → Laid a.words before at to bs
      → Laid (insert a u).words before at to bs
  unfolding Cycle In
  insert-Laid before at to bs off off_u l =
      let (e, _, some_head) = head_is in
      let (_, s) = r.cycle in
      let h = a.free_head in
      let node_h : IsNode h = subst (λ k. IsNode k) (sym e) (r.nodes n (inl refl)).0 in
      let h_ne : h ≢ u = λ z.
        absurd
          (omega (arith, fresh, count_self n ms, z, e, ap (λ k. count k (n ∷ ms)) (sym e ∙ z))) in
      let g = next a.words h in
      let among : In g (n ∷ ms) =
        subst (λ k. In (next a.words k) (n ∷ ms)) (sym e) (next_In a.words n n ms s) in
      let w1 = set_next a.words u g in
      let w2 = set_prev w1 u h in
      let reads : next w2 h ≡ g =
        next-set_prev w1 h u h node node_h ∙ next-set_next_ne a.words g u h node node_h h_ne in
      let word : add_word (next w2 h) 8 ≡ g + 8 = omega (arith, reads, (r.nodes g among).0) in
      let word_u : add_word u 8 ≡ u + 8 = omega (arith, node) in
      let off_h : Off at h bs = subst (λ k. Off at k bs) (sym e) (off n (inl refl)).0 in
      subst (λ w. Laid w before at to bs) (sym (insert_words a u some_head))
        (Laid-write (set_prev w2 (next w2 h) u) before at to h u bs off_h (
          Laid-write w2 before at to (add_word (next w2 h) 8) u bs
            (subst (λ k. Off at k bs) (sym word) (off g among).1)
            (Laid-write w1 before at to (add_word u 8) h bs
              (subst (λ k. Off at k bs) (sym word_u) off_u.1)
              (Laid-write a.words before at to u g bs off_u.0 l))))

  insert_more : Inserted a u (n ∷ ms)
  unfolding Cycle In Segment
  insert_more =
      let (e, s, some_head) = head_is in
      let all_nodes : (z : ℕ) → In z (u ∷ a.free_head ∷ ms) → IsNode z =
        subst (λ k. (z : ℕ) → In z (u ∷ k ∷ ms) → IsNode z) (sym e) (λ z i. (member_all z i).0) in
      let apart : Apart (u ∷ a.free_head ∷ ms) =
        subst (λ k. Apart (u ∷ k ∷ ms)) (sym e) (Apart-count (u ∷ n ∷ ms) once_all) in
      let (kept, t) = insert-Segment a u ms some_head s all_nodes apart in
      let seg : Segment (insert a u).words n (u ∷ ms) n =
        subst (λ k. Segment (insert a u).words k (u ∷ ms) k) e t in
      record {
        all = n ∷ u ∷ ms;
        ring = record {
          cycle = (kept ∙ e, seg);
          cursor = elim r.cursor [
            | inl z ↦
                let c : (insert a u).cursor ≡ u = insert_cursor a u ∙ rw z refl in
                inr (subst (λ k. In k (n ∷ u ∷ ms)) (sym c) (inr (inl refl)))
            | inr i ↦
                let c : (insert a u).cursor ≡ a.cursor =
                  insert_cursor a u ∙ rw (ne→== a.cursor 0 (r.nodes a.cursor i).1) refl in
                inr (subst (λ k. In k (n ∷ u ∷ ms)) (sym c) (later a.cursor i))
          ];
          nodes = λ z i. member_all z (turn z i);
          once = λ z. omega (arith, once_all z);
        };
        counts = λ z. omega arith;
        laid = insert-Laid;
      }

-- `fl_insert` of a new node gives the ring with this node in addition, and touches no header of a
-- block.
pub insert-Inserted :
    (a : FreeList) (u : ℕ) (ns : List ℕ)
    → HasRing a ns
    → IsNode u
    → u ≢ 0
    → count u ns ≡ 0
    → Inserted a u ns
insert-Inserted a u [] r node some_u fresh = insert_first a u r node some_u
insert-Inserted a u (n ∷ ms) r node some_u fresh = insert_more a u n ms r node some_u fresh
