-- ===== src/FreeList/Calls/Give.antt =====
-- The blocks in use, and `join_next`, the step of `fl_deallocate` that joins the next block.
use heapforge.Prelude.{
  ℕ, ◌+◌, ◌%◌, ◌≤◌, ◌≡◌, ◌⊎◌, inl, inr, refl, ◌∙◌, ap, arith, Bool, true, false, if◌then◌else◌,
  ◌==◌, List, [], ◌∷◌, ◌++◌, ne→==, Bool-cases, add_word, ltb, lt→ltb, ge→ltb,
}
use heapforge.Prelude.Occurrences.{count_self, count_ne}
use heapforge.FreeList.{FreeList, hdr_size, hdr_used, next_phys, prev_phys}
use heapforge.FreeList.Fit.{In}
use heapforge.FreeList.Layout.{Block, Laid, Laid-le, hdr_lem}
use heapforge.FreeList.Nodes.{free_nodes, end_of, last_of, Laid-append, count-free_nodes}
use heapforge.FreeList.Rotate.{In_of_count}
use heapforge.FreeList.Tags.{next_phys_lem}
use heapforge.FreeList.Split.{block}
use heapforge.FreeList.Held.{IsHeld, IsLocated}
use heapforge.FreeList.Calls.{join_next}
use heapforge.FreeList.Calls.Absorb.{absorb-IsHeld, end_of_le, absorb-same}

-- The blocks in use, each with its address and its size.
abbrev pub used_blocks : (at : ℕ) → List Block → List (ℕ × ℕ)
used_blocks at [] = []
used_blocks at (b ∷ bs) =
    let rest = used_blocks (at + b.size) bs in if b.is_used then (at, b.size) ∷ rest else rest

-- The block at `h`, and what is around it.
pub record Around (a : FreeList) (pre post : List Block) (s : ℕ) (u : Bool) : Type 0 where
  pub size : hdr_size a.words (end_of a.mem pre) ≡ s
  pub used : hdr_used a.words (end_of a.mem pre) ≡ u
  pub previous : prev_phys a.words (end_of a.mem pre) ≡ last_of 0 a.mem pre
  pub following :
      next_phys a (end_of a.mem pre)
      ≡ (if ltb (end_of a.mem pre + s) (a.mem + a.capacity) then end_of a.mem pre + s else 0)
  pub big : 32 ≤ s
  pub round : s % 16 ≡ 0
  pub ends : end_of a.mem pre + s ≤ a.mem + a.capacity
  pub above : a.mem ≤ end_of a.mem pre
  pub rest : Laid a.words (end_of a.mem pre) (end_of a.mem pre + s) (a.mem + a.capacity) post

pub around :
    (a : FreeList) (pre post : List Block) (s : ℕ) (u : Bool)
    → IsLocated a
    → Laid a.words 0 a.mem (a.mem + a.capacity) (pre ++ block s u ∷ post)
    → Around a pre post s u
unfolding Laid
around a pre post s u (aligned, some_mem, fits) l =
    let h = end_of a.mem pre in
    let (_, (e, e', big, round, l2)) = Laid-append a.words 0 a.mem (a.mem + a.capacity) pre _ l in
    let ends = Laid-le a.words h (h + s) (a.mem + a.capacity) post l2 in
    let le : h + s ≤ a.mem + a.capacity = omega (arith, ends) in
    let even : s % 2 ≡ 0 = omega (arith, round) in
    let (size, used) = hdr_lem a.words h s u e even (omega (arith, le, fits)) in
    let word : add_word h 8 ≡ h + 8 = omega (arith, le, fits) in
    record {
      size = size;
      used = used;
      previous = rw word e';
      following = next_phys_lem a h s u e even (omega (arith, le, fits)) (omega (arith, fits));
      big = big;
      round = round;
      ends = le;
      above = end_of_le a.mem pre;
      rest = l2;
    }

-- What joining with the next block comes to.
pub record JoinedNext (a b : FreeList) (pre post : List Block) (s : ℕ) : Type 0 where
  pub size : ℕ
  pub after : List Block
  pub ring : List ℕ
  pub held : IsHeld b (pre ++ block size false ∷ after) ring ((end_of a.mem pre + 16) ∷ [])
  pub mem : b.mem ≡ a.mem
  pub same_used :
      used_blocks (end_of a.mem pre + size) after ≡ used_blocks (end_of a.mem pre + s) post

-- What the call reads of the next block.
module _ (a : FreeList) (pre post : List Block) (s s' : ℕ) (u : Bool) (ns : List ℕ)
    (v : IsHeld a
      (pre ++ block s false ∷ block s' u ∷ post)
      ns
      ((end_of a.mem pre + 16) ∷ [])) where
  next_read :
      (next_phys a (end_of a.mem pre) ≡ end_of a.mem pre + s)
      × ((end_of a.mem pre + s == 0) ≡ false)
      × (hdr_used a.words (end_of a.mem pre + s) ≡ u)
      × (end_of a.mem pre + s + s' ≤ a.mem + a.capacity)
      × (32 ≤ s)
  unfolding Laid
  next_read =
      let h = end_of a.mem pre in
      let r = around a pre (block s' u ∷ post) s false v.located v.laid in
      let (e, _, big, round, l2) = r.rest in
      let ends = Laid-le a.words (h + s) (h + s + s') (a.mem + a.capacity) post l2 in
      let (_, some_mem, fits) = v.located in
      let here = lt→ltb (h + s) (a.mem + a.capacity) (omega (arith, ends, big)) in
      let (_, in_use) =
        hdr_lem a.words (h + s) s' u e (omega (arith, round)) (omega (arith, ends, fits)) in
      (
        r.following ∙ rw here refl,
        ne→== (h + s) 0 (λ z. omega (arith, z, r.big)),
        in_use,
        omega (arith, ends),
        r.big,
      )

next_block :
    (a : FreeList) (pre post : List Block) (s s' : ℕ) (u : Bool) (ns : List ℕ)
    → IsHeld a (pre ++ block s false ∷ block s' u ∷ post) ns ((end_of a.mem pre + 16) ∷ [])
    → JoinedNext a (join_next a (end_of a.mem pre)) pre (block s' u ∷ post) s
unfolding join_next
next_block a pre post s s' true ns v =
    let (following, some_next, in_use, _, _) = next_read a pre post s s' true ns v in
    rw (following, some_next, in_use)
      (record {
        size = s;
        after = block s' true ∷ post;
        ring = ns;
        held = v;
        mem = refl;
        same_used = refl;
      })
next_block a pre post s s' false ns v =
    let h = end_of a.mem pre in
    let (following, some_next, in_use, ends, big) = next_read a pre post s s' false ns v in
    let (_, _, fits) = v.located in
    let x = h + s + 16 in
    let among : In x ns = In_of_count x ns (
      omega (
        arith,
        v.counts x,
        count-free_nodes x a.mem pre (block s false ∷ block s' false ∷ post),
        count_self x (free_nodes (h + s + s') post),
        count_ne x (h + 16) [] (λ z. omega (arith, z, big)),
      )) in
    let (left, held) =
      absorb-IsHeld a s s' x (h + 16) (h + s) pre post ns v among (omega (arith, ends, fits))
        (λ z. refl) in
    let word : h + (s + s') ≡ h + s + s' = omega arith in
    rw (following, some_next, in_use)
      (record {
        size = s + s';
        after = post;
        ring = left;
        held = held;
        mem = (absorb-same a (h + s) h (h + s)).0;
        same_used = ap (λ k. used_blocks k post) word;
      })

pub join_next-Joined :
    (a : FreeList) (pre post : List Block) (s : ℕ) (ns : List ℕ)
    → IsHeld a (pre ++ block s false ∷ post) ns ((end_of a.mem pre + 16) ∷ [])
    → JoinedNext a (join_next a (end_of a.mem pre)) pre post s
unfolding join_next Laid
join_next-Joined a pre [] s ns v =
    let r = around a pre [] s false v.located v.laid in
    let over : ltb (end_of a.mem pre + s) (a.mem + a.capacity) ≡ false =
      ge→ltb _ _ (omega (arith, r.rest)) in
    rw (r.following, over)
      (record { size = s; after = []; ring = ns; held = v; mem = refl; same_used = refl })
join_next-Joined a pre (b ∷ post) s ns v = next_block a pre post s b.size b.is_used ns v

-- The last block of a list.
pub snoc_cases :
    (pre : List Block)
    → (pre ≡ []) ⊎ ((front : List Block) × (s : ℕ) × (u : Bool) × (pre ≡ front ++ (block s u ∷ [])))
snoc_cases [] = inl refl
snoc_cases (b ∷ pre) = elim (snoc_cases pre) [
  | inl e ↦ inr ([], b.size, b.is_used, ap (λ l. b ∷ l) e)
  | inr (front, s, u, e) ↦ inr (b ∷ front, s, u, ap (λ l. b ∷ l) e)
]

pub end_of-snoc :
    (at s : ℕ) (u : Bool) (front : List Block)
    → end_of at (front ++ (block s u ∷ [])) ≡ end_of at front + s
end_of-snoc at s u [] = refl
end_of-snoc at s u (b ∷ front) = end_of-snoc (at + b.size) s u front

pub last_of-snoc :
    (before at s : ℕ) (u : Bool) (front : List Block)
    → last_of before at (front ++ (block s u ∷ [])) ≡ end_of at front
last_of-snoc before at s u [] = refl
last_of-snoc before at s u (b ∷ front) = last_of-snoc at (at + b.size) s u front

pub used_blocks-append :
    (at : ℕ) (bs cs : List Block)
    → used_blocks at (bs ++ cs) ≡ used_blocks at bs ++ used_blocks (end_of at bs) cs
used_blocks-append at [] cs = refl
used_blocks-append at (b ∷ bs) cs = elim (Bool-cases b.is_used) [
  | inl e ↦ simp e (ap (λ l. (at, b.size) ∷ l) (used_blocks-append (at + b.size) bs cs))
  | inr e ↦ simp e (used_blocks-append (at + b.size) bs cs)
]
