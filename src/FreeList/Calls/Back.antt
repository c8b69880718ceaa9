-- ===== src/FreeList/Calls/Back.antt =====
-- `join_prev`, the step of `fl_deallocate` that joins the previous block.
use heapforge.Prelude.{
  ℕ, ◌+◌, ◌≡◌, inl, inr, refl, sym, ◌∙◌, arith, Bool, true, false, List, [], ◌∷◌, ◌++◌, ne→==,
}
use mathlib.Core.Path.{subst}
use mathlib.Core.List.{append_assoc, append-nil}
use heapforge.Prelude.Occurrences.{count_self, count_ne}
use heapforge.FreeList.{FreeList, prev_phys}
use heapforge.FreeList.Fit.{In}
use heapforge.FreeList.Layout.{Block}
use heapforge.FreeList.Nodes.{free_nodes, end_of, count-free_nodes}
use heapforge.FreeList.Rotate.{In_of_count}
use heapforge.FreeList.Split.{block}
use heapforge.FreeList.Held.{IsHeld}
use heapforge.FreeList.Calls.{join_prev}
use heapforge.FreeList.Calls.Absorb.{absorb-IsHeld, absorb-same}
use heapforge.FreeList.Calls.Give.{
  used_blocks, around, used_blocks-append, snoc_cases, end_of-snoc, last_of-snoc,
}

-- What joining with the previous block comes to.
pub record JoinedPrev (a : FreeList) (r : ℕ × FreeList) (pre post : List Block) (s : ℕ)
    : Type 0 where
  pub front : List Block
  pub size : ℕ
  pub ring : List ℕ
  pub begins : r.0 ≡ end_of a.mem front
  pub held : IsHeld r.1 (front ++ block size false ∷ post) ring ((end_of a.mem front + 16) ∷ [])
  pub mem : r.1.mem ≡ a.mem
  pub ends : end_of a.mem front + size ≡ end_of a.mem pre + s
  pub same_used : used_blocks a.mem front ≡ used_blocks a.mem pre

prev_block :
    (a : FreeList) (front post : List Block) (s0 s : ℕ) (u : Bool) (ns : List ℕ)
    → IsHeld a (front ++ block s0 u ∷ block s false ∷ post) ns ((end_of a.mem front + s0 + 16) ∷ [])
    → prev_phys a.words (end_of a.mem front + s0) ≡ end_of a.mem front
    → JoinedPrev a (join_prev a (end_of a.mem front + s0)) (front ++ (block s0 u ∷ [])) post s
unfolding join_prev
prev_block a front post s0 s true ns v previous =
    let h = end_of a.mem front in
    let r = around a front (block s false ∷ post) s0 true v.located v.laid in
    let (_, some_mem, _) = v.located in
    let some_prev = ne→== h 0 (λ z. omega (arith, z, some_mem, r.above)) in
    let ends = end_of-snoc a.mem s0 true front in
    rw (previous, some_prev, r.used)
      (record {
        front = front ++ (block s0 true ∷ []);
        size = s;
        ring = ns;
        begins = sym ends;
        held =
            subst
              (λ k.
                IsHeld a ((front ++ (block s0 true ∷ [])) ++ block s false ∷ post) ns
                  ((k + 16) ∷ []))
              (sym ends)
              (subst (λ l. IsHeld a l ns ((h + s0 + 16) ∷ []))
                (sym (append_assoc front (block s0 true ∷ []) (block s false ∷ post))) v);
        mem = refl;
        ends = refl;
        same_used = refl;
      })
prev_block a front post s0 s false ns v previous =
    let h = end_of a.mem front in
    let r = around a front (block s false ∷ post) s0 false v.located v.laid in
    let (_, some_mem, fits) = v.located in
    let some_prev = ne→== h 0 (λ z. omega (arith, z, some_mem, r.above)) in
    let x = h + 16 in
    let among : In x ns = In_of_count x ns (
      omega (
        arith,
        v.counts x,
        count-free_nodes x a.mem front (block s0 false ∷ block s false ∷ post),
        count_self x (free_nodes (h + s0) (block s false ∷ post)),
        count_ne x (h + s0 + 16) [] (λ z. omega (arith, z, r.big)),
      )) in
    let (left, held) =
      absorb-IsHeld a s0 s x (h + s0 + 16) h front post ns v among (omega (arith, r.ends, fits))
        (λ z. omega arith) in
    rw (previous, some_prev, r.used)
      (record {
        front = front;
        size = s0 + s;
        ring = left;
        begins = refl;
        held = held;
        mem = (absorb-same a h h (h + s0)).0;
        ends = omega (arith, end_of-snoc a.mem s0 false front);
        same_used = sym (
            used_blocks-append a.mem front (block s0 false ∷ [])
            ∙ append-nil (used_blocks a.mem front));
      })

prev_none :
    (a : FreeList) (post : List Block) (s : ℕ) (ns : List ℕ)
    → IsHeld a (block s false ∷ post) ns ((a.mem + 16) ∷ [])
    → JoinedPrev a (join_prev a a.mem) [] post s
unfolding join_prev
prev_none a post s ns v =
    let r = around a [] post s false v.located v.laid in
    rw r.previous (record {
      front = [];
      size = s;
      ring = ns;
      begins = refl;
      held = v;
      mem = refl;
      ends = refl;
      same_used = refl;
    })

prev_some :
    (a : FreeList) (front post : List Block) (s0 s : ℕ) (u : Bool) (ns : List ℕ)
    → let pre = front ++ (block s0 u ∷ []) in
      IsHeld a (pre ++ block s false ∷ post) ns ((end_of a.mem pre + 16) ∷ [])
      → JoinedPrev a (join_prev a (end_of a.mem pre)) pre post s
prev_some a front post s0 s u ns v =
    let pre = front ++ (block s0 u ∷ []) in
    let ends = end_of-snoc a.mem s0 u front in
    let r = around a pre post s false v.located v.laid in
    let previous : prev_phys a.words (end_of a.mem front + s0) ≡ end_of a.mem front =
      subst (λ k. prev_phys a.words k ≡ end_of a.mem front) ends
        (r.previous ∙ last_of-snoc 0 a.mem s0 u front) in
    let v' : IsHeld a (front ++ block s0 u ∷ block s false ∷ post) ns
        ((end_of a.mem front + s0 + 16) ∷ []) =
      subst (λ l. IsHeld a l ns ((end_of a.mem front + s0 + 16) ∷ []))
        (append_assoc front (block s0 u ∷ []) (block s false ∷ post))
        (subst (λ k. IsHeld a (pre ++ block s false ∷ post) ns ((k + 16) ∷ [])) ends v) in
    subst (λ k. JoinedPrev a (join_prev a k) pre post s) (sym ends)
      (prev_block a front post s0 s u ns v' previous)

pub join_prev-Joined :
    (a : FreeList) (pre post : List Block) (s : ℕ) (ns : List ℕ)
    → IsHeld a (pre ++ block s false ∷ post) ns ((end_of a.mem pre + 16) ∷ [])
    → JoinedPrev a (join_prev a (end_of a.mem pre)) pre post s
join_prev-Joined a pre post s ns v =
    let P : List Block → Type 0 = λ p.
      IsHeld a (p ++ block s false ∷ post) ns ((end_of a.mem p + 16) ∷ [])
      → JoinedPrev a (join_prev a (end_of a.mem p)) p post s in
    elim (snoc_cases pre) [
      | inl e ↦ subst P (sym e) (λ w. prev_none a post s ns w) v
      | inr (front, s0, u, e) ↦ subst P (sym e) (λ w. prev_some a front post s0 s u ns w) v
    ]
