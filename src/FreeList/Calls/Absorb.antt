-- ===== src/FreeList/Calls/Absorb.antt =====
-- How `fl_deallocate` joins two free blocks.
use heapforge.Prelude.{
  ℕ, ◌+◌, ◌%◌, ◌^◌, ◌≤◌, ◌<◌, ◌≡◌, ◌⊎◌, inl, inr, refl, sym, ◌∙◌, ap, arith, Bool, true, false,
  if◌then◌else◌, ◌==◌, List, [], ◌∷◌, ◌++◌, ne→==, ==_refl, Bool-cases, add_word, ltb, ge→ltb,
}
use mathlib.Core.Path.{subst}
use heapforge.Prelude.Occurrences.{count}
use heapforge.FreeList.{
  FreeList, Words, write, hdr_size, hdr_set, payload_node, next_phys, set_prev_phys, unlink,
}
use heapforge.FreeList.Fit.{In}
use heapforge.FreeList.Layout.{Block, flag, Laid, Laid-le, Off, hdr_lem}
use heapforge.FreeList.Nodes.{free_nodes, end_of, Laid-append, count-free_nodes}
use heapforge.FreeList.Tags.{fixed, fixed-out, hdr_set_lem, next_phys_lem, set_prev-fixed}
use heapforge.FreeList.Split.{block, join_words, join-Laid}
use heapforge.FreeList.Held.{IsHeld, placed, HasRing-words, unlink-IsHeld}
use heapforge.FreeList.Cycle.{unlink-Same}
use heapforge.FreeList.Calls.{absorb}

pub Off-append :
    (from p : ℕ) (pre bs : List Block) → Off from p (pre ++ bs) → Off (end_of from pre) p bs
unfolding Off
Off-append from p [] bs off = off
Off-append from p (b ∷ pre) bs (_, _, off) = Off-append (from + b.size) p pre bs off

pub fixed-Off :
    (words words' : Words) (before at to v p : ℕ) (bs : List Block)
    → Laid words before at to bs
    → Off at p bs
    → fixed words' at to v p ≡ words' p
unfolding Laid Off
fixed-Off words words' before at to v p [] l off = rw (ge→ltb at to (omega (arith, l))) refl
fixed-Off words words' before at to v p (b ∷ bs) l (_, ne, _) = fixed-out words' at to v p ne

-- The words of a node among the blocks that are joined.
join_words-Off :
    (words : Words) (before from to s s' p : ℕ) (u u' : Bool) (pre post : List Block)
    → Laid words before from to (pre ++ block s u ∷ block s' u' ∷ post)
    → Off from p (pre ++ block s u ∷ block s' u' ∷ post)
    → join_words words (end_of from pre) (s + s') to p ≡ words p
unfolding Laid Off
join_words-Off words before from to s s' p u u' pre post l off =
    let h = end_of from pre in
    let (_, (_, _, _, _, (_, _, _, _, l2))) = Laid-append words before from to pre _ l in
    let (ne, _, (_, _, off2)) = Off-append from p pre _ off in
    let same : h + s + s' ≡ h + (s + s') = omega arith in
    fixed-Off words (write words h (s + s')) (h + s) (h + (s + s')) to h p post
      (subst (λ k. Laid words (h + s) k to post) same l2) (subst (λ k. Off k p post) same off2)
    ∙ rw (ne→== p h ne) refl

-- What comes of the two headers.
abbrev joined : FreeList → (node h s : ℕ) → FreeList
joined b node h s = record b {
  words = join_words b.words h s (b.mem + b.capacity);
  cursor = if b.cursor == node then 0 else b.cursor;
}

cursor_kept : (t : Bool) (c : ℕ) → ((if t then 0 else c) ≡ 0) ⊎ ((if t then 0 else c) ≡ c)
cursor_kept true c = inl refl
cursor_kept false c = inr refl

joined-IsHeld :
    (b : FreeList) (s s' node : ℕ) (pre post : List Block) (ns out out' : List ℕ)
    → IsHeld b (pre ++ block s false ∷ block s' false ∷ post) ns out
    → ((z : ℕ) → count z out ≡ count z ((end_of b.mem pre + s + 16) ∷ out'))
    → IsHeld
        (joined b node (end_of b.mem pre) (s + s'))
        (pre ++ block (s + s') false ∷ post)
        ns
        out'
joined-IsHeld b s s' node pre post ns out out' v outs = record {
  located = v.located;
  laid = join-Laid b.words 0 b.mem (b.mem + b.capacity) s s' false false pre post v.laid;
  ring =
      HasRing-words b (joined b node (end_of b.mem pre) (s + s')) ns refl
        (cursor_kept (b.cursor == node) b.cursor)
        (λ z i.
          let off =
            (placed b (pre ++ block s false ∷ block s' false ∷ post) ns v.located v.laid
              (λ k. omega (arith, v.counts k)) z i).off in
          let keep : (q : ℕ)
              → Off b.mem q (pre ++ block s false ∷ block s' false ∷ post)
              → join_words b.words (end_of b.mem pre) (s + s') (b.mem + b.capacity) q ≡ b.words q =
            λ q o.
              join_words-Off b.words 0 b.mem (b.mem + b.capacity) s s' q false false pre post v.laid
                o in
          (keep z off.0, keep (z + 8) off.1))
        v.ring;
  counts = λ z.
      let h = end_of b.mem pre in
      let same : h + s + s' ≡ h + (s + s') = omega arith in
      omega (
        arith,
        v.counts z,
        outs z,
        count-free_nodes z b.mem pre (block s false ∷ block s' false ∷ post),
        count-free_nodes z b.mem pre (block (s + s') false ∷ post),
        ap (λ k. count z (free_nodes k post)) same,
      );
}

-- The two sizes that are added.
sizes_lem :
    (words : Words) (before from to s s' : ℕ) (u u' : Bool) (pre post : List Block)
    → to < 2 ^ 64
    → Laid words before from to (pre ++ block s u ∷ block s' u' ∷ post)
    → (hdr_size words (end_of from pre) ≡ s)
      × (hdr_size words (end_of from pre + s) ≡ s')
      × (s % 2 ≡ 0)
      × (s' % 2 ≡ 0)
      × (end_of from pre + s + s' ≤ to)
unfolding Laid
sizes_lem words before from to s s' u u' pre post small l =
    let h = end_of from pre in
    let (_, (e, _, _, round, (e', _, _, round', l2))) = Laid-append words before from to pre _ l in
    let ends = Laid-le words (h + s) (h + s + s') to post l2 in
    let even : s % 2 ≡ 0 = omega (arith, round) in
    let even' : s' % 2 ≡ 0 = omega (arith, round') in
    let size = hdr_lem words h s u e even (omega (arith, ends, small)) in
    let size' = hdr_lem words (h + s) s' u' e' even' (omega (arith, ends, small)) in
    (size.0, size'.0, even, even', omega (arith, ends))

pub end_of_le : (from : ℕ) (pre : List Block) → from ≤ end_of from pre
end_of_le from [] = omega arith
end_of_le from (b ∷ pre) = omega (arith, end_of_le (from + b.size) pre)

-- The end of `absorb`, once the node is out of the ring.
finish_absorb : FreeList → (node into from : ℕ) → FreeList
finish_absorb b node into from =
    let w = hdr_set b.words into (add_word (hdr_size b.words into) (hdr_size b.words from)) false in
    let c = record b { words = w; cursor = if b.cursor == node then 0 else b.cursor } in
    let nn = next_phys c into in
    if nn == 0 then c else record c { words = set_prev_phys c.words nn into }

absorb_lem :
    (a : FreeList) (blk into from : ℕ)
    → absorb a blk into from
      ≡ finish_absorb (unlink a (payload_node blk)) (payload_node blk) into from
unfolding absorb finish_absorb
absorb_lem a blk into from = refl

if_words :
    (t : Bool) (c : FreeList) (w : Words)
    → (if t then c else record c { words = w }) ≡ record c { words = if t then c.words else w }
if_words true c w = refl
if_words false c w = refl

finish-joined :
    (b : FreeList) (node h s into from : ℕ)
    → add_word (hdr_size b.words into) (hdr_size b.words from) ≡ s
    → into ≡ h
    → s % 2 ≡ 0
    → h + s + 16 < 2 ^ 64
    → 0 < h
    → b.mem + b.capacity < 2 ^ 64
    → finish_absorb b node into from ≡ joined b node h s
unfolding finish_absorb
finish-joined b node h s into from sum here even fits some_h small =
    let set = hdr_set_lem b.words h s false even (omega (arith, fits)) in
    let zero_flag : s + flag false ≡ s = omega arith in
    let c : FreeList = record b {
      words = write b.words h s;
      cursor = if b.cursor == node then 0 else b.cursor;
    } in
    let own : c.words h ≡ s + flag false = rw (==_refl h) (omega arith) in
    let nn = next_phys_lem c h s false own even (omega (arith, fits)) small in
    let fix =
      set_prev-fixed c.words (h + s) (b.mem + b.capacity) h (omega (arith, some_h))
        (omega (arith, fits)) in
    let after = if ltb (h + s) (b.mem + b.capacity) then h + s else 0 in
    rw (sum, here, set, zero_flag, nn)
      (if_words (after == 0) c (set_prev_phys c.words after h)
        ∙ ap (λ w. record c { words = w }) fix)

finish-same :
    (b : FreeList) (node into from : ℕ)
    → ((finish_absorb b node into from).mem ≡ b.mem)
      × ((finish_absorb b node into from).capacity ≡ b.capacity)
      × ((finish_absorb b node into from).stats ≡ b.stats)
unfolding finish_absorb
finish-same b node into from =
    let w = hdr_set b.words into (add_word (hdr_size b.words into) (hdr_size b.words from)) false in
    let c : FreeList = record b { words = w; cursor = if b.cursor == node then 0 else b.cursor } in
    elim (Bool-cases (next_phys c into == 0)) [
      | inl e ↦ rw e (refl, refl, refl)
      | inr e ↦ rw e (refl, refl, refl)
    ]

pub absorb-same :
    (a : FreeList) (blk into from : ℕ)
    → ((absorb a blk into from).mem ≡ a.mem)
      × ((absorb a blk into from).capacity ≡ a.capacity)
      × ((absorb a blk into from).stats ≡ a.stats)
absorb-same a blk into from =
    let u = unlink-Same a (payload_node blk) in
    let (m, c, t) = finish-same (unlink a (payload_node blk)) (payload_node blk) into from in
    rw (absorb_lem a blk into from) (m ∙ u.mem, c ∙ u.capacity, t ∙ u.stats)

-- Two neighbouring free blocks, of which one, whose node `x` is in the ring, is absorbed.
pub absorb-IsHeld :
    (a : FreeList) (s s' x other blk : ℕ) (pre post : List Block) (ns : List ℕ)
    → let h = end_of a.mem pre in
      IsHeld a (pre ++ block s false ∷ block s' false ∷ post) ns (other ∷ [])
      → In x ns
      → payload_node blk ≡ x
      → ((z : ℕ) → count z (x ∷ other ∷ []) ≡ count z ((h + s + 16) ∷ (h + 16) ∷ []))
      → (left : List ℕ) × IsHeld
          (absorb a blk h (h + s))
          (pre ++ block (s + s') false ∷ post)
          left
          ((h + 16) ∷ [])
absorb-IsHeld a s s' x other blk pre post ns v i node outs =
    let h = end_of a.mem pre in
    let bs = pre ++ block s false ∷ block s' false ∷ post in
    let (left, u) = unlink-IsHeld a bs ns (other ∷ []) x v i in
    let b = unlink a x in
    let same : end_of b.mem pre ≡ h = ap (λ m. end_of m pre) (unlink-Same a x).mem in
    let (_, some_mem, fits) = u.located in
    let (size, size', even, even', ends) =
      sizes_lem b.words 0 b.mem (b.mem + b.capacity) s s' false false pre post (omega (arith, fits))
        u.laid in
    let above = end_of_le b.mem pre in
    let sum : add_word (hdr_size b.words h) (hdr_size b.words (h + s)) ≡ s + s' =
      subst (λ k. add_word (hdr_size b.words k) (hdr_size b.words (k + s)) ≡ s + s') same
        (rw (size, size') (omega (arith, ends, fits))) in
    let shape : absorb a blk h (h + s) ≡ joined b x h (s + s') =
      absorb_lem a blk h (h + s)
      ∙ ap (λ k. finish_absorb (unlink a k) k h (h + s)) node
      ∙ finish-joined b x h (s + s') h (h + s) sum refl (omega (arith, even, even'))
          (omega (arith, same, ends, fits)) (omega (arith, same, above, some_mem))
          (omega (arith, fits)) in
    let held =
      joined-IsHeld b s s' x pre post left (x ∷ other ∷ []) ((end_of b.mem pre + 16) ∷ []) u (λ z.
        subst (λ k. count z (x ∷ other ∷ []) ≡ count z ((k + s + 16) ∷ (k + 16) ∷ [])) (sym same)
          (outs z)) in
    (
      left,
      subst (λ c. IsHeld c (pre ++ block (s + s') false ∷ post) left ((h + 16) ∷ [])) (sym shape)
          (subst
            (λ k.
              IsHeld (joined b x k (s + s')) (pre ++ block (s + s') false ∷ post) left
                ((k + 16) ∷ []))
            same held),
    )
