-- ===== src/FreeList/Calls/Free.antt =====
-- `fl_deallocate` as a whole.
use heapforge.Prelude.{
  ℕ, ◌+◌, ◌≡◌, inr, refl, sym, ◌∙◌, ap, arith, true, false, List, [], ◌∷◌, ◌++◌, ne→==, add_word,
  sub_word, leb, lt→ltb, ge→ltb,
}
use mathlib.Core.Path.{subst, ap₂}
use heapforge.Allocator.{returns, count_free}
use heapforge.FreeList.{
  FreeList, write, hdr_size, hdr_set, payload_node, header_of, plausible_header, insert,
}
use heapforge.FreeList.Layout.{Block, flag, Laid, Off}
use heapforge.FreeList.Nodes.{end_of, count-free_nodes}
use heapforge.FreeList.Tags.{hdr_set_lem}
use heapforge.FreeList.Split.{block, mark-Laid}
use heapforge.FreeList.Cycle.{insert-Same}
use heapforge.FreeList.Held.{IsHeld, IsLocated, placed, HasRing-words, insert-IsHeld}
use heapforge.FreeList.Calls.{join_next, join_prev, header_at, deallocate}
use heapforge.FreeList.Calls.Absorb.{Off-append}
use heapforge.FreeList.Calls.Give.{
  used_blocks, Around, around, join_next-Joined, used_blocks-append,
}
use heapforge.FreeList.Calls.Back.{JoinedPrev, join_prev-Joined}

-- What `fl_deallocate` of the block of size `s` between `pre` and `post` comes to.
pub record Given (a : FreeList) (pre post : List Block) (s : ℕ) (b : FreeList) : Type 0 where
  pub blocks : List Block
  pub ring : List ℕ
  pub held : IsHeld b blocks ring []
  pub mem : b.mem ≡ a.mem
  pub same_used :
      used_blocks a.mem blocks ≡ used_blocks a.mem pre ++ used_blocks (end_of a.mem pre + s) post

header_at_lem :
    (a : FreeList) (pre post : List Block) (s : ℕ)
    → IsLocated a
    → Around a pre post s true
    → header_at a (end_of a.mem pre + 16) ≡ end_of a.mem pre
unfolding header_at plausible_header
header_at_lem a pre post s (_, some_mem, fits) r =
    let h = end_of a.mem pre in
    let back : header_of (h + 16) ≡ h = omega (arith, r.ends, fits) in
    let end : add_word a.mem a.capacity ≡ a.mem + a.capacity = omega (arith, fits) in
    let stop : add_word h s ≡ h + s = omega (arith, r.ends, fits) in
    let t1 = ge→ltb h a.mem r.above in
    let t2 = lt→ltb h (a.mem + a.capacity) (omega (arith, r.ends, r.big)) in
    let t3 : leb 32 s ≡ true = ground (arith, r.big) in
    let t4 : leb (h + s) (a.mem + a.capacity) ≡ true = ground (arith, r.ends) in
    rw (back, r.size, t1, end, t2, r.used, t3, r.round, stop, t4) refl

-- The block is marked as free.
freed : FreeList → (h : ℕ) → FreeList
freed a h =
    let b : FreeList = record a { stats = count_free a.stats } in
    let s = b.stats in
    record b {
      words = hdr_set b.words h (hdr_size b.words h) false;
      stats = record s { used = sub_word s.used (hdr_size b.words h) };
    }

freed-IsHeld :
    (a : FreeList) (pre post : List Block) (s : ℕ) (ns : List ℕ)
    → IsHeld a (pre ++ block s true ∷ post) ns []
    → IsHeld
        (freed a (end_of a.mem pre))
        (pre ++ block s false ∷ post)
        ns
        ((end_of a.mem pre + 16) ∷ [])
unfolding freed Off
freed-IsHeld a pre post s ns v =
    let h = end_of a.mem pre in
    let r = around a pre post s true v.located v.laid in
    let (_, some_mem, fits) = v.located in
    let set : hdr_set a.words h (hdr_size a.words h) false ≡ write a.words h (s + flag false) =
      ap (λ k. hdr_set a.words h k false) r.size
      ∙ hdr_set_lem a.words h s false (omega (arith, r.round)) (omega (arith, r.ends, fits)) in
    record {
      located = v.located;
      laid =
          subst (λ w. Laid w 0 a.mem (a.mem + a.capacity) (pre ++ block s false ∷ post)) (sym set)
            (mark-Laid a.words 0 a.mem (a.mem + a.capacity) s true false pre post v.laid);
      ring =
          HasRing-words a (freed a h) ns refl (inr refl)
            (λ z i.
              let off =
                (placed a (pre ++ block s true ∷ post) ns v.located v.laid
                  (λ k. omega (arith, v.counts k)) z i).off in
              let keep : (q : ℕ)
                  → Off a.mem q (pre ++ block s true ∷ post)
                  → (freed a h).words q ≡ a.words q =
                λ q o.
                  let (ne, _, _) = Off-append a.mem q pre (block s true ∷ post) o in
                  ap (λ w. w q) set ∙ rw (ne→== q h ne) refl in
              (keep z off.0, keep (z + 8) off.1))
            v.ring;
      counts = λ z. omega (
        arith,
        v.counts z,
        count-free_nodes z a.mem pre (block s true ∷ post),
        count-free_nodes z a.mem pre (block s false ∷ post),
      );
    }

-- The rest of the call.
settle : FreeList → (h : ℕ) → FreeList
settle c h = let (h', d) = join_prev (join_next c h) h in insert d (payload_node h')

settle-Given :
    (c : FreeList) (pre post : List Block) (s : ℕ) (ns : List ℕ)
    → IsHeld c (pre ++ block s false ∷ post) ns ((end_of c.mem pre + 16) ∷ [])
    → Given c pre post s (settle c (end_of c.mem pre))
unfolding settle
settle-Given c pre post s ns v =
    let h = end_of c.mem pre in
    let n = join_next-Joined c pre post s ns v in
    let e = join_next c h in
    let here : end_of e.mem pre ≡ h = ap (λ m. end_of m pre) n.mem in
    let v' : IsHeld e (pre ++ block n.size false ∷ n.after) n.ring ((end_of e.mem pre + 16) ∷ []) =
      subst (λ k. IsHeld e (pre ++ block n.size false ∷ n.after) n.ring ((k + 16) ∷ [])) (sym here)
        n.held in
    let p : JoinedPrev e (join_prev e h) pre n.after n.size =
      subst (λ k. JoinedPrev e (join_prev e k) pre n.after n.size) here
        (join_prev-Joined e pre n.after n.size n.ring v') in
    let d = (join_prev e h).1 in
    let bs = p.front ++ block p.size false ∷ n.after in
    let f = end_of e.mem p.front in
    let at : end_of d.mem p.front ≡ f = ap (λ m. end_of m p.front) p.mem in
    let r = around d p.front n.after p.size false p.held.located p.held.laid in
    let (_, _, fits) = p.held.located in
    let node : payload_node (join_prev e h).0 ≡ f + 16 =
      ap payload_node p.begins ∙ (omega (arith, at, r.ends, fits)) in
    let (all, held) = insert-IsHeld d bs p.ring [] (f + 16) p.held in
    let begins : used_blocks e.mem p.front ≡ used_blocks c.mem pre =
      p.same_used ∙ ap (λ m. used_blocks m pre) n.mem in
    let ends : f + p.size ≡ h + n.size = p.ends ∙ ap (λ k. k + n.size) here in
    let b = insert d (f + 16) in
    let mem : b.mem ≡ c.mem = (insert-Same d (f + 16)).mem ∙ p.mem ∙ n.mem in
    rw node (record {
      blocks = bs;
      ring = all;
      held = held;
      mem = mem;
      same_used =
          ap (λ m. used_blocks m bs) (sym n.mem)
          ∙ used_blocks-append e.mem p.front (block p.size false ∷ n.after)
          ∙ ap₂ (λ xs ys. xs ++ ys) begins (ap (λ k. used_blocks k n.after) ends ∙ n.same_used);
    })

-- `fl_deallocate` of a used block returns, where the memory is at a multiple of 16, not at NULL,
-- and ends more than 16 bytes before the end of the address space, the blocks with their headers
-- fill it, and the ring has each free one once: afterwards the blocks again fill the memory, with
-- their offsets to the previous block, the ring has each free one once, with the head and, unless
-- it is NULL, the cursor on it, and the used blocks are the others, where they were.
pub deallocate-Given :
    (a : FreeList) (pre post : List Block) (s : ℕ) (ns : List ℕ)
    → IsHeld a (pre ++ block s true ∷ post) ns []
    → (b : FreeList) × (deallocate a (end_of a.mem pre + 16) ≡ returns b) × Given a pre post s b
unfolding deallocate freed settle
deallocate-Given a pre post s ns v =
    let h = end_of a.mem pre in
    let r = around a pre post s true v.located v.laid in
    let at =
      header_at_lem (record a { stats = count_free a.stats }) pre post s v.located
        (around (record a { stats = count_free a.stats }) pre post s true v.located v.laid) in
    let some_ptr = ne→== (h + 16) 0 (λ z. omega (arith, z)) in
    let g = settle-Given (freed a h) pre post s ns (freed-IsHeld a pre post s ns v) in
    (
      settle (freed a h) h,
      rw (some_ptr, at, r.used) refl,
      record {
        blocks = g.blocks;
        ring = g.ring;
        held = g.held;
        mem = g.mem;
        same_used = g.same_used;
      },
    )
