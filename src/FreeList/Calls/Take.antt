-- ===== src/FreeList/Calls/Take.antt =====
-- `fl_allocate` for a node that the search has found.
use heapforge.Prelude.{
  ℕ, ◌+◌, ◌%◌, ◌≤◌, ◌<◌, ◌≡◌, inl, inr, refl, sym, ◌∙◌, ap, arith, false, if◌then◌else◌, List, [],
  ◌∷◌, ◌++◌, Bool-cases, add_word, ge→ltb, ◌-◌,
}
use mathlib.Core.Path.{subst}
use heapforge.Allocator.{Stats, set_used}
use heapforge.Prelude.Occurrences.{count, count_ne}
use heapforge.FreeList.{FreeList, min_block, hdr_size, payload_node, header_of, unlink}
use heapforge.FreeList.Fit.{In, size_of}
use heapforge.FreeList.Layout.{Block}
use heapforge.FreeList.Nodes.{free_nodes, end_of}
use heapforge.FreeList.Rotate.{count-In}
use heapforge.FreeList.Split.{block}
use heapforge.FreeList.Cycle.{unlink-Same}
use heapforge.FreeList.Held.{IsHeld, HasRing-words, unlink-IsHeld}
use heapforge.FreeList.Calls.{take, carve, place_pointer}
use native.Mathlib.Decide.{ℕ_discrete}
use heapforge.FreeList.Calls.Carve.{Carved, carve-Carved}
use heapforge.FreeList.Calls.Give.{used_blocks, around, used_blocks-append}

-- The free block of a node.
pub record FreeBlock (at z : ℕ) (bs : List Block) : Type 0 where
  pub pre : List Block
  pub post : List Block
  pub size : ℕ
  pub split : bs ≡ pre ++ block size false ∷ post
  pub here : z ≡ end_of at pre + 16

pub find-FreeBlock :
    (at z : ℕ) (bs : List Block) → 1 ≤ count z (free_nodes at bs) → FreeBlock at z bs
find-FreeBlock at z [] among = absurd (omega arith)
find-FreeBlock at z (b ∷ bs) among =
    let rest = free_nodes (at + b.size) bs in
    let more : 1 ≤ count z rest → FreeBlock at z (b ∷ bs) = λ h.
      let f = find-FreeBlock (at + b.size) z bs h in
      record {
        pre = b ∷ f.pre;
        post = f.post;
        size = f.size;
        split = ap (λ l. b ∷ l) f.split;
        here = f.here;
      } in
    elim (Bool-cases b.is_used) [
      | inl e ↦ more (subst (λ u. 1 ≤ count z (if u then rest else (at + 16) ∷ rest)) e among)
      | inr e ↦
          let among' = subst (λ u. 1 ≤ count z (if u then rest else (at + 16) ∷ rest)) e among in
          elim (ℕ_discrete z (at + 16)) [
            | yes own ↦ record {
              pre = [];
              post = bs;
              size = b.size;
              split = ap (λ u. block b.size u ∷ bs) e;
              here = own;
            }
            | no ne ↦ more (omega (arith, among', count_ne z (at + 16) rest ne))
          ]
    ]

pub IsHeld-stats :
    (b : FreeList) (st : Stats) (bs : List Block) (ns out : List ℕ)
    → IsHeld b bs ns out
    → IsHeld (record b { stats = st }) bs ns out
IsHeld-stats b st bs ns out v = record {
  located = v.located;
  laid = v.laid;
  ring = HasRing-words b (record b { stats = st }) ns refl (inr refl) (λ z i. (refl, refl)) v.ring;
  counts = v.counts;
}

-- What `fl_allocate` of the block with node `x` comes to: the blocks in use are those from before and
-- the one in front of the pointer.
pub record Taken (a : FreeList) (bs : List Block) (x need : ℕ) (r : ℕ × FreeList) : Type 0 where
  pub size : ℕ
  pub blocks : List Block
  pub ring : List ℕ
  pub before : List (ℕ × ℕ)
  pub behind : List (ℕ × ℕ)
  pub pointer : r.0 ≡ x
  pub held : IsHeld r.1 blocks ring []
  pub mem : r.1.mem ≡ a.mem
  pub room : (need ≤ size) × (size < need + min_block)
  pub old : used_blocks a.mem bs ≡ before ++ behind
  pub new : used_blocks a.mem blocks ≡ before ++ ((x - 16, size) ∷ behind)

-- The part of `fl_allocate` behind the search, for a node of the ring, a need of at least 32 bytes
-- that is a multiple of 16 and fits into its block, and an alignment of at most 16, on a memory as
-- for the call that frees and with no node out of the ring, gives the address of the node:
-- afterwards the blocks again fill the memory, the ring has each free one once, and the used blocks
-- are those from before and, in its place, the one in front of the pointer, which has the need and
-- less than the smallest block more.
pub take-Taken :
    (a : FreeList) (bs : List Block) (ns : List ℕ) (x need alignment : ℕ)
    → IsHeld a bs ns []
    → In x ns
    → 32 ≤ need
    → need % 16 ≡ 0
    → need ≤ size_of a.words x
    → alignment ≤ 16
    → Taken a bs x need (take a x need alignment)
unfolding take place_pointer
take-Taken a bs ns x need alignment v i big round enough small =
    let own = count-In x ns i in
    let f = find-FreeBlock a.mem x bs (omega (arith, own, v.counts x)) in
    let h = end_of a.mem f.pre in
    let v' : IsHeld a (f.pre ++ block f.size false ∷ f.post) ns [] =
      subst (λ l. IsHeld a l ns []) f.split v in
    let r = around a f.pre f.post f.size false v'.located v'.laid in
    let (_, some_mem, fits) = v.located in
    let back : header_of x ≡ h = omega (arith, f.here, r.ends, fits) in
    let node : payload_node h ≡ x = omega (arith, f.here, r.ends, fits) in
    let (left, u) = unlink-IsHeld a (f.pre ++ block f.size false ∷ f.post) ns [] x v' i in
    let mem : (unlink a x).mem ≡ a.mem = (unlink-Same a x).mem in
    let here : end_of (unlink a x).mem f.pre ≡ h = ap (λ m. end_of m f.pre) mem in
    let u' : IsHeld (unlink a x) (f.pre ++ block f.size false ∷ f.post) left
        ((end_of (unlink a x).mem f.pre + 16) ∷ []) =
      subst (λ k. IsHeld (unlink a x) (f.pre ++ block f.size false ∷ f.post) left (k ∷ []))
        (f.here ∙ ap (λ k. k + 16) (sym here)) u in
    let size : hdr_size a.words (header_of x) ≡ f.size =
      ap (λ k. hdr_size a.words k) back ∙ r.size in
    let c : Carved (unlink a x) f.pre f.post f.size need (carve (unlink a x) h need) =
      subst (λ k. Carved (unlink a x) f.pre f.post f.size need (carve (unlink a x) k need)) here
        (carve-Carved (unlink a x) f.pre f.post f.size need left u' big round
          (omega (arith, size, enough))) in
    let b = carve (unlink a x) h need in
    let start : h ≡ x - 16 = omega (arith, f.here) in
    let aligned = ge→ltb 16 alignment small in
    rw (back, aligned)
      (record {
        size = c.size;
        blocks = c.blocks;
        ring = c.ring;
        before = used_blocks a.mem f.pre;
        behind = used_blocks (h + f.size) f.post;
        pointer = node;
        held =
            IsHeld-stats b (set_used b.stats (add_word b.stats.used (hdr_size b.words h))) c.blocks
              c.ring [] c.held;
        mem = c.mem ∙ mem;
        room = c.room;
        old =
            ap (λ l. used_blocks a.mem l) f.split
            ∙ used_blocks-append a.mem f.pre (block f.size false ∷ f.post);
        new =
            subst
              (λ m.
                used_blocks m c.blocks
                ≡ used_blocks m f.pre
                  ++ ((end_of m f.pre, c.size) ∷ used_blocks (end_of m f.pre + f.size) f.post))
              mem c.used
            ∙ ap (λ k. used_blocks a.mem f.pre ++ ((k, c.size) ∷ used_blocks (h + f.size) f.post))
                start;
      })
