-- ===== src/FreeList/Calls/Carve.antt =====
-- How `fl_allocate` marks a block and splits it.
use heapforge.Prelude.{
  ℕ, ◌+◌, ◌%◌, ◌≤◌, ◌<◌, ◌≡◌, inl, inr, refl, sym, ◌∙◌, ap, arith, true, false, List, [], ◌∷◌, ◌++◌,
  ne→==, ==_refl, Bool-cases, add_word, sub_word, ltb, leb, ltb→lt, ltb→ge, ◌-◌,
}
use mathlib.Core.Path.{subst}
use heapforge.Prelude.Occurrences.{count}
use heapforge.FreeList.{FreeList, Words, write, min_block, hdr_size, payload_node, insert}
use heapforge.FreeList.Layout.{Block, flag, Laid, Off}
use heapforge.FreeList.Nodes.{free_nodes, end_of, Laid-append, count-free_nodes}
use heapforge.FreeList.Tags.{fixed, hdr_set_lem, next_phys_lem, set_prev-fixed}
use heapforge.FreeList.Split.{block, mark-Laid, split_words, split-Laid}
use heapforge.FreeList.Cycle.{insert-Same}
use heapforge.FreeList.Held.{IsHeld, placed, HasRing-words, insert-IsHeld}
use heapforge.FreeList.Calls.{carve}
use heapforge.FreeList.Calls.Absorb.{Off-append, fixed-Off}
use heapforge.FreeList.Calls.Give.{used_blocks, around, used_blocks-append}

-- The words of a node when a block is split.
split_words-Off :
    (words : Words) (before from to n k p : ℕ) (pre post : List Block)
    → Laid words before from to (pre ++ block (n + k) false ∷ post)
    → Off from p (pre ++ block n true ∷ block k false ∷ post)
    → split_words words (end_of from pre) n k to p ≡ words p
unfolding Laid Off
split_words-Off words before from to n k p pre post l off =
    let h = end_of from pre in
    let (_, (_, _, _, _, l2)) = Laid-append words before from to pre _ l in
    let (ne, _, (ne1, ne2, off2)) = Off-append from p pre _ off in
    let same : h + (n + k) ≡ h + n + k = omega arith in
    let w1 = write (write words (h + n) k) (h + n + 8) h in
    rw (ne→== p h ne) (
      fixed-Off words w1 h (h + n + k) to (h + n) p post
        (subst (λ q. Laid words h q to post) same l2) off2
      ∙ rw (ne→== p (h + n + 8) ne2, ne→== p (h + n) ne1) refl)

-- What `carve` of the block at `h` comes to, which has the size `size` afterwards.
pub record Carved (a : FreeList) (pre post : List Block) (s need : ℕ) (b : FreeList) : Type 0 where
  pub size : ℕ
  pub blocks : List Block
  pub ring : List ℕ
  pub held : IsHeld b blocks ring []
  pub mem : b.mem ≡ a.mem
  pub room : (need ≤ size) × (size < need + min_block)
  pub marked : hdr_size b.words (end_of a.mem pre) ≡ size
  pub used :
      used_blocks a.mem blocks
      ≡ used_blocks a.mem pre
        ++ ((end_of a.mem pre, size) ∷ used_blocks (end_of a.mem pre + s) post)

module _ (a : FreeList) (pre post : List Block) (n k : ℕ) (ns : List ℕ)
    (v : IsHeld a (pre ++ block (n + k) false ∷ post) ns ((end_of a.mem pre + 16) ∷ []))
    (big : 32 ≤ n) (round : n % 16 ≡ 0) (big' : 32 ≤ k) where
  abbrev h : ℕ
  h = end_of a.mem pre

  abbrev cut : FreeList
  cut = record a { words = split_words a.words h n k (a.mem + a.capacity) }

  cut-IsHeld : IsHeld cut (pre ++ block n true ∷ block k false ∷ post) ns ((h + n + 16) ∷ [])
  cut-IsHeld =
      let r = around a pre post (n + k) false v.located v.laid in
      let new = pre ++ block n true ∷ block k false ∷ post in
      let l =
        split-Laid a.words 0 a.mem (a.mem + a.capacity) n k pre post big round big'
          (omega (arith, round, r.round)) v.laid in
      let same : h + (n + k) ≡ h + n + k = omega arith in
      let counts : (z : ℕ)
          → count z ((h + n + 16) ∷ []) + count z ns ≡ count z (free_nodes a.mem new) =
        λ z. omega (
          arith,
          v.counts z,
          count-free_nodes z a.mem pre (block (n + k) false ∷ post),
          count-free_nodes z a.mem pre (block n true ∷ block k false ∷ post),
          ap (λ q. count z (free_nodes q post)) same,
        ) in
      record {
        located = v.located;
        laid = l;
        ring =
            HasRing-words a cut ns refl (inr refl)
              (λ z i.
                let off = (placed cut new ns v.located l (λ q. omega (arith, counts q)) z i).off in
                let keep : (q : ℕ) → Off a.mem q new → cut.words q ≡ a.words q = λ q o.
                  split_words-Off a.words 0 a.mem (a.mem + a.capacity) n k q pre post v.laid o in
                (keep z off.0, keep (z + 8) off.1))
              v.ring;
        counts = counts;
      }

  carve_shape : carve a h n ≡ insert cut (h + n + 16)
  unfolding carve
  carve_shape =
      let r = around a pre post (n + k) false v.located v.laid in
      let (_, some_mem, fits) = v.located in
      let end = a.mem + a.capacity in
      let even : n % 2 ≡ 0 = omega (arith, round) in
      let even' : k % 2 ≡ 0 = omega (arith, round, r.round) in
      let remain : sub_word (n + k) n ≡ k = omega (arith, r.ends, fits) in
      let split : add_word h n ≡ h + n = omega (arith, r.ends, fits) in
      let set = hdr_set_lem a.words (h + n) k false even' (omega (arith, r.ends, fits)) in
      let zero_flag : k + flag false ≡ k = omega arith in
      let word : add_word (h + n) 8 ≡ h + n + 8 = omega (arith, r.ends, fits) in
      let w1 = write (write a.words (h + n) k) (h + n + 8) h in
      let c : FreeList = record a { words = w1 } in
      let own : c.words (h + n) ≡ k + flag false =
        rw (ne→== (h + n) (h + n + 8) (λ z. omega (arith, z)), ==_refl (h + n)) (omega arith) in
      let nn =
        next_phys_lem c (h + n) k false own even' (omega (arith, r.ends, fits))
          (omega (arith, fits)) in
      let fix =
        set_prev-fixed w1 (h + n + k) end (h + n) (omega (arith, big))
          (omega (arith, r.ends, fits)) in
      let enough : leb 32 k ≡ true = ground (arith, big') in
      let node : payload_node (h + n) ≡ h + n + 16 = omega (arith, r.ends, fits) in
      let w2 = fixed w1 (h + n + k) end (h + n) in
      let top = hdr_set_lem w2 h n true even (omega (arith, r.ends, fits)) in
      rw (r.size, remain, split, set, zero_flag, word, enough, node, nn, fix, top) refl

  split-Carved : Carved a pre post (n + k) n (carve a h n)
  split-Carved =
      let new = pre ++ block n true ∷ block k false ∷ post in
      let (all, held) = insert-IsHeld cut new ns [] (h + n + 16) cut-IsHeld in
      let b = insert cut (h + n + 16) in
      let mem : b.mem ≡ a.mem = (insert-Same cut (h + n + 16)).mem in
      let r = around b pre (block k false ∷ post) n true held.located held.laid in
      let word : h + n + k ≡ h + (n + k) = omega arith in
      rw carve_shape (record {
        size = n;
        blocks = new;
        ring = all;
        held = held;
        mem = mem;
        room = (omega arith, omega arith);
        marked = subst (λ m. hdr_size b.words (end_of m pre) ≡ n) mem r.size;
        used =
            used_blocks-append a.mem pre (block n true ∷ block k false ∷ post)
            ∙ ap (λ q. used_blocks a.mem pre ++ ((h, n) ∷ used_blocks q post)) word;
      })

module _ (a : FreeList) (pre post : List Block) (s need : ℕ) (ns : List ℕ)
    (v : IsHeld a (pre ++ block s false ∷ post) ns ((end_of a.mem pre + 16) ∷ []))
    (enough : need ≤ s) (little : s < need + 32) where
  abbrev whole : FreeList
  whole = record a { words = write a.words (end_of a.mem pre) (s + flag true) }

  whole_shape : carve a (end_of a.mem pre) need ≡ whole
  unfolding carve
  whole_shape =
      let h = end_of a.mem pre in
      let r = around a pre post s false v.located v.laid in
      let (_, some_mem, fits) = v.located in
      let remain : sub_word s need ≡ s - need = omega (arith, r.ends, fits) in
      let not_enough : leb 32 (s - need) ≡ false = ground (arith, little, enough) in
      let set =
        hdr_set_lem a.words h s true (omega (arith, r.round)) (omega (arith, r.ends, fits)) in
      rw (r.size, remain, not_enough, set) refl

  whole-IsHeld : IsHeld whole (pre ++ block s true ∷ post) ns []
  unfolding Off
  whole-IsHeld =
      let h = end_of a.mem pre in
      let old = pre ++ block s false ∷ post in
      record {
        located = v.located;
        laid = mark-Laid a.words 0 a.mem (a.mem + a.capacity) s false true pre post v.laid;
        ring =
            HasRing-words a whole ns refl (inr refl)
              (λ z i.
                let off =
                  (placed a old ns v.located v.laid (λ q. omega (arith, v.counts q)) z i).off in
                let keep : (q : ℕ) → Off a.mem q old → whole.words q ≡ a.words q = λ q o.
                  let (ne, _, _) = Off-append a.mem q pre (block s false ∷ post) o in
                  rw (ne→== q h ne) refl in
                (keep z off.0, keep (z + 8) off.1))
              v.ring;
        counts = λ z. omega (
          arith,
          v.counts z,
          count-free_nodes z a.mem pre (block s false ∷ post),
          count-free_nodes z a.mem pre (block s true ∷ post),
        );
      }

  whole-Carved : Carved a pre post s need (carve a (end_of a.mem pre) need)
  whole-Carved =
      let held = whole-IsHeld in
      rw whole_shape (record {
        size = s;
        blocks = pre ++ block s true ∷ post;
        ring = ns;
        held = held;
        mem = refl;
        room = (enough, little);
        marked = (around whole pre post s true held.located held.laid).size;
        used = used_blocks-append a.mem pre (block s true ∷ post);
      })

-- `carve` gives the block that was taken out of the ring, or the first part of it, to the caller.
pub carve-Carved :
    (a : FreeList) (pre post : List Block) (s need : ℕ) (ns : List ℕ)
    → IsHeld a (pre ++ block s false ∷ post) ns ((end_of a.mem pre + 16) ∷ [])
    → 32 ≤ need
    → need % 16 ≡ 0
    → need ≤ s
    → Carved a pre post s need (carve a (end_of a.mem pre) need)
carve-Carved a pre post s need ns v big round enough = elim (Bool-cases (ltb s (need + 32))) [
  | inl e ↦ whole-Carved a pre post s need ns v enough (ltb→lt _ _ e)
  | inr e ↦
      let k = s - need in
      let more = ltb→ge s (need + 32) e in
      let sum : s ≡ need + k = omega (arith, enough) in
      subst (λ q. Carved a pre post q need (carve a (end_of a.mem pre) need)) (sym sum)
        (split-Carved a pre post need k ns
          (subst (λ q. IsHeld a (pre ++ block q false ∷ post) ns ((end_of a.mem pre + 16) ∷ [])) sum
            v)
          big round (omega (arith, more)))
]
