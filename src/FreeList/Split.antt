-- ===== src/FreeList/Split.antt =====
-- The boundary tags of a block that is split, used as a whole, or joined with the next one.
use heapforge.Prelude.{
  ℕ, ◌+◌, ◌%◌, ◌≤◌, ◌<◌, ◌≡◌, refl, ◌∙◌, arith, Bool, true, false, List, ◌∷◌, ◌++◌, ne→==, ==_refl,
}
use mathlib.Core.Path.{subst}
use heapforge.FreeList.{Words, write}
use heapforge.FreeList.Layout.{Block, flag, Laid, Off, Off-below, Laid-write}
use heapforge.FreeList.Nodes.{end_of, last_of, Laid-append, append-Laid, Off-above}
use heapforge.FreeList.Tags.{fixed, fixed-out, Laid-fixed, Laid-fixed_out}

abbrev pub block : (size : ℕ) → Bool → Block
block size is_used = record { size = size; is_used = is_used }

-- The words after the block at `h` got the size `n`, and the rest of it, of size `k`, became a block.
abbrev pub split_words : Words → (h n k to : ℕ) → Words
split_words words h n k to =
    let w1 = write (write words (h + n) k) (h + n + 8) h in
    write (fixed w1 (h + n + k) to (h + n)) h (n + 1)

module _ (words : Words) (before from to n k : ℕ) (pre post : List Block) (big : 32 ≤ n)
    (round : n % 16 ≡ 0) (big' : 32 ≤ k) (round' : k % 16 ≡ 0)
    (l : Laid words before from to (pre ++ block (n + k) false ∷ post)) where
  abbrev h : ℕ
  h = end_of from pre

  abbrev w1 : Words
  w1 = write (write words (h + n) k) (h + n + 8) h

  abbrev w2 : Words
  w2 = fixed w1 (h + n + k) to (h + n)

  parts :
      Laid words before from h pre
      × (words (h + 8) ≡ last_of before from pre)
      × Laid words h (h + (n + k)) to post
  unfolding Laid
  parts = let (l1, (_, e, _, _, l2)) = Laid-append words before from to pre _ l in (l1, e, l2)

  post-Laid : Laid (split_words words h n k to) (h + n) (h + n + k) to post
  post-Laid =
      let (_, _, l2) = parts in
      let same : h + (n + k) ≡ h + n + k = omega arith in
      let l3 = subst (λ p. Laid words h p to post) same l2 in
      let below : (p : ℕ) → p < h + n + k → Off (h + n + k) p post =
        λ p lt. Off-below words h (h + n + k) to p post l3 lt in
      let l4 = Laid-write words h (h + n + k) to (h + n) k post (below (h + n) (omega arith)) l3 in
      let l5 =
        Laid-write (write words (h + n) k) h (h + n + k) to (h + n + 8) h post
          (below (h + n + 8) (omega arith)) l4 in
      let l6 = Laid-fixed w1 h (h + n + k) to (h + n) post l5 in
      Laid-write w2 (h + n) (h + n + k) to h (n + 1) post (below h (omega arith)) l6

  pre-Laid : Laid (split_words words h n k to) before from h pre
  pre-Laid =
      let (l1, _, _) = parts in
      let above : (p : ℕ) → h ≤ p → Off from p pre =
        λ p le. Off-above words before from h p pre l1 le in
      let l4 = Laid-write words before from h (h + n) k pre (above (h + n) (omega arith)) l1 in
      let l5 =
        Laid-write (write words (h + n) k) before from h (h + n + 8) h pre
          (above (h + n + 8) (omega arith)) l4 in
      let l6 =
        Laid-fixed_out w1 before from h (h + n + k) to (h + n) pre
          (above (h + n + k + 8) (omega arith)) l5 in
      Laid-write w2 before from h h (n + 1) pre (above h (omega arith)) l6

  -- A block that is split.
  pub split-Laid :
      Laid (split_words words h n k to) before from to (pre ++ block n true ∷ block k false ∷ post)
  unfolding Laid
  split-Laid =
      let (_, e, _) = parts in
      append-Laid (split_words words h n k to) before from to pre _ pre-Laid (
        rw (==_refl h) refl,
        rw (ne→== (h + 8) h (λ z. omega (arith, z))) (
            fixed-out w1 (h + n + k) to (h + n) (h + 8) (λ z. omega (arith, z))
            ∙ rw
                (
                  ne→== (h + 8) (h + n + 8) (λ z. omega (arith, z, big)),
                  ne→== (h + 8) (h + n) (λ z. omega (arith, z, big)),
                )
                e),
        big,
        round,
        (
          rw (ne→== (h + n) h (λ z. omega (arith, z, big))) (
              fixed-out w1 (h + n + k) to (h + n) (h + n) (λ z. omega (arith, z))
              ∙ rw (ne→== (h + n) (h + n + 8) (λ z. omega (arith, z)), ==_refl (h + n))
                  (omega arith)),
          rw (ne→== (h + n + 8) h (λ z. omega (arith, z))) (
              fixed-out w1 (h + n + k) to (h + n) (h + n + 8) (λ z. omega (arith, z, big'))
              ∙ rw (==_refl (h + n + 8)) refl),
          big',
          round',
          post-Laid,
        ),
      )

-- A block that is marked as used or as free.
pub mark-Laid :
    (words : Words) (before from to s : ℕ) (u u' : Bool) (pre post : List Block)
    → Laid words before from to (pre ++ block s u ∷ post)
    → Laid (write words (end_of from pre) (s + flag u')) before from to (pre ++ block s u' ∷ post)
unfolding Laid
mark-Laid words before from to s u u' pre post l =
    let h = end_of from pre in
    let (l1, (_, e, big, round, l2)) = Laid-append words before from to pre _ l in
    append-Laid (write words h (s + flag u')) before from to pre _
      (Laid-write words before from h h (s + flag u') pre
        (Off-above words before from h h pre l1 (omega arith)) l1)
      (
        rw (==_refl h) refl,
        rw (ne→== (h + 8) h (λ z. omega (arith, z))) e,
        big,
        round,
        Laid-write words h (h + s) to h (s + flag u') post
            (Off-below words h (h + s) to h post l2 (omega (arith, big))) l2,
      )

-- Two blocks that become one.
abbrev pub join_words : Words → (h s to : ℕ) → Words
join_words words h s to = fixed (write words h s) (h + s) to h

pub join-Laid :
    (words : Words) (before from to s s' : ℕ) (u u' : Bool) (pre post : List Block)
    → Laid words before from to (pre ++ block s u ∷ block s' u' ∷ post)
    → Laid
        (join_words words (end_of from pre) (s + s') to)
        before
        from
        to
        (pre ++ block (s + s') false ∷ post)
unfolding Laid
join-Laid words before from to s s' u u' pre post l =
    let h = end_of from pre in
    let t = s + s' in
    let (l1, (_, e, big, round, (_, _, big', round', l2))) =
      Laid-append words before from to pre _ l in
    let same : h + s + s' ≡ h + t = omega arith in
    let l3 = subst (λ p. Laid words (h + s) p to post) same l2 in
    let l4 =
      Laid-write words (h + s) (h + t) to h t post
        (Off-below words (h + s) (h + t) to h post l3 (omega (arith, big))) l3 in
    let off : (p : ℕ) → h ≤ p → Off from p pre =
      λ p le. Off-above words before from h p pre l1 le in
    let l5 = Laid-write words before from h h t pre (off h (omega arith)) l1 in
    append-Laid (join_words words h t to) before from to pre _
      (Laid-fixed_out (write words h t) before from h (h + t) to h pre
        (off (h + t + 8) (omega arith)) l5)
      (
        fixed-out (write words h t) (h + t) to h h (λ z. omega (arith, z))
            ∙ rw (==_refl h) (omega arith),
        fixed-out (write words h t) (h + t) to h (h + 8) (λ z. omega (arith, z, big))
            ∙ rw (ne→== (h + 8) h (λ z. omega (arith, z))) e,
        omega (arith, big),
        omega (arith, round, round'),
        Laid-fixed (write words h t) (h + s) (h + t) to h post l4,
      )
