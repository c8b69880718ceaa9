-- ===== src/FreeList/Unlink.antt =====
-- `fl_unlink` on the ring of free blocks.
use heapforge.Prelude.{
  ℕ, ◌≡◌, ◌≢◌, inl, inr, refl, sym, ◌∙◌, ap, arith, ◌==◌, if◌then◌else◌, List, [], ◌∷◌, Bool-cases,
  ne→==,
}
use mathlib.Core.Path.{ap₂}
use heapforge.FreeList.{FreeList, Words, next, prev, set_next, set_prev, unlink}
use heapforge.FreeList.Fit.{In}
use heapforge.FreeList.Ring.{
  Segment, Segment-frame, IsNode, Apart, next-set_prev, prev-set_next, next-set_next_ne,
  prev-set_prev_ne, next-set_next, prev-set_prev,
}

-- The writes of `fl_unlink` of `x`.
abbrev pub bridged : Words → (x : ℕ) → Words
bridged words x =
    let w1 = set_next words (prev words x) (next words x) in set_prev w1 (next w1 x) (prev w1 x)

-- `x` lies between `p` and `f`.
module _ (words : Words) (p x f : ℕ) (node_p : IsNode p) (node_x : IsNode x) (node_f : IsNode f)
    (apart : p ≢ x) (forth : next words x ≡ f) (back : prev words x ≡ p) where
  pub bridged_eq : bridged words x ≡ set_prev (set_next words p f) f p
  bridged_eq =
      let w1 = set_next words (prev words x) (next words x) in
      let same : w1 ≡ set_next words p f = ap₂ (λ a b. set_next words a b) back forth in
      let n : next w1 x ≡ f =
        ap (λ w. next w x) same
        ∙ next-set_next_ne words f p x node_p node_x (λ e. apart (sym e))
        ∙ forth in
      let q : prev w1 x ≡ p =
        ap (λ w. prev w x) same ∙ prev-set_next words f p x node_p node_x ∙ back in
      ap₂ (λ a b. set_prev w1 a b) n q ∙ ap (λ w. set_prev w f p) same

  bridged-next_before : next (bridged words x) p ≡ f
  bridged-next_before =
      ap (λ w. next w p) bridged_eq
      ∙ next-set_prev (set_next words p f) p f p node_f node_p
      ∙ next-set_next words p f

  bridged-prev_after : prev (bridged words x) f ≡ p
  bridged-prev_after = ap (λ w. prev w f) bridged_eq ∙ prev-set_prev (set_next words p f) f p

  pub bridged-next_other : (z : ℕ) → IsNode z → z ≢ p → next (bridged words x) z ≡ next words z
  bridged-next_other z node ne =
      ap (λ w. next w z) bridged_eq
      ∙ next-set_prev (set_next words p f) p f z node_f node
      ∙ next-set_next_ne words f p z node_p node ne

  bridged-prev_other : (z : ℕ) → IsNode z → z ≢ f → prev (bridged words x) z ≡ prev words z
  bridged-prev_other z node ne =
      ap (λ w. prev w z) bridged_eq
      ∙ prev-set_prev_ne (set_next words p f) p f z node_f node ne
      ∙ prev-set_next words f p z node_p node

pub bridged-Segment :
    (words : Words) (p x : ℕ) (ms : List ℕ)
    → Segment words p (x ∷ ms) p
    → ((z : ℕ) → In z (x ∷ p ∷ ms) → IsNode z)
    → Apart (x ∷ p ∷ ms)
    → Segment (bridged words x) p ms p
unfolding Segment In Apart
bridged-Segment words p x [] (_, b, (n, _)) nodes (away, _) =
    let node_x = nodes x (inl refl) in
    let node_p = nodes p (inr (inl refl)) in
    let apart = away p (inl refl) in
    (
      bridged-next_before words p x p node_p node_x node_p apart n b,
      bridged-prev_after words p x p node_p node_x node_p apart n b,
    )
bridged-Segment words p x (m ∷ ms) (_, b, (n, _, s)) nodes (away, (lone, (once, _))) =
    let node_x = nodes x (inl refl) in
    let node_p = nodes p (inr (inl refl)) in
    let node_m = nodes m (inr (inr (inl refl))) in
    let apart = away p (inl refl) in
    (
      bridged-next_before words p x m node_p node_x node_m apart n b,
      bridged-prev_after words p x m node_p node_x node_m apart n b,
      Segment-frame words (bridged words x) m p ms
          (λ z among.
            bridged-next_other words p x m node_p node_x node_m apart n b z
              (nodes z (inr (inr among))) (lone z among))
          (λ z among.
            bridged-prev_other words p x m node_p node_x node_m apart n b z
              (nodes z (inr (rest z among))) (not_first z among))
          s,
    )
  where
    rest : (z : ℕ) → In z (p ∷ ms) → In z (p ∷ m ∷ ms)
    rest z (inl e) = inl e
    rest z (inr i) = inr (inr i)

    not_first : (z : ℕ) → In z (p ∷ ms) → z ≢ m
    not_first z (inl e) = λ z_m. lone m (inl refl) (sym z_m ∙ e)
    not_first z (inr i) = once z i

-- The node behind `x`, before and after.
next_ne :
    (words : Words) (p x : ℕ) (ms : List ℕ)
    → Segment words p (x ∷ ms) p
    → ((z : ℕ) → In z (x ∷ p ∷ ms) → IsNode z)
    → Apart (x ∷ p ∷ ms)
    → (next words x ≢ x) × (next (bridged words x) x ≢ x)
unfolding Segment In Apart
next_ne words p x [] (_, b, (n, _)) nodes (away, _) =
    let node_x = nodes x (inl refl) in
    let node_p = nodes p (inr (inl refl)) in
    let apart = away p (inl refl) in
    let kept =
      bridged-next_other words p x p node_p node_x node_p apart n b x node_x (λ e. apart (sym e)) in
    ((λ e. apart (sym n ∙ e)), λ e. apart (sym n ∙ sym kept ∙ e))
next_ne words p x (m ∷ ms) (_, b, (n, _, _)) nodes (away, _) =
    let node_x = nodes x (inl refl) in
    let node_p = nodes p (inr (inl refl)) in
    let node_m = nodes m (inr (inr (inl refl))) in
    let apart = away p (inl refl) in
    let kept =
      bridged-next_other words p x m node_p node_x node_m apart n b x node_x (λ e. apart (sym e)) in
    (
      (λ e. away m (inr (inl refl)) (sym n ∙ e)),
      λ e. away m (inr (inl refl)) (sym n ∙ sym kept ∙ e),
    )

moved_off : (x h f : ℕ) → f ≢ x → (if h == x then f else h) ≢ x
moved_off x h f ne = elim (Bool-cases (h == x)) [
  | inl e ↦ rw e ne
  | inr e ↦ rw e (ground (arith, e))
]

-- `fl_unlink` of a node takes it out of the ring of free blocks, whose links in both directions
-- lead through the other nodes as before, and neither the head nor the cursor stays on it, where
-- the nodes are different multiples of 16 in the address space and the ring has another node.
pub unlink-Segment :
    (a : FreeList) (p x : ℕ) (ms : List ℕ)
    → Segment a.words p (x ∷ ms) p
    → ((z : ℕ) → In z (x ∷ p ∷ ms) → IsNode z)
    → Apart (x ∷ p ∷ ms)
    → let b = unlink a x in Segment b.words p ms p × (b.free_head ≢ x) × (b.cursor ≢ x)
unfolding unlink
unlink-Segment a p x ms s nodes apart =
    let (before, after) = next_ne a.words p x ms s nodes apart in
    rw (ne→== (next a.words x) x before) (
      bridged-Segment a.words p x ms s nodes apart,
      moved_off x a.free_head (next (bridged a.words x) x) after,
      moved_off x a.cursor (next (bridged a.words x) x) after,
    )
