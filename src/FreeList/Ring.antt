-- ===== src/FreeList/Ring.antt =====
-- The ring of free blocks with both of its links, and `fl_insert`.
use heapforge.Prelude.{
  ℕ, ◌%◌, ◌^◌, ◌<◌, ◌≡◌, ◌≢◌, inl, inr, refl, sym, ◌∙◌, ap, arith, List, [], ◌∷◌, ==_refl, ne→==,
  add_word,
}
use heapforge.FreeList.{FreeList, Words, next, prev, set_next, set_prev, insert}
use heapforge.FreeList.Fit.{In}

-- The nodes `ms` lie between `x` and `y`, in this order by their links in both directions.
unfoldable pub Segment : Words → (x : ℕ) → List ℕ → (y : ℕ) → Type 0
Segment words x [] y = (next words x ≡ y) × (prev words y ≡ x)
Segment words x (m ∷ ms) y = (next words x ≡ m) × (prev words m ≡ x) × Segment words m ms y

-- Writes that keep the links of a segment.
pub Segment-frame :
    (words words' : Words) (x y : ℕ) (ms : List ℕ)
    → ((z : ℕ) → In z (x ∷ ms) → next words' z ≡ next words z)
    → ((z : ℕ) → In z (y ∷ ms) → prev words' z ≡ prev words z)
    → Segment words x ms y
    → Segment words' x ms y
unfolding Segment In
Segment-frame words words' x y [] forth back (n, p) =
    (forth x (inl refl) ∙ n, back y (inl refl) ∙ p)
Segment-frame words words' x y (m ∷ ms) forth back (n, p, s) = (
  forth x (inl refl) ∙ n,
  back m (inr (inl refl)) ∙ p,
  Segment-frame words words' m y ms (λ z h. forth z (inr h)) (λ z h. back z (later z h)) s,
)
  where
    later : (z : ℕ) → In z (y ∷ ms) → In z (y ∷ m ∷ ms)
    later z (inl e) = inl e
    later z (inr h) = inr (inr h)

-- A node is at a multiple of 16 in the address space.
abbrev pub IsNode : ℕ → Type 0
IsNode x = (x % 16 ≡ 0) × (x < 2 ^ 64)

-- What one write does to the two links of a node.
module _ (words : Words) (v x y : ℕ) (node : IsNode x) (node' : IsNode y) where
  pub next-set_prev : next (set_prev words x v) y ≡ next words y
  next-set_prev = rw (ne→== y (add_word x 8) (λ e. omega (arith, e, node, node'))) refl

  pub prev-set_next : prev (set_next words x v) y ≡ prev words y
  prev-set_next = rw (ne→== (add_word y 8) x (λ e. omega (arith, e, node, node'))) refl

  pub next-set_next_ne : y ≢ x → next (set_next words x v) y ≡ next words y
  next-set_next_ne ne = rw (ne→== y x ne) refl

  pub prev-set_prev_ne : y ≢ x → prev (set_prev words x v) y ≡ prev words y
  prev-set_prev_ne ne =
      rw (ne→== (add_word y 8) (add_word x 8) (λ e. ne (omega (arith, e, node, node')))) refl

pub next-set_next : (words : Words) (x v : ℕ) → next (set_next words x v) x ≡ v
next-set_next words x v = rw (==_refl x) refl

pub prev-set_prev : (words : Words) (x v : ℕ) → prev (set_prev words x v) x ≡ v
prev-set_prev words x v = rw (==_refl (add_word x 8)) refl

-- The nodes differ.
unfoldable pub Apart : List ℕ → Type 0
Apart [] = Unit {0}
Apart (x ∷ xs) = ((z : ℕ) → In z xs → z ≢ x) × Apart xs

-- The writes of `fl_insert` of `u` behind the head `h` of a ring.
abbrev pub spliced : Words → (h u : ℕ) → Words
spliced words h u =
    let w1 = set_next words u (next words h) in
    let w2 = set_prev w1 u h in let w3 = set_prev w2 (next w2 h) u in set_next w3 h u

module _ (words : Words) (h u f : ℕ) (node_h : IsNode h) (node_u : IsNode u) (node_f : IsNode f)
    (apart : h ≢ u) (first : next words h ≡ f) where
  w1 : Words
  w1 = set_next words u (next words h)

  w2 : Words
  w2 = set_prev w1 u h

  w3 : Words
  w3 = set_prev w2 (next w2 h) u

  reads : next w2 h ≡ f
  unfolding w2 w1
  reads =
      next-set_prev w1 h u h node_u node_h
      ∙ next-set_next_ne words (next words h) u h node_u node_h apart
      ∙ first

  w3_eq : w3 ≡ set_prev w2 f u
  unfolding w3
  w3_eq = ap (λ p. set_prev w2 p u) reads

  next_head : next (spliced words h u) h ≡ u
  unfolding w1 w2 w3
  next_head = next-set_next w3 h u

  next_new : next (spliced words h u) u ≡ f
  unfolding w1 w2 w3
  next_new =
      next-set_next_ne w3 u h u node_h node_u (λ e. apart (sym e))
      ∙ ap (λ w. next w u) w3_eq
      ∙ next-set_prev w2 u f u node_f node_u
      ∙ next-set_prev w1 h u u node_u node_u
      ∙ next-set_next words u (next words h)
      ∙ first

  next_other : (z : ℕ) → IsNode z → z ≢ h → z ≢ u → next (spliced words h u) z ≡ next words z
  unfolding w1 w2 w3
  next_other z node ne ne' =
      next-set_next_ne w3 u h z node_h node ne
      ∙ ap (λ w. next w z) w3_eq
      ∙ next-set_prev w2 u f z node_f node
      ∙ next-set_prev w1 h u z node_u node
      ∙ next-set_next_ne words (next words h) u z node_u node ne'

  prev_first : prev (spliced words h u) f ≡ u
  unfolding w1 w2 w3
  prev_first =
      prev-set_next w3 u h f node_h node_f ∙ ap (λ w. prev w f) w3_eq ∙ prev-set_prev w2 f u

  prev_new : u ≢ f → prev (spliced words h u) u ≡ h
  unfolding w1 w2 w3
  prev_new ne =
      prev-set_next w3 u h u node_h node_u
      ∙ ap (λ w. prev w u) w3_eq
      ∙ prev-set_prev_ne w2 u f u node_f node_u ne
      ∙ prev-set_prev w1 u h

  prev_other : (z : ℕ) → IsNode z → z ≢ f → z ≢ u → prev (spliced words h u) z ≡ prev words z
  unfolding w1 w2 w3
  prev_other z node ne ne' =
      prev-set_next w3 u h z node_h node
      ∙ ap (λ w. prev w z) w3_eq
      ∙ prev-set_prev_ne w2 u f z node_f node ne
      ∙ prev-set_prev_ne w1 h u z node_u node ne'
      ∙ prev-set_next words (next words h) u z node_u node

pub spliced-Segment :
    (words : Words) (h u : ℕ) (ms : List ℕ)
    → Segment words h ms h
    → ((z : ℕ) → In z (u ∷ h ∷ ms) → IsNode z)
    → Apart (u ∷ h ∷ ms)
    → Segment (spliced words h u) h (u ∷ ms) h
unfolding Segment In Apart
spliced-Segment words h u [] (n, p) nodes (fresh, _) =
    let node_u = nodes u (inl refl) in
    let node_h = nodes h (inr (inl refl)) in
    let apart = fresh h (inl refl) in
    (
      next_head words h u h node_h node_u node_h apart n,
      prev_new words h u h node_h node_u node_h apart n (λ e. apart (sym e)),
      (
        next_new words h u h node_h node_u node_h apart n,
        prev_first words h u h node_h node_u node_h apart n,
      ),
    )
spliced-Segment words h u (m ∷ ms) (n, p, s) nodes (fresh, (away, (once, _))) =
    let node_u = nodes u (inl refl) in
    let node_h = nodes h (inr (inl refl)) in
    let node_m = nodes m (inr (inr (inl refl))) in
    let apart = fresh h (inl refl) in
    (
      next_head words h u m node_h node_u node_m apart n,
      prev_new words h u m node_h node_u node_m apart n (λ e. fresh m (inr (inl refl)) (sym e)),
      (
        next_new words h u m node_h node_u node_m apart n,
        prev_first words h u m node_h node_u node_m apart n,
        Segment-frame words (spliced words h u) m h ms
            (λ z among.
              next_other words h u m node_h node_u node_m apart n z (nodes z (inr (inr among)))
                (away z among) (fresh z (inr among)))
            (λ z among.
              prev_other words h u m node_h node_u node_m apart n z (nodes z (inr (rest z among)))
                (not_first z among) (fresh z (rest z among)))
            s,
      ),
    )
  where
    rest : (z : ℕ) → In z (h ∷ ms) → In z (h ∷ m ∷ ms)
    rest z (inl e) = inl e
    rest z (inr i) = inr (inr i)

    not_first : (z : ℕ) → In z (h ∷ ms) → z ≢ m
    not_first z (inl e) = λ z_m. away m (inl refl) (sym z_m ∙ e)
    not_first z (inr i) = once z i

-- `fl_insert` into a ring of free blocks keeps the head and puts the node behind it, with the links
-- in both directions leading through the other nodes as before, where the nodes are different
-- multiples of 16 in the address space.
pub insert-Segment :
    (a : FreeList) (u : ℕ) (ms : List ℕ)
    → a.free_head ≢ 0
    → Segment a.words a.free_head ms a.free_head
    → ((z : ℕ) → In z (u ∷ a.free_head ∷ ms) → IsNode z)
    → Apart (u ∷ a.free_head ∷ ms)
    → let b = insert a u in
      (b.free_head ≡ a.free_head) × Segment b.words a.free_head (u ∷ ms) a.free_head
unfolding insert
insert-Segment a u ms some_free s nodes apart =
    rw (ne→== a.free_head 0 some_free)
      (refl, spliced-Segment a.words a.free_head u ms s nodes apart)
