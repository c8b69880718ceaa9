-- ===== src/FreeList/Fit.antt =====
-- What `find_fit` finds on a ring of free blocks.
use heapforge.Prelude.{
  ℕ, zero, suc, ◌≤◌, ◌<◌, ◌≡◌, ◌≢◌, ◌⊎◌, inl, inr, refl, ap, arith, ◌&&◌, ltb, leb, if◌then◌else◌,
  Option, none, some, List, [], ◌∷◌, length, Bool-cases, ==_refl, ne→==,
}
use heapforge.FreeList.{Words, next, hdr_size, header_of, fit_loop, best_loop}

-- The links lead from `n` through the nodes `ms`, none of which is `start`, to `start`.
unfoldable pub Run : Words → (start n : ℕ) → List ℕ → Type 0
Run words start n [] = next words n ≡ start
Run words start n (m ∷ ms) = (next words n ≡ m) × (m ≢ start) × Run words start m ms

unfoldable pub In : ℕ → List ℕ → Type 0
In x [] = ⊥
In x (y ∷ ys) = (x ≡ y) ⊎ In x ys

abbrev pub size_of : Words → (n : ℕ) → ℕ
size_of words n = hdr_size words (header_of n)

-- The first node with room.
pub first_of : Words → (need : ℕ) → List ℕ → Option ℕ
first_of words need [] = none
first_of words need (n ∷ ns) = if leb need (size_of words n) then some n else first_of words need ns

-- The node of the least size with room, if that is less than `best_sz`; else `best`.
pub smallest_of : Words → (need : ℕ) → List ℕ → (best best_sz : ℕ) → ℕ
smallest_of words need [] best best_sz = best
smallest_of words need (n ∷ ns) best best_sz =
    let better = leb need (size_of words n) && ltb (size_of words n) best_sz in
    smallest_of words need ns (if better then n else best)
      (if better then size_of words n else best_sz)

-- The loop goes round the ring once, in as many rounds as there are nodes.
pub fit_loop-first_of :
    (words : Words) (need start rounds n : ℕ) (ms : List ℕ)
    → Run words start n ms
    → length ms < rounds
    → fit_loop words need start rounds n ≡ first_of words need (n ∷ ms)
unfolding fit_loop first_of Run
fit_loop-first_of words need start zero n ms run enough = absurd (omega arith)
fit_loop-first_of words need start (suc rounds) n [] run enough = rw (run, ==_refl start)
fit_loop-first_of words need start (suc rounds) n (m ∷ ms) (at, ne, run) enough =
    rw (at, ne→== _ _ ne, fit_loop-first_of words need start rounds m ms run (omega arith))

pub best_loop-smallest_of :
    (words : Words) (need start rounds n best best_sz : ℕ) (ms : List ℕ)
    → Run words start n ms
    → length ms < rounds
    → best_loop words need start rounds n best best_sz
      ≡ smallest_of words need (n ∷ ms) best best_sz
unfolding best_loop smallest_of Run
best_loop-smallest_of words need start zero n best best_sz ms run enough = absurd (omega arith)
best_loop-smallest_of words need start (suc rounds) n best best_sz [] run enough =
    rw (run, ==_refl start)
best_loop-smallest_of words need start (suc rounds) n best best_sz (m ∷ ms) (at, ne, run) enough =
    rw (at, ne→== _ _ ne, best_loop-smallest_of words need start rounds m _ _ ms run (omega arith))

-- A node of the ring with room for `need`.
pub record Fits (words : Words) (need : ℕ) (ns : List ℕ) (r : ℕ) : Type 0 where
  pub among : In r ns
  pub room : need ≤ size_of words r

later :
    {words : Words} {need n r : ℕ} {ns : List ℕ} → Fits words need ns r → Fits words need (n ∷ ns) r
unfolding In
later f = record { among = inr f.among; room = f.room }

pub first_of-Fits :
    (words : Words) (need : ℕ) (ns : List ℕ) (r : ℕ)
    → first_of words need ns ≡ some r
    → Fits words need ns r
unfolding first_of In
first_of-Fits words need [] r h = absurd (cc)
first_of-Fits words need (n ∷ ns) r h = elim (Bool-cases (leb need (size_of words n))) [
  | inl fits ↦
      let at : n ≡ r = cc (rw fits at h) in
      rw (← at) (record { among = inl refl; room = ground (arith, fits) })
  | inr small ↦
      let h' : first_of words need ns ≡ some r = rw small at h in
      later (first_of-Fits words need ns r h')
]

pub first_of-none :
    (words : Words) (need : ℕ) (ns : List ℕ)
    → first_of words need ns ≡ none
    → (x : ℕ) → In x ns
    → size_of words x < need
unfolding first_of In
first_of-none words need [] h x among = elim among [ ]
first_of-none words need (n ∷ ns) h x among = elim (Bool-cases (leb need (size_of words n))) [
  | inl fits ↦ absurd (cc (rw fits at h))
  | inr small ↦
      let h' : first_of words need ns ≡ none = rw small at h in
      elim among [
        | inl here ↦ rw here (ground (arith, small))
        | inr there ↦ first_of-none words need ns h' x there
      ]
]

-- The result is the start value, or fits and is smaller; no node that fits is smaller.
pub record Least (words : Words) (need : ℕ) (ns : List ℕ) (best best_sz r : ℕ) : Type 0 where
  pub found :
      ((r ≡ best) × ((x : ℕ) → In x ns → need ≤ size_of words x → best_sz ≤ size_of words x))
      ⊎ (Fits words need ns r
          × (size_of words r < best_sz)
          × ((x : ℕ) → In x ns → need ≤ size_of words x → size_of words r ≤ size_of words x))

Least-better :
    (words : Words) (need n : ℕ) (ns : List ℕ) (best best_sz r : ℕ)
    → need ≤ size_of words n
    → size_of words n < best_sz
    → Least words need ns n (size_of words n) r
    → Least words need (n ∷ ns) best best_sz r
unfolding In
Least-better words need n ns best best_sz r room less l = record {
  found = inr (elim l.found [
    | inl (e, all) ↦
        let own : size_of words r ≡ size_of words n = ap (size_of words) e in
        (
          record { among = inl e; room = omega (arith, own) },
          omega (arith, own),
          λ x among fits. elim among [
            | inl here ↦
                let same : size_of words x ≡ size_of words n = ap (size_of words) here in
                omega (arith, same, own)
            | inr there ↦ omega (arith, all x there fits, own)
          ],
        )
    | inr (f, lt, all) ↦ (
      later f,
      omega arith,
      λ x among fits. elim among [
        | inl here ↦
            let same : size_of words x ≡ size_of words n = ap (size_of words) here in
            omega (arith, same)
        | inr there ↦ all x there fits
      ],
    )
  ]);
}

Least-worse :
    (words : Words) (need n : ℕ) (ns : List ℕ) (best best_sz r : ℕ)
    → (need ≤ size_of words n → best_sz ≤ size_of words n)
    → Least words need ns best best_sz r
    → Least words need (n ∷ ns) best best_sz r
unfolding In
Least-worse words need n ns best best_sz r worse l = record {
  found = elim l.found [
    | inl (e, all) ↦ inl (
      e,
      λ x among fits. elim among [
        | inl here ↦
            let same : size_of words x ≡ size_of words n = ap (size_of words) here in
            omega (arith, same, worse (omega (arith, same)))
        | inr there ↦ all x there fits
      ],
    )
    | inr (f, lt, all) ↦ inr (
      later f,
      lt,
      λ x among fits. elim among [
        | inl here ↦
            let same : size_of words x ≡ size_of words n = ap (size_of words) here in
            omega (arith, same, worse (omega (arith, same)))
        | inr there ↦ all x there fits
      ],
    )
  ];
}

pub smallest_of-Least :
    (words : Words) (need : ℕ) (ns : List ℕ) (best best_sz : ℕ)
    → Least words need ns best best_sz (smallest_of words need ns best best_sz)
unfolding smallest_of In
smallest_of-Least words need [] best best_sz = record {
  found = inl (refl, λ x among. absurd among);
}
smallest_of-Least words need (n ∷ ns) best best_sz =
    elim (Bool-cases (leb need (size_of words n) && ltb (size_of words n) best_sz)) [
      | inl better ↦ rw better (
          Least-better words need n ns best best_sz _ (ground (arith, better))
            (ground (arith, better)) (smallest_of-Least words need ns n (size_of words n)))
      | inr worse ↦ rw worse (
          Least-worse words need n ns best best_sz _ (λ h. ground (arith, worse))
            (smallest_of-Least words need ns best best_sz))
    ]
