-- ===== src/FreeList/Rotate.antt =====
-- A ring read from any of its nodes.
use heapforge.Prelude.{ℕ, ◌≤◌, ◌≡◌, inl, inr, refl, sym, ap, arith, List, [], ◌∷◌, ◌++◌, ==_refl}
use native.Mathlib.Decide.{ℕ_discrete}
use mathlib.Core.List.{append_assoc, append-nil}
use mathlib.Core.Path.{subst}
use heapforge.Prelude.Occurrences.{count, count-append, count_self, count_ne}
use heapforge.FreeList.{Words, next, prev}
use heapforge.FreeList.Fit.{In}
use heapforge.FreeList.Ring.{Segment, Apart}

pub count-In : (z : ℕ) (ns : List ℕ) → In z ns → 1 ≤ count z ns
unfolding In
count-In z [] i = elim i [ ]
count-In z (n ∷ ns) (inl e) = let own = ==_refl z in rw (← e, own) (omega arith)
count-In z (n ∷ ns) (inr i) = omega (arith, count-In z ns i)

pub In_of_count : (z : ℕ) (ns : List ℕ) → 1 ≤ count z ns → In z ns
unfolding In
In_of_count z [] h = absurd (omega arith)
In_of_count z (n ∷ ns) h = elim (ℕ_discrete z n) [
  | yes e ↦ inl e
  | no ne ↦ inr (In_of_count z ns (omega (arith, h, count_ne z n ns ne)))
]

pub Apart-count : (ns : List ℕ) → ((z : ℕ) → count z ns ≤ 1) → Apart ns
unfolding Apart
Apart-count [] once = tt
Apart-count (n ∷ ns) once = (
  λ z i e.
      let own = count_self n ns in
      let h = count-In n ns (subst (λ k. In k ns) e i) in omega (arith, once n, own, h),
  Apart-count ns (λ z. omega (arith, once z)),
)

pub Segment-snoc :
    (words : Words) (x y z : ℕ) (ms : List ℕ)
    → Segment words x ms y
    → next words y ≡ z
    → prev words z ≡ y
    → Segment words x (ms ++ (y ∷ [])) z
unfolding Segment
Segment-snoc words x y z [] (n, b) n' b' = (n, b, (n', b'))
Segment-snoc words x y z (m ∷ ms) (n, b, s) n' b' = (n, b, Segment-snoc words m y z ms s n' b')

-- The same ring with `x` behind its first node.
pub record Before (words : Words) (x : ℕ) (ns : List ℕ) : Type 0 where
  pub first : ℕ
  pub rest : List ℕ
  pub ring : Segment words first (x ∷ rest) first
  pub same : (z : ℕ) → count z (first ∷ x ∷ rest) ≡ count z ns

find-Before :
    (words : Words) (p x : ℕ) (ms rest : List ℕ)
    → Segment words p (ms ++ rest) p
    → In x ms
    → Before words x (p ∷ (ms ++ rest))
unfolding Segment In
find-Before words p x [] rest s i = elim i [ ]
find-Before words p x (m ∷ ms) rest s (inl e) =
    rw e (record { first = p; rest = ms ++ rest; ring = s; same = λ z. refl })
find-Before words p x (m ∷ ms) rest (n, b, s) (inr i) =
    let turned : Segment words m (ms ++ (rest ++ (p ∷ []))) m =
      subst (λ l. Segment words m l m) (append_assoc ms rest (p ∷ []))
        (Segment-snoc words m p m (ms ++ rest) s n b) in
    let f = find-Before words m x ms (rest ++ (p ∷ [])) turned i in
    record {
      first = f.first;
      rest = f.rest;
      ring = f.ring;
      same = λ z. omega (
        arith,
        f.same z,
        count-append z ms (rest ++ (p ∷ [])),
        count-append z rest (p ∷ []),
        count-append z ms rest,
      );
    }

-- Any node of a ring with another node.
pub ring-Before :
    (words : Words) (p x m : ℕ) (ms : List ℕ)
    → Segment words p (m ∷ ms) p
    → In x (p ∷ m ∷ ms)
    → Before words x (p ∷ m ∷ ms)
unfolding Segment In
ring-Before words p x m ms s (inr i) =
    let nil = append-nil (m ∷ ms) in
    subst (λ l. Before words x (p ∷ l)) nil
      (find-Before words p x (m ∷ ms) [] (subst (λ l. Segment words p l p) (sym nil) s) i)
ring-Before words p x m ms (n, b, s) (inl e) =
    let turned = Segment-snoc words m p m ms s n b in
    let nil = append-nil (ms ++ (p ∷ [])) in
    let here : In x (ms ++ (p ∷ [])) =
      In_of_count x (ms ++ (p ∷ [])) (
        omega (arith, count-append x ms (p ∷ []), ap (λ k. count k (p ∷ [])) e, count_self p [])) in
    let f =
      find-Before words m x (ms ++ (p ∷ [])) [] (subst (λ l. Segment words m l m) (sym nil) turned)
        here in
    record {
      first = f.first;
      rest = f.rest;
      ring = f.ring;
      same = λ z.
          omega (arith, f.same z, count-append z (ms ++ (p ∷ [])) [], count-append z ms (p ∷ []));
    }

-- The ring read from one of its nodes.
pub record From (words : Words) (x : ℕ) (ns : List ℕ) : Type 0 where
  pub rest : List ℕ
  pub ring : Segment words x rest x
  pub same : (z : ℕ) → count z (x ∷ rest) ≡ count z ns

pub ring-From :
    (words : Words) (p x : ℕ) (ms : List ℕ)
    → Segment words p ms p
    → In x (p ∷ ms)
    → From words x (p ∷ ms)
unfolding Segment In
ring-From words p x ms s (inl e) = rw e (record { rest = ms; ring = s; same = λ z. refl })
ring-From words p x [] s (inr i) = elim i [ ]
ring-From words p x (m ∷ ms) s (inr i) =
    let f = ring-Before words p x m ms s (inr i) in
    let (n, b, t) = f.ring in
    record {
      rest = f.rest ++ (f.first ∷ []);
      ring = Segment-snoc words x f.first x f.rest t n b;
      same = λ z. omega (arith, f.same z, count-append z f.rest (f.first ∷ []));
    }
