-- ===== src/FreeList/Nodes.antt =====
-- The nodes of the free blocks, and where they lie.
use heapforge.Prelude.{
  ℕ, ◌+◌, ◌%◌, ◌≤◌, ◌<◌, ◌≡◌, inl, inr, refl, ◌∙◌, arith, if◌then◌else◌, List, [], ◌∷◌, ◌++◌,
  Bool-cases,
}
use mathlib.Core.Path.{subst}
use native.Mathlib.Decide.{ℕ_discrete}
use heapforge.Prelude.Occurrences.{count, count_ne, count_self}
use heapforge.FreeList.{Words}
use heapforge.FreeList.Layout.{Block, Laid, Laid-le, Off, Off-below}

abbrev pub free_nodes : (at : ℕ) → List Block → List ℕ
free_nodes at [] = []
free_nodes at (b ∷ bs) =
    let rest = free_nodes (at + b.size) bs in if b.is_used then rest else (at + 16) ∷ rest

-- Where the blocks end, and where the last one begins.
abbrev pub end_of : (at : ℕ) → List Block → ℕ
end_of at [] = at
end_of at (b ∷ bs) = end_of (at + b.size) bs

abbrev pub last_of : (before at : ℕ) → List Block → ℕ
last_of before at [] = before
last_of before at (b ∷ bs) = last_of at (at + b.size) bs

pub Laid-append :
    (words : Words) (before at to : ℕ) (bs cs : List Block)
    → Laid words before at to (bs ++ cs)
    → Laid words before at (end_of at bs) bs
      × Laid words (last_of before at bs) (end_of at bs) to cs
unfolding Laid
Laid-append words before at to [] cs l = (refl, l)
Laid-append words before at to (b ∷ bs) cs (e, e', big, round, l) =
    let (l1, l2) = Laid-append words at (at + b.size) to bs cs l in ((e, e', big, round, l1), l2)

pub append-Laid :
    (words : Words) (before at to : ℕ) (bs cs : List Block)
    → Laid words before at (end_of at bs) bs
    → Laid words (last_of before at bs) (end_of at bs) to cs
    → Laid words before at to (bs ++ cs)
unfolding Laid
append-Laid words before at to [] cs l1 l2 = l2
append-Laid words before at to (b ∷ bs) cs (e, e', big, round, l1) l2 =
    (e, e', big, round, append-Laid words at (at + b.size) to bs cs l1 l2)

pub count-free_nodes :
    (z at : ℕ) (bs cs : List Block)
    → count z (free_nodes at (bs ++ cs))
      ≡ count z (free_nodes at bs) + count z (free_nodes (end_of at bs) cs)
count-free_nodes z at [] cs = omega arith
count-free_nodes z at (b ∷ bs) cs =
    let rest = count-free_nodes z (at + b.size) bs cs in
    elim (Bool-cases b.is_used) [ inl e ↦ rw e rest | inr e ↦ rw e (omega (arith, rest)) ]

-- A node of a free block: between the blocks' ends, with its two words behind the header, at a
-- multiple of 16 if the first block is.
pub record IsPlaced (at to z : ℕ) (bs : List Block) : Type 0 where
  pub low : at + 16 ≤ z
  pub high : z + 16 ≤ to
  pub round : z % 16 ≡ 0
  pub off : Off at z bs × Off at (z + 8) bs
  pub once : count z (free_nodes at bs) ≡ 1

before_nodes :
    (words : Words) (before at to z : ℕ) (bs : List Block)
    → Laid words before at to bs
    → z < at + 16
    → count z (free_nodes at bs) ≡ 0
unfolding Laid
before_nodes words before at to z [] l lt = refl
before_nodes words before at to z (b ∷ bs) (_, _, big, _, l) lt =
    let rest = before_nodes words at (at + b.size) to z bs l (omega arith) in
    elim (Bool-cases b.is_used) [
      | inl e ↦ rw e rest
      | inr e ↦ rw e (
          omega (
            arith,
            rest,
            count_ne z (at + 16) (free_nodes (at + b.size) bs) (λ h. omega (arith, h, lt)),
          ))
    ]

-- An address behind all blocks.
pub Off-above :
    (words : Words) (before at to p : ℕ) (bs : List Block)
    → Laid words before at to bs
    → to ≤ p
    → Off at p bs
unfolding Laid Off
Off-above words before at to p [] l le = tt
Off-above words before at to p (b ∷ bs) (_, _, big, _, l) le =
    let ends = Laid-le words at (at + b.size) to bs l in
    (
      (λ h. omega (arith, h, le, ends)),
      (λ h. omega (arith, h, le, ends, big)),
      Off-above words at (at + b.size) to p bs l le,
    )

pub node-IsPlaced :
    (words : Words) (before at to z : ℕ) (bs : List Block)
    → at % 16 ≡ 0
    → Laid words before at to bs
    → 1 ≤ count z (free_nodes at bs)
    → IsPlaced at to z bs
unfolding Laid Off
node-IsPlaced words before at to z [] aligned l among = absurd (omega arith)
node-IsPlaced words before at to z (b ∷ bs) aligned (e0, e1, big, round, l) among =
    let ends = Laid-le words at (at + b.size) to bs l in
    let rest = free_nodes (at + b.size) bs in
    let later : 1 ≤ count z (free_nodes (at + b.size) bs) → IsPlaced (at + b.size) to z bs =
      λ h. node-IsPlaced words at (at + b.size) to z bs (omega arith) l h in
    let lift : IsPlaced (at + b.size) to z bs
        → count z (free_nodes at (b ∷ bs)) ≡ 1
        → IsPlaced at to z (b ∷ bs) =
      λ p once. record {
        low = omega (arith, p.low);
        high = p.high;
        round = p.round;
        off = (
          ((λ h. omega (arith, h, p.low, big)), (λ h. omega (arith, h, p.low, big)), p.off.0),
          ((λ h. omega (arith, h, p.low, big)), (λ h. omega (arith, h, p.low, big)), p.off.1),
        );
        once = once;
      } in
    elim (Bool-cases b.is_used) [
      | inl e ↦
          let among' : 1 ≤ count z rest =
            subst (λ u. 1 ≤ count z (if u then rest else (at + 16) ∷ rest)) e among in
          let p = later among' in lift p (rw e p.once)
      | inr e ↦
          let among' : 1 ≤ count z ((at + 16) ∷ rest) =
            subst (λ u. 1 ≤ count z (if u then rest else (at + 16) ∷ rest)) e among in
          elim (ℕ_discrete z (at + 16)) [
            | yes own ↦ record {
              low = omega (arith, own);
              high = omega (arith, own, ends, big);
              round = omega (arith, own, aligned);
              off = (
                (
                  (λ h. omega (arith, h, own)),
                  (λ h. omega (arith, h, own)),
                  Off-below words at (at + b.size) to z bs l (omega (arith, own, big)),
                ),
                (
                  (λ h. omega (arith, h, own)),
                  (λ h. omega (arith, h, own)),
                  Off-below words at (at + b.size) to (z + 8) bs l (omega (arith, own, big)),
                ),
              );
              once =
                  let none_later =
                    before_nodes words at (at + b.size) to z bs l (omega (arith, own, big)) in
                  rw e (
                    rw own (
                      omega (
                        arith,
                        count_self (at + 16) rest,
                        subst (λ k. count k rest ≡ 0) own none_later,
                      )));
            }
            | no ne ↦
                let same = count_ne z (at + 16) rest ne in
                let p = later (omega (arith, same, among')) in lift p (rw e (same ∙ p.once))
          ]
    ]
