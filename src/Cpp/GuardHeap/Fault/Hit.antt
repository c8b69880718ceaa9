-- ===== src/Cpp/GuardHeap/Fault/Hit.antt =====
-- Which faults the handler of the C++ guard heap takes for its own, and what it makes of them.
use heapforge.Prelude.{
  ℕ, zero, suc, ◌+◌, ◌-◌, ◌^◌, ◌≤◌, ◌<◌, ◌≡◌, ◌≢◌, ◌⊎◌, inl, inr, refl, arith, true, false, ◌||◌,
  ltb, leb, Option, some, add_word, sub_word, Bool-cases, ge→ltb, lt→ltb,
}
use native.Mathlib.Decide.{ℕ_discrete}
use heapforge.GuardHeap.Place.{mask_lem}
use heapforge.Cpp.GuardHeap.{
  Region, Process, Protection, read_write, max_regions, is_vacant, protect, is_quarantined,
  continue,
}
use heapforge.Cpp.GuardHeap.Fault.{
  Kind, resumes, hit, fault_loop, on_fault, use_after_free, underrun, overrun,
}

-- The address lies in the mapping of a region that is in use.
unfoldable pub Covers : Region → (addr : ℕ) → Type 0
Covers r addr =
    (is_vacant r.phase ≡ false)
    × (r.base ≤ addr)
    × (addr < r.base + r.total)
    × (r.base + r.total < 2 ^ 64)

outside_lem :
    (r : Region) (addr : ℕ)
    → Covers r addr
    → (ltb addr r.base || leb (add_word r.base r.total) addr) ≡ false
unfolding Covers
outside_lem r addr (_, lo, hi, small) =
    let e : add_word r.base r.total ≡ r.base + r.total = omega arith in
    rw (e, ge→ltb addr r.base lo) (ground (arith, hi))

-- The first region that covers the address is the one at `at`.
fault_loop_lem :
    (page : ℕ) (p : Process) (addr rounds i at : ℕ)
    → i ≤ at
    → at < i + rounds
    → Covers (p.regions at) addr
    → ((j : ℕ)
        → j < at
        → (is_vacant (p.regions j).phase ≡ true)
          ⊎ ((ltb addr (p.regions j).base
                || leb (add_word (p.regions j).base (p.regions j).total) addr)
              ≡ true))
    → fault_loop page p addr rounds i ≡ hit page p (p.regions at) addr
unfolding fault_loop Covers
fault_loop_lem page p addr zero i at lo hi c others = absurd (omega arith)
fault_loop_lem page p addr (suc rounds) i at lo hi c others = elim (ℕ_discrete i at) [
  | yes e ↦
      let (used, _, _, _) = c in
      let out = outside_lem (p.regions at) addr c in rw (e, used, out) refl
  | no ne ↦
      let rest =
        fault_loop_lem page p addr rounds (i + 1) at (omega arith) (omega arith) c others in
      elim (others i (omega arith)) [
        | inl v ↦ rw v rest
        | inr o ↦ elim (Bool-cases (is_vacant (p.regions i).phase)) [
          | inl v ↦ rw v rest
          | inr v ↦ rw (v, o) rest
        ]
      ]
]

-- The mappings of the regions in use lie in the address space and do not overlap.
pub record IsMapped (p : Process) : Type 0 where
  pub fits :
      (i : ℕ)
      → is_vacant (p.regions i).phase ≡ false
      → (p.regions i).base + (p.regions i).total < 2 ^ 64
  pub apart :
      (i j : ℕ)
      → i ≢ j
      → is_vacant (p.regions i).phase ≡ false
      → is_vacant (p.regions j).phase ≡ false
      → ((p.regions i).base + (p.regions i).total ≤ (p.regions j).base)
        ⊎ ((p.regions j).base + (p.regions j).total ≤ (p.regions i).base)

module _ (page : ℕ) (p : Process) (addr at : ℕ) (m : IsMapped p) (lt : at < max_regions)
    (used : is_vacant (p.regions at).phase ≡ false) (lo : (p.regions at).base ≤ addr)
    (hi : addr < (p.regions at).base + (p.regions at).total) where
  others_out :
      (j : ℕ)
      → j < at
      → (is_vacant (p.regions j).phase ≡ true)
        ⊎ ((ltb addr (p.regions j).base
              || leb (add_word (p.regions j).base (p.regions j).total) addr)
            ≡ true)
  others_out j below = elim (Bool-cases (is_vacant (p.regions j).phase)) [
    | inl v ↦ inl v
    | inr v ↦
        let small = m.fits j v in
        let e : add_word (p.regions j).base (p.regions j).total
            ≡ (p.regions j).base + (p.regions j).total =
          omega arith in
        inr (
          rw e (elim (m.apart at j (λ z. omega (arith, z, below)) used v) [
            | inl before ↦ ground (arith, before, hi)
            | inr behind ↦ ground (arith, behind, lo)
          ]))
  ]

  on_fault-hit : on_fault page p addr ≡ hit page p (p.regions at) addr
  unfolding on_fault Covers
  on_fault-hit =
      fault_loop_lem page p addr max_regions 0 at (omega arith) (omega arith)
        (used, lo, hi, m.fits at used) others_out

protect-in :
    (access : ℕ → Option Protection) (at n : ℕ) (to : Option Protection) (q : ℕ)
    → at ≤ q
    → q < at + n
    → protect access at n to q ≡ to
protect-in access at n to q lo hi = ground arith

protect-out :
    (access : ℕ → Option Protection) (at n : ℕ) (to : Option Protection) (q : ℕ)
    → (q < at) ⊎ (at + n ≤ q)
    → protect access at n to q ≡ access q
protect-out access at n to q (inl below) = ground arith
protect-out access at n to q (inr above) = ground arith

-- What a fault comes to that the handler lets pass.
pub record Resumed (page : ℕ) (p : Process) (r : Region) (addr : ℕ) (kind : Kind) (p' : Process)
    : Type 0 where
  pub counted : p'.violations ≡ add_word p.violations 1
  pub opened : p'.access addr ≡ some read_write
  pub others : (q : ℕ) → (q + page ≤ addr) ⊎ (addr + page ≤ q) → p'.access q ≡ p.access q
  pub after_free : is_quarantined r.phase ≡ true → kind ≡ use_after_free
  pub before : is_quarantined r.phase ≡ false → addr < r.base + page → kind ≡ underrun
  pub behind :
      is_quarantined r.phase ≡ false
      → r.base + page ≤ addr
      → r.base + r.total ≤ addr + page
      → kind ≡ overrun

-- A fault in the mapping of a region in use, under the policy to continue, is counted once and
-- resumes, with its address open for reading and writing, so that the instruction gets through the
-- next time, and with no change a page or more away; it is called a use after free in the
-- quarantine, else an underrun in the page before the data and an overrun in the page behind, for
-- pages whose size is a power of two and mappings that do not overlap, this one of at least two
-- pages.
pub on_fault-Resumed :
    (k : ℕ) (p : Process) (addr at : ℕ)
    → k ≤ 63
    → IsMapped p
    → at < max_regions
    → is_vacant (p.regions at).phase ≡ false
    → (p.regions at).base ≤ addr
    → addr < (p.regions at).base + (p.regions at).total
    → 2 ^ k + 2 ^ k ≤ (p.regions at).total
    → (p.regions at).policy ≡ continue
    → (kind : Kind) × (p' : Process) × (on_fault (2 ^ k) p addr ≡ resumes kind p')
      × Resumed (2 ^ k) p (p.regions at) addr kind p'
unfolding hit
on_fault-Resumed k p addr at small m lt used lo hi two policy =
    let r = p.regions at in
    let fits = m.fits at used in
    let (_, below, above) = mask_lem k addr small (omega arith) in
    let start : add_word r.base (2 ^ k) ≡ r.base + 2 ^ k = omega arith in
    let end : sub_word (add_word r.base r.total) (2 ^ k) ≡ r.base + r.total - 2 ^ k = omega arith in
    rw (on_fault-hit (2 ^ k) p addr at m lt used lo hi, hit, policy)
      (
        _,
        _,
        refl,
        record {
          counted = refl;
          opened = protect-in p.access _ (2 ^ k) (some read_write) addr below above;
          others = λ q out. protect-out p.access _ (2 ^ k) (some read_write) q (elim out [
            | inl lo' ↦ inl (omega (arith, lo', above))
            | inr hi' ↦ inr (omega (arith, hi', below))
          ]);
          after_free = λ e. rw e refl;
          before = λ e low. rw (e, start, lt→ltb addr (r.base + 2 ^ k) low) refl;
          behind = λ e low high.
              let up : leb (r.base + r.total - 2 ^ k) addr ≡ true = ground (arith, high, two) in
              rw (e, start, end, ge→ltb addr (r.base + 2 ^ k) low, up) refl;
        },
      )
