-- ===== src/PersistentPool/Recovery/Bound.antt =====
-- When the replay loop of `recover` ends: its bound is a `uint64_t`, and so is what it counts.
use heapforge.Prelude.{
  ℕ, zero, suc, ◌+◌, ◌^◌, ◌≤◌, ◌<◌, ◌≡◌, ◌⊎◌, inl, inr, refl, arith, none, some, add_word, ltb,
  ltb→lt, ltb→ge, Bool-cases, le→leb, gt→leb,
}
use native.Mathlib.Decide.{ℕ_discrete}
use heapforge.PersistentPool.{wal_entries}
use heapforge.PersistentPool.Recovery.{Replayed, replay_one, replay}
use heapforge.PersistentPool.Recovery.Replay.{run_rounds, replay-run_rounds}

order : (a b : ℕ) → (a < b) ⊎ (b ≤ a)
order a b = elim (Bool-cases (ltb a b)) [ inl e ↦ inl (ltb→lt a b e) | inr e ↦ inr (ltb→ge a b e) ]

-- No number is above the greatest one.
endless :
    (r : Replayed) (bound tests s : ℕ)
    → bound + 1 ≡ 2 ^ 64
    → s < 2 ^ 64
    → replay r bound tests s ≡ none
unfolding replay
endless r bound zero s top small = refl
endless r bound (suc tests) s top small =
    let s' = add_word s 1 in
    rw (le→leb s bound (omega (arith, top, small)))
      (endless (replay_one r s) bound tests s' top (omega arith))

at_once : (r : Replayed) (bound tests s : ℕ) → bound < s → replay r bound (suc tests) s ≡ some r
unfolding replay
at_once r bound tests s h = rw (gt→leb s bound h) refl

-- For a watermark that with 257 is 2 ^ 64 the replay loop never ends. For a greater one below
-- 2 ^ 64 - 1 it has no round, and otherwise it has 256 rounds.
pub replay-ends :
    (r : Replayed) (w : ℕ)
    → w < 2 ^ 64
    → let bound = add_word w wal_entries in
      let s = add_word w 1 in
      ((w + wal_entries + 1 ≡ 2 ^ 64) × ((tests : ℕ) → replay r bound tests s ≡ none))
      ⊎ ((2 ^ 64 < w + wal_entries + 1)
          × (w + 1 < 2 ^ 64)
          × (replay r bound (suc wal_entries) s ≡ some r))
      ⊎ ((replay r bound (suc wal_entries) s ≡ some (run_rounds r wal_entries s)))
replay-ends r w small = elim (ℕ_discrete (w + wal_entries + 1) (2 ^ 64)) [
  | yes top ↦ inl (
    top,
    λ tests.
        endless r (add_word w wal_entries) tests (add_word w 1) (omega (arith, top)) (omega arith),
  )
  | no ne ↦ elim (order (w + wal_entries + 1) (2 ^ 64)) [
    | inl below ↦ inr (
        inr (
          replay-run_rounds r (add_word w wal_entries) wal_entries (add_word w 1)
            (omega (arith, below)) (omega (arith, below))))
    | inr above ↦ elim (ℕ_discrete (w + 1) (2 ^ 64)) [
      | yes last ↦ inr (
          inr (
            replay-run_rounds r (add_word w wal_entries) wal_entries (add_word w 1)
              (omega (arith, last)) (omega (arith, last))))
      | no other ↦ inr (
          inl (
            omega (arith, above, ne),
            omega (arith, other),
            at_once r (add_word w wal_entries) wal_entries (add_word w 1)
                (omega (arith, above, ne, other)),
          ))
    ]
  ]
]
