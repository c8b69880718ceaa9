-- ===== src/PersistentPool/Recovery/Replay.antt =====
-- The replay loop of `recover`: it applies the pending entries of the log in order, and passes
-- over all others.
use heapforge.Prelude.{
  ℕ, zero, suc, ◌+◌, ◌%◌, ◌≤◌, ◌<◌, ◌≡◌, refl, ◌∙◌, ap, arith, Bool, true, false, ◌||◌, List, [],
  some, add_word, ◌^◌, le→leb, gt→leb, ◌∷◌, length, get_or, ==_refl, lt→ltb,
}
use mathlib.Core.Bool.{or-true}
use mathlib.Core.Path.{fun_ext}
use heapforge.PersistentPool.{
  WalEntry, no_entry, wal_entries, wal_ok, apply_bits, apply_op, bits_of, with_bits,
}
use heapforge.PersistentPool.Effect.{marked, IsSound, effect, apply_bits-Applied}
use heapforge.PersistentPool.Settled.{IsQuiet}
use heapforge.PersistentPool.Recovery.{Replayed, entry_at, replay_one, replay}

-- A logged operation: its code and its block.
abbrev pub Op : Type 0
Op = ℕ × ℕ

-- The entry holds operation `o` under sequence number `s`.
pub record Logs (e : WalEntry) (s : ℕ) (o : Op) : Type 0 where
  pub seq : e.seq ≡ s
  pub ok : wal_ok e ≡ true
  pub op : e.op ≡ o.0
  pub index : e.index ≡ o.1

-- The log holds the operations under the numbers from `s` on, and nothing valid behind them.
unfoldable pub Pending : List WalEntry → ℕ → List Op → Type 0
Pending wal s [] = IsQuiet wal s
Pending wal s (o ∷ os) = Logs (get_or wal (s % wal_entries) no_entry) s o × Pending wal (s + 1) os

unfoldable pub InRange : ℕ → List Op → Type 0
InRange n [] = Unit {0}
InRange n (o ∷ os) = (o.1 < n) × InRange n os

-- The operations, done in order: on the bitmap and counter, and on the set of blocks in use.
unfoldable pub run_bits : List Op → List ℕ × ℕ → List ℕ × ℕ
run_bits [] b = b
run_bits (o ∷ os) b = run_bits os (apply_bits o.0 o.1 b)

unfoldable pub run_effect : List Op → (ℕ → Bool) → ℕ → Bool
run_effect [] f = f
run_effect (o ∷ os) f = run_effect os (effect o.0 o.1 f)

abbrev pub any : List Op → Bool
any [] = false
any (_ ∷ _) = true

-- What the loop has made of a state by applying operations up to the number before `s`.
pub record Replays (r : Replayed) (os : List Op) (s : ℕ) (t : Replayed) : Type 0 where
  pub pool : t.pool ≡ with_bits r.pool (run_bits os (bits_of r.pool))
  pub max_seq : t.max_seq + 1 ≡ s
  pub replayed : t.replayed ≡ (any os || r.replayed)

skip : (r : Replayed) (s : ℕ) → IsQuiet r.pool.image.wal s → replay_one r s ≡ r
unfolding replay_one
skip r s quiet = ground (arith, quiet (s % wal_entries))

-- Rounds of the loop, as many as are asked for.
unfoldable pub run_rounds : Replayed → (rounds s : ℕ) → Replayed
run_rounds r zero s = r
run_rounds r (suc rounds) s = run_rounds (replay_one r s) rounds (s + 1)

-- The loop ends after them, where its bound does not wrap.
pub replay-run_rounds :
    (r : Replayed) (bound rounds s : ℕ)
    → s + rounds ≡ bound + 1
    → bound + 1 < 2 ^ 64
    → replay r bound (suc rounds) s ≡ some (run_rounds r rounds s)
unfolding replay run_rounds
replay-run_rounds r bound zero s end small = rw (gt→leb s bound (omega arith)) refl
replay-run_rounds r bound (suc rounds) s end small =
    let next : add_word s 1 ≡ s + 1 = omega arith in
    rw (le→leb s bound (omega arith), next)
      (replay-run_rounds (replay_one r s) bound rounds (s + 1) (omega arith) small)

skip_all : (r : Replayed) (rounds s : ℕ) → IsQuiet r.pool.image.wal s → run_rounds r rounds s ≡ r
unfolding run_rounds
skip_all r zero s quiet = refl
skip_all r (suc rounds) s quiet =
    rw (skip r s quiet) (skip_all r rounds (s + 1) (λ i ok. omega (arith, quiet i ok)))

hit :
    (r : Replayed) (s : ℕ) (o : Op)
    → Logs (entry_at r.pool s) s o
    → r.max_seq < s
    → replay_one r s ≡ record { pool = apply_op r.pool o.0 o.1; max_seq = s; replayed = true }
unfolding replay_one
hit r s o h lt = rw (h.ok, h.op, h.index, h.seq, ==_refl s, lt→ltb r.max_seq s lt)

pub run_rounds-Replays :
    (r : Replayed) (rounds s e : ℕ) (os : List Op)
    → Pending r.pool.image.wal s os
    → length os ≤ rounds
    → r.max_seq + 1 ≡ s
    → s + length os ≡ e
    → Replays r os e (run_rounds r rounds s)
unfolding Pending run_bits apply_op run_rounds
run_rounds-Replays r rounds s e [] pending fuel low end =
    rw (skip_all r rounds s pending)
      (record { pool = refl; max_seq = omega arith; replayed = refl })
run_rounds-Replays r zero s e (o ∷ os) pending fuel low end = absurd (omega arith)
run_rounds-Replays r (suc rounds) s e (o ∷ os) pending fuel low end =
    let r' : Replayed = record { pool = apply_op r.pool o.0 o.1; max_seq = s; replayed = true } in
    let t = run_rounds-Replays r' rounds (s + 1) e os pending.1 (omega arith) refl (omega arith) in
    rw (hit r s o pending.0 (omega arith))
      (record { pool = t.pool; max_seq = t.max_seq; replayed = t.replayed ∙ or-true (any os) })

-- The bitmap and counter follow the meaning of the operations.
pub run_bits-IsSound :
    (n : ℕ) (os : List Op) (b : List ℕ × ℕ) → IsSound n b → InRange n os → IsSound n (run_bits os b)
unfolding run_bits InRange
run_bits-IsSound n [] b s h = s
run_bits-IsSound n (o ∷ os) b s h =
    run_bits-IsSound n os _ (apply_bits-Applied n o.0 o.1 b s h.0).sound h.1

pub run_bits-marked :
    (n : ℕ) (os : List Op) (b : List ℕ × ℕ)
    → IsSound n b
    → InRange n os
    → (j : ℕ) → marked (run_bits os b).0 j ≡ run_effect os (marked b.0) j
unfolding run_bits InRange run_effect
run_bits-marked n [] b s h j = refl
run_bits-marked n (o ∷ os) b s h j =
    let a = apply_bits-Applied n o.0 o.1 b s h.0 in
    run_bits-marked n os (apply_bits o.0 o.1 b) a.sound h.1 j
    ∙ ap (λ f. run_effect os f j) (fun_ext a.marks)
