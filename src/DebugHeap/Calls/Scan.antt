-- ===== src/DebugHeap/Calls/Scan.antt =====
-- The scans of the whole table: `hf_debug_heap_check`, `hf_debug_heap_report` and `dh_destroy`.
use heapforge.Prelude.{
  ℕ, zero, suc, ◌+◌, ◌%◌, ◌^◌, ◌<◌, ◌≡◌, refl, ap, arith, Bool, true, false, not, ◌&&◌,
  if◌then◌else◌, some, List, [], ◌∷◌, ◌++◌, add_word,
}
use heapforge.Prelude.Bytes.{Bytes}
use heapforge.Prelude.Count.{count_below, count_below-le, count_below_step}
use heapforge.Allocator.{Outcome, returns, aborts, Interface}
use heapforge.DebugHeap.{
  DebugHeap, Report, is_live, is_intact, count_violation, verify_block, check_loop, check,
  report_loop, report,
}
use heapforge.DebugHeap.Calls.{World, destroy, destroy_loop}
use heapforge.DebugHeap.HashTable.{Entry}

-- A live block one of whose canaries is overwritten.
abbrev pub is_smashed : Bytes → (ℕ → Entry) → ℕ → Bool
is_smashed mem table i = is_live (table i) && not (is_intact mem (table i).raw (table i).size)

round_bad :
    (live ok : Bool) (bad c c' : ℕ)
    → c' ≡ (if live && not ok then 1 else 0) + c
    → bad ≡ c % 2 ^ 64
    → (if live && not ok then add_word bad 1 else bad) ≡ c' % 2 ^ 64
round_bad true true bad c c' step h = omega (arith, step, h)
round_bad true false bad c c' step h = omega (arith, step, h)
round_bad false ok bad c c' step h = omega (arith, step, h)

round_rep :
    (live ok : Bool) (rep : Report) (before c c' : ℕ)
    → c' ≡ (if live && not ok then 1 else 0) + c
    → rep.canary_violations ≡ (before + c) % 2 ^ 64
    → (if live then (if ok then rep else count_violation rep) else rep).canary_violations
      ≡ (before + c') % 2 ^ 64
round_rep true true rep before c c' step h = omega (arith, step, h)
round_rep true false rep before c c' step h = omega (arith, step, h)
round_rep false ok rep before c c' step h = omega (arith, step, h)

-- One round of `hf_debug_heap_check` for a report and a counter that are right so far.
check_loop_lem :
    (mem : Bytes) (table : ℕ → Entry) (before rounds i bad : ℕ) (rep : Report)
    → bad ≡ count_below i (is_smashed mem table) % 2 ^ 64
    → rep.canary_violations ≡ (before + count_below i (is_smashed mem table)) % 2 ^ 64
    → let (bad', rep') = check_loop mem table rounds i bad rep in
      (bad' ≡ count_below (i + rounds) (is_smashed mem table) % 2 ^ 64)
      × (rep'.canary_violations
          ≡ (before + count_below (i + rounds) (is_smashed mem table)) % 2 ^ 64)
unfolding check_loop verify_block
check_loop_lem mem table before zero i bad rep h h' =
    let end : i + 0 ≡ i = omega arith in rw end (h, h')
check_loop_lem mem table before (suc rounds) i bad rep h h' =
    let end : i + suc rounds ≡ i + 1 + rounds = omega arith in
    let step = count_below_step i (is_smashed mem table) in
    rw end (
      check_loop_lem mem table before rounds (i + 1) _ _
        (round_bad (is_live (table i)) (is_intact mem (table i).raw (table i).size) bad _ _ step h)
        (round_rep (is_live (table i)) (is_intact mem (table i).raw (table i).size) rep before _ _
          step h'))

-- `hf_debug_heap_check` returns the number of live blocks with an overwritten canary and adds it to
-- the violations, both as 64-bit words.
pub check_lem :
    (mem : Bytes) (h : DebugHeap)
    → h.rep.canary_violations < 2 ^ 64
    → let (bad, h') = check mem h in
      let smashed = count_below h.entries.cap (is_smashed mem h.entries.table) in
      (bad ≡ smashed % 2 ^ 64)
      × (h'.rep.canary_violations ≡ (h.rep.canary_violations + smashed) % 2 ^ 64)
unfolding check
check_lem mem h small =
    let all : 0 + h.entries.cap ≡ h.entries.cap = omega arith in
    let none_yet : count_below 0 (is_smashed mem h.entries.table) ≡ 0 =
      omega (arith, count_below-le 0 (is_smashed mem h.entries.table)) in
    let r =
      check_loop_lem mem h.entries.table h.rep.canary_violations h.entries.cap 0 0 h.rep
        (omega (arith, none_yet)) (omega (arith, none_yet, small)) in
    rw all at r

-- The bytes of the live blocks among the first `n` entries.
pub live_bytes : (ℕ → Entry) → ℕ → ℕ
live_bytes table zero = 0
live_bytes table (suc n) = (if is_live (table n) then (table n).size else 0) + live_bytes table n

live_bytes_step :
    (table : ℕ → Entry) (n : ℕ)
    → live_bytes table (n + 1)
      ≡ (if is_live (table n) then (table n).size else 0) + live_bytes table n
unfolding live_bytes
live_bytes_step table n = let e : n + 1 ≡ suc n = omega arith in ap (live_bytes table) e

-- The counters of a report after a round.
round_out :
    (live : Bool) (out : Report) (size c c' b b' : ℕ)
    → c' ≡ (if live then 1 else 0) + c
    → b' ≡ (if live then size else 0) + b
    → out.leaked_blocks ≡ c % 2 ^ 64
    → out.leaked_bytes ≡ b % 2 ^ 64
    → let counted = record out {
      leaked_blocks = add_word out.leaked_blocks 1;
      leaked_bytes = add_word out.leaked_bytes size;
    } in
      let out' = if live then counted else out in
      (out'.leaked_blocks ≡ c' % 2 ^ 64) × (out'.leaked_bytes ≡ b' % 2 ^ 64)
round_out true out size c c' b b' step step' h h' =
    (omega (arith, step, h), omega (arith, step', h'))
round_out false out size c c' b b' step step' h h' =
    (omega (arith, step, h), omega (arith, step', h'))

report_loop_lem :
    (table : ℕ → Entry) (rounds i : ℕ) (out : Report)
    → out.leaked_blocks ≡ count_below i (λ j. is_live (table j)) % 2 ^ 64
    → out.leaked_bytes ≡ live_bytes table i % 2 ^ 64
    → let out' = report_loop table rounds i out in
      (out'.leaked_blocks ≡ count_below (i + rounds) (λ j. is_live (table j)) % 2 ^ 64)
      × (out'.leaked_bytes ≡ live_bytes table (i + rounds) % 2 ^ 64)
unfolding report_loop
report_loop_lem table zero i out h h' = let end : i + 0 ≡ i = omega arith in rw end (h, h')
report_loop_lem table (suc rounds) i out h h' =
    let end : i + suc rounds ≡ i + 1 + rounds = omega arith in
    let r =
      round_out (is_live (table i)) out (table i).size _ _ _ _
        (count_below_step i (λ j. is_live (table j))) (live_bytes_step table i) h h' in
    rw end (report_loop_lem table rounds (i + 1) _ r.0 r.1)

-- `hf_debug_heap_report` counts the blocks that are not given back, and their bytes.
pub report_lem :
    (h : DebugHeap)
    → let out = report h in
      (out.leaked_blocks ≡ count_below h.entries.cap (λ j. is_live (h.entries.table j)) % 2 ^ 64)
      × (out.leaked_bytes ≡ live_bytes h.entries.table h.entries.cap % 2 ^ 64)
unfolding report live_bytes
report_lem h =
    let all : 0 + h.entries.cap ≡ h.entries.cap = omega arith in
    let rep = h.rep in
    let out : Report = record rep { leaked_blocks = 0; leaked_bytes = 0 } in
    let no_bytes : live_bytes h.entries.table 0 ≡ 0 = refl in
    let live = λ (j : ℕ). is_live (h.entries.table j) in
    let none_yet : count_below 0 live ≡ 0 = omega (arith, count_below-le 0 live) in
    let r =
      report_loop_lem h.entries.table h.entries.cap 0 out (omega (arith, none_yet))
        (omega (arith, no_bytes)) in
    rw all at r

-- The raw blocks of the live entries from index `i`.
pub live_blocks : (ℕ → Entry) → (rounds i : ℕ) → List ℕ
live_blocks table zero i = []
live_blocks table (suc rounds) i =
    (if is_live (table i) then (table i).raw ∷ [] else []) ++ live_blocks table rounds (i + 1)

-- The backend gets the blocks of a list, one by one.
pub give_back : (B : Interface) → List ℕ → B.State × Bytes → Outcome (B.State × Bytes)
give_back B [] below = returns below
give_back B (raw ∷ raws) below = elim (B.deallocate below.0 below.1 (some raw)) [
  | returns below' ↦ give_back B raws below'
  | aborts ↦ aborts
]

give_back_round :
    (B : Interface) (live : Bool) (raw : ℕ) (raws : List ℕ) (below : B.State × Bytes)
    (rest : B.State × Bytes → Outcome (B.State × Bytes))
    → ((s : B.State × Bytes) → rest s ≡ give_back B raws s)
    → (elim (if live then B.deallocate below.0 below.1 (some raw) else returns below) [
      | returns s ↦ rest s
      | aborts ↦ aborts
    ])
      ≡ give_back B ((if live then raw ∷ [] else []) ++ raws) below
unfolding give_back
give_back_round B false raw raws below rest h = h below
give_back_round B true raw raws below rest h = after (B.deallocate below.0 below.1 (some raw))
  where
    after :
        (o : Outcome (B.State × Bytes))
        → (elim o [ returns s ↦ rest s | aborts ↦ aborts ])
          ≡ (elim o [ returns s ↦ give_back B raws s | aborts ↦ aborts ])
    after (returns s) = h s
    after aborts = refl

destroy_loop_lem :
    (B : Interface) (table : ℕ → Entry) (rounds i : ℕ) (below : B.State × Bytes)
    → destroy_loop B table rounds i below ≡ give_back B (live_blocks table rounds i) below
unfolding destroy_loop live_blocks give_back
destroy_loop_lem B table zero i below = refl
destroy_loop_lem B table (suc rounds) i below =
    give_back_round B (is_live (table i)) (table i).raw (live_blocks table rounds (i + 1)) below
      (λ s. destroy_loop B table rounds (i + 1) s) (λ s. destroy_loop_lem B table rounds (i + 1) s)

-- `dh_destroy` gives the raw blocks of the live entries back to the backend, each once and in the
-- order of the table, until the backend stops.
pub destroy_lem :
    (B : Interface) (w : World B.State)
    → destroy B w
      ≡ give_back B (live_blocks w.heap.entries.table w.heap.entries.cap 0) (w.below, w.mem)
unfolding destroy
destroy_lem B w = destroy_loop_lem B w.heap.entries.table w.heap.entries.cap 0 (w.below, w.mem)
