-- ===== src/PersistentPool/Api/Backlog.antt =====
-- `hf_pool_debug_wal_only`, called many times, and the recovery that catches up with it.
use heapforge.Prelude.{
  ℕ, suc, ◌+◌, ◌-◌, ◌%◌, ◌^◌, ◌≤◌, ◌<◌, ◌≡◌, ◌≢◌, refl, sym, ◌∙◌, ap, arith, Bool, Option, some,
  List, [], ◌∷◌, length, get_or, length-set, get_or-set_self, get_or-set_ne, if◌then◌else◌,
  add_word,
}
use mathlib.Core.Path.{subst}
use heapforge.PersistentPool.{
  Pool, WalEntry, wal_entries, no_entry, op_alloc, op_free, entry_of, wal_append,
}
use heapforge.PersistentPool.Effect.{marked}
use heapforge.PersistentPool.Settled.{
  IsQuiet, IsSettled, set-IsQuiet, suc-IsQuiet, entry_of-ok, keep-IsWatermark,
}
use heapforge.PersistentPool.Recovery.{recover}
use heapforge.PersistentPool.Recovery.Replay.{Op, Pending, InRange, run_effect}
use heapforge.PersistentPool.Recovery.Outcome.{IsRecoverable, recover-Recovered}
use heapforge.PersistentPool.Api.{attach, debug_wal_only, debug_crash}

-- A call: the block and whether it is to be allocated. Then the operation it logs, and a list of
-- calls.
abbrev op_of : ℕ × Bool → Op
op_of (index, alloc) = (if alloc then op_alloc else op_free, index)

unfoldable pub ops_of : List (ℕ × Bool) → List Op
ops_of [] = []
ops_of (c ∷ cs) = op_of c ∷ ops_of cs

unfoldable pub log_all : Pool → List (ℕ × Bool) → Pool
log_all p [] = p
log_all p (c ∷ cs) = log_all (debug_wal_only p c.0 c.1) cs

unfoldable pub AllBelow : ℕ → List (ℕ × Bool) → Type 0
AllBelow n [] = Unit {0}
AllBelow n (c ∷ cs) = (c.0 < n) × AllBelow n cs

log_all-image :
    (p : Pool) (cs : List (ℕ × Bool))
    → (log_all p cs).image ≡ record p.image { wal = (log_all p cs).image.wal }
unfolding log_all debug_wal_only wal_append
log_all-image p [] = refl
log_all-image p (c ∷ cs) = log_all-image (debug_wal_only p c.0 c.1) cs

log_all-length :
    (p : Pool) (cs : List (ℕ × Bool)) → length (log_all p cs).image.wal ≡ length p.image.wal
unfolding log_all debug_wal_only wal_append
log_all-length p [] = refl
log_all-length p (c ∷ cs) =
    log_all-length (debug_wal_only p c.0 c.1) cs ∙ length-set p.image.wal _ _

-- Later calls leave a place of the ring alone that is not theirs.
log_all-get_or :
    (p : Pool) (cs : List (ℕ × Bool)) (k : ℕ)
    → p.next_seq + length cs < 2 ^ 64
    → ((i : ℕ) → i < length cs → (p.next_seq + i) % wal_entries ≢ k)
    → get_or (log_all p cs).image.wal k no_entry ≡ get_or p.image.wal k no_entry
unfolding log_all debug_wal_only wal_append
log_all-get_or p [] k room free = refl
log_all-get_or p (c ∷ cs) k room free =
    log_all-get_or (debug_wal_only p c.0 c.1) cs k (omega arith)
      (λ i h e. free (i + 1) (omega arith) (omega arith))
    ∙ get_or-set_ne p.image.wal (p.next_seq % wal_entries) k _ no_entry
        (λ e. free 0 (omega arith) (omega arith))

log_all-Pending :
    (n : ℕ) (p : Pool) (cs : List (ℕ × Bool))
    → n ≤ 2 ^ 32
    → AllBelow n cs
    → length p.image.wal ≡ wal_entries
    → IsQuiet p.image.wal p.next_seq
    → length cs ≤ wal_entries
    → p.next_seq + length cs < 2 ^ 64
    → Pending (log_all p cs).image.wal p.next_seq (ops_of cs)
unfolding AllBelow log_all ops_of Pending debug_wal_only wal_append
log_all-Pending n p [] small below len quiet few room = quiet
log_all-Pending n p (c ∷ cs) small (low, below) len quiet few room =
    let s = p.next_seq in
    let narrow : c.0 % 2 ^ 32 ≡ c.0 = omega arith in
    let e = entry_of s (op_of c).0 (c.0 % 2 ^ 32) in
    let q = debug_wal_only p c.0 c.1 in
    let inside : s % wal_entries < length p.image.wal = omega arith in
    let next : add_word s 1 ≡ s + 1 = omega arith in
    let own =
      log_all-get_or q cs (s % wal_entries) (omega arith) (λ i h e. omega arith)
      ∙ get_or-set_self p.image.wal (s % wal_entries) e no_entry inside in
    let quiet' =
      set-IsQuiet p.image.wal (s % wal_entries) (s + 1) e inside (suc-IsQuiet p.image.wal s quiet)
        (λ _. omega arith) in
    let rest =
      log_all-Pending n q cs small below (length-set p.image.wal _ _ ∙ len) (rw next quiet')
        (omega arith) (omega arith) in
    (
      rw own (record {
        seq = refl;
        ok = entry_of-ok s (op_of c).0 (c.0 % 2 ^ 32);
        op = refl;
        index = narrow;
      }),
      subst (λ m. Pending (log_all q cs).image.wal m (ops_of cs)) next rest,
    )

length-ops_of : (cs : List (ℕ × Bool)) → length (ops_of cs) ≡ length cs
unfolding ops_of
length-ops_of [] = refl
length-ops_of (c ∷ cs) = ap suc (length-ops_of cs)

ops_of-InRange : (n : ℕ) (cs : List (ℕ × Bool)) → AllBelow n cs → InRange n (ops_of cs)
unfolding ops_of AllBelow InRange
ops_of-InRange n [] below = tt
ops_of-InRange n (c ∷ cs) (low, below) = (low, ops_of-InRange n cs below)

pub record CaughtUp (p : Pool) (os : List Op) (r : Option Pool) : Type 0 where
  pub pool : Pool
  pub returns : r ≡ some pool
  pub marks : (j : ℕ) → marked pool.image.bitmap j ≡ run_effect os (marked p.image.bitmap) j
  pub next : pool.next_seq ≡ p.next_seq + length os
  pub settled : IsSettled pool

module _ (p : Pool) (v : IsSettled p) where
  ready :
      (base : ℕ) (wal : List WalEntry) (os : List Op)
      → length wal ≡ wal_entries
      → Pending wal p.next_seq os
      → length os ≤ wal_entries
      → InRange p.block_count os
      → p.next_seq + wal_entries < 2 ^ 64
      → IsRecoverable (attach base (record p.image { wal = wal })) (p.next_seq - 1) os
  ready base wal os len pending few range room =
      let s : p.next_seq - 1 + 1 ≡ p.next_seq = omega (arith, v.next_pos) in
      record {
        slot = p.active_meta;
        watermark =
            keep-IsWatermark p.image wal p.image.bitmap p.active_meta (p.next_seq - 1) v.watermark;
        sound = record {
          small = rw v.same_count v.sound.small;
          bitmap_len = rw v.same_count v.sound.bitmap_len;
          bytes = v.sound.bytes;
          used_eq = refl;
        };
        wal_len = len;
        pending = rw s pending;
        few = few;
        in_range = rw v.same_count range;
        room = omega (arith, v.next_pos);
        same_count = refl;
        same_size = refl;
      }

  -- After at most 256 calls of `hf_pool_debug_wal_only` on a settled pool whose next sequence
  -- number with 256 is below 2 ^ 64, for blocks in range, the recovery of the file ends: it does
  -- all these operations in their order, numbers on behind them, and gives a settled pool.
  pub log_all-CaughtUp :
      (base : ℕ) (cs : List (ℕ × Bool))
      → length cs ≤ wal_entries
      → AllBelow p.block_count cs
      → p.next_seq + wal_entries < 2 ^ 64
      → CaughtUp p (ops_of cs) (recover (attach base (debug_crash (log_all p cs))))
  log_all-CaughtUp base cs few below room =
      let wal = (log_all p cs).image.wal in
      let n = length-ops_of cs in
      let pending =
        log_all-Pending p.block_count p cs v.sound.small below v.wal_len v.quiet few
          (omega (arith, few, room)) in
      let r =
        recover-Recovered (attach base (record p.image { wal = wal })) (p.next_seq - 1) (ops_of cs)
          (ready base wal (ops_of cs) (log_all-length p cs ∙ v.wal_len) pending (omega arith)
            (ops_of-InRange p.block_count cs below) (omega arith)) in
      subst (λ m. CaughtUp p (ops_of cs) (recover (attach base m))) (sym (log_all-image p cs))
        (record {
          pool = r.pool;
          returns = r.returns;
          marks = r.marks;
          next = omega (arith, r.next, v.next_pos);
          settled = r.settled;
        })
