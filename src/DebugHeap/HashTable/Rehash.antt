-- ===== src/DebugHeap/HashTable/Rehash.antt =====
-- `dh_rehash` moves every entry to a larger table, and `dh_put` with its test.
use heapforge.Prelude.{
  ℕ, zero, suc, ◌+◌, ◌*◌, ◌^◌, ◌≤◌, ◌<◌, ◌≡◌, ◌≢◌, inl, inr, refl, sym, ◌∙◌, ap, arith, false, ◌==◌,
  none, some, Bool-cases, ==→eq,
}
use heapforge.Prelude.Count.{count_below-none}
use native.Mathlib.Decide.{ℕ_discrete}
use mathlib.Core.Path.{subst}
use heapforge.DebugHeap.HashTable.{
  Entry, Table, hash, find, find_loop, insert, is_full, no_entry, rehash_loop, put, put_deep,
}
use heapforge.DebugHeap.HashTable.Insert.{
  IsValid, insert-Inserted, new_entry, lookup, entry_at, occupied,
}
use heapforge.DebugHeap.HashTable.Probe.{find_loop-user}
use heapforge.DebugHeap.HashTable.Indices.{hash-lt, find_loop-lt}

-- Rehashing forgets that an entry is freed.
abbrev pub as_new : Entry → Entry
as_new e = new_entry e.user e.raw e.size

-- The table `t` has the first `i` entries of `old`, and `n` users at most.
pub record Moved (old : ℕ → Entry) (ncap i n : ℕ) (t : Table) : Type 0 where
  pub valid : IsValid t
  pub cap_eq : t.cap ≡ ncap
  pub count_le : t.count ≤ n
  pub kept : (j : ℕ) → j < i → (old j).user ≢ 0 → lookup t (old j).user ≡ some (as_new (old j))
  pub nothing_else :
      (user : ℕ) → ((j : ℕ) → j < i → (old j).user ≢ 0 → (old j).user ≢ user) → lookup t user ≡ none

-- Different entries of the old table have different users.
abbrev pub Distinct : (old : ℕ → Entry) (n : ℕ) → Type 0
Distinct old n = (i j : ℕ) → i < n → j < n → (old i).user ≢ 0 → (old i).user ≡ (old j).user → i ≡ j

-- One round that moves an entry.
Moved-insert :
    (old : ℕ → Entry) (ncap i n m : ℕ) (t : Table)
    → Distinct old m
    → i < m
    → n < ncap
    → (old i).user ≢ 0
    → Moved old ncap i n t
    → Moved old ncap (i + 1) (n + 1) (insert t (old i).user (old i).raw (old i).size)
Moved-insert old ncap i n m t distinct lt room full v =
    let e = old i in
    let r =
      insert-Inserted t e.user e.raw e.size v.valid (omega (arith, v.count_le, v.cap_eq)) full in
    record {
      valid = r.valid;
      cap_eq = r.cap_kept ∙ v.cap_eq;
      count_le = omega (arith, r.grew, v.count_le);
      kept = λ j below f. elim (ℕ_discrete j i) [
        | yes at ↦
            subst (λ k. lookup (insert t e.user e.raw e.size) (old k).user ≡ some (as_new (old k)))
              (sym at) r.own
        | no off ↦
            r.others (old j).user (λ z. off (distinct j i (omega arith) lt f z))
            ∙ v.kept j (omega arith) f
      ];
      nothing_else = λ user away.
          r.others user (λ z. away i (omega arith) full (sym z))
          ∙ v.nothing_else user (λ j below f. away j (omega arith) f);
    }

-- One round that finds no entry.
Moved-skip :
    (old : ℕ → Entry) (ncap i n : ℕ) (t : Table)
    → (old i).user ≡ 0
    → Moved old ncap i n t
    → Moved old ncap (i + 1) (n + 1) t
Moved-skip old ncap i n t z v = record {
  valid = v.valid;
  cap_eq = v.cap_eq;
  count_le = omega (arith, v.count_le);
  kept = λ j below f. elim (ℕ_discrete j i) [
    | yes at ↦ absurd (f (ap (λ k. (old k).user) at ∙ z))
    | no off ↦ v.kept j (omega arith) f
  ];
  nothing_else = λ user away. v.nothing_else user (λ j below f. away j (omega arith) f);
}

abbrev pub empty_table : ℕ → Table
empty_table cap = record { table = λ _. no_entry; cap = cap; count = 0 }

find_loop-no_entry : (cap user rounds i : ℕ) → find_loop (empty_table cap) user rounds i ≡ none
unfolding find_loop
find_loop-no_entry cap user zero i = refl
find_loop-no_entry cap user (suc rounds) i = refl

pub empty_table-IsValid :
    (k : ℕ) → k ≤ 60 → IsValid (record { table = λ _. no_entry; cap = 2 ^ k; count = 0 })
empty_table-IsValid k small = record {
  k = k;
  k_small = small;
  cap_eq = refl;
  clean = λ i _. refl;
  reached = λ i _ f. absurd (f refl);
  count_eq = sym (count_below-none (2 ^ k) (occupied (empty_table (2 ^ k))) (λ _. refl));
}

pub empty_table-Moved :
    (old : ℕ → Entry) (k : ℕ) → k ≤ 60 → Moved old (2 ^ k) 0 0 (empty_table (2 ^ k))
unfolding find
empty_table-Moved old k small = record {
  valid = empty_table-IsValid k small;
  cap_eq = refl;
  count_le = omega arith;
  kept = λ j below f. absurd (omega arith);
  nothing_else = λ user _.
      ap (entry_at (empty_table (2 ^ k)))
        (find_loop-no_entry (2 ^ k) user (2 ^ k) (hash user (2 ^ k)));
}

-- A `dh_put` that does not grow a table that is not full.
abbrev pub Agrees : (Table → ℕ → ℕ → ℕ → Table) → Type 0
Agrees put =
    (t : Table) (user raw size : ℕ)
    → is_full t ≡ false
    → put t user raw size ≡ insert t user raw size

pub put_deep-Agrees : (fuel : ℕ) → Agrees (put_deep fuel)
unfolding put_deep
put_deep-Agrees zero t user raw size h = refl
put_deep-Agrees (suc fuel) t user raw size h = rw h

-- The loop never meets a full table, since the new one is twice as large.
pub rehash_loop-Moved :
    (put : Table → ℕ → ℕ → ℕ → Table) (old : ℕ → Entry) (m rounds i : ℕ) (t : Table)
    → Agrees put
    → Distinct old m
    → i + rounds ≡ m
    → m < 2 ^ 60
    → Moved old (2 * m) i i t
    → Moved old (2 * m) m m (rehash_loop insert old rounds i t)
      × (rehash_loop put old rounds i t ≡ rehash_loop insert old rounds i t)
unfolding rehash_loop
rehash_loop-Moved put old m zero i t agrees distinct sum small v =
    let at : i ≡ m = omega (arith, sum) in (subst (λ k. Moved old (2 * m) k k t) at v, refl)
rehash_loop-Moved put old m (suc rounds) i t agrees distinct sum small v =
    elim (Bool-cases ((old i).user == 0)) [
      | inl z ↦ rw z (
          rehash_loop-Moved put old m rounds (i + 1) t agrees distinct (omega (arith, sum)) small
            (Moved-skip old (2 * m) i i t (==→eq _ _ z) v))
      | inr f ↦
          let roomy : is_full t ≡ false = ground (arith, v.count_le, v.cap_eq, sum) in
          let moved =
            Moved-insert old (2 * m) i i m t distinct (omega (arith, sum)) (omega (arith, sum))
              (λ z. cc (ap (λ x. x == 0) z)) v in
          rw (f, agrees t (old i).user (old i).raw (old i).size roomy)
            (rehash_loop-Moved put old m rounds (i + 1)
              (insert t (old i).user (old i).raw (old i).size) agrees distinct (omega (arith, sum))
              small moved)
    ]

pub find-user :
    (t : Table) (user q : ℕ)
    → IsValid t
    → find t user ≡ some q
    → (t.table q).user ≢ 0 × ((t.table q).user ≡ user) × (q < t.cap)
unfolding find
find-user t user q v h =
    let (f, own) = find_loop-user t user t.cap (hash user t.cap) q v.clean h in
    let start : hash user t.cap < 2 ^ v.k =
      subst (λ c. hash user c < 2 ^ v.k) (sym v.cap_eq) (hash-lt user v.k v.k_small) in
    (
      f,
      own,
      omega (
        arith,
        v.cap_eq,
        find_loop-lt t v.k user t.cap (hash user t.cap) q v.k_small v.cap_eq v.clean start h,
      ),
    )

pub table-Distinct : (t : Table) → IsValid t → Distinct t.table t.cap
table-Distinct t v i j lt lt' f same =
    cc (sym (v.reached i lt f) ∙ ap (λ u. find t u) same ∙ v.reached j lt' (λ z. f (same ∙ z)))
