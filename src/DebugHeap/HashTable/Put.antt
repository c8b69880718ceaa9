-- ===== src/DebugHeap/HashTable/Put.antt =====
-- `dh_put` with its test, as an update of the map that the hash table stands for.
use heapforge.Prelude.{
  ℕ, suc, ◌*◌, ◌^◌, ◌≤◌, ◌<◌, ◌≡◌, ◌≢◌, inl, inr, refl, sym, ◌∙◌, ap, arith, if◌then◌else◌, Option,
  none, some, mul_word, Bool-cases, Option-cases, ne→==,
}
use native.Mathlib.Nat.{one-le-pow, pow-suc}
use mathlib.Core.Path.{subst}
use native.Mathlib.Decide.{ℕ_discrete}
use heapforge.DebugHeap.HashTable.{Entry, Table, hash, find, insert, is_full, rehash, put, put_deep}
use heapforge.DebugHeap.HashTable.Insert.{
  IsValid, Inserted, insert-Inserted, new_entry, lookup, entry_at, occupied, place-Inserted,
}
use heapforge.DebugHeap.HashTable.Probe.{place, find_loop-put_loop}
use heapforge.Prelude.Count.{count_below-le}
use heapforge.DebugHeap.HashTable.Rehash.{
  Moved, Agrees, as_new, empty_table, empty_table-Moved, put_deep-Agrees, rehash_loop-Moved,
  find-user, table-Distinct,
}

abbrev pub renewed : Option Entry → Option Entry
renewed none = none
renewed (some e) = some (as_new e)

module _ (t : Table) (v : IsValid t) (small : t.cap < 2 ^ 60) where
  twice : mul_word t.cap 2 ≡ 2 ^ suc v.k
  twice = omega (arith, small, v.cap_eq, pow-suc 2 v.k)

  room_to_grow : suc v.k ≤ 60
  room_to_grow = elim (ℕ_discrete v.k 60) [
    | yes e ↦ absurd (omega (arith, small, v.cap_eq, ap (λ k. 2 ^ k) e))
    | no ne ↦ omega (arith, v.k_small)
  ]

  grown-Moved :
      (fuel : ℕ)
      → Moved t.table (2 * t.cap) t.cap t.cap (rehash (put_deep 0) t (mul_word t.cap 2))
        × (rehash (put_deep fuel) t (mul_word t.cap 2) ≡ rehash (put_deep 0) t (mul_word t.cap 2))
  unfolding rehash put_deep
  grown-Moved fuel =
      let start = empty_table-Moved t.table (suc v.k) room_to_grow in
      let size : 2 ^ suc v.k ≡ 2 * t.cap = omega (arith, pow-suc 2 v.k, v.cap_eq) in
      let start' : Moved t.table (2 * t.cap) 0 0 (empty_table (mul_word t.cap 2)) =
        subst (λ c. Moved t.table (2 * t.cap) 0 0 (empty_table c)) (sym twice)
          (subst (λ c. Moved t.table c 0 0 (empty_table (2 ^ suc v.k))) size start) in
      let run = λ (put : Table → ℕ → ℕ → ℕ → Table) (agrees : Agrees put).
        rehash_loop-Moved put t.table t.cap t.cap 0 (empty_table (mul_word t.cap 2)) agrees
          (table-Distinct t v) (omega arith) small start' in
      let first = run (put_deep 0) (put_deep-Agrees 0) in
      let any = run (put_deep fuel) (put_deep-Agrees fuel) in
      (subst (Moved t.table (2 * t.cap) t.cap t.cap) (sym first.1) first.0, any.1 ∙ sym first.1)

  -- The table after the test of `dh_put`.
  abbrev pub readied : Table
  readied = if is_full t then rehash (put_deep 0) t (mul_word t.cap 2) else t

  grown-lookup :
      (user : ℕ) → lookup (rehash (put_deep 0) t (mul_word t.cap 2)) user ≡ renewed (lookup t user)
  grown-lookup user =
      let m = (grown-Moved 0).0 in
      elim (Option-cases (find t user)) [
        | inr (q, h) ↦
            let (f, own, lt) = find-user t user q v h in
            ap (lookup (rehash (put_deep 0) t (mul_word t.cap 2))) (sym own)
            ∙ m.kept q lt f
            ∙ sym (ap (λ o. renewed (entry_at t o)) h)
        | inl h ↦
            m.nothing_else user
              (λ j lt f own. cc (sym h ∙ ap (find t) (sym own) ∙ v.reached j lt f))
            ∙ sym (ap (λ o. renewed (entry_at t o)) h)
      ]

  pub readied-lookup :
      (user : ℕ)
      → lookup readied user ≡ (if is_full t then renewed (lookup t user) else lookup t user)
  readied-lookup user = elim (Bool-cases (is_full t)) [
    | inr roomy ↦ rw roomy
    | inl full ↦ rw full (grown-lookup user)
  ]

  -- It has room for one more user.
  pub readied-IsValid : IsValid readied × (readied.count < readied.cap)
  readied-IsValid =
      let bound = count_below-le t.cap (occupied t) in
      let c = v.count_eq in
      elim (Bool-cases (is_full t)) [
        | inr roomy ↦ rw roomy (v, ground (arith, bound))
        | inl full ↦
            let m = (grown-Moved 0).0 in
            rw full (
              m.valid,
              omega (arith, m.count_le, m.cap_eq, v.cap_eq, one-le-pow v.k 2 (omega arith)),
            )
      ]

  -- The calls of `dh_put` and `dh_rehash` in one another end after one growth: on a valid table of
  -- fewer than 2 ^ 60 places more fuel than 1 makes no difference.
  pub put_deep-enough :
      (fuel user raw size : ℕ) → put_deep (suc fuel) t user raw size ≡ put t user raw size
  unfolding put_deep put
  put_deep-enough fuel user raw size =
      ap (λ g. insert (if is_full t then g else t) user raw size) ((grown-Moved fuel).1)

-- What `dh_put` does to the table as a map: the user has the new entry, and the entries of the
-- others are kept, though a table that grows forgets which of them are freed.
pub record Updated (t : Table) (user raw size : ℕ) (t' : Table) : Type 0 where
  pub valid : IsValid t'
  pub own : lookup t' user ≡ some (new_entry user raw size)
  pub others :
      (other : ℕ)
      → other ≢ user
      → lookup t' other ≡ (if is_full t then renewed (lookup t other) else lookup t other)

-- The hash table of the debug heap, seen as a map from users to entries, is updated by `dh_put` as
-- a map: for a valid table of fewer than 2 ^ 60 places and a user that is not NULL, the user has
-- the new entry, the entries of the others are kept, less the mark of a freed one if the table
-- grows, and the table stays valid.
pub put-Updated :
    (t : Table) (user raw size : ℕ)
    → IsValid t
    → t.cap < 2 ^ 60
    → user ≢ 0
    → Updated t user raw size (put t user raw size)
unfolding put put_deep
put-Updated t user raw size v small full =
    let (valid, room) = readied-IsValid t v small in
    let r = insert-Inserted (readied t v small) user raw size valid room full in
    record {
      valid = r.valid;
      own = r.own;
      others = λ other ne. r.others other ne ∙ readied-lookup t v small other;
    }

-- The entry at `at` gets new fields and keeps its user.
pub mark-Inserted :
    (t : Table) (at : ℕ) (e : Entry)
    → IsValid t
    → e.user ≢ 0
    → find t e.user ≡ some at
    → Inserted t e (place t at e t.count)
unfolding find
mark-Inserted t at e v full h =
    let (f, own, lt) = find-user t e.user at v h in
    place-Inserted t e at t.count v full lt
      (find_loop-put_loop t e.user t.cap (hash e.user t.cap) at v.clean h) (rw (ne→== _ _ f) refl)
