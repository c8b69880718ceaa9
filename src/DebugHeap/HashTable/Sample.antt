-- ===== src/DebugHeap/HashTable/Sample.antt =====
-- Small tables, to try the theorems on.
use heapforge.Prelude.{◌≡◌, refl, arith, true, ◌==◌, if◌then◌else◌, some, inl, inr, Bool-cases}
use mathlib.Core.Path.{subst}
use heapforge.Prelude.Count.{count_below}
use heapforge.DebugHeap.HashTable.{Entry, Table, no_entry, hash, find, find_loop}
use heapforge.DebugHeap.HashTable.Insert.{IsValid, lookup}

abbrev pub freed_entry : Entry
freed_entry = record { user = 5000; raw = 0; size = 8; freed = true }

-- A table of one entry, which is freed.
abbrev pub freed_table : Table
freed_table = record { table = λ i. if i == 0 then freed_entry else no_entry; cap = 1; count = 1 }

pub freed_table-IsValid : IsValid freed_table
unfolding find find_loop hash count_below
freed_table-IsValid = record {
  k = 0;
  k_small = omega arith;
  cap_eq = refl;
  clean = λ i h. elim (Bool-cases (i == 0)) [
    | inl e ↦ absurd (let z : 5000 ≡ 0 = rw e at h in omega (arith, z))
    | inr e ↦ rw e refl
  ];
  reached = λ i lt f.
      let first : 0 ≡ i = omega arith in
      subst (λ j. find freed_table (freed_table.table j).user ≡ some j) first refl;
  count_eq = refl;
}

pub freed_table-lookup : lookup freed_table 5000 ≡ some freed_entry
unfolding find find_loop hash
freed_table-lookup = refl
