-- ===== src/DebugHeap/HashTable.antt =====
-- The hash table of c/src/hf_debug_heap.c: open addressing with linear probing, keyed by the pointer
-- that the user has; 0 is NULL.
pub mod Probe
pub mod Indices
pub mod Insert
pub mod Rehash
pub mod Put
pub mod Sample
use heapforge.Prelude.{
  ℕ, zero, suc, ◌+◌, ◌-◌, ◌*◌, ◌/◌, ◌%◌, ◌^◌, bit_and, bit_xor, Bool, true, false, not, ◌&&◌, ◌||◌,
  ◌==◌, ltb, leb, if◌then◌else◌, Option, none, some, List, add_word, sub_word, mul_word,
}

-- `dh_entry`
pub record Entry : Type 0 where
  pub user : ℕ
  pub raw : ℕ
  pub size : ℕ
  pub freed : Bool

abbrev pub no_entry : Entry
no_entry = record { user = 0; raw = 0; size = 0; freed = false }

-- The fields of `dh_heap` that make up the hash table.
pub record Table : Type 0 where
  pub table : ℕ → Entry
  pub cap : ℕ
  pub count : ℕ

-- `dh_hash`
pub hash : (p cap : ℕ) → ℕ
hash p cap =
    let x = bit_xor p (p / 2 ^ 33) in
    let y = mul_word x 0xff51afd7ed558ccd in bit_and (bit_xor y (y / 2 ^ 33)) (sub_word cap 1)

-- i = (i + 1) & (h->cap - 1);
abbrev pub next_index : (cap i : ℕ) → ℕ
next_index cap i = bit_and (add_word i 1) (sub_word cap 1)

-- The loop of `dh_find` from index `i`, with the rounds that are left: the index of the entry.
pub find_loop : Table → (user rounds i : ℕ) → Option ℕ
find_loop t user zero i = none
find_loop t user (suc rounds) i =
    let e = t.table i in
    let rest = find_loop t user rounds (next_index t.cap i) in
    if e.user == 0 && not e.freed then none else (if e.user == user then some i else rest)

-- `dh_find`
pub find : Table → ℕ → Option ℕ
unfolding find_loop
find t user = find_loop t user t.cap (hash user t.cap)

-- The loop of `dh_put`: the index at which it stops.
pub put_loop : Table → (user rounds i : ℕ) → Option ℕ
put_loop t user zero i = none
put_loop t user (suc rounds) i =
    let e = t.table i in
    let rest = put_loop t user rounds (next_index t.cap i) in
    if e.user == 0 || (e.user == user) then some i else rest

abbrev pub set_entry : (ℕ → Entry) → ℕ → Entry → ℕ → Entry
set_entry table at e i = if i == at then e else table i

-- The body of the loop where it stops.
abbrev pub write_entry : Table → (user raw size at : ℕ) → Table
write_entry t user raw size at =
    let e = t.table at in
    record t {
      table = set_entry t.table at (record { user = user; raw = raw; size = size; freed = false });
      count = if e.user == 0 && not e.freed then add_word t.count 1 else t.count;
    }

-- `dh_put` behind its test. The C loop has no bound; `cap` rounds visit every index.
pub insert : Table → (user raw size : ℕ) → Table
unfolding put_loop
insert t user raw size = elim (put_loop t user t.cap (hash user t.cap)) [
  | none ↦ t
  | some at ↦ write_entry t user raw size at
]

-- (h->count + 1) * 10 >= h->cap * 7
abbrev pub is_full : Table → Bool
is_full t = leb (mul_word t.cap 7) (mul_word (add_word t.count 1) 10)

-- The loop of `dh_rehash` over the old table from index `i`, with the rounds that are left; `put`
-- is the `dh_put` that it calls.
pub rehash_loop :
    (put : Table → ℕ → ℕ → ℕ → Table) → (old : ℕ → Entry) → (rounds i : ℕ) → Table → Table
rehash_loop put old zero i t = t
rehash_loop put old (suc rounds) i t =
    let e = old i in
    rehash_loop put old rounds (i + 1) (if e.user == 0 then t else put t e.user e.raw e.size)

-- `dh_rehash`
pub rehash : (put : Table → ℕ → ℕ → ℕ → Table) → Table → (ncap : ℕ) → Table
unfolding rehash_loop
rehash put t ncap =
    rehash_loop put t.table t.cap 0 (record { table = λ _. no_entry; cap = ncap; count = 0 })

-- `dh_put`, on fuel for the calls of `dh_put` and `dh_rehash` in one another.
pub put_deep : (fuel : ℕ) → Table → (user raw size : ℕ) → Table
put_deep zero t user raw size = insert t user raw size
put_deep (suc fuel) t user raw size =
    let grown = rehash (put_deep fuel) t (mul_word t.cap 2) in
    insert (if is_full t then grown else t) user raw size

pub put : Table → (user raw size : ℕ) → Table
unfolding put_deep
put t user raw size = put_deep 1 t user raw size
