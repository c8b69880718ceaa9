-- ===== src/DebugHeap/HashTable/Insert.antt =====
-- `dh_put` behind its test writes one key of the map that the hash table stands for.
use heapforge.Prelude.{
  ℕ, ◌+◌, ◌-◌, ◌^◌, ◌≤◌, ◌<◌, ◌≡◌, ◌≢◌, inl, inr, refl, sym, ◌∙◌, ap, arith, Bool, true, false, not,
  ◌&&◌, ◌||◌, ◌==◌, if◌then◌else◌, Option, none, some, add_word, leb, Bool-cases, Option-cases,
  ==→eq, ne→==,
}
use heapforge.Prelude.Count.{count_below, count_below-all, count_below-add, count_below-congr}
use native.Mathlib.Nat.{pow-le-pow_right}
use native.Mathlib.Decide.{ℕ_discrete}
use mathlib.Core.Path.{subst}
use heapforge.DebugHeap.HashTable.{Entry, Table, hash, find, put_loop, insert, write_entry}
use heapforge.DebugHeap.HashTable.Probe.{
  Clean, place, put_loop-user, find_loop-user, find_loop-put_loop, find_loop-place_own,
  find_loop-place_ne, at_place, off_place,
}
use heapforge.DebugHeap.HashTable.Indices.{hash-lt, find_loop-lt, put_loop-lt, put_loop-full}

abbrev pub entry_at : Table → Option ℕ → Option Entry
entry_at t none = none
entry_at t (some i) = some (t.table i)

-- The entry that `dh_find` points to.
abbrev pub lookup : Table → ℕ → Option Entry
lookup t user = entry_at t (find t user)

abbrev pub occupied : Table → ℕ → Bool
occupied t i = not ((t.table i).user == 0)

-- The capacity is a power of two, every entry is where probing looks for its user, and the counter
-- is right.
pub record IsValid (t : Table) : Type 0 where
  pub k : ℕ
  pub k_small : k ≤ 60
  pub cap_eq : t.cap ≡ 2 ^ k
  pub clean : Clean t
  pub reached : (i : ℕ) → i < t.cap → (t.table i).user ≢ 0 → find t (t.table i).user ≡ some i
  pub count_eq : t.count ≡ count_below t.cap (occupied t)

-- There is room: the search for a place stops below the capacity.
pub place_of :
    (t : Table) (user : ℕ)
    → IsValid t
    → t.count < t.cap
    → (p : ℕ) × (put_loop t user t.cap (hash user t.cap) ≡ some p) × (p < t.cap)
place_of t user v room = elim (Option-cases (put_loop t user t.cap (hash user t.cap))) [
  | inl none_left ↦
      absurd (omega (arith, room, v.count_eq, count_below-all t.cap (occupied t) (all none_left)))
  | inr (p, e) ↦ (p, e, in_range p e)
]
  where
    start : hash user t.cap < 2 ^ v.k
    start = subst (λ c. hash user c < 2 ^ v.k) (sym v.cap_eq) (hash-lt user v.k v.k_small)

    in_range : (p : ℕ) → put_loop t user t.cap (hash user t.cap) ≡ some p → p < t.cap
    in_range p e = omega (
      arith,
      put_loop-lt t v.k user t.cap (hash user t.cap) p v.k_small v.cap_eq start e,
      v.cap_eq,
    )

    all : put_loop t user t.cap (hash user t.cap) ≡ none → (j : ℕ) → j < t.cap → occupied t j ≡ true
    all h j lt =
        let i = hash user t.cap in
        let d : ℕ = if leb i j then j - i else j + t.cap - i in
        rw (
          ne→== _ _ (
            put_loop-full t v.k user t.cap i d j v.k_small v.cap_eq start h
              (ground (arith, start, v.cap_eq)) (omega (arith, v.cap_eq))
              (ground (arith, start, v.cap_eq))))

-- What a call that enters `e` does to the table, as a map from users to entries.
pub record Inserted (t : Table) (e : Entry) (t' : Table) : Type 0 where
  pub valid : IsValid t'
  pub cap_kept : t'.cap ≡ t.cap
  pub own : lookup t' e.user ≡ some e
  pub others : (user : ℕ) → user ≢ e.user → lookup t' user ≡ lookup t user
  pub grew : t'.count ≤ t.count + 1

-- An index with a user other than those that stand at `p` is another index.
module _ (t : Table) (e : Entry) (p c : ℕ) (v : IsValid t) (full : e.user ≢ 0) (lt : p < t.cap)
    (found : put_loop t e.user t.cap (hash e.user t.cap) ≡ some p) where
  apart : (user q : ℕ) → user ≢ e.user → (t.table q).user ≢ 0 → (t.table q).user ≡ user → q ≢ p
  apart user q ne f own at = elim (put_loop-user t e.user t.cap (hash e.user t.cap) p found) [
    | inl z ↦ f (ap (λ j. (t.table j).user) at ∙ z)
    | inr z ↦ ne (sym own ∙ ap (λ j. (t.table j).user) at ∙ z)
  ]

  place-find_own : find (place t p e c) e.user ≡ some p
  unfolding find
  place-find_own = find_loop-place_own t p e c t.cap (hash e.user t.cap) full found

  place-find_ne :
      (user q : ℕ)
      → user ≢ e.user
      → q ≢ p
      → find t user ≡ some q
      → find (place t p e c) user ≡ some q
  unfolding find
  place-find_ne user q ne off h =
      find_loop-place_ne t p e c user t.cap (hash user t.cap) q v.clean full (λ z. ne (sym z)) off h

  place-Clean : Clean (place t p e c)
  place-Clean i z = elim (ℕ_discrete i p) [
    | yes at ↦ absurd (
        full (
          sym (ap (λ x. x.user) (at_place t p e c))
          ∙ sym (ap (λ j. ((place t p e c).table j).user) at)
          ∙ z))
    | no off ↦
        ap (λ x. x.freed) (off_place t p e c i off)
        ∙ v.clean i (sym (ap (λ x. x.user) (off_place t p e c i off)) ∙ z)
  ]

  place-reached :
      (i : ℕ)
      → i < t.cap
      → ((place t p e c).table i).user ≢ 0
      → find (place t p e c) ((place t p e c).table i).user ≡ some i
  unfolding find
  place-reached i below f = elim (ℕ_discrete i p) [
    | yes at ↦
        subst (λ j. find (place t p e c) ((place t p e c).table j).user ≡ some j) (sym at)
          (ap (λ x. find (place t p e c) x.user) (at_place t p e c) ∙ place-find_own)
    | no off ↦
        let same = ap (λ x. x.user) (off_place t p e c i off) in
        let f' : (t.table i).user ≢ 0 = λ z. f (same ∙ z) in
        let was = v.reached i below f' in
        ap (λ u. find (place t p e c) u) same
        ∙ place-find_ne (t.table i).user i
            (λ z. off (
              cc (
                sym (
                  find_loop-put_loop t e.user t.cap (hash e.user t.cap) i v.clean
                    (ap (λ u. find t u) (sym z) ∙ was))
                ∙ found)))
            off was
  ]

  place-lookup_ne : (user : ℕ) → user ≢ e.user → lookup (place t p e c) user ≡ lookup t user
  unfolding find
  place-lookup_ne user ne = elim (Option-cases (find t user)) [
    | inr (q, h) ↦
        let (f, own) = find_loop-user t user t.cap (hash user t.cap) q v.clean h in
        let off = apart user q ne f own in
        ap (entry_at (place t p e c)) (place-find_ne user q ne off h)
        ∙ ap some (off_place t p e c q off)
        ∙ sym (ap (entry_at t) h)
    | inl h ↦ elim (Option-cases (find (place t p e c) user)) [
      | inl h' ↦ ap (entry_at (place t p e c)) h' ∙ sym (ap (entry_at t) h)
      | inr (q, h') ↦
          let (f, own) =
            find_loop-user (place t p e c) user t.cap (hash user t.cap) q place-Clean h' in
          let off : q ≢ p = λ at. ne (
            sym own
            ∙ ap (λ j. ((place t p e c).table j).user) at
            ∙ ap (λ x. x.user) (at_place t p e c)) in
          let same = ap (λ x. x.user) (off_place t p e c q off) in
          let below : q < t.cap = omega (
            arith,
            v.cap_eq,
            find_loop-lt (place t p e c) v.k user t.cap (hash user t.cap) q v.k_small v.cap_eq
                place-Clean
                (subst (λ c. hash user c < 2 ^ v.k) (sym v.cap_eq) (hash-lt user v.k v.k_small)) h',
          ) in
          absurd (
            cc
              (sym h ∙ ap (λ u. find t u) (sym own ∙ same) ∙ v.reached q below (λ z. f (same ∙ z))))
    ]
  ]

  place-count :
      c ≡ (if (t.table p).user == 0 then t.count + 1 else t.count)
      → c ≡ count_below t.cap (occupied (place t p e c))
  place-count h = elim (Bool-cases ((t.table p).user == 0)) [
    | inl z ↦
        let more =
          count_below-add t.cap p (occupied t) (occupied (place t p e c)) lt (rw z)
            (λ j. shape j) in
        let c' : c ≡ t.count + 1 = ground (arith, h, z) in omega (arith, c', v.count_eq, more)
    | inr z ↦
        let same =
          count_below-congr t.cap (occupied t) (occupied (place t p e c))
            (λ j _. shape j ∙ held j (rw z)) in
        let c' : c ≡ t.count = ground (arith, h, z) in omega (arith, c', v.count_eq, same)
  ]
    where
      shape : (j : ℕ) → occupied (place t p e c) j ≡ ((j == p) || occupied t j)
      shape j = elim (Bool-cases (j == p)) [ inl at ↦ rw (at, ne→== _ _ full) | inr off ↦ rw off ]

      held : (j : ℕ) → occupied t p ≡ true → ((j == p) || occupied t j) ≡ occupied t j
      held j on = elim (Bool-cases (j == p)) [
        | inl at ↦ rw at (sym (ap (occupied t) (==→eq _ _ at) ∙ on))
        | inr off ↦ rw off
      ]

  pub place-Inserted :
      c ≡ (if (t.table p).user == 0 then t.count + 1 else t.count) → Inserted t e (place t p e c)
  place-Inserted h = record {
    valid = record {
      k = v.k;
      k_small = v.k_small;
      cap_eq = v.cap_eq;
      clean = place-Clean;
      reached = place-reached;
      count_eq = place-count h;
    };
    cap_kept = refl;
    own = ap (entry_at (place t p e c)) place-find_own ∙ ap some (at_place t p e c);
    others = place-lookup_ne;
    grew = ground (arith, h);
  }

abbrev pub new_entry : (user raw size : ℕ) → Entry
new_entry user raw size = record { user = user; raw = raw; size = size; freed = false }

insert-place :
    (t : Table) (user raw size p : ℕ)
    → put_loop t user t.cap (hash user t.cap) ≡ some p
    → insert t user raw size ≡ write_entry t user raw size p
unfolding insert
insert-place t user raw size p h = rw (insert, h)

-- `dh_put` behind its test, where the table has room.
pub insert-Inserted :
    (t : Table) (user raw size : ℕ)
    → IsValid t
    → t.count < t.cap
    → user ≢ 0
    → Inserted t (new_entry user raw size) (insert t user raw size)
insert-Inserted t user raw size v room full =
    let (p, found, lt) = place_of t user v room in
    let c : ℕ =
      if (t.table p).user == 0 && not (t.table p).freed then add_word t.count 1 else t.count in
    let small : t.count < 2 ^ 60 =
      omega (arith, room, v.cap_eq, pow-le-pow_right {n = 2} (omega arith) v.k_small) in
    let c_eq : c ≡ (if (t.table p).user == 0 then t.count + 1 else t.count) =
      ground (arith, v.clean p) in
    rw (insert-place t user raw size p found)
      (place-Inserted t (new_entry user raw size) p c v full lt found c_eq)
