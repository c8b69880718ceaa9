-- ===== src/DebugHeap/HashTable/Probe.antt =====
-- Linear probing: what the two loops of the hash table find, and what a write changes.
use heapforge.Prelude.{
  ℕ, zero, suc, ◌≡◌, ◌≢◌, ◌⊎◌, inl, inr, sym, ◌∙◌, ap, arith, false, ◌==◌, none, some, Bool-cases,
  ==→eq, ==_refl, ne→==,
}
use native.Mathlib.Decide.{ℕ_discrete}
use heapforge.DebugHeap.HashTable.{Entry, Table, next_index, find_loop, put_loop, set_entry}

-- One entry and the counter are written.
abbrev pub place : Table → ℕ → Entry → ℕ → Table
place t p e c = record t { table = set_entry t.table p e; count = c }

-- What stops a search: an empty entry, or the user's own.
pub data Stop (t : Table) (user i : ℕ) : Type 0 where
  empty : (t.table i).user ≡ 0 → Stop t user i
  own : (t.table i).user ≢ 0 → (t.table i).user ≡ user → Stop t user i
  other : (t.table i).user ≢ 0 → (t.table i).user ≢ user → Stop t user i

pub stop : (t : Table) (user i : ℕ) → Stop t user i
stop t user i = elim (Bool-cases ((t.table i).user == 0)) [
  | inl e ↦ Stop.empty (==→eq _ _ e)
  | inr f ↦ elim (Bool-cases ((t.table i).user == user)) [
    | inl e ↦ Stop.own (ground arith) (==→eq _ _ e)
    | inr g ↦ Stop.other (ground arith) (ground arith)
  ]
]

module _ (t : Table) (user rounds i : ℕ) where
  pub put_loop-stop :
      (t.table i).user ≡ 0 ⊎ (t.table i).user ≡ user → put_loop t user (suc rounds) i ≡ some i
  unfolding put_loop
  put_loop-stop (inl e) = rw (ap (λ x. x == 0) e)
  put_loop-stop (inr e) = elim (Bool-cases ((t.table i).user == 0)) [
    | inl z ↦ rw z
    | inr z ↦ rw (z, ap (λ x. x == user) e, ==_refl user)
  ]

  pub put_loop-pass :
      (t.table i).user ≢ 0
      → (t.table i).user ≢ user
      → put_loop t user (suc rounds) i ≡ put_loop t user rounds (next_index t.cap i)
  unfolding put_loop
  put_loop-pass full ne = rw (ne→== _ _ full, ne→== _ _ ne)

  pub find_loop-empty :
      (t.table i).user ≡ 0 → (t.table i).freed ≡ false → find_loop t user (suc rounds) i ≡ none
  unfolding find_loop
  find_loop-empty e f = rw (ap (λ x. x == 0) e, f)

  pub find_loop-own :
      (t.table i).user ≢ 0 → (t.table i).user ≡ user → find_loop t user (suc rounds) i ≡ some i
  unfolding find_loop
  find_loop-own full e = rw (ne→== _ _ full, ap (λ x. x == user) e, ==_refl user)

  pub find_loop-pass :
      (t.table i).user ≢ 0
      → (t.table i).user ≢ user
      → find_loop t user (suc rounds) i ≡ find_loop t user rounds (next_index t.cap i)
  unfolding find_loop
  find_loop-pass full ne = rw (ne→== _ _ full, ne→== _ _ ne)

-- An entry without a user is not marked as freed.
abbrev pub Clean : Table → Type 0
Clean t = (i : ℕ) → (t.table i).user ≡ 0 → (t.table i).freed ≡ false

module _ (t : Table) (user : ℕ) where
  pub find_loop-user :
      (rounds i p : ℕ)
      → Clean t
      → find_loop t user rounds i ≡ some p
      → (t.table p).user ≢ 0 × (t.table p).user ≡ user
  unfolding find_loop
  find_loop-user zero i p clean h = absurd (cc)
  find_loop-user (suc rounds) i p clean h = elim (stop t user i) [
    | Stop.empty e ↦ absurd (cc (find_loop-empty t user rounds i e (clean i e)))
    | Stop.own f e ↦ let at : i ≡ p = cc (find_loop-own t user rounds i f e) in rw (← at) (f, e)
    | Stop.other f g ↦
        find_loop-user rounds (next_index t.cap i) p clean
          (sym (find_loop-pass t user rounds i f g) ∙ h)
  ]

  pub find_loop-put_loop :
      (rounds i p : ℕ)
      → Clean t
      → find_loop t user rounds i ≡ some p
      → put_loop t user rounds i ≡ some p
  unfolding find_loop
  find_loop-put_loop zero i p clean h = absurd (cc)
  find_loop-put_loop (suc rounds) i p clean h = elim (stop t user i) [
    | Stop.empty e ↦ absurd (cc (find_loop-empty t user rounds i e (clean i e)))
    | Stop.own f e ↦
        put_loop-stop t user rounds i (inr e) ∙ sym (find_loop-own t user rounds i f e) ∙ h
    | Stop.other f g ↦
        put_loop-pass t user rounds i f g
        ∙ find_loop-put_loop rounds (next_index t.cap i) p clean
            (sym (find_loop-pass t user rounds i f g) ∙ h)
  ]

  pub put_loop-user :
      (rounds i p : ℕ)
      → put_loop t user rounds i ≡ some p
      → (t.table p).user ≡ 0 ⊎ (t.table p).user ≡ user
  unfolding put_loop
  put_loop-user zero i p h = absurd (cc)
  put_loop-user (suc rounds) i p h = elim (stop t user i) [
    | Stop.empty e ↦
        let at : i ≡ p = cc (put_loop-stop t user rounds i (inl e)) in rw (← at) (inl e)
    | Stop.own f e ↦
        let at : i ≡ p = cc (put_loop-stop t user rounds i (inr e)) in rw (← at) (inr e)
    | Stop.other f g ↦
        put_loop-user rounds (next_index t.cap i) p (sym (put_loop-pass t user rounds i f g) ∙ h)
  ]

abbrev pub at_place : (t : Table) (p : ℕ) (e : Entry) (c : ℕ) → (place t p e c).table p ≡ e
at_place t p e c = rw (==_refl p)

abbrev pub off_place :
    (t : Table) (p : ℕ) (e : Entry) (c i : ℕ) → i ≢ p → (place t p e c).table i ≡ t.table i
off_place t p e c i ne = rw (ne→== i p ne)

module _ (t : Table) (p : ℕ) (e : Entry) (c : ℕ) where
  -- After the write, the search for the user ends there.
  pub find_loop-place_own :
      (rounds i : ℕ)
      → e.user ≢ 0
      → put_loop t e.user rounds i ≡ some p
      → find_loop (place t p e c) e.user rounds i ≡ some p
  unfolding put_loop
  find_loop-place_own zero i full h = absurd (cc)
  find_loop-place_own (suc rounds) i full h = elim (stop t e.user i) [
    | Stop.empty z ↦ here (cc (put_loop-stop t e.user rounds i (inl z)))
    | Stop.own f z ↦ here (cc (put_loop-stop t e.user rounds i (inr z)))
    | Stop.other f g ↦
        let apart : i ≢ p = λ at. elim (put_loop-user t e.user (suc rounds) i p h) [
          | inl z ↦ f (ap (λ j. (t.table j).user) at ∙ z)
          | inr z ↦ g (ap (λ j. (t.table j).user) at ∙ z)
        ] in
        let kept = ap (λ x. x.user) (off_place t p e c i apart) in
        find_loop-pass (place t p e c) e.user rounds i (λ z. f (sym kept ∙ z))
          (λ z. g (sym kept ∙ z))
        ∙ find_loop-place_own rounds (next_index t.cap i) full
            (sym (put_loop-pass t e.user rounds i f g) ∙ h)
  ]
    where
      here : i ≡ p → find_loop (place t p e c) e.user (suc rounds) i ≡ some p
      here at =
          let there =
            ap (λ j. ((place t p e c).table j).user) at ∙ ap (λ x. x.user) (at_place t p e c) in
          find_loop-own (place t p e c) e.user rounds i (λ z. full (sym there ∙ z)) there
          ∙ ap some at

  -- The write leaves what the search for another user finds.
  pub find_loop-place_ne :
      (user rounds i q : ℕ)
      → Clean t
      → e.user ≢ 0
      → e.user ≢ user
      → q ≢ p
      → find_loop t user rounds i ≡ some q
      → find_loop (place t p e c) user rounds i ≡ some q
  unfolding find_loop
  find_loop-place_ne user zero i q clean full ne apart h = absurd (cc)
  find_loop-place_ne user (suc rounds) i q clean full ne apart h =
      let later : (t.table i).user ≢ 0
          → (t.table i).user ≢ user
          → find_loop (place t p e c) user rounds (next_index t.cap i) ≡ some q =
        λ f g.
          find_loop-place_ne user rounds (next_index t.cap i) q clean full ne apart
            (sym (find_loop-pass t user rounds i f g) ∙ h) in
      elim (ℕ_discrete i p) [
        | yes at ↦
            let there =
              ap (λ j. ((place t p e c).table j).user) at ∙ ap (λ x. x.user) (at_place t p e c) in
            find_loop-pass (place t p e c) user rounds i (λ z. full (sym there ∙ z))
              (λ z. ne (sym there ∙ z))
            ∙ (elim (stop t user i) [
              | Stop.empty z ↦ absurd (cc (find_loop-empty t user rounds i z (clean i z)))
              | Stop.own f z ↦ absurd (apart (cc (find_loop-own t user rounds i f z)))
              | Stop.other f g ↦ later f g
            ])
        | no off ↦
            let kept = ap (λ x. x.user) (off_place t p e c i off) in
            elim (stop t user i) [
              | Stop.empty z ↦ absurd (cc (find_loop-empty t user rounds i z (clean i z)))
              | Stop.own f z ↦
                  find_loop-own (place t p e c) user rounds i (λ y. f (sym kept ∙ y)) (kept ∙ z)
                  ∙ sym (find_loop-own t user rounds i f z)
                  ∙ h
              | Stop.other f g ↦
                  find_loop-pass (place t p e c) user rounds i (λ y. f (sym kept ∙ y))
                    (λ y. g (sym kept ∙ y))
                  ∙ later f g
            ]
      ]
