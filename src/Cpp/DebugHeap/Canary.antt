-- ===== src/Cpp/DebugHeap/Canary.antt =====
-- The four canary words of a guard: what `write_canary` leaves is what `check_canary` looks for.
use heapforge.Prelude.{
  ℕ, zero, suc, ◌+◌, ◌-◌, ◌*◌, ◌/◌, ◌%◌, ◌^◌, ◌≤◌, ◌<◌, ◌≡◌, ◌⊎◌, ◌↔◌, inl, inr, refl, sym, ◌∙◌,
  arith, true, ◌==◌, add_word, ==→eq, Bool-cases,
}
use native.Mathlib.Decide.{ℕ_discrete}
use heapforge.Prelude.Bytes.{Bytes, store, store_byte, load, store-out, load-congr, load-store}
use heapforge.Cpp.DebugHeap.{
  canary, write_canary, write_canary_loop, check_canary, check_canary_loop,
}

-- Every cell holds a byte.
abbrev pub IsBytes : Bytes → Type 0
IsBytes mem = (p : ℕ) → mem p < 256

pub store-IsBytes : (n : ℕ) (mem : Bytes) (at v : ℕ) → IsBytes mem → IsBytes (store n mem at v)
unfolding store
store-IsBytes zero mem at v b = b
store-IsBytes (suc n) mem at v b =
    store-IsBytes n (store_byte mem at (v % 256)) (at + 1) (v / 256)
      (λ p. elim (Bool-cases (p == at)) [ inl e ↦ rw e (omega arith) | inr e ↦ rw e (b p) ])

-- Equal numbers have equal bytes.
pub load-injective :
    (n : ℕ) (mem mem' : Bytes) (at p : ℕ)
    → IsBytes mem
    → IsBytes mem'
    → load n mem' at ≡ load n mem at
    → at ≤ p
    → p < at + n
    → mem' p ≡ mem p
unfolding load
load-injective zero mem mem' at p b b' e lo hi = absurd (omega arith)
load-injective (suc n) mem mem' at p b b' e lo hi = elim (ℕ_discrete p at) [
  | yes here ↦ rw here (omega (arith, e, b at, b' at))
  | no ne ↦
      load-injective n mem mem' (at + 1) p b b' (omega (arith, e, b at, b' at)) (omega arith)
        (omega arith)
]

module _ (at : ℕ) where
  -- The words `i` to `i + rounds` of the guard are canaries.
  abbrev Marked : Bytes → (rounds i : ℕ) → Type 0
  Marked mem rounds i = (j : ℕ) → i ≤ j → j < i + rounds → load 4 mem (at + j * 4) ≡ canary

  check_loop_iff :
      (mem : Bytes) (rounds i : ℕ)
      → at + (i + rounds) * 4 ≤ 2 ^ 64
      → (check_canary_loop mem at rounds i ≡ true) ↔ Marked mem rounds i
  unfolding check_canary_loop
  check_loop_iff mem zero i fits = ((λ e j lo hi. absurd (omega arith)), λ m. refl)
  check_loop_iff mem (suc rounds) i fits =
      let word : add_word at (i * 4) ≡ at + i * 4 = omega arith in
      let (forth, back) = check_loop_iff mem rounds (i + 1) (omega arith) in
      elim (Bool-cases (load 4 mem (at + i * 4) == canary)) [
        | inl e ↦
            rw (word, e)
              (
                (λ ok j lo hi. elim (ℕ_discrete j i) [
                  | yes here ↦ rw here (==→eq _ _ e)
                  | no ne ↦ forth ok j (omega arith) (omega arith)
                ]),
                λ m. back (λ j lo hi. m j (omega arith) (omega arith)),
              )
        | inr e ↦
            rw (word, e)
              (
                (λ ok. absurd (ground (arith, ok))),
                λ m. absurd (let own = m i (omega arith) (omega arith) in ground (arith, own, e)),
              )
      ]

  write_loop-out :
      (mem : Bytes) (rounds i p : ℕ)
      → at + (i + rounds) * 4 ≤ 2 ^ 64
      → (p < at + i * 4) ⊎ (at + (i + rounds) * 4 ≤ p)
      → write_canary_loop mem at rounds i p ≡ mem p
  unfolding write_canary_loop
  write_loop-out mem zero i p fits out = refl
  write_loop-out mem (suc rounds) i p fits out =
      let word : add_word at (i * 4) ≡ at + i * 4 = omega arith in
      let side : (at' n : ℕ)
          → at + i * 4 ≤ at'
          → at' + n ≤ at + (i + suc rounds) * 4
          → (p < at') ⊎ (at' + n ≤ p) =
        λ at' n lo hi. elim out [ inl below ↦ inl (omega arith) | inr above ↦ inr (omega arith) ] in
      rw word (
        write_loop-out (store 4 mem (at + i * 4) canary) rounds (i + 1) p (omega arith)
          (elim out [ inl below ↦ inl (omega arith) | inr above ↦ inr (omega arith) ])
        ∙ store-out 4 mem (at + i * 4) canary p (side (at + i * 4) 4 (omega arith) (omega arith)))

  write_loop-Marked :
      (mem : Bytes) (rounds i : ℕ)
      → at + (i + rounds) * 4 ≤ 2 ^ 64
      → Marked (write_canary_loop mem at rounds i) rounds i
  unfolding write_canary_loop
  write_loop-Marked mem zero i fits j lo hi = absurd (omega arith)
  write_loop-Marked mem (suc rounds) i fits j lo hi =
      let word : add_word at (i * 4) ≡ at + i * 4 = omega arith in
      let mem1 = store 4 mem (at + i * 4) canary in
      rw word (elim (ℕ_discrete j i) [
        | yes here ↦ rw here (
            load-congr 4 mem1 (write_canary_loop mem1 at rounds (i + 1)) (at + i * 4)
              (λ p lo' hi'. write_loop-out mem1 rounds (i + 1) p (omega arith) (inl (omega arith)))
            ∙ load-store 4 mem (at + i * 4) canary (omega arith))
        | no ne ↦ write_loop-Marked mem1 rounds (i + 1) (omega arith) j (omega arith) (omega arith)
      ])

  write_loop-IsBytes :
      (mem : Bytes) (rounds i : ℕ) → IsBytes mem → IsBytes (write_canary_loop mem at rounds i)
  unfolding write_canary_loop
  write_loop-IsBytes mem zero i b = b
  write_loop-IsBytes mem (suc rounds) i b =
      write_loop-IsBytes (store 4 mem (add_word at (i * 4)) canary) rounds (i + 1)
        (store-IsBytes 4 mem (add_word at (i * 4)) canary b)

pub write_canary-out :
    (mem : Bytes) (at p : ℕ)
    → at + 16 ≤ 2 ^ 64
    → (p < at) ⊎ (at + 16 ≤ p)
    → write_canary mem at p ≡ mem p
unfolding write_canary
write_canary-out mem at p fits out =
    write_loop-out at mem 4 0 p (omega arith)
      (elim out [ inl below ↦ inl (omega arith) | inr above ↦ inr (omega arith) ])

pub write_canary-IsBytes : (mem : Bytes) (at : ℕ) → IsBytes mem → IsBytes (write_canary mem at)
unfolding write_canary
write_canary-IsBytes mem at b = write_loop-IsBytes at mem 4 0 b

-- The guard at `at` is there as in `mem`.
abbrev pub Same : (mem mem' : Bytes) (at : ℕ) → Type 0
Same mem mem' at = (p : ℕ) → at ≤ p → p < at + 16 → mem' p ≡ mem p

-- After `write_canary`, and writes elsewhere, `check_canary` tells whether a byte has changed since.
pub check-Same :
    (mem0 mem mem' : Bytes) (at : ℕ)
    → at + 16 ≤ 2 ^ 64
    → IsBytes mem
    → IsBytes mem'
    → Same (write_canary mem0 at) mem at
    → (check_canary mem' at ≡ true) ↔ Same mem mem' at
unfolding check_canary write_canary
check-Same mem0 mem mem' at fits b b' kept =
    let (forth, back) = check_loop_iff at mem' 4 0 (omega arith) in
    let marked : (j : ℕ) → j < 4 → load 4 mem (at + j * 4) ≡ canary = λ j lt.
      load-congr 4 (write_canary_loop mem0 at 4 0) mem (at + j * 4)
        (λ p lo hi. kept p (omega arith) (omega arith))
      ∙ write_loop-Marked at mem0 4 0 (omega arith) j (omega arith) (omega arith) in
    (
      (λ ok p lo hi.
          let j = (p - at) / 4 in
          let lt : j < 4 = omega arith in
          load-injective 4 mem mem' (at + j * 4) p b b'
            (forth ok j (omega arith) lt ∙ sym (marked j lt)) (omega arith) (omega arith)),
      λ same. back (λ j lo hi.
          load-congr 4 mem mem' (at + j * 4) (λ p lo' hi'. same p (omega arith) (omega arith))
          ∙ marked j hi),
    )
