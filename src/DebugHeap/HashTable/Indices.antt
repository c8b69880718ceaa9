-- ===== src/DebugHeap/HashTable/Indices.antt =====
-- The order in which linear probing visits the indices: all of them, each below the capacity.
use heapforge.Prelude.{
  ℕ, zero, suc, ◌+◌, ◌-◌, ◌/◌, ◌%◌, ◌^◌, ◌≤◌, ◌<◌, ◌≡◌, ◌≢◌, ◌⊎◌, inl, inr, sym, ◌∙◌, ap, arith,
  bit_and, bit_xor, none, some, add_word, sub_word, mul_word,
}
use heapforge.Prelude.Bits.{bit_and_low}
use native.Mathlib.Nat.{one-le-pow, mod-lt, mod_self, mod-eq_of_lt, pow-le-pow_right}
use native.Mathlib.Decide.{ℕ_discrete}
use heapforge.DebugHeap.HashTable.{Table, hash, next_index, find_loop, put_loop}
use heapforge.DebugHeap.HashTable.Probe.{
  Clean, Stop, stop, put_loop-stop, put_loop-pass, find_loop-own, find_loop-pass, find_loop-empty,
}

pub mask_lem : (k x : ℕ) → k ≤ 60 → bit_and x (sub_word (2 ^ k) 1) ≡ x % 2 ^ k
mask_lem k x small =
    let mask : sub_word (2 ^ k) 1 ≡ 2 ^ k - 1 =
      omega (arith, one-le-pow k 2 (omega arith), pow-le-pow_right {n = 2} (omega arith) small) in
    rw mask (bit_and_low k x)

pub next_index-lt : (k i : ℕ) → k ≤ 60 → next_index (2 ^ k) i < 2 ^ k
next_index-lt k i small =
    rw (mask_lem k (add_word i 1) small) (mod-lt _ (one-le-pow k 2 (omega arith)))

pub hash-lt : (user k : ℕ) → k ≤ 60 → hash user (2 ^ k) < 2 ^ k
unfolding hash
hash-lt user k small =
    let x = mul_word (bit_xor user (user / 2 ^ 33)) 0xff51afd7ed558ccd in
    let y = bit_xor x (x / 2 ^ 33) in
    rw (mask_lem k y small) (mod-lt _ (one-le-pow k 2 (omega arith)))

-- The next index is the one after, or the first after the last.
next_index_lem :
    (k i : ℕ)
    → k ≤ 60
    → i < 2 ^ k
    → (next_index (2 ^ k) i ≡ i + 1) ⊎ ((i + 1 ≡ 2 ^ k) × (next_index (2 ^ k) i ≡ 0))
next_index_lem k i small lt =
    let big = pow-le-pow_right {n = 2} (omega arith) small in
    let plain : add_word i 1 ≡ i + 1 = omega arith in
    let step : next_index (2 ^ k) i ≡ (i + 1) % 2 ^ k =
      mask_lem k (add_word i 1) small ∙ ap (λ x. x % 2 ^ k) plain in
    elim (ℕ_discrete (i + 1) (2 ^ k)) [
      | yes e ↦ inr (e, step ∙ ap (λ x. x % 2 ^ k) e ∙ mod_self (2 ^ k))
      | no ne ↦ inl (step ∙ mod-eq_of_lt (omega arith))
    ]

pub find_loop-lt :
    (t : Table) (k user rounds i q : ℕ)
    → k ≤ 60
    → t.cap ≡ 2 ^ k
    → Clean t
    → i < 2 ^ k
    → find_loop t user rounds i ≡ some q
    → q < 2 ^ k
unfolding find_loop
find_loop-lt t k user zero i q small cap clean lt h = absurd (cc)
find_loop-lt t k user (suc rounds) i q small cap clean lt h = elim (stop t user i) [
  | Stop.empty z ↦ absurd (cc (find_loop-empty t user rounds i z (clean i z)))
  | Stop.own f z ↦ let at : i ≡ q = cc (find_loop-own t user rounds i f z) in rw (← at) lt
  | Stop.other f g ↦
      find_loop-lt t k user rounds (next_index (2 ^ k) i) q small cap clean
        (next_index-lt k i small)
        (ap (λ c. find_loop t user rounds (next_index c i)) (sym cap)
          ∙ sym (find_loop-pass t user rounds i f g)
          ∙ h)
]

pub put_loop-lt :
    (t : Table) (k user rounds i q : ℕ)
    → k ≤ 60
    → t.cap ≡ 2 ^ k
    → i < 2 ^ k
    → put_loop t user rounds i ≡ some q
    → q < 2 ^ k
unfolding put_loop
put_loop-lt t k user zero i q small cap lt h = absurd (cc)
put_loop-lt t k user (suc rounds) i q small cap lt h = elim (stop t user i) [
  | Stop.empty z ↦ let at : i ≡ q = cc (put_loop-stop t user rounds i (inl z)) in rw (← at) lt
  | Stop.own f z ↦ let at : i ≡ q = cc (put_loop-stop t user rounds i (inr z)) in rw (← at) lt
  | Stop.other f g ↦
      put_loop-lt t k user rounds (next_index (2 ^ k) i) q small cap (next_index-lt k i small) (
        ap (λ c. put_loop t user rounds (next_index c i)) (sym cap)
        ∙ sym (put_loop-pass t user rounds i f g)
        ∙ h)
]

-- The loop visits the indices from `i` in order and goes on at 0 after the last one: where it does
-- not stop, no entry that it passed is empty.
pub put_loop-full :
    (t : Table) (k user rounds i d j : ℕ)
    → k ≤ 60
    → t.cap ≡ 2 ^ k
    → i < 2 ^ k
    → put_loop t user rounds i ≡ none
    → d < rounds
    → j < 2 ^ k
    → (i + d ≡ j) ⊎ (i + d ≡ j + 2 ^ k)
    → (t.table j).user ≢ 0
unfolding put_loop
put_loop-full t k user zero i d j small cap lt h bound inside dist = absurd (omega arith)
put_loop-full t k user (suc rounds) i d j small cap lt h bound inside dist = elim (stop t user i) [
  | Stop.empty z ↦ absurd (cc (put_loop-stop t user rounds i (inl z)))
  | Stop.own f z ↦ absurd (cc (put_loop-stop t user rounds i (inr z)))
  | Stop.other f g ↦ elim (ℕ_discrete i j) [
    | yes at ↦ rw (← at) f
    | no off ↦
        put_loop-full t k user rounds (next_index (2 ^ k) i) (d - 1) j small cap
          (next_index-lt k i small)
          (ap (λ c. put_loop t user rounds (next_index c i)) (sym cap)
            ∙ sym (put_loop-pass t user rounds i f g)
            ∙ h)
          (omega (arith, dist)) inside (later off)
  ]
]
  where
    later :
        i ≢ j → (next_index (2 ^ k) i + (d - 1) ≡ j) ⊎ (next_index (2 ^ k) i + (d - 1) ≡ j + 2 ^ k)
    later off = grind (arith, next_index_lem k i small lt)
