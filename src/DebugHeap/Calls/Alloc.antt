-- ===== src/DebugHeap/Calls/Alloc.antt =====
-- `dh_allocate` where the backend has a block: the guards, the fill and the new entry.
use heapforge.Prelude.{
  ℕ, ◌+◌, ◌^◌, ◌≤◌, ◌<◌, ◌≡◌, ◌⊎◌, inl, inr, refl, sym, ◌∙◌, arith, true, Option, some, add_word,
}
use mathlib.Core.Path.{subst}
use heapforge.Prelude.Bytes.{Bytes, fill}
use heapforge.Allocator.{Interface}
use heapforge.DebugHeap.{head_size, tail_size, fill_byte, write_guards, is_intact}
use heapforge.DebugHeap.Calls.{World, allocate, after_backend, guard_block}
use heapforge.DebugHeap.Guards.{
  Fits, fill-out, fill-in, is_intact-congr, write_guards-out, write_guards-is_intact,
}
use heapforge.DebugHeap.HashTable.Insert.{IsValid}
use heapforge.DebugHeap.HashTable.Put.{Updated, put-Updated}

-- What the call leaves for a block at `raw`.
pub record Guarded (B : Interface) (w : World B.State) (raw size : ℕ) (below : B.State)
    (mem : Bytes) (r : Option ℕ × World B.State) : Type 0 where
  pub got : r.0 ≡ some (raw + 12)
  pub intact : is_intact r.1.mem raw size ≡ true
  pub filled : (p : ℕ) → raw + 12 ≤ p → p < raw + 12 + size → r.1.mem p ≡ fill_byte
  pub elsewhere : (p : ℕ) → (p < raw) ⊎ (raw + size + 16 ≤ p) → r.1.mem p ≡ mem p
  pub tracked : Updated w.heap.entries (raw + 12) raw size r.1.heap.entries
  pub backend_state : r.1.below ≡ below

guard_block-Guarded :
    (B : Interface) (w : World B.State) (raw size : ℕ) (below : B.State) (mem : Bytes)
    → IsValid w.heap.entries
    → w.heap.entries.cap < 2 ^ 60
    → Fits raw size
    → let (user, w') = guard_block B (record w { below = below; mem = mem }) raw size in
      Guarded B w raw size below mem (some user, w')
unfolding guard_block
guard_block-Guarded B w raw size below mem v small fits =
    let user : add_word raw head_size ≡ raw + 12 = omega arith in
    let guarded = write_guards mem raw size in
    rw user (record {
      got = refl;
      intact =
          is_intact-congr guarded (fill guarded (raw + 12) size fill_byte) raw size fits
            (λ p lo hi. fill-out guarded (raw + 12) size fill_byte p (inl (omega arith)))
            (λ p lo hi. fill-out guarded (raw + 12) size fill_byte p (inr (omega arith)))
          ∙ write_guards-is_intact mem raw size fits;
      filled = λ p lo hi. fill-in guarded (raw + 12) size fill_byte p lo hi;
      elsewhere = λ p out.
          fill-out guarded (raw + 12) size fill_byte p (apart p out)
          ∙ write_guards-out mem raw size p fits out;
      tracked = put-Updated w.heap.entries (raw + 12) raw size v small (λ z. omega (arith, z));
      backend_state = refl;
    })
  where
    apart : (p : ℕ) → (p < raw) ⊎ (raw + size + 16 ≤ p) → (p < raw + 12) ⊎ (raw + 12 + size ≤ p)
    apart p (inl lo) = inl (omega arith)
    apart p (inr hi) = inr (omega arith)

-- Where the backend has a block, which with the guards ends before the end of the address space,
-- `dh_allocate` on a valid table of fewer than 2 ^ 60 places returns the address 12 bytes behind
-- it, both canaries are in place, the user's bytes are filled, every byte outside of the block is
-- as the backend left it, and the table has the new entry.
pub allocate-Guarded :
    (B : Interface) (w : World B.State) (size alignment raw : ℕ) (below : B.State) (mem : Bytes)
    → IsValid w.heap.entries
    → w.heap.entries.cap < 2 ^ 60
    → Fits raw size
    → B.allocate w.below w.mem (size + 16) alignment ≡ (some raw, (below, mem))
    → Guarded B w raw size below mem (allocate B w size alignment)
unfolding allocate after_backend
allocate-Guarded B w size alignment raw below mem v small fits answer =
    let total : add_word (add_word head_size size) tail_size ≡ size + 16 = omega arith in
    subst
      (λ n.
        Guarded B w raw size below mem
          (after_backend B w size (B.allocate w.below w.mem n alignment)))
      (sym total)
      (subst (λ a. Guarded B w raw size below mem (after_backend B w size a)) (sym answer)
        (guard_block-Guarded B w raw size below mem v small fits))
