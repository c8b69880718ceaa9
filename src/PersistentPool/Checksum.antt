-- ===== src/PersistentPool/Checksum.antt =====
-- `fnv1a` of c/src/hf_persistent_pool.c, and the bytes of an integer in memory (little endian).
use heapforge.Prelude.{ℕ, zero, suc, ◌/◌, ◌%◌, ◌^◌, bit_xor, List, [], ◌∷◌, mul_word}

-- The `n` bytes of `x`, lowest first.
unfoldable pub bytes_of : ℕ → ℕ → List ℕ
bytes_of zero x = []
bytes_of (suc n) x = x % 2 ^ 8 ∷ bytes_of n (x / 2 ^ 8)

-- h ^= p[i]; h *= prime;
unfoldable pub fnv1a_loop : ℕ → List ℕ → ℕ
fnv1a_loop h [] = h
fnv1a_loop h (b ∷ bs) = fnv1a_loop (mul_word (bit_xor h b) 1_099_511_628_211) bs

unfoldable pub fnv1a : List ℕ → ℕ
unfolding fnv1a_loop
fnv1a bs = fnv1a_loop 1_469_598_103_934_665_603 bs
