-- ===== src/Platform.antt =====
-- The pure helpers of c/include/heapforge/hf_platform.h on `size_t`.
pub mod Align
pub mod Pow2
mod Tests
use heapforge.Prelude.{
  ℕ, zero, suc, ◌+◌, ◌-◌, ◌/◌, ◌%◌, ◌^◌, bit_and, bit_or, Bool, true, false, not, ◌&&◌, ◌==◌, leb,
  if◌then◌else◌, add_word, sub_word, not_word,
}

-- HF_DEFAULT_ALIGN
abbrev pub default_align : ℕ
default_align = 16

-- `hf_align_up`: (n + align - 1) & ~(align - 1)
unfoldable pub align_up : ℕ → ℕ → ℕ
align_up n align = bit_and (sub_word (add_word n align) 1) (not_word (sub_word align 1))

-- `hf_is_pow2`
unfoldable pub is_pow2 : ℕ → Bool
is_pow2 n = not (n == 0) && (bit_and n (sub_word n 1) == 0)

-- One line `n |= n >> t`.
pub smear : ℕ → ℕ → ℕ
smear n t = bit_or n (n / 2 ^ t)

-- The six lines, with 1, 2, 4, 8, 16 and 32.
pub smear_all : ℕ → ℕ
unfolding smear
smear_all n = smear (smear (smear (smear (smear (smear n 1) 2) 4) 8) 16) 32

-- `hf_next_pow2`
unfoldable pub next_pow2 : ℕ → ℕ
unfolding smear_all
next_pow2 n = if leb n 1 then 1 else add_word (smear_all (n - 1)) 1

-- The loop of `hf_log2_floor`: while (n >>= 1) ++r, on fuel.
pub log2_loop : ℕ → ℕ → ℕ → ℕ
log2_loop zero n r = r
log2_loop (suc fuel) n r =
    let rest = log2_loop fuel (n / 2) (r + 1) in if n / 2 == 0 then r else rest

-- `hf_log2_floor`: a 64-bit word is zero after 64 shifts.
unfoldable pub log2_floor : ℕ → ℕ
unfolding log2_loop
log2_floor n = log2_loop 64 n 0
