-- ===== src/Platform/Tests.antt =====
-- The helpers at concrete words, and the theorems there.
use heapforge.Prelude.{◌+◌, ◌≤◌, ◌<◌, ◌%◌, ◌^◌, ◌≡◌, refl, arith, true, false}
use heapforge.Platform.{align_up, is_pow2, next_pow2, log2_floor}
use heapforge.Platform.Align.{align_up_lem}
use heapforge.Platform.Pow2.{next_pow2_lem, log2_floor_lem}

is_pow2_run : is_pow2 64 ≡ true
unfolding is_pow2
is_pow2_run = refl

is_pow2_zero : is_pow2 0 ≡ false
unfolding is_pow2
is_pow2_zero = refl

next_pow2_run : next_pow2 100 ≡ 128
unfolding next_pow2
next_pow2_run = refl

next_pow2_wraps : next_pow2 (2 ^ 63 + 1) ≡ 0
unfolding next_pow2
next_pow2_wraps = refl

align_up_run : (align_up 100 64 % 64 ≡ 0) × (100 ≤ align_up 100 64) × (align_up 100 64 < 164)
align_up_run = align_up_lem 100 6 (omega arith) (omega arith)

next_pow2_lem_run : next_pow2 100 ≡ 128
next_pow2_lem_run = next_pow2_lem 6 100 (omega arith) (omega arith) (omega arith)

log2_floor_run : log2_floor 100 ≡ 6
log2_floor_run = log2_floor_lem 6 100 (omega arith) (omega arith) (omega arith)
