-- ===== src/Bits.antt =====
-- src/bit.h and src/bit.c: powers of two and rotation on `uint32_t`.
pub mod Or
pub mod Smear
pub mod Pow2
use eq_data_patcher.Base.{
  ℕ, ◌+◌, ◌-◌, Bool, not, ◌&&◌, ◌==◌, if◌then◌else◌, bit_and, bit_or, u32, sub32, add32, ◌<<<◌,
  ◌>>>◌,
}

-- `bit_is_pow2`
unfoldable pub is_pow2 : ℕ → Bool
is_pow2 n = not (n == 0) && bit_and n (sub32 n 1) == 0

-- `bit_rotate` at 32 bits, for `0 < n < 32`, where `-n & 31` is `32 - n`.
unfoldable pub rotate : ℕ → ℕ → ℕ
rotate x n = bit_or (x <<< n) (x >>> (32 - n))

-- One line `n |= n >> k`.
pub or_shift : ℕ → ℕ → ℕ
or_shift k n = bit_or n (n >>> k)

pub smear : ℕ → ℕ
smear n = or_shift 16 (or_shift 8 (or_shift 4 (or_shift 2 (or_shift 1 n))))

unfoldable pub next_pow2_u32 : ℕ → ℕ
next_pow2_u32 n = add32 (smear (sub32 n 1)) 1

unfoldable pub pow2_greater_than_u32 : ℕ → ℕ
pow2_greater_than_u32 n = if is_pow2 n then n <<< 1 else next_pow2_u32 n

unfoldable pub pow2_greater_or_equal_u32 : ℕ → ℕ
pow2_greater_or_equal_u32 n = if is_pow2 n then n else next_pow2_u32 n
