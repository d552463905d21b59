-- ===== src/Atomic.antt =====
-- src/edp_atomic_posix.c and src/edp_atomic_win32.c: atomic numbers and spinning mutexes.
-- A cell is the number that it holds, and an operation gives its result and the cell.
-- Numbers are 32-bit words; 16-bit ones are only set, read and exchanged.
pub mod Added
pub mod Locked
use eq_data_patcher.Base.{
  ℕ, zero, suc, ◌+◌, Bool, true, false, not, Option, none, some, ◌==◌, if◌then◌else◌, add32, sub32,
}
use eq_data_patcher.Ringbuf.{cmp_xchg}

unfoldable pub aint32_set : ℕ → ℕ → ℕ
aint32_set a val = val

unfoldable pub aint32_get : ℕ → ℕ
aint32_get a = a

-- `atomic_fetch_add` gives the number before the addition.
unfoldable pub aint32_add : ℕ → ℕ → ℕ × ℕ
aint32_add a amt = (a, add32 a amt)

unfoldable pub aint32_sub : ℕ → ℕ → ℕ × ℕ
aint32_sub a amt = (a, sub32 a amt)

unfoldable pub cmp_xchg_strong : ℕ → ℕ → ℕ → Bool × ℕ
cmp_xchg_strong a expected desired = (a == expected, cmp_xchg a expected desired)

-- It may fail with no cause.
unfoldable pub cmp_xchg_weak : Bool → ℕ → ℕ → ℕ → Bool × ℕ
unfolding cmp_xchg_strong
cmp_xchg_weak fails a expected desired =
    if fails then (false, a) else cmp_xchg_strong a expected desired

unfoldable pub aint16_set : ℕ → ℕ → ℕ
aint16_set a val = val

unfoldable pub aint16_get : ℕ → ℕ
aint16_get a = a

unfoldable pub aint16_cmp_xchg_strong : ℕ → ℕ → ℕ → Bool × ℕ
aint16_cmp_xchg_strong a expected desired = (a == expected, cmp_xchg a expected desired)

unfoldable pub aint16_cmp_xchg_weak : Bool → ℕ → ℕ → ℕ → Bool × ℕ
unfolding aint16_cmp_xchg_strong
aint16_cmp_xchg_weak fails a expected desired =
    if fails then (false, a) else aint16_cmp_xchg_strong a expected desired

-- `atomic_flag_test_and_set(mtx) == false`
unfoldable pub amutex_try_lock : Bool → Bool × Bool
amutex_try_lock flag = (not flag, true)

unfoldable pub amutex_unlock : Bool → Bool
amutex_unlock flag = false

-- `others k` is what other threads make of the flag before the try with that number; the result is
-- the flag, `none` where no try within the fuel succeeds.
unfoldable pub amutex_lock : ℕ → ℕ → (ℕ → Bool → Bool) → Bool → Option Bool
unfolding amutex_try_lock
amutex_lock zero k others flag = none
amutex_lock (suc fuel) k others flag =
    let (ok, flag') = amutex_try_lock (others k flag) in
    let rest = amutex_lock fuel (k + 1) others flag' in if ok then some flag' else rest

-- `InterlockedCompareExchange` of the Windows API, on a cell, a new number and the one to compare
-- with: it gives the number before, and the cell.
module _ (interlocked : ℕ → ℕ → ℕ → ℕ × ℕ) where
  unfoldable pub win32_get : ℕ → ℕ × ℕ
  win32_get a = interlocked a 0 0

  unfoldable pub win32_cmp_xchg_strong : ℕ → ℕ → ℕ → Bool × ℕ
  win32_cmp_xchg_strong a expected desired =
      let (old, a') = interlocked a desired expected in (old == expected, a')

  -- The loops of `aint32_add` and `aint32_sub`: `change` is what the number becomes, and `others k`
  -- what other threads make of the cell between the read and the exchange of that round.
  unfoldable pub win32_loop : (ℕ → ℕ) → ℕ → ℕ → (ℕ → ℕ → ℕ) → ℕ → Option (ℕ × ℕ)
  unfolding win32_get win32_cmp_xchg_strong
  win32_loop change zero k others a = none
  win32_loop change (suc fuel) k others a =
      let (val, a1) = win32_get a in
      let (ok, a2) = win32_cmp_xchg_strong (others k a1) val (change val) in
      let rest = win32_loop change fuel (k + 1) others a2 in if ok then some (val, a2) else rest

  unfoldable pub win32_add : ℕ → (ℕ → ℕ → ℕ) → ℕ → ℕ → Option (ℕ × ℕ)
  unfolding win32_loop
  win32_add fuel others a amt = win32_loop (λ val. add32 val amt) fuel 0 others a

  unfoldable pub win32_sub : ℕ → (ℕ → ℕ → ℕ) → ℕ → ℕ → Option (ℕ × ℕ)
  unfolding win32_loop
  win32_sub fuel others a amt = win32_loop (λ val. sub32 val amt) fuel 0 others a

  -- Mutexes are cells with 0 and 1.
  unfoldable pub win32_try_lock : ℕ → Bool × ℕ
  unfolding win32_cmp_xchg_strong
  win32_try_lock mtx = win32_cmp_xchg_strong mtx 0 1

  unfoldable pub win32_lock : ℕ → ℕ → (ℕ → ℕ → ℕ) → ℕ → Option ℕ
  unfolding win32_try_lock
  win32_lock zero k others mtx = none
  win32_lock (suc fuel) k others mtx =
      let (ok, mtx') = win32_try_lock (others k mtx) in
      let rest = win32_lock fuel (k + 1) others mtx' in if ok then some mtx' else rest

  unfoldable pub win32_cmp_xchg_weak : ℕ → ℕ → ℕ → Bool × ℕ
  unfolding win32_cmp_xchg_strong
  win32_cmp_xchg_weak = win32_cmp_xchg_strong

-- `InterlockedExchange`, on a cell and a new number: the number before, and the cell.
module _ (exchange : ℕ → ℕ → ℕ × ℕ) where
  unfoldable pub win32_set : ℕ → ℕ → ℕ
  win32_set a val = (exchange a val).1

  unfoldable pub win32_unlock : ℕ → ℕ
  unfolding win32_set
  win32_unlock mtx = win32_set mtx 0

-- `InterlockedExchange16` and `InterlockedCompareExchange16`, likewise.
module _ (exchange16 : ℕ → ℕ → ℕ × ℕ) (interlocked16 : ℕ → ℕ → ℕ → ℕ × ℕ) where
  unfoldable pub win32_set16 : ℕ → ℕ → ℕ
  win32_set16 a val = (exchange16 a val).1

  unfoldable pub win32_get16 : ℕ → ℕ × ℕ
  win32_get16 a = interlocked16 a 0 0

  unfoldable pub win32_cmp_xchg16_strong : ℕ → ℕ → ℕ → Bool × ℕ
  win32_cmp_xchg16_strong a expected desired =
      let (old, a') = interlocked16 a desired expected in (old == expected, a')

  unfoldable pub win32_cmp_xchg16_weak : ℕ → ℕ → ℕ → Bool × ℕ
  unfolding win32_cmp_xchg16_strong
  win32_cmp_xchg16_weak = win32_cmp_xchg16_strong
