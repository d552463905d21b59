-- ===== src/Tests/Cells.antt =====
-- The theorems on src/edp_atomic_win32.c at a cell and a mutex that another thread changes once.
use eq_data_patcher.Base.{
  Bool, false, Bool-cases, inl, inr, ℕ, suc, ◌+◌, ◌≤◌, ◌≡◌, refl, arith, some, ◌==◌, if◌then◌else◌,
}
use eq_data_patcher.Ringbuf.{cmp_xchg}
use eq_data_patcher.Atomic.{aint32_add, win32_add, amutex_lock, win32_lock}
use eq_data_patcher.Atomic.Locked.{bit, bit_of, win32_lock-eq-amutex_lock}
use eq_data_patcher.Atomic.Added.{IsExchange, cell, win32_add_lem}

abbrev interlocked : ℕ → ℕ → ℕ → ℕ × ℕ
interlocked a desired expected = (a, cmp_xchg a expected desired)

interlocked-IsExchange : IsExchange interlocked
interlocked-IsExchange a desired expected = refl

-- The first round is disturbed.
abbrev others : ℕ → ℕ → ℕ
others k c = if k == 0 then c + 5 else c

win32_add_lem_example :
    (k : ℕ) × (k ≤ 1)
    × (cell others 0 (suc k) 10 ≡ cell others 0 k 10)
    × (win32_add interlocked 2 others 10 7 ≡ some (aint32_add (cell others 0 (suc k) 10) 7))
win32_add_lem_example =
    win32_add_lem interlocked interlocked-IsExchange 7 1 2 others 10 (λ c. refl) (omega arith)

-- Another thread holds the mutex in the first round.
abbrev holder : ℕ → Bool → Bool
holder k flag = k == 0

abbrev holder_bit : ℕ → ℕ → ℕ
holder_bit k c = if k == 0 then 1 else 0

holder_bit-eq : (k : ℕ) (b : Bool) → holder_bit k (bit b) ≡ bit (holder k b)
holder_bit-eq k b = elim (Bool-cases (k == 0)) [
  | inl first ↦ rw first refl
  | inr later ↦ rw later refl
]

win32_lock-eq-amutex_lock_example :
    win32_lock interlocked 2 0 holder_bit 0 ≡ bit_of (amutex_lock 2 0 holder false)
win32_lock-eq-amutex_lock_example =
    win32_lock-eq-amutex_lock interlocked interlocked-IsExchange 2 0 holder holder_bit false
      holder_bit-eq
