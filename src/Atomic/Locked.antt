-- ===== src/Atomic/Locked.antt =====
-- The mutex of src/edp_atomic_win32.c does what that of src/edp_atomic_posix.c does.
use eq_data_patcher.Base.{
  ℕ, zero, suc, ◌+◌, ◌≡◌, refl, Bool, true, false, Option, none, some, Bool-cases, inl, inr,
}
use eq_data_patcher.Atomic.{
  amutex_try_lock, amutex_lock, win32_cmp_xchg_strong, win32_try_lock, win32_lock,
}
use eq_data_patcher.Atomic.Added.{IsExchange}

-- The flag as a number.
abbrev pub bit : Bool → ℕ
bit false = 0
bit true = 1

abbrev pub bit_of : Option Bool → Option ℕ
bit_of none = none
bit_of (some b) = some (bit b)

module _ (interlocked : ℕ → ℕ → ℕ → ℕ × ℕ) (documented : IsExchange interlocked) where
  -- With the exchange that the Windows API documents, and other threads that do to the number
  -- what those of POSIX do to the flag, the loop of `amutex_lock` for Windows returns within the
  -- fuel where the POSIX one does, and leaves the number for its flag.
  pub win32_lock-eq-amutex_lock :
      (fuel k : ℕ) (others : ℕ → Bool → Bool) (others' : ℕ → ℕ → ℕ) (flag : Bool)
      → ((j : ℕ) (b : Bool) → others' j (bit b) ≡ bit (others j b))
      → win32_lock interlocked fuel k others' (bit flag) ≡ bit_of (amutex_lock fuel k others flag)
  unfolding win32_lock win32_try_lock win32_cmp_xchg_strong amutex_lock amutex_try_lock
  win32_lock-eq-amutex_lock zero k others others' flag same = refl
  win32_lock-eq-amutex_lock (suc fuel) k others others' flag same =
      let rest = win32_lock-eq-amutex_lock fuel (k + 1) others others' true same in
      elim (Bool-cases (others k flag)) [
        | inl held ↦ rw (same k flag) (rw held (rw (documented 1 1 0) rest))
        | inr free ↦ rw (same k flag) (rw free (rw (documented 0 1 0) refl))
      ]
