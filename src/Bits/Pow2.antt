-- ===== src/Bits/Pow2.antt =====
-- What src/bit.c computes: the next power of two.
use eq_data_patcher.Base.{
  ℕ, zero, suc, ◌+◌, ◌-◌, ◌*◌, ◌/◌, ◌%◌, ◌≤◌, ◌<◌, ◌^◌, ◌≡◌, ◌≢◌, ◌∙◌, ap, ap₂, refl, arith, inl,
  inr, Bool-cases, sub32, bit_and, ◌==◌,
}
use native.Mathlib.Nat.{pow-suc}
use eq_data_patcher.Bits.{
  or_shift, smear, is_pow2, next_pow2_u32, pow2_greater_than_u32, pow2_greater_or_equal_u32,
}
use eq_data_patcher.Bits.Or.{bit_and_last}
use eq_data_patcher.Bits.Smear.{smear-half, smear-odd}

smear-zero : smear 0 ≡ 0
unfolding smear or_shift
smear-zero = refl

-- A smeared number is one less than the next power of two.
smear_lem :
    (fuel n : ℕ)
    → n < fuel
    → 0 < n
    → n < 2 ^ 32
    → (k : ℕ) × (smear n + 1 ≡ 2 ^ k) × (n < 2 ^ k) × (2 ^ k ≤ 2 * n)
smear_lem zero n h pos small = absurd (omega arith)
smear_lem (suc fuel) n h pos small = elim (Bool-cases (n == 1)) [
  | inl one ↦
      let half : n / 2 ≡ 0 = ground arith in
      (
        1,
        omega (arith, smear-half n, smear-odd n pos small, ap smear half, smear-zero),
        ground arith,
        ground arith,
      )
  | inr more ↦
      let (k, e, lo, hi) = smear_lem fuel (n / 2) (ground arith) (ground arith) (omega arith) in
      let p = pow-suc 2 k in
      (
        suc k,
        omega (arith, smear-half n, smear-odd n pos small, e, p),
        omega (arith, p),
        omega (arith, p),
      )
]

bit_and_self : (fuel n : ℕ) → n < fuel → bit_and n n ≡ n
bit_and_self zero n h = absurd (omega arith)
bit_and_self (suc fuel) n h = elim (Bool-cases (n == 0)) [
  | inl e ↦ let e' : n ≡ 0 = ground arith in rw e' refl
  | inr e ↦ omega (arith, bit_and_last n n, bit_and_self fuel (n / 2) (ground arith))
]

-- `n & (n - 1)` is zero exactly at the powers of two.
pow2_of_test : (fuel n : ℕ) → n < fuel → 0 < n → bit_and n (n - 1) ≡ 0 → (k : ℕ) × (n ≡ 2 ^ k)
pow2_of_test zero n h pos e = absurd (omega arith)
pow2_of_test (suc fuel) n h pos e = elim (Bool-cases (n % 2 == 0)) [
  | inl even ↦
      let half : (n - 1) / 2 ≡ n / 2 - 1 = ground arith in
      let e' : bit_and (n / 2) (n / 2 - 1) ≡ 0 =
        omega (arith, bit_and_last n (n - 1), ap (bit_and (n / 2)) half) in
      let (k, p) = pow2_of_test fuel (n / 2) (omega arith) (ground arith) e' in
      (suc k, ground (arith, p, pow-suc 2 k))
  | inr odd ↦
      let half : (n - 1) / 2 ≡ n / 2 = ground arith in
      (
        0,
        ground (
          arith,
          bit_and_last n (n - 1),
          ap (bit_and (n / 2)) half,
          bit_and_self (suc n) (n / 2) (omega arith),
        ),
      )
]

test_of_pow2 : (k : ℕ) → bit_and (2 ^ k) (2 ^ k - 1) ≡ 0
test_of_pow2 zero = refl
test_of_pow2 (suc k) =
    let p = pow-suc 2 k in
    let a : 2 ^ suc k / 2 ≡ 2 ^ k = omega arith in
    let b : (2 ^ suc k - 1) / 2 ≡ 2 ^ k - 1 = omega arith in
    omega (arith, bit_and_last (2 ^ suc k) (2 ^ suc k - 1), ap₂ bit_and a b, test_of_pow2 k)

next_pow2_one : next_pow2_u32 1 ≡ 1
unfolding next_pow2_u32 smear or_shift
next_pow2_one = refl

-- `v` is the least power of two that is not below `n`.
abbrev pub IsNextPow2 : ℕ → ℕ → Type 0
IsNextPow2 n v = (k : ℕ) × (v ≡ 2 ^ k) × (n ≤ v) × (v < 2 * n)

-- From 1 to 2 ^ 31, `bit_next_pow2_u32` is a power of two that is not below the number and is
-- less than its double.
pub next_pow2_u32_lem : (n : ℕ) → 0 < n → n ≤ 2 ^ 31 → IsNextPow2 n (next_pow2_u32 n)
next_pow2_u32_lem n pos small = elim (Bool-cases (n == 1)) [
  | inl one ↦
      let e : n ≡ 1 = ground arith in
      let v = ap next_pow2_u32 e ∙ next_pow2_one in
      (0, omega (arith, v), omega (arith, v), omega (arith, v))
  | inr more ↦
      let e : sub32 n 1 ≡ n - 1 = omega arith in
      let (k, s, lo, hi) = smear_lem n (n - 1) (omega arith) (ground arith) (omega arith) in
      let v : next_pow2_u32 n ≡ 2 ^ k = unfold next_pow2_u32 in omega (arith, ap smear e, s, hi) in
      (k, v, omega (arith, v), omega (arith, v))
]

test_iff : (n : ℕ) → 0 < n → n ≤ 2 ^ 31 → is_pow2 n ≡ (bit_and n (n - 1) == 0)
unfolding is_pow2
test_iff n pos small = let e : sub32 n 1 ≡ n - 1 = omega arith in ground (arith, ap (bit_and n) e)

-- From 1 on and below 2 ^ 31, `bit_pow2_greater_than_u32` is a power of two above the number,
-- and at most its double.
pub pow2_greater_than_u32_lem :
    (n : ℕ)
    → 0 < n
    → n < 2 ^ 31
    → let v = pow2_greater_than_u32 n in (k : ℕ) × (v ≡ 2 ^ k) × (n < v) × (v ≤ 2 * n)
unfolding pow2_greater_than_u32
pow2_greater_than_u32_lem n pos small = elim (Bool-cases (is_pow2 n)) [
  | inl yes_pow ↦
      let (k, e) =
        pow2_of_test (suc n) n (omega arith) pos (ground (arith, test_iff n pos (omega arith))) in
      (
        suc k,
        rw yes_pow (omega (arith, pow-suc 2 k)),
        rw yes_pow (omega arith),
        rw yes_pow (omega arith),
      )
  | inr no_pow ↦
      let (k, e, lo, hi) = next_pow2_u32_lem n pos (omega arith) in
      let differ : n ≢ next_pow2_u32 n = λ same. ground (
        arith,
        test_iff n pos (omega arith),
        test_of_pow2 k,
        ap₂ bit_and (same ∙ e) (ap (λ t. t - 1) (same ∙ e)),
      ) in
      (k, rw no_pow e, rw no_pow (omega (arith, differ)), rw no_pow (omega arith))
]

-- From 1 to 2 ^ 31, `bit_pow2_greater_or_equal_u32` is a power of two that is not below the
-- number and is less than its double.
pub pow2_greater_or_equal_u32_lem :
    (n : ℕ) → 0 < n → n ≤ 2 ^ 31 → IsNextPow2 n (pow2_greater_or_equal_u32 n)
unfolding pow2_greater_or_equal_u32
pow2_greater_or_equal_u32_lem n pos small = elim (Bool-cases (is_pow2 n)) [
  | inl yes_pow ↦
      let (k, e) =
        pow2_of_test (suc n) n (omega arith) pos (ground (arith, test_iff n pos small)) in
      rw yes_pow (k, e, omega arith, omega arith)
  | inr no_pow ↦ rw no_pow (next_pow2_u32_lem n pos small)
]
