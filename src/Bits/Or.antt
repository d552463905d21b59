-- ===== src/Bits/Or.antt =====
-- `|` and `&` digit by digit, for the bit tricks of src/bit.c and src/hash.c.
use Prim.Native.Nat.{min, max, digits, bitwise, bit_and-bitwise, bit_or-bitwise}
use eq_data_patcher.Base.{
  ◌==◌, ==_iff, Bool-cases, inl, inr, ℕ, zero, suc, ◌+◌, ◌*◌, ◌/◌, ◌%◌, ◌≤◌, bit_and, bit_or, ◌≡◌,
  ◌∙◌, refl, arith,
}

module _ (z : ℕ → ℕ) (f : ℕ → ℕ → ℕ) where
  -- With enough fuel the digits are those that as much fuel as the number gives; `t` bounds both.
  settled : (t n x y : ℕ) → x ≤ n → n ≤ t → digits z f n x y ≡ bitwise z f x y
  settled t zero x y below _ = let none_left : x ≡ 0 = omega arith in rw none_left
  settled t (suc n) zero y below _ = refl
  settled zero (suc n) (suc x) y below bound = absurd (omega arith)
  settled (suc t) (suc n) (suc x) y below bound =
      let half = suc x / 2 in
      omega (
        arith,
        settled t n half (y / 2) (omega arith) (omega arith),
        settled t x half (y / 2) (omega arith) (omega arith),
      )

  -- An operation that works on digits has one law for the last digit.
  last_digit :
      (op : ℕ → ℕ → ℕ)
      → ((x y : ℕ) → op x y ≡ bitwise z f x y)
      → ((y : ℕ) → z y ≡ f 0 (y % 2) + 2 * z (y / 2))
      → (x y : ℕ) → op x y ≡ f (x % 2) (y % 2) + 2 * op (x / 2) (y / 2)
  last_digit op is empty zero y = is 0 y ∙ empty y ∙ omega (arith, is 0 (y / 2))
  last_digit op is empty (suc x) y =
      is (suc x) y
      ∙ omega (
        arith,
        settled x x (suc x / 2) (y / 2) (omega arith) (omega arith),
        is (suc x / 2) (y / 2),
      )

pub bit_or_last : (x y : ℕ) → bit_or x y ≡ max (x % 2) (y % 2) + 2 * bit_or (x / 2) (y / 2)
bit_or_last = last_digit (λ y. y) max bit_or bit_or-bitwise (λ y. omega arith)

pub bit_and_last : (x y : ℕ) → bit_and x y ≡ min (x % 2) (y % 2) + 2 * bit_and (x / 2) (y / 2)
bit_and_last = last_digit (λ y. 0) min bit_and bit_and-bitwise (λ y. omega arith)

pub bit_or-div : (x y : ℕ) → bit_or x y / 2 ≡ bit_or (x / 2) (y / 2)
bit_or-div x y = omega (arith, bit_or_last x y)

pub bit_or-mod : (x y : ℕ) → bit_or x y % 2 ≡ max (x % 2) (y % 2)
bit_or-mod x y = omega (arith, bit_or_last x y)

-- A mask of no ones leaves nothing; `n` bounds the number.
pub bit_and-zero : (n x : ℕ) → x ≤ n → bit_and x 0 ≡ 0
bit_and-zero zero x below = let nothing : x ≡ 0 = omega arith in rw nothing
bit_and-zero (suc n) x below = omega (arith, bit_and_last x 0, bit_and-zero n (x / 2) (omega arith))

-- A mask bounds what it leaves; `n` bounds the mask.
pub bit_and_le : (n x y : ℕ) → y ≤ n → bit_and x y ≤ y
bit_and_le zero x y below =
    let nothing : y ≡ 0 = omega arith in rw nothing (omega (arith, bit_and-zero x x (omega arith)))
bit_and_le (suc n) x y below = elim (Bool-cases (y == 0)) [
  | inl nothing ↦ rw ((==_iff y 0).0 nothing) (omega (arith, bit_and-zero x x (omega arith)))
  | inr some_bits ↦
      let smaller : y / 2 ≤ n = ground (arith, some_bits, below) in
      omega (arith, bit_and_last x y, bit_and_le n (x / 2) (y / 2) smaller)
]
