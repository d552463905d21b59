-- ===== src/Bits/Smear.antt =====
-- The lines `n |= n >> 1; … n |= n >> 16` of src/bit.c set every bit below the highest one.
use native.Mathlib.Nat.{
  div-div-eq-div-mul, mul_comm, pow-suc, div-lt_iff_lt-mul, one-le-pow, div-one,
}
use eq_data_patcher.Base.{
  ℕ, zero, suc, ◌*◌, ◌/◌, ◌%◌, ◌<◌, ◌^◌, ◌≡◌, arith, bit_or, max, Bool-cases, inl, inr, ap, ◌∙◌,
  sym, ◌==◌,
}
use eq_data_patcher.Bits.{or_shift, smear}
use eq_data_patcher.Bits.Or.{bit_or-div, bit_or-mod}

div_div_comm : (n a b : ℕ) → n / a / b ≡ n / b / a
div_div_comm n a b =
    div-div-eq-div-mul n a b ∙ ap (λ t. n / t) (mul_comm a b) ∙ sym (div-div-eq-div-mul n b a)

-- Each line commutes with halving, so with any shift.
or_shift-half : (k n : ℕ) → or_shift k n / 2 ≡ or_shift k (n / 2)
unfolding or_shift
or_shift-half k n = bit_or-div n (n / 2 ^ k) ∙ ap (bit_or (n / 2)) (div_div_comm n (2 ^ k) 2)

or_shift-mod : (k n : ℕ) → or_shift k n % 2 ≡ max (n % 2) (n / 2 ^ k % 2)
unfolding or_shift
or_shift-mod k n = bit_or-mod n (n / 2 ^ k)

-- A function that commutes with halving commutes with every shift.
shift_of_half :
    (f : ℕ → ℕ) → ((n : ℕ) → f n / 2 ≡ f (n / 2)) → (k n : ℕ) → f n / 2 ^ k ≡ f (n / 2 ^ k)
shift_of_half f h zero n = div-one (f n) ∙ ap f (sym (div-one n))
shift_of_half f h (suc k) n =
    let split = λ (m : ℕ). ap (λ t. m / t) (pow-suc 2 k) ∙ sym (div-div-eq-div-mul m (2 ^ k) 2) in
    split (f n) ∙ ap (λ t. t / 2) (shift_of_half f h k n) ∙ h (n / 2 ^ k) ∙ ap f (sym (split n))

-- If `f` makes every number below `2 ^ k` odd, one more line does so below `2 ^ k * 2 ^ k`.
ladder :
    (k : ℕ) (f : ℕ → ℕ)
    → ((n : ℕ) → f n / 2 ≡ f (n / 2))
    → ((n : ℕ) → 0 < n → n < 2 ^ k → f n % 2 ≡ 1)
    → (n : ℕ) → 0 < n
    → n < 2 ^ k * 2 ^ k
    → or_shift k (f n) % 2 ≡ 1
ladder k f half odd n pos small =
    let shifted = shift_of_half f half k n in
    let top : n / 2 ^ k < 2 ^ k = (div-lt_iff_lt-mul (one-le-pow k 2 (omega arith))).1 small in
    elim (Bool-cases (n / 2 ^ k == 0)) [
      | inr more ↦
          omega (
            arith,
            or_shift-mod k (f n),
            ap (λ t. t % 2) shifted,
            odd (n / 2 ^ k) (ground arith) top,
          )
      | inl low ↦
          let below =
            (div-lt_iff_lt-mul {k = 2 ^ k} {x = n} {y = 1} (one-le-pow k 2 (omega arith))).0
              (ground arith) in
          omega (arith, or_shift-mod k (f n), odd n pos (omega arith))
    ]

compose_half :
    (k : ℕ) (f : ℕ → ℕ)
    → ((n : ℕ) → f n / 2 ≡ f (n / 2))
    → (n : ℕ) → or_shift k (f n) / 2 ≡ or_shift k (f (n / 2))
compose_half k f half n = or_shift-half k (f n) ∙ ap (or_shift k) (half n)

pub smear-half : (n : ℕ) → smear n / 2 ≡ smear (n / 2)
unfolding smear
smear-half =
    compose_half 16 _ (compose_half 8 _ (compose_half 4 _ (compose_half 2 _ (or_shift-half 1))))

pub smear-odd : (n : ℕ) → 0 < n → n < 2 ^ 32 → smear n % 2 ≡ 1
unfolding smear
smear-odd n pos small =
    ladder 16 _ (compose_half 8 _ (compose_half 4 _ (compose_half 2 _ (or_shift-half 1))))
      (ladder 8 _ (compose_half 4 _ (compose_half 2 _ (or_shift-half 1))) (
        ladder 4 _ (compose_half 2 _ (or_shift-half 1))
          (ladder 2 _ (or_shift-half 1) (λ n p q. omega (arith, or_shift-mod 1 n)))))
      n pos small
