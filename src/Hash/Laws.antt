-- ===== src/Hash/Laws.antt =====
-- What the hashes of src/hash.c depend on.
use native.Mathlib.Nat.{
  pow-suc, div-add-mod, mod-lt, add-mul-mod_self_left, mod-eq_of_lt, mod-one, one-le-pow,
}
use eq_data_patcher.Base.{
  ℕ, zero, suc, ◌+◌, ◌-◌, ◌*◌, ◌/◌, ◌%◌, ◌^◌, ◌≤◌, ◌<◌, ◌≡◌, ◌∙◌, sym, ap, ap₂, refl, arith, inl,
  inr, List, leb, Bool-cases, get_or, take, get_or-take, bit_and,
}
use eq_data_patcher.Bits.Or.{bit_and_last, bit_and-zero}
use eq_data_patcher.Hash.{hash_int64_impl, hash_int64, hash_loop, hash_cstr, mix}

mod_double : (p a : ℕ) → 0 < p → a % (p * 2) ≡ a / 2 % p * 2 + a % 2
mod_double p a pos =
    let low = a / 2 % p * 2 + a % 2 in
    let split : a ≡ low + p * 2 * (a / 2 / p) = omega (arith, div-add-mod (a / 2) p) in
    let small : low < p * 2 = omega (arith, mod-lt (a / 2) pos) in
    ap (λ t. t % (p * 2)) split ∙ add-mul-mod_self_left low (p * 2) (a / 2 / p) ∙ mod-eq_of_lt small

-- `a & (2 ^ k - 1)` is the remainder by `2 ^ k`.
pub bit_and_mask : (k a : ℕ) → bit_and a (2 ^ k - 1) ≡ a % 2 ^ k
bit_and_mask zero a = omega (arith, bit_and-zero a a (omega arith))
bit_and_mask (suc k) a =
    let p = pow-suc 2 k in
    let pos = one-le-pow k 2 (omega arith) in
    let half : (2 ^ suc k - 1) / 2 ≡ 2 ^ k - 1 = omega arith in
    omega (
      arith,
      bit_and_last a (2 ^ suc k - 1),
      ap (bit_and (a / 2)) half,
      bit_and_mask k (a / 2),
      mod_double (2 ^ k) a pos,
      ap (λ t. a % t) p,
    )

-- A mask whose low `k` bits are clear leaves a multiple of `2 ^ k`.
bit_and_high : (k a m : ℕ) → bit_and a (m * 2 ^ k) % 2 ^ k ≡ 0
bit_and_high zero a m = mod-one _
bit_and_high (suc k) a m =
    let p = pow-suc 2 k in
    let pos = one-le-pow k 2 (omega arith) in
    let half : m * 2 ^ suc k / 2 ≡ m * 2 ^ k = omega (arith, ap (λ (t : ℕ). m * t) p) in
    let even : m * 2 ^ suc k % 2 ≡ 0 = omega (arith, ap (λ (t : ℕ). m * t) p) in
    let x = bit_and (a / 2) (m * 2 ^ k) in
    let v : bit_and a (m * 2 ^ suc k) ≡ x * 2 =
      omega (arith, bit_and_last a (m * 2 ^ suc k), ap (bit_and (a / 2)) half) in
    let halved : x * 2 / 2 ≡ x = omega arith in
    ap₂ ◌%◌ v p
    ∙ omega (
      arith,
      mod_double (2 ^ k) (x * 2) pos,
      ap (λ (t : ℕ). t % 2 ^ k) halved,
      bit_and_high k (a / 2) m,
    )

-- The upper half of the key does not reach the hash, and of the lower half 24 bits do.
pub hash_int64_lem : (key : ℕ) → hash_int64 key ≡ hash_int64_impl ((key + 1) % 2 ^ 64 % 2 ^ 24) 0
unfolding hash_int64
hash_int64_lem key =
    let k = (key + 1) % 2 ^ 64 in
    ap₂ hash_int64_impl (omega (arith, bit_and_mask 24 k)) (bit_and_high 32 k (2 ^ 32 - 1))

-- Two numbers below 2 ^ 64 with the same low 24 bits have the same hash.
pub hash_int64-congr :
    (j k : ℕ) → j < 2 ^ 64 → k < 2 ^ 64 → j % 2 ^ 24 ≡ k % 2 ^ 24 → hash_int64 j ≡ hash_int64 k
hash_int64-congr j k hj hk e =
    hash_int64_lem j ∙ ap (λ t. hash_int64_impl t 0) (omega arith) ∙ sym (hash_int64_lem k)

-- The loop reads only below `len`, and stops within `i` rounds.
hash_loop-take :
    (key : List ℕ) (len step : ℕ)
    → 0 < step
    → (fuel i h : ℕ) → i ≤ len
    → hash_loop (take len key) step fuel i h ≡ hash_loop key step fuel i h
unfolding hash_loop
hash_loop-take key len step pos zero i h p = refl
hash_loop-take key len step pos (suc fuel) i h p = elim (Bool-cases (leb step i)) [
  | inr stop ↦ rw stop
  | inl more ↦ rw more (
      hash_loop-take key len step pos fuel (i - step) _ (omega arith)
      ∙ ap (λ c. hash_loop key step fuel (i - step) (mix h c))
          (get_or-take len key (i - 1) 0 (ground arith)))
]

-- The hash of a key of `len` bytes is that of its first `len` bytes alone.
pub hash_cstr-take : (key : List ℕ) (len : ℕ) → hash_cstr (take len key) len ≡ hash_cstr key len
unfolding hash_cstr
hash_cstr-take key len = hash_loop-take key len _ (omega arith) len len len (omega arith)

-- With a step above 0, the loop of `hash_cstr` has one result for any two numbers of rounds that
-- are both not below the index that it starts at.
pub hash_loop_enough :
    (key : List ℕ) (step : ℕ)
    → 0 < step
    → (fuel more i h : ℕ) → i ≤ fuel
    → i ≤ more
    → hash_loop key step fuel i h ≡ hash_loop key step more i h
unfolding hash_loop
hash_loop_enough key step pos zero zero i h p q = refl
hash_loop_enough key step pos zero (suc more) i h p q = ground arith
hash_loop_enough key step pos (suc fuel) zero i h p q = ground arith
hash_loop_enough key step pos (suc fuel) (suc more) i h p q =
    ground
      (arith, hash_loop_enough key step pos fuel more (i - step) (mix h (get_or key (i - 1) 0)))
