-- ===== src/Atomic/Added.antt =====
-- The additions of src/edp_atomic_win32.c do what those of src/edp_atomic_posix.c do.
use eq_data_patcher.Base.{
  ℕ, zero, suc, ◌+◌, ◌≤◌, ◌<◌, ◌≡◌, ◌∙◌, ap, inl, inr, refl, arith, false, some, ◌==◌, ==_iff,
  add32, Bool-cases,
}
use eq_data_patcher.Ringbuf.{cmp_xchg}
use eq_data_patcher.Atomic.{aint32_add, win32_get, win32_loop, win32_add}

-- What the Windows API documents: the number before, and the new one where it is the expected.
abbrev pub IsExchange : (ℕ → ℕ → ℕ → ℕ × ℕ) → Type 0
IsExchange f = (a desired expected : ℕ) → f a desired expected ≡ (a, cmp_xchg a expected desired)

-- What the other threads alone make of the cell in `n` rounds from the one with number `k` on.
unfoldable pub cell : (ℕ → ℕ → ℕ) → ℕ → ℕ → ℕ → ℕ
cell others k zero a = a
cell others k (suc n) a = cell others (k + 1) n (others k a)

-- Where the cell was changed, the round is not the quiet one.
not_quiet :
    (n k : ℕ) (others : ℕ → ℕ → ℕ) (a : ℕ)
    → ((c : ℕ) → others n c ≡ c)
    → (others k a == a) ≡ false
    → (k == n) ≡ false
not_quiet n k others a quiet changed = elim (Bool-cases (k == n)) [
  | inl same ↦
      let still : others k a ≡ a = ap (λ j. others j a) ((==_iff k n).0 same) ∙ quiet a in
      ground (arith, changed, (==_iff (others k a) a).1 still)
  | inr other ↦ other
]

module _ (interlocked : ℕ → ℕ → ℕ → ℕ × ℕ) (documented : IsExchange interlocked) where
  win32_get_lem : (a : ℕ) → win32_get interlocked a ≡ (a, a)
  unfolding win32_get
  win32_get_lem a = elim (Bool-cases (a == 0)) [
    | inl null ↦ let z : a ≡ 0 = (==_iff a 0).0 null in documented a 0 0 ∙ rw null (rw z refl)
    | inr other ↦ documented a 0 0 ∙ rw other refl
  ]

  loop_lem :
      (change : ℕ → ℕ) (n fuel k : ℕ) (others : ℕ → ℕ → ℕ) (a : ℕ)
      → ((c : ℕ) → others n c ≡ c)
      → k ≤ n
      → n < k + fuel
      → (m : ℕ) × (k + m ≤ n)
        × (cell others k (suc m) a ≡ cell others k m a)
        × (win32_loop interlocked change fuel k others a
            ≡ some (cell others k (suc m) a, change (cell others k (suc m) a)))
  unfolding win32_loop cell
  loop_lem change n zero k others a quiet from to = absurd (omega arith)
  loop_lem change n (suc fuel) k others a quiet from to =
      let got = win32_get_lem a in
      let swapped = documented (others k a) (change a) a in
      elim (Bool-cases (others k a == a)) [
        | inl same ↦
            let e : others k a ≡ a = (==_iff (others k a) a).0 same in
            (0, omega (arith, from), e, rw got (rw swapped (rw same (rw e refl))))
        | inr other ↦
            let busy : (k == n) ≡ false = not_quiet n k others a quiet other in
            let later : k + 1 ≤ n = ground (arith, busy, from) in
            let (m, b, e, r) =
              loop_lem change n fuel (k + 1) others (others k a) quiet later (omega arith) in
            (suc m, omega (arith, b), e, rw got (rw swapped (rw other r)))
      ]

  -- Other threads change the cell by `others k` before the exchange of round k. With the
  -- exchange that the Windows API documents, and where they leave the cell alone in some round
  -- below the fuel, the loop of `aint32_add` for Windows returns; there is a round up to that
  -- one in which they left the cell as the rounds before it had made it, and result and cell are
  -- those of the POSIX `aint32_add` on the cell that the other threads' changes up to that
  -- round, one behind the other and none of them lost, have made.
  pub win32_add_lem :
      (amt n fuel : ℕ) (others : ℕ → ℕ → ℕ) (a : ℕ)
      → ((c : ℕ) → others n c ≡ c)
      → n < fuel
      → (k : ℕ) × (k ≤ n)
        × (cell others 0 (suc k) a ≡ cell others 0 k a)
        × (win32_add interlocked fuel others a amt
            ≡ some (aint32_add (cell others 0 (suc k) a) amt))
  unfolding win32_add aint32_add
  win32_add_lem amt n fuel others a quiet more =
      let (k, b, e, r) =
        loop_lem (λ val. add32 val amt) n fuel 0 others a quiet (omega arith) (omega arith) in
      (k, omega (arith, b), e, r)
