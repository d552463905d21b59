-- ===== src/Array/Sort/Returns.antt =====
-- `array_sort` of src/edp_array.c: where no sum of two indices overflows, it returns.
use eq_data_patcher.Base.{
  ℕ, zero, suc, ◌+◌, ◌-◌, ◌/◌, ◌^◌, ◌≤◌, ◌<◌, inl, inr, ◌≡◌, refl, arith, List, Bool, false, none,
  some, get_or, ltb, leb, Bool-cases, Option, ap, sym, ◌∙◌, leb→le,
}
use eq_data_patcher.Err.{Err, none_err, out_of_memory}
use eq_data_patcher.Array.{Array, push_back, pop_back}
use eq_data_patcher.Array.Sort.{
  swap, partition_loop, partition, recurse, int_lim, sorted_slots, sort,
}

module _ {A : Type 0} (junk : A) (sorter : A → A → Bool) where
  loop_lem :
      (high rounds i mem : ℕ) (xs : List A)
      → let r = partition_loop junk sorter high rounds i mem xs in
        (mem ≤ r.0) × (r.0 ≤ mem + rounds)
  unfolding partition_loop
  loop_lem high zero i mem xs = (omega arith, omega arith)
  loop_lem high (suc rounds) i mem xs =
      elim (Bool-cases (sorter (get_or xs i junk) (get_or xs high junk))) [
        | inl less ↦
            let (a, b) = loop_lem high rounds (i + 1) (mem + 1) (swap junk xs mem i) in
            rw (partition_loop, less) (omega (arith, a), omega (arith, b))
        | inr other ↦
            let (a, b) = loop_lem high rounds (i + 1) mem xs in
            rw (partition_loop, other) (omega (arith, a), omega (arith, b))
      ]

  partition_lem :
      (low high : ℕ) (xs : List A)
      → low ≤ high
      → low + high < 2 ^ 31
      → (p : ℕ) × (ys : List A) × (partition junk sorter low high xs ≡ some (p, ys))
        × (low ≤ p)
        × (p ≤ high)
  unfolding partition
  partition_lem low high xs h small =
      let no_overflow : leb (2 ^ 31) (low + high) ≡ false = ground (arith, small) in
      let ys = swap junk xs ((low + high) / 2) high in
      let (a, b) = loop_lem high (high - low) low low ys in
      let (mem, zs) = partition_loop junk sorter high (high - low) low low ys in
      (mem, swap junk zs mem high, rw no_overflow refl, omega (arith, a), omega (arith, b))

  recurse_lem :
      (fuel lo hi : ℕ) (xs : List A)
      → lo ≤ hi
      → hi < lo + fuel
      → hi ≤ 2 ^ 30
      → (ys : List A) × (recurse junk sorter fuel lo hi xs ≡ some ys)
  unfolding recurse
  recurse_lem zero lo hi xs o f small = absurd (omega arith)
  recurse_lem (suc fuel) lo hi xs o f small = elim (Bool-cases (ltb (lo + 1) hi)) [
    | inr short ↦ (xs, rw (recurse, short) refl)
    | inl more ↦
        let wide : lo + 1 < hi = ground (arith, more) in
        let (p, ys, split_eq, a, b) =
          partition_lem lo (hi - 1) xs (omega (arith, wide)) (omega (arith, small)) in
        let (zs, left_eq) =
          recurse_lem fuel lo p ys a (omega (arith, b, f, wide)) (omega (arith, b, small)) in
        let (ws, right_eq) =
          recurse_lem fuel (p + 1) hi zs (omega (arith, b, wide)) (omega (arith, a, f)) small in
        let in_range : leb (2 ^ 31) (p + 1) ≡ false = ground (arith, b, small) in
        (ws, rw (recurse, more) (rw split_eq (rw left_eq (rw in_range right_eq))))
  ]

  module _ (grant : ℕ → Bool) where
    abbrev Defined : Option (Err × Array A) → Type 0
    Defined o = (r : Err × Array A) × (o ≡ some r)

    sort_cases :
        (ar : Array A) (o : Option (Array A))
        → ar.count ≤ 2 ^ 30
        → Defined (elim o [
          | none ↦ some (out_of_memory, ar)
          | some ar' ↦
              sorted_slots ar' (recurse junk sorter (suc ar.count) 0 (int_lim ar.count) ar'.slots)
        ])
    sort_cases ar none small = ((out_of_memory, ar), refl)
    sort_cases ar (some ar') small =
        let whole : int_lim ar.count ≡ ar.count = ground (arith, small) in
        let (zs, e) =
          recurse_lem (suc ar.count) 0 ar.count ar'.slots (omega arith) (omega arith) small in
        (
          (none_err, pop_back (record ar' { slots = zs })),
          ap (λ lim. sorted_slots ar' (recurse junk sorter (suc ar.count) 0 lim ar'.slots)) whole
              ∙ ap (sorted_slots ar') e,
        )

    -- A sort that overflows has more than this many elements to sort.
    pub sort-overflows : (ar : Array A) → sort grant junk sorter ar ≡ none → 2 ^ 30 < ar.count
    unfolding sort
    sort-overflows ar e = elim (Bool-cases (leb ar.count (2 ^ 30))) [
      | inl small ↦
          let (r, returns) = sort_cases ar (push_back grant junk ar none) (leb→le _ _ small) in
          let differ : none ≡ some r = sym e ∙ returns in ground (arith, differ)
      | inr large ↦ ground (arith, large)
    ]
