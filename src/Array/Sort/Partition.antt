-- ===== src/Array/Sort/Partition.antt =====
-- `array_sort_partition` of src/edp_array.c: the pivot is put between the cells below it and the
-- others.
use eq_data_patcher.Base.{
  ℕ, zero, suc, ◌+◌, ◌-◌, ◌/◌, ◌^◌, ◌≤◌, ◌<◌, inl, inr, ◌≡◌, refl, arith, List, Bool, true, false,
  length, get_or, Bool-cases, ◌==◌, leb, some,
}
use eq_data_patcher.Array.Sort.{swap, partition_loop, partition}
use eq_data_patcher.Array.Sort.Rearrange.{
  Rearranges, Rearranges-refl, Rearranges-trans, Rearranges-widen, get_or-swap, length-swap,
  swap-Rearranges,
}

module _ {A : Type 0} (d : A) (sorter : A → A → Bool) where
  -- The loop's invariant: below `mem` the cells sort before the pivot, from there to `i` none does.
  record Split (low high i mem : ℕ) (pivot : A) (xs : List A) : Type 0 where
    pivot_at : get_or xs high d ≡ pivot
    ordered : (low ≤ mem) × (mem ≤ i) × (i ≤ high) × (high < length xs)
    below : (j : ℕ) → low ≤ j → j < mem → sorter (get_or xs j d) pivot ≡ true
    above : (j : ℕ) → mem ≤ j → j < i → sorter (get_or xs j d) pivot ≡ false

  module _ (low high : ℕ) (pivot : A) where
    Split-keep :
        {i mem : ℕ} {xs : List A}
        → Split low high i mem pivot xs
        → i < high
        → sorter (get_or xs i d) pivot ≡ false
        → Split low high (i + 1) mem pivot xs
    Split-keep {i} {mem} {xs} s h e = record {
      pivot_at = s.pivot_at;
      ordered = (s.ordered.0, omega (arith, s.ordered.1), omega arith, s.ordered.3);
      below = s.below;
      above = λ j p q. elim (Bool-cases (j == i)) [
        | inl same ↦ ground arith
        | inr other ↦ s.above j p (ground arith)
      ];
    }

    Split-move :
        {i mem : ℕ} {xs : List A}
        → Split low high i mem pivot xs
        → i < high
        → sorter (get_or xs i d) pivot ≡ true
        → Split low high (i + 1) (mem + 1) pivot (swap d xs mem i)
    Split-move {i} {mem} {xs} s h e =
        let (a, b, c, k) = s.ordered in
        let at = λ (j : ℕ). get_or-swap d xs mem i j b (omega arith) in
        record {
          pivot_at = ground (arith, at high, s.pivot_at);
          ordered = (omega arith, omega arith, omega arith, omega (arith, length-swap d xs mem i));
          below = λ j p q. ground (arith, at j, s.below j);
          above = λ j p q. ground (arith, at j, s.above j, s.above mem);
        }

    loop_lem :
        (rounds i mem : ℕ) (xs : List A)
        → i + rounds ≡ high
        → Split low high i mem pivot xs
        → let (mem', ys) = partition_loop d sorter high rounds i mem xs in
          Split low high high mem' pivot ys × Rearranges d low high xs ys
    unfolding partition_loop
    loop_lem zero i mem xs e s =
        let e' : i ≡ high = omega arith in ((rw e' at s), Rearranges-refl d low high xs)
    loop_lem (suc rounds) i mem xs e s =
        elim (Bool-cases (sorter (get_or xs i d) (get_or xs high d))) [
          | inr keep ↦
              rw (keep, partition_loop)
                (loop_lem rounds (i + 1) mem xs (omega arith)
                  (Split-keep s (omega arith) (rw s.pivot_at at keep)))
          | inl move ↦
              let (t, r) =
                loop_lem rounds (i + 1) (mem + 1) (swap d xs mem i) (omega arith)
                  (Split-move s (omega arith) (rw s.pivot_at at move)) in
              rw (move, partition_loop)
                (
                  t,
                  Rearranges-trans d
                      (swap-Rearranges d xs mem i s.ordered.0 s.ordered.1 (omega arith)
                        (omega (arith, s.ordered.3)))
                      r,
                )
        ]

  -- What `partition` leaves: the pivot at the index that it returns.
  pub record Partitioned (low high p : ℕ) (xs ys : List A) : Type 0 where
    pub between : (low ≤ p) × (p ≤ high)
    pub rearranged : Rearranges d low (suc high) xs ys
    pub before : (j : ℕ) → low ≤ j → j < p → sorter (get_or ys j d) (get_or ys p d) ≡ true
    pub after : (j : ℕ) → p < j → j ≤ high → sorter (get_or ys j d) (get_or ys p d) ≡ false

  pub partition_lem :
      (low high : ℕ) (xs : List A)
      → low ≤ high
      → high < length xs
      → low + high < 2 ^ 31
      → (p : ℕ) × (ys : List A) × (partition d sorter low high xs ≡ some (p, ys))
        × Partitioned low high p xs ys
  unfolding partition
  partition_lem low high xs h k small =
      let no_overflow : leb (2 ^ 31) (low + high) ≡ false = ground (arith, small) in
      let ys = swap d xs ((low + high) / 2) high in
      let len = length-swap d xs ((low + high) / 2) high in
      let first =
        swap-Rearranges d {lo = low} {hi = suc high} xs ((low + high) / 2) high (omega arith)
          (omega arith) (omega arith) k in
      let start : Split low high low low (get_or ys high d) ys = record {
        pivot_at = refl;
        ordered = (omega arith, omega arith, h, omega arith);
        below = λ j p q. absurd (omega arith);
        above = λ j p q. absurd (omega arith);
      } in
      let (s, r) =
        loop_lem low high (get_or ys high d) (high - low) low low ys (omega arith) start in
      let (mem, zs) = partition_loop d sorter high (high - low) low low ys in
      let at = λ (j : ℕ). get_or-swap d zs mem high j s.ordered.1 s.ordered.3 in
      (
        mem,
        swap d zs mem high,
        rw no_overflow refl,
        record {
          between = (s.ordered.0, s.ordered.1);
          rearranged = Rearranges-trans d first (
              Rearranges-trans d (Rearranges-widen d low (suc high) (omega arith) (omega arith) r)
                (swap-Rearranges d zs mem high s.ordered.0 s.ordered.1 (omega arith) s.ordered.3));
          before = λ j p q. ground (arith, at j, at mem, s.below j, s.pivot_at, s.ordered.1);
          after = λ j p q.
              ground (arith, at j, at mem, s.above j, s.above mem, s.pivot_at, s.ordered.1);
        },
      )
