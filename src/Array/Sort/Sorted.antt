-- ===== src/Array/Sort/Sorted.antt =====
-- `array_sort` of src/edp_array.c puts the elements in order.
use mathlib.Core.Path.{subst}
use eq_data_patcher.Base.{
  ℕ, zero, suc, ◌+◌, ◌-◌, ◌≤◌, ◌<◌, inl, inr, ◌≡◌, ◌∙◌, sym, refl, arith, List, some, ◌^◌, Bool,
  true, false, length, get_or, ltb, leb, Bool-cases,
}
use eq_data_patcher.Array.Sort.{recurse}
use eq_data_patcher.Array.Sort.Rearrange.{
  Rearranges, Rearranges-refl, Rearranges-trans, Rearranges-widen,
}
use eq_data_patcher.Array.Sort.Partition.{Partitioned, partition_lem}

-- A comparison that tells which element goes first: a strict weak order.
pub record IsOrder {A : Type 0} (sorter : A → A → Bool) : Type 0 where
  pub asym : (a b : A) → sorter a b ≡ true → sorter b a ≡ false
  pub trans : (a b c : A) → sorter a b ≡ false → sorter b c ≡ false → sorter a c ≡ false

module _ {A : Type 0} (d : A) (sorter : A → A → Bool) where
  -- No cell of `[lo, hi)` goes before one that stands left of it.
  abbrev pub SortedIn : ℕ → ℕ → List A → Type 0
  SortedIn lo hi xs =
      (i j : ℕ) → lo ≤ i → i < j → j < hi → sorter (get_or xs j d) (get_or xs i d) ≡ false

  module _ (order : IsOrder sorter) where
    -- Sorting both sides of the pivot sorts the range.
    module _ {lo hi' p : ℕ} {xs ys zs ws : List A} (split : Partitioned d sorter lo hi' p xs ys)
        (left : Rearranges d lo p ys zs) (left_sorted : SortedIn lo p zs)
        (right : Rearranges d (p + 1) (suc hi') zs ws)
        (right_sorted : SortedIn (p + 1) (suc hi') ws) where
      pivot_stays : get_or ws p d ≡ get_or ys p d
      pivot_stays = right.outside p (inl (omega arith)) ∙ left.outside p (inr (omega arith))

      left_below : (i : ℕ) → lo ≤ i → i < p → sorter (get_or ws i d) (get_or ws p d) ≡ true
      left_below i h k =
          let (j, h', k', e) = left.inside i h k in
          rw (right.outside i (inl (omega arith)), pivot_stays, e) (split.before j h' k')

      right_above : (j : ℕ) → p < j → j < suc hi' → sorter (get_or ws j d) (get_or ws p d) ≡ false
      right_above j h k =
          let (i, h', k', e) = right.inside j (omega arith) k in
          rw (pivot_stays, e, left.outside i (inr (omega arith)))
            (split.after i (omega arith) (omega arith))

      left_kept :
          (i j : ℕ) → lo ≤ i → i < j → j < p → sorter (get_or ws j d) (get_or ws i d) ≡ false
      left_kept i j h k l =
          rw (right.outside i (inl (omega arith)), right.outside j (inl (omega arith)))
            (left_sorted i j h k l)

      SortedIn-join : SortedIn lo (suc hi') ws
      SortedIn-join i j h k l = grind (
        arith,
        left_kept i j,
        left_below i,
        right_above j,
        right_sorted i j,
        order.asym (get_or ws i d) (get_or ws p d),
        order.trans (get_or ws j d) (get_or ws p d) (get_or ws i d),
      )

    -- The range is at most as long as the fuel, and no sum of two of its indices overflows.
    pub recurse_lem :
        (fuel lo hi : ℕ) (xs : List A)
        → lo ≤ hi
        → hi < lo + fuel
        → hi ≤ length xs
        → hi ≤ 2 ^ 30
        → (ys : List A) × (recurse d sorter fuel lo hi xs ≡ some ys)
          × Rearranges d lo hi xs ys
          × SortedIn lo hi ys
    unfolding recurse
    recurse_lem zero lo hi xs o f h small = absurd (omega arith)
    recurse_lem (suc fuel) lo hi xs o f h small = elim (Bool-cases (ltb (lo + 1) hi)) [
      | inr short ↦ (
        xs,
        rw (recurse, short) refl,
        Rearranges-refl d lo hi xs,
        λ i j p q r. absurd (ground arith),
      )
      | inl more ↦
          let e : suc (hi - 1) ≡ hi = ground arith in
          let (p, ys, split_eq, split) =
            partition_lem d sorter lo (hi - 1) xs (ground arith) (omega arith) (omega arith) in
          let len = split.rearranged.same_length in
          let in_range : leb (2 ^ 31) (p + 1) ≡ false = ground (arith, split.between, small) in
          let (zs, left_eq, rl, sl) =
            recurse_lem fuel lo p ys split.between.0 (omega (arith, split.between))
              (omega (arith, split.between)) (omega (arith, split.between)) in
          let (ws, right_eq, rr, sr) =
            recurse_lem fuel (p + 1) hi zs (omega (arith, split.between))
              (omega (arith, split.between)) (omega (arith, rl.same_length)) small in
          (
            ws,
            rw (recurse, more) (rw split_eq (rw left_eq (rw in_range right_eq))),
            Rearranges-trans d (subst (λ t. Rearranges d lo t xs ys) e split.rearranged) (
                Rearranges-trans d
                  (Rearranges-widen d lo hi (omega arith) (omega (arith, split.between)) rl)
                  (Rearranges-widen d lo hi (omega (arith, split.between)) (omega arith) rr)),
            subst (λ t. SortedIn lo t ws) e
                (SortedIn-join split rl sl (subst (λ t. Rearranges d (p + 1) t zs ws) (sym e) rr)
                  (subst (λ t. SortedIn (p + 1) t ws) (sym e) sr)),
          )
    ]
