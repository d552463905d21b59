-- ===== src/Array/Sort.antt =====
-- src/edp_array.c, `array_sort`: the quicksort that works in place.
-- The cell that `array_sort` pushes to swap through lies behind the elements and is popped again;
-- what it holds is not followed. Indices are C's `int`. The upper end `high` of a range is given as
-- `lim`, which is `high + 1`, and 0 where `high` is negative: then there is nothing to sort. `none`
-- stands for the undefined behaviour of a sum that is no `int`.
pub mod Rearrange
pub mod Partition
pub mod Sorted
pub mod Result
pub mod Returns
use eq_data_patcher.Base.{
  ℕ, zero, suc, ◌+◌, ◌-◌, ◌/◌, ◌^◌, Bool, true, false, Option, none, some, List, leb, ltb, ◌==◌,
  if◌then◌else◌, get_or, set,
}
use eq_data_patcher.Err.{Err, none_err, out_of_memory}
use eq_data_patcher.Array.{Array, push_back, pop_back}

module _ {A : Type 0} (junk : A) where
  -- `array_sort_swap`
  pub swap : List A → ℕ → ℕ → List A
  swap xs a b = if a == b then xs else set (set xs a (get_or xs b junk)) b (get_or xs a junk)

  module _ (sorter : A → A → Bool) where
    -- The loop of `array_sort_partition`, with `rounds` left at index `i`.
    pub partition_loop : ℕ → ℕ → ℕ → ℕ → List A → ℕ × List A
    partition_loop high zero i mem xs = (mem, xs)
    partition_loop high (suc rounds) i mem xs =
        let less = sorter (get_or xs i junk) (get_or xs high junk) in
        partition_loop high rounds (i + 1) (if less then mem + 1 else mem)
          (if less then swap xs mem i else xs)

    pub partition : ℕ → ℕ → List A → Option (ℕ × List A)
    partition low high xs =
        let (mem, ys) =
          partition_loop high (high - low) low low (swap xs ((low + high) / 2) high) in
        if leb (2 ^ 31) (low + high) then none else some (mem, swap ys mem high)

    -- `none` also where the fuel ends.
    pub recurse : ℕ → ℕ → ℕ → List A → Option (List A)
    recurse zero low lim xs = none
    recurse (suc fuel) low lim xs = elim (ltb (low + 1) lim) [
      | false ↦ some xs
      | true ↦ elim (partition low (lim - 1) xs) [
        | none ↦ none
        | some (p, ys) ↦ elim (recurse fuel low p ys) [
          | none ↦ none
          | some zs ↦ elim (leb (2 ^ 31) (p + 1)) [
            | true ↦ none
            | false ↦ recurse fuel (p + 1) lim zs
          ]
        ]
      ]
    ]

-- `numElements - 1` as the parameter `high`, an `int`, of `array_sort_recurse`.
abbrev pub int_lim : ℕ → ℕ
int_lim n = if leb n (2 ^ 31) then n else 0

abbrev pub sorted_slots : {A : Type 0} → Array A → Option (List A) → Option (Err × Array A)
sorted_slots ar none = none
sorted_slots ar (some xs) = some (none_err, pop_back (record ar { slots = xs }))

-- `array_sort`; the depth of the recursion is at most the number of elements.
unfoldable pub sort :
    {A : Type 0} → (ℕ → Bool) → A → (A → A → Bool) → Array A → Option (Err × Array A)
sort grant junk sorter ar = elim (push_back grant junk ar none) [
  | none ↦ some (out_of_memory, ar)
  | some ar' ↦ sorted_slots ar' (recurse junk sorter (suc ar.count) 0 (int_lim ar.count) ar'.slots)
]
