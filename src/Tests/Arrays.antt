-- ===== src/Tests/Arrays.antt =====
-- The theorems on src/edp_array.c at arrays that meet their hypotheses.
use eq_data_patcher.Base.{ℕ, ◌≡◌, refl, arith, [], ◌∷◌, some, ltb}
use eq_data_patcher.Array.{Array, push_back, append, append_array}
use eq_data_patcher.Array.Inv.{IsValid, items}
use eq_data_patcher.Array.Grow.{MayGrow, Pushed, push_back_lem}
use eq_data_patcher.Array.Append.{Appended, append_lem, append_array_lem}
use eq_data_patcher.Array.Sort.{sort}
use eq_data_patcher.Array.Sort.Sorted.{IsOrder}
use eq_data_patcher.Array.Sort.Result.{Returns, sort_lem}
use eq_data_patcher.Tests.Text.{all_granted}

-- Three elements, and no room for a fourth.
abbrev three : Array ℕ
three = record { count = 3; capacity = 3; elem_size = 4; slots = 30 ∷ 10 ∷ 20 ∷ [] }

three-IsValid : IsValid three
three-IsValid = record {
  cells = refl;
  fits = omega arith;
  sized = omega arith;
  small = omega arith;
}

three-MayGrow : MayGrow three
three-MayGrow = record { first = omega arith; next = omega arith }

ltb-IsOrder : IsOrder ltb
ltb-IsOrder = record {
  asym = λ a b h. ground (arith, h);
  trans = λ a b c h k. ground (arith, h, k);
}

sort_lem_example : Returns all_granted 0 ltb ltb-IsOrder three (sort all_granted 0 ltb three)
sort_lem_example = sort_lem all_granted 0 ltb ltb-IsOrder three-IsValid three-MayGrow (omega arith)

push_back_lem_example : Pushed all_granted 0 three 40 (push_back all_granted 0 three (some 40))
push_back_lem_example = push_back_lem all_granted 0 40 three-IsValid three-MayGrow

append_lem_example :
    Appended all_granted 0 three (7 ∷ 8 ∷ []) (append all_granted 0 three (7 ∷ 8 ∷ []))
append_lem_example = append_lem all_granted 0 (7 ∷ 8 ∷ []) three-IsValid (omega arith)

append_array_lem_example :
    IsValid (append_array all_granted 0 three three).1
    × (items (append_array all_granted 0 three three).1 ≡ 30 ∷ 10 ∷ 20 ∷ [])
append_array_lem_example = append_array_lem all_granted 0 three three-IsValid (omega arith)
