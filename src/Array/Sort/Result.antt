-- ===== src/Array/Sort/Result.antt =====
-- `array_sort` of src/edp_array.c, whole: the elements are put in order, or memory ran out.
use mathlib.Core.List.{Perm, perm-append_right_iff}
use mathlib.Core.List.Perm
use mathlib.Core.Path.{subst₂}
use eq_data_patcher.Base.{
  ℕ, zero, suc, ◌^◌, ◌≤◌, ◌<◌, inl, inr, ◌⊎◌, ◌≡◌, ◌∙◌, sym, ap, ap₂, refl, arith, List, [], ◌∷◌,
  ◌++◌, Bool, false, none, some, length, get_or, take, drop, take-append-drop, get_or-take,
  length-take, Option,
}
use eq_data_patcher.Err.{Err, none_err, out_of_memory}
use eq_data_patcher.Array.{Array, push_back, pop_back}
use eq_data_patcher.Array.Inv.{IsValid, items}
use eq_data_patcher.Array.Grow.{MayGrow, push_room}
use eq_data_patcher.Array.Sort.{recurse, int_lim, sorted_slots, sort}
use eq_data_patcher.Array.Sort.Rearrange.{Rearranges}
use eq_data_patcher.Array.Sort.Sorted.{IsOrder, SortedIn, recurse_lem}

module _ {A : Type 0} (d : A) where
  drop_ext :
      (n : ℕ) (xs ys : List A)
      → length ys ≡ length xs
      → ((i : ℕ) → n ≤ i → get_or ys i d ≡ get_or xs i d)
      → drop n ys ≡ drop n xs
  drop_ext zero [] [] e h = refl
  drop_ext zero [] (y ∷ ys) e h = absurd (omega arith)
  drop_ext zero (x ∷ xs) [] e h = absurd (omega arith)
  drop_ext zero (x ∷ xs) (y ∷ ys) e h =
      ap₂ ◌∷◌ (h 0 (omega arith))
        (drop_ext zero xs ys (omega arith) (λ i p. h (suc i) (omega arith)))
  drop_ext (suc n) [] [] e h = refl
  drop_ext (suc n) [] (y ∷ ys) e h = absurd (omega arith)
  drop_ext (suc n) (x ∷ xs) [] e h = absurd (omega arith)
  drop_ext (suc n) (x ∷ xs) (y ∷ ys) e h =
      drop_ext n xs ys (omega arith) (λ i p. h (suc i) (omega arith))

  -- A rearrangement of the first `n` cells rearranges the prefix.
  take_perm : (n : ℕ) (xs ys : List A) → Rearranges d 0 n xs ys → Perm (take n ys) (take n xs)
  take_perm n xs ys r =
      let e = drop_ext n xs ys r.same_length (λ i p. r.outside i (inr p)) in
      (perm-append_right_iff (drop n xs)).0 (
        subst₂ Perm (sym (take-append-drop n ys) ∙ ap (λ t. take n ys ++ t) e)
          (sym (take-append-drop n xs)) r.perm)

-- The list in the order of `sorter`.
abbrev pub IsSortedBy : {A : Type 0} → A → (A → A → Bool) → List A → Type 0
IsSortedBy d sorter xs =
    (i j : ℕ) → i < j → j < length xs → sorter (get_or xs j d) (get_or xs i d) ≡ false

module _ {A : Type 0} (grant : ℕ → Bool) (junk : A) (sorter : A → A → Bool)
    (order : IsOrder sorter) where
  pop_room : (ar : Array A) (n : ℕ) → ar.count ≡ suc n → pop_back ar ≡ record ar { count = n }
  unfolding pop_back
  pop_room ar n e = ground arith

  -- What `array_sort` returns.
  abbrev pub Sorts : Array A → Err × Array A → Type 0
  Sorts ar r =
      let (rc, ar') = r in
      IsValid ar'
      × Perm (items ar') (items ar)
      × (((rc ≡ none_err) × IsSortedBy junk sorter (items ar'))
          ⊎ ((rc ≡ out_of_memory) × (ar' ≡ ar) × (push_back grant junk ar none ≡ none)))

  -- Nothing is undefined, and what is returned sorts.
  abbrev pub Returns : Array A → Option (Err × Array A) → Type 0
  Returns ar o = (r : Err × Array A) × (o ≡ some r) × Sorts ar r

  sort_room :
      {ar ar' : Array A} (zs : List A)
      → IsValid ar
      → IsValid ar' × (ar'.count ≡ suc ar.count) × (take ar.count ar'.slots ≡ items ar)
      → Rearranges junk 0 ar.count ar'.slots zs
      → SortedIn junk sorter 0 ar.count zs
      → Sorts ar (none_err, pop_back (record ar' { slots = zs }))
  sort_room {ar} {ar'} zs v (v', more, same) r s =
      let p = take_perm junk ar.count ar'.slots zs r in
      rw (pop_room (record ar' { slots = zs }) ar.count more) (
        record {
          cells = r.same_length ∙ v'.cells;
          fits = omega (arith, v'.fits);
          sized = v'.sized;
          small = v'.small;
        },
        rw same at p,
        inl (
          refl,
          λ i j h k.
              let b : j < ar.count = omega (arith, length-take ar.count zs) in
              rw (get_or-take ar.count zs i junk (omega arith), get_or-take ar.count zs j junk b)
                (s i j (omega arith) h b),
        ),
      )

  int_lim-small : (n : ℕ) → n ≤ 2 ^ 30 → int_lim n ≡ n
  int_lim-small n small = ground (arith, small)

  sort_cases :
      {ar : Array A} (o : Option (Array A))
      → IsValid ar
      → MayGrow ar
      → ar.count ≤ 2 ^ 30
      → push_back grant junk ar none ≡ o
      → Returns ar (elim o [
        | none ↦ some (out_of_memory, ar)
        | some ar' ↦
            sorted_slots ar' (recurse junk sorter (suc ar.count) 0 (int_lim ar.count) ar'.slots)
      ])
  sort_cases {ar} none v g small e =
      ((out_of_memory, ar), refl, (v, Perm.refl _, inr (refl, refl, e)))
  sort_cases {ar} (some ar') v g small e =
      let (v', more, same) = rw e at (push_room grant junk v g) in
      let (zs, returns, r, s) =
        recurse_lem junk sorter order (suc ar.count) 0 ar.count ar'.slots (omega arith)
          (omega arith) (omega (arith, v'.cells, v'.fits)) small in
      (
        (none_err, pop_back (record ar' { slots = zs })),
        ap (λ lim. sorted_slots ar' (recurse junk sorter (suc ar.count) 0 lim ar'.slots))
              (int_lim-small ar.count small)
            ∙ ap (sorted_slots ar') returns,
        sort_room zs v (v', more, same) r s,
      )

  -- For a valid array of at most 2^30 elements whose next block's byte count does not wrap, and
  -- a comparison that is a strict weak order, no index of `array_sort` overflows C's `int`, and
  -- it returns with a valid array with a permutation of the elements: either `ERR_None` and no
  -- element goes before one that stands left of it, or `ERR_OutOfMemory` and the array as it
  -- was, where the push of the spare cell failed.
  pub sort_lem :
      {ar : Array A}
      → IsValid ar
      → MayGrow ar
      → ar.count ≤ 2 ^ 30
      → Returns ar (sort grant junk sorter ar)
  unfolding sort
  sort_lem {ar} v g small = sort_cases (push_back grant junk ar none) v g small refl
