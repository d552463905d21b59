-- ===== src/Array/Items.antt =====
-- src/edp_array.c against lists: what each operation does to the elements.
use mathlib.Core.Bool.{not}
use eq_data_patcher.Base.{
  ℕ, zero, suc, ◌+◌, ◌-◌, ◌≤◌, ◌<◌, none, List, [], ◌∷◌, ◌≡◌, ◌⊎◌, ap, inl, inr, refl, arith,
  length, length-set, length-take, length-drop, length-splice, get_or, get_or-take, take, drop, set,
  splice, get_elem?, get_elem?-take, get_elem?-eq-get_or, take-set, take-take, take-splice,
  take_all, set_past, Bool-cases, ltb, ◌==◌,
}
use eq_data_patcher.Err.{none_err, invalid}
use eq_data_patcher.Array.{
  Array, get_raw, set_at, pop_back, swap_and_pop, clear, clear_index_and_above, shift_left,
}
use eq_data_patcher.Array.Inv.{IsValid, items, length-items}

module _ {A : Type 0} where
  past_end : (xs : List A) (i : ℕ) → length xs ≤ i → get_elem? xs i ≡ none
  past_end [] i h = refl
  past_end (x ∷ xs) zero h = absurd (omega arith)
  past_end (x ∷ xs) (suc i) h = past_end xs i (omega arith)

  -- For a valid array, `array_get_raw` reads the list of the elements, and gives the null
  -- pointer past its end.
  pub get_raw-items : {ar : Array A} (i : ℕ) → IsValid ar → get_raw ar i ≡ get_elem? (items ar) i
  unfolding get_raw
  get_raw-items {ar} i v = elim (Bool-cases (ltb i ar.count)) [
    | inl e ↦ ground (arith, get_elem?-take ar.count ar.slots i)
    | inr e ↦ ground (arith, past_end (items ar) i, length-items v)
  ]

  -- For a valid array, `array_set` gives a valid array whose elements are the list with the
  -- value set at the index, and returns `ERR_None`, or `ERR_Invalid` for an index that is not
  -- below the count.
  pub set_at_lem :
      {ar : Array A} (i : ℕ) (x : A)
      → IsValid ar
      → let (rc, ar') = set_at ar i x in
        IsValid ar'
        × (items ar' ≡ set (items ar) i x)
        × ((rc ≡ none_err) ⊎ ((rc ≡ invalid) × (length (items ar) ≤ i)))
  unfolding set_at
  set_at_lem {ar} i x v = ground (
    arith,
    length-set ar.slots i x,
    take-set ar.count ar.slots i x,
    set_past (items ar) i x,
    length-items v,
  )

  -- For a valid array, `array_pop_back` gives a valid array without the last element, or empty
  -- if it was.
  pub pop_back_lem :
      {ar : Array A}
      → IsValid ar
      → IsValid (pop_back ar) × (items (pop_back ar) ≡ take (length (items ar) - 1) (items ar))
  unfolding pop_back
  pop_back_lem {ar} v = ground (arith, length-items v, take-take (ar.count - 1) ar.count ar.slots)

  -- For a valid array and an index below the count, `array_swap_and_pop` gives a valid array in
  -- which the last element stands at the index and the last place is gone, and says whether the
  -- index was another than the last.
  pub swap_and_pop_lem :
      {ar : Array A} (i : ℕ) (d : A)
      → IsValid ar
      → i < length (items ar)
      → let n = length (items ar) - 1 in
        let (ar', moved) = swap_and_pop ar i in
        IsValid ar'
        × (items ar' ≡ take n (set (items ar) i (get_or (items ar) n d)))
        × (moved ≡ not (i == n))
  unfolding swap_and_pop
  swap_and_pop_lem {ar} i d v h =
      let n = ar.count - 1 in
      ground (
        arith,
        length-items v,
        get_elem?-eq-get_or ar.slots n d,
        get_or-take ar.count ar.slots n d,
        length-set ar.slots i (get_or ar.slots n d),
        take-set n ar.slots i (get_or ar.slots n d),
        take-set n (items ar) i (get_or ar.slots n d),
        take-take n ar.count ar.slots,
        length-take n (items ar),
        set_past (take n (items ar)) n (get_or ar.slots n d),
      )

  pub clear_lem : {ar : Array A} → IsValid ar → IsValid (clear ar) × (items (clear ar) ≡ [])
  unfolding clear
  clear_lem v = ground arith

  -- For a valid array, `array_clear_index_and_above` gives a valid array with the elements below
  -- the index.
  pub clear_index_and_above_lem :
      {ar : Array A} (i : ℕ)
      → IsValid ar
      → let ar' = clear_index_and_above ar i in IsValid ar' × (items ar' ≡ take i (items ar))
  unfolding clear_index_and_above
  clear_index_and_above_lem {ar} i v =
      ground (arith, take-take i ar.count ar.slots, take_all i (items ar), length-items v)

  take-splice_front :
      (n : ℕ) (xs vs : List A) → n ≡ length vs → n ≤ length xs → take n (splice xs 0 vs) ≡ vs
  take-splice_front n xs vs e h = take-splice 0 xs vs n (omega arith) h

  drop-take : (m n k : ℕ) (xs : List A) → n ≡ k + m → take m (drop k xs) ≡ drop k (take n xs)
  drop-take m n zero xs e = ap (λ t. take t xs) (omega arith)
  drop-take m zero (suc k) xs e = absurd (omega arith)
  drop-take zero (suc n) (suc k) [] e = refl
  drop-take (suc m) (suc n) (suc k) [] e = refl
  drop-take m (suc n) (suc k) (x ∷ xs) e = drop-take m n k xs (omega arith)

  drop_all : (n : ℕ) (xs : List A) → length xs ≤ n → drop n xs ≡ []
  drop_all zero [] h = refl
  drop_all zero (x ∷ xs) h = absurd (omega arith)
  drop_all (suc n) [] h = refl
  drop_all (suc n) (x ∷ xs) h = drop_all n xs (omega arith)

  -- For a valid array, `array_shift_left` gives a valid array without the first elements, as
  -- many as it was told or all.
  pub shift_left_lem :
      {ar : Array A} (k : ℕ)
      → IsValid ar
      → let ar' = shift_left ar k in IsValid ar' × (items ar' ≡ drop k (items ar))
  unfolding shift_left clear
  shift_left_lem {ar} k v =
      let n = ar.count - k in
      let block = take n (drop k ar.slots) in
      ground (
        arith,
        length-items v,
        length-splice ar.slots 0 block,
        take-splice_front n ar.slots block,
        length-take n (drop k ar.slots),
        length-drop k ar.slots,
        drop-take n ar.count k ar.slots,
        drop_all k (items ar),
      )
