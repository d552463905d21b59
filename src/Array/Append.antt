-- ===== src/Array/Append.antt =====
-- src/edp_array.c, `array_reserve` and the appends of several values: what they do to the elements,
-- also when an allocation is refused.
use mathlib.Core.Bool.{not}
use native.Mathlib.Nat.{le-mul_of_pos_right, mul_comm}
use eq_data_patcher.Base.{
  ℕ, ◌+◌, ◌*◌, ◌%◌, ◌^◌, ◌≤◌, ◌<◌, Bool, false, List, ◌++◌, ◌≡◌, ◌∙◌, ◌⊎◌, ap, inl, inr, refl,
  arith, length, length-splice, take, take-splice, take-splice_before, mul32, add32, Bool-cases,
  ltb, ◌==◌,
}
use eq_data_patcher.Err.{Err, none_err, out_of_memory}
use eq_data_patcher.Array.{Array, append_to, append_array_to, reserve, append, append_array}
use eq_data_patcher.Array.Inv.{IsValid, items, length-resized, take-resized}

module _ {A : Type 0} (grant : ℕ → Bool) (junk : A) where
  -- What `array_reserve` gives: the same elements and room for `n`, or a refused allocation.
  abbrev pub Reserved : Array A → ℕ → Err × Array A → Type 0
  Reserved ar n r =
      let (rc, ar') = r in
      IsValid ar'
      × (items ar' ≡ items ar)
      × (ar'.count ≡ ar.count)
      × (ar'.elem_size ≡ ar.elem_size)
      × (((rc ≡ none_err) × (n ≤ ar'.capacity))
          ⊎ ((rc ≡ out_of_memory) × (ar.capacity < n) × (grant (ar.elem_size * n) ≡ false)))

  -- For a valid array, where the byte count of the capacity that is asked for does not wrap,
  -- `array_reserve` gives a valid array with the same elements: either `ERR_None` and that
  -- capacity or more, or `ERR_OutOfMemory`, where the capacity was less and the allocation was
  -- refused.
  pub reserve_lem :
      {ar : Array A} (n : ℕ)
      → IsValid ar
      → ar.elem_size * n < 2 ^ 32
      → Reserved ar n (reserve grant junk ar n)
  unfolding reserve
  reserve_lem {ar} n v room = elim (Bool-cases (ltb ar.capacity n)) [
    | inr enough ↦ ground arith
    | inl short ↦
        let comm : mul32 n ar.elem_size ≡ mul32 ar.elem_size n =
          ap (λ k. k % 2 ^ 32) (mul_comm n ar.elem_size) in
        let room' : n * ar.elem_size < 2 ^ 32 = rw mul_comm room in
        let up : ar.capacity ≤ n = ground arith in
        let no_wrap : mul32 ar.elem_size n ≡ ar.elem_size * n = omega arith in
        ground (
          arith,
          comm,
          no_wrap,
          length-resized junk ar n v room' up,
          take-resized junk ar n v room' up,
        )
  ]

  -- What `array_append` gives: the values behind the elements, or a refused allocation and the
  -- elements as they were.
  abbrev pub Appended : Array A → List A → Err × Array A → Type 0
  Appended ar values r =
      let (rc, ar') = r in
      IsValid ar'
      × (((rc ≡ none_err) × (items ar' ≡ items ar ++ values))
          ⊎ ((rc ≡ out_of_memory)
              × (items ar' ≡ items ar)
              × (grant (ar.elem_size * (ar.count + length values)) ≡ false)))

  append_to_lem :
      (ar : Array A) (values : List A) (rc : Err) (ar' : Array A)
      → ar.count + length values < 2 ^ 32
      → Reserved ar (ar.count + length values) (rc, ar')
      → Appended ar values (append_to values (ar.count + length values) (rc, ar'))
  append_to_lem ar values none_err ar' small (v, same, c, s, inl (e, up)) =
      let len : ar.count + length values ≡ ar'.count + length values = omega arith in
      (
        record {
          cells = length-splice ar'.slots ar'.count values ∙ v.cells;
          fits = up;
          sized = v.sized;
          small = v.small;
        },
        inl (
          refl,
          take-splice ar'.count ar'.slots values _ len (omega (arith, v.cells))
              ∙ ap (λ t. t ++ values) same,
        ),
      )
  append_to_lem ar values _ ar' small (v, same, c, s, inl (e, up)) = cc
  append_to_lem ar values out_of_memory ar' small (v, same, c, s, inr (e, up, g)) =
      (v, inr (refl, same, g))
  append_to_lem ar values _ ar' small (v, same, c, s, inr (e, up, g)) = cc

  -- For a valid array, where the byte count of the result does not wrap, `array_append` gives a
  -- valid array: either `ERR_None` and the values behind the elements, or `ERR_OutOfMemory` and
  -- the elements as they were, where the allocation was refused.
  pub append_lem :
      {ar : Array A} (values : List A)
      → IsValid ar
      → ar.elem_size * (ar.count + length values) < 2 ^ 32
      → Appended ar values (append grant junk ar values)
  unfolding append
  append_lem {ar} values v room =
      let below = le-mul_of_pos_right (ar.count + length values) v.sized in
      let e : add32 ar.count (length values) ≡ ar.count + length values =
        omega (arith, below, mul_comm ar.elem_size (ar.count + length values)) in
      let r = reserve grant junk ar (ar.count + length values) in
      rw e (
        append_to_lem ar values r.0 r.1
          (omega (arith, below, mul_comm ar.elem_size (ar.count + length values)))
          (reserve_lem (ar.count + length values) v room))

  -- The size of an element stays.
  pub append-elem_size :
      (ar : Array A) (values : List A) → (append grant junk ar values).1.elem_size ≡ ar.elem_size
  unfolding append reserve
  append-elem_size ar values =
      elim (Bool-cases (ltb ar.capacity (add32 ar.count (length values)))) [
        | inr enough ↦ rw enough refl
        | inl short ↦
            elim (Bool-cases (grant (mul32 ar.elem_size (add32 ar.count (length values))))) [
              | inl granted ↦ rw (short, granted) refl
              | inr refused ↦ rw (short, refused) refl
            ]
      ]

  append_array_to_lem :
      (ar : Array A) (values : List A) (n : ℕ) (r : Err × Array A)
      → Reserved ar n r
      → let ar' = (append_array_to values r).1 in IsValid ar' × (items ar' ≡ items ar)
  append_array_to_lem ar values n (none_err, ar') (v, same, c, s, _) = (
    record {
      cells = length-splice ar'.slots ar'.count values ∙ v.cells;
      fits = v.fits;
      sized = v.sized;
      small = v.small;
    },
    take-splice_before ar'.count ar'.slots values ∙ same,
  )
  append_array_to_lem ar values n (_, ar') (v, same, c, s, _) = (v, same)

  -- For a valid array, where the byte count of both arrays together does not wrap,
  -- `array_append_array` gives a valid array with the elements as they were, whatever it
  -- returns.
  pub append_array_lem :
      {ar : Array A} (src : Array A)
      → IsValid ar
      → ar.elem_size * (ar.count + src.count) < 2 ^ 32
      → let ar' = (append_array grant junk ar src).1 in IsValid ar' × (items ar' ≡ items ar)
  unfolding append_array
  append_array_lem {ar} src v room = elim (Bool-cases (not (ar.elem_size == src.elem_size))) [
    | inl differ ↦ rw differ (v, refl)
    | inr agree ↦
        let below = le-mul_of_pos_right (ar.count + src.count) v.sized in
        let e : add32 ar.count src.count ≡ ar.count + src.count =
          omega (arith, below, mul_comm ar.elem_size (ar.count + src.count)) in
        rw (agree, e)
          (append_array_to_lem ar (take src.count src.slots) (ar.count + src.count) _
            (reserve_lem (ar.count + src.count) v room))
  ]
