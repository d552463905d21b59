-- ===== src/Array/Grow.antt =====
-- src/edp_array.c, the operations that allocate: what they do to the elements, also when an
-- allocation is refused.
use native.Mathlib.Nat.{le-mul_of_pos_right}
use eq_data_patcher.Base.{
  ℕ, suc, ◌+◌, ◌*◌, ◌^◌, ◌≤◌, ◌<◌, Bool, false, Option, none, some, [], ◌∷◌, ◌++◌, ◌≡◌, ◌∙◌, inl,
  inr, refl, arith, true, add32, length-set, take, take-suc-set, mul32, add32, Bool-cases, leb,
  leb→le, if◌then◌else◌, ◌==◌,
}
use eq_data_patcher.Array.{Array, min_capacity, realloc, push_to, push_back}
use eq_data_patcher.Array.Inv.{IsValid, items, length-resized, take-resized}

-- Where no byte count wraps: for the first block and for the next doubling.
pub record MayGrow {A : Type 0} (ar : Array A) : Type 0 where
  pub first : min_capacity * ar.elem_size < 2 ^ 32
  pub next : ar.capacity * 2 * ar.elem_size < 2 ^ 32

module _ {A : Type 0} (grant : ℕ → Bool) (junk : A) where
  -- The capacity after the next growth.
  abbrev pub grown : Array A → ℕ
  grown ar = if ar.capacity == 0 then min_capacity else ar.capacity * 2

  -- What a growth gives: the same elements and room for more, or a refused allocation.
  abbrev Grown : Array A → Option (Array A) → Type 0
  Grown ar none = grant (grown ar * ar.elem_size) ≡ false
  Grown ar (some ar') =
      IsValid ar'
      × (items ar' ≡ items ar)
      × (ar'.count ≡ ar.count)
      × (ar'.capacity ≡ grown ar)
      × (ar'.elem_size ≡ ar.elem_size)

  realloc_lem :
      {ar : Array A} → IsValid ar → MayGrow ar → Grown ar (realloc grant junk ar ar.capacity)
  unfolding realloc
  realloc_lem {ar} v g =
      let n : ℕ = grown ar in
      let room : n * ar.elem_size < 2 ^ 32 = ground arith in
      let up : ar.capacity ≤ n = ground arith in
      let no_wrap : mul32 ar.capacity 2 ≡ ar.capacity * 2 =
        omega (arith, le-mul_of_pos_right (ar.capacity * 2) v.sized) in
      ground (arith, no_wrap, length-resized junk ar n v room up, take-resized junk ar n v room up)

  -- `array_push_back` of a value appends it, or fails where the growth that it needs is refused.
  abbrev pub Pushed : Array A → A → Option (Array A) → Type 0
  Pushed ar x none = (ar.count ≡ ar.capacity) × (grant (grown ar * ar.elem_size) ≡ false)
  Pushed ar x (some ar') =
      IsValid ar' × (items ar' ≡ items ar ++ x ∷ []) × (ar'.elem_size ≡ ar.elem_size)

  push_to_lem :
      {ar : Array A} (x : A)
      → IsValid ar
      → ar.count < ar.capacity
      → Pushed ar x (some (push_to (some x) ar))
  push_to_lem {ar} x v h =
      let below : ar.capacity ≤ ar.capacity * ar.elem_size =
        le-mul_of_pos_right ar.capacity v.sized in
      let e : add32 ar.count 1 ≡ suc ar.count = omega arith in
      let put = take-suc-set ar.count ar.slots x (omega (arith, v.cells)) in
      (
        record {
          cells = length-set ar.slots ar.count x ∙ v.cells;
          fits = omega arith;
          sized = v.sized;
          small = v.small;
        },
        rw e put,
        refl,
      )

  push-Grown :
      {ar : Array A} (x : A) (o : Option (Array A))
      → IsValid ar
      → ar.capacity ≤ ar.count
      → Grown ar o
      → Pushed ar x (elim o [ none ↦ none | some ar' ↦ some (push_to (some x) ar') ])
  push-Grown x none v h r = (omega (arith, v.fits), r)
  push-Grown {ar} x (some ar') v h r = ground (arith, push_to_lem {ar = ar'} x)

  -- For a valid array whose next block's byte count does not wrap, `array_push_back` of a value
  -- gives a valid array with the value behind the elements, or the null pointer, where the array
  -- was full and the allocation of the next block refused.
  pub push_back_lem :
      {ar : Array A} (x : A)
      → IsValid ar
      → MayGrow ar
      → Pushed ar x (push_back grant junk ar (some x))
  unfolding push_back
  push_back_lem {ar} x v g = elim (Bool-cases (leb ar.capacity ar.count)) [
    | inl full ↦
        rw full
          (push-Grown x (realloc grant junk ar ar.capacity) v (leb→le _ _ full) (realloc_lem v g))
    | inr fits ↦ rw fits (push_to_lem x v (ground arith))
  ]

  -- The capacity is never much more than what the elements need.
  abbrev pub Snug : Array A → Option (Array A) → Type 0
  Snug ar none = Unit {0}
  Snug ar (some ar') = (ar'.count ≡ suc ar.count) × (ar'.capacity ≤ ar'.count * 2 + min_capacity)

  pub push_back-Snug :
      (ar : Array A) (value : Option A)
      → ar.capacity ≤ ar.count * 2 + min_capacity
      → ar.count < 2 ^ 30
      → Snug ar (push_back grant junk ar value)
  unfolding push_back realloc
  push_back-Snug ar value snug small =
      let e : add32 ar.count 1 ≡ suc ar.count = omega arith in
      let full : (ar.capacity == 0) ≡ true → ar.capacity ≡ 0 = λ h. ground (arith, h) in
      ground (arith, e, snug, small)

  -- A push of no value makes room behind the elements, and changes none.
  abbrev pub Roomy : Array A → Option (Array A) → Type 0
  Roomy ar none = Unit {0}
  Roomy ar (some ar') =
      IsValid ar' × (ar'.count ≡ suc ar.count) × (take ar.count ar'.slots ≡ items ar)

  room_lem :
      {ar : Array A} → IsValid ar → ar.count < ar.capacity → Roomy ar (some (push_to none ar))
  room_lem {ar} v h =
      let below = le-mul_of_pos_right ar.capacity v.sized in
      let e : add32 ar.count 1 ≡ suc ar.count = omega arith in
      (record { cells = v.cells; fits = omega arith; sized = v.sized; small = v.small }, e, refl)

  room-Grown :
      (ar : Array A) (o : Option (Array A))
      → IsValid ar
      → ar.capacity ≤ ar.count
      → Grown ar o
      → Roomy ar (elim o [ none ↦ none | some ar' ↦ some (push_to none ar') ])
  room-Grown ar none v h r = tt
  room-Grown ar (some ar') v h r = ground (arith, room_lem {ar = ar'})

  pub push_room : {ar : Array A} → IsValid ar → MayGrow ar → Roomy ar (push_back grant junk ar none)
  unfolding push_back
  push_room {ar} v g = elim (Bool-cases (leb ar.capacity ar.count)) [
    | inl full ↦
        rw full
          (room-Grown ar (realloc grant junk ar ar.capacity) v (leb→le _ _ full) (realloc_lem v g))
    | inr fits ↦ rw fits (room_lem v (ground arith))
  ]
