-- ===== src/Array/Inv.antt =====
-- What keeps an array of src/edp_array.c well formed, and what it holds.
use eq_data_patcher.Base.{
  ℕ, ◌-◌, ◌*◌, ◌/◌, ◌^◌, ◌≤◌, ◌<◌, Option, none, some, List, ◌++◌, ◌≡◌, ◌∙◌, refl, arith, length,
  length-set, length-append, length-take, length-replicate, take, take-take, take-append, replicate,
  mul32,
}
use eq_data_patcher.Array.{Array, init_size, resized, store}
use native.Mathlib.Nat.{mul-div_left}

-- Every element has its cell, and `capacity` says how many cells there are.
pub record IsValid {A : Type 0} (ar : Array A) : Type 0 where
  pub cells : length ar.slots ≡ ar.capacity
  pub fits : ar.count ≤ ar.capacity
  pub sized : 0 < ar.elem_size
  pub small : ar.capacity * ar.elem_size < 2 ^ 32

-- The elements, in order.
abbrev pub items : {A : Type 0} → Array A → List A
items ar = take ar.count ar.slots

module _ {A : Type 0} where
  pub init_size-IsValid : (n : ℕ) → 0 < n → IsValid {A = A} (init_size n)
  unfolding init_size
  init_size-IsValid n h = ground arith

  pub length-items : {ar : Array A} → IsValid ar → length (items ar) ≡ ar.count
  length-items {ar} v = omega (arith, length-take ar.count ar.slots, v.cells, v.fits)

  pub length-store : (xs : List A) (i : ℕ) (o : Option A) → length (store xs i o) ≡ length xs
  length-store xs i none = refl
  length-store xs i (some v) = length-set xs i v

  -- A block for `cap` elements, where the byte count does not wrap, has `cap` cells and keeps the
  -- elements that were there.
  module _ (junk : A) (ar : Array A) (cap : ℕ) (v : IsValid ar) (room : cap * ar.elem_size < 2 ^ 32)
      (grows : ar.capacity ≤ cap) where
    bytes_div : mul32 cap ar.elem_size / ar.elem_size ≡ cap
    bytes_div =
        let e : mul32 cap ar.elem_size ≡ cap * ar.elem_size = omega arith in
        rw e (mul-div_left cap v.sized)

    pub length-resized : length (resized junk ar (mul32 cap ar.elem_size)) ≡ cap
    length-resized = rw bytes_div (
        omega (
          arith,
          length-take cap (ar.slots ++ replicate (cap - length ar.slots) junk),
          length-append ar.slots (replicate (cap - length ar.slots) junk),
          length-replicate (cap - length ar.slots) junk,
          v.cells,
        ))

    pub take-resized : take ar.count (resized junk ar (mul32 cap ar.elem_size)) ≡ items ar
    take-resized =
        let fill = replicate (cap - length ar.slots) junk in
        let len : length ar.slots ≡ ar.capacity = v.cells in
        rw bytes_div (
          take-take ar.count cap (ar.slots ++ fill) (omega (arith, v.fits))
          ∙ take-append ar.count ar.slots fill (omega (arith, v.fits)))
