-- ===== src/Array.antt =====
-- src/edp_array.c: the growing array of fixed-size elements.
-- `data` is the list `slots` of the cells that the allocation holds (`[]` for a null pointer);
-- cells from `count` on are there and hold no element. Elements are moved whole, so a cell is an
-- element and not its bytes. Byte counts wrap as `uint32_t`, and decide how many cells there are.
pub mod Inv
pub mod Items
pub mod Grow
pub mod Append
pub mod Sort
use eq_data_patcher.Base.{
  ℕ, zero, suc, ◌+◌, ◌-◌, ◌*◌, ◌/◌, Bool, true, false, not, ◌&&◌, Option, none, some, List, [], ◌∷◌,
  ◌++◌, ltb, leb, ◌==◌, if◌then◌else◌, length, get_elem?, get_or, set, take, drop, replicate,
  splice, add32, sub32, mul32,
}
use eq_data_patcher.Err.{Err, none_err, invalid, out_of_memory}

pub record Array (A : Type 0) : Type 0 where
  pub count : ℕ
  pub capacity : ℕ
  pub elem_size : ℕ
  pub slots : List A

abbrev pub min_capacity : ℕ
min_capacity = 8

module _ {A : Type 0} where
  unfoldable pub init_size : ℕ → Array A
  init_size elem_size = record { count = 0; capacity = 0; elem_size = elem_size; slots = [] }

  -- The element at an index, `none` for the null pointer.
  unfoldable pub get_raw : Array A → ℕ → Option A
  get_raw ar index = if ltb index ar.count then get_elem? ar.slots index else none

  unfoldable pub back_raw : Array A → Option A
  back_raw ar = if ltb 0 ar.count then get_elem? ar.slots (ar.count - 1) else none

  -- `array_set`
  unfoldable pub set_at : Array A → ℕ → A → Err × Array A
  set_at ar index value =
      if leb ar.count index
      then (invalid, ar)
      else (none_err, record ar { slots = set ar.slots index value })

  unfoldable pub pop_back : Array A → Array A
  pop_back ar = if ltb 0 ar.count then record ar { count = ar.count - 1 } else ar

  -- `memcpy` of the last element over the one at `index`
  copy_back : List A → ℕ → ℕ → List A
  copy_back xs index back = elim (get_elem? xs back) [ none ↦ xs | some v ↦ set xs index v ]

  -- True when an element was moved.
  unfoldable pub swap_and_pop : Array A → ℕ → Array A × Bool
  unfolding copy_back
  swap_and_pop ar index =
      if ltb 0 ar.count && ltb index ar.count
      then (let back = ar.count - 1 in
          let shrunk = record ar { count = back } in
          if not (index == back)
          then (record shrunk { slots = copy_back ar.slots index back }, true)
          else (shrunk, false))
      else (ar, false)

  unfoldable pub clear : Array A → Array A
  clear ar = record ar { count = 0 }

  unfoldable pub clear_index_and_above : Array A → ℕ → Array A
  clear_index_and_above ar index = if ltb index ar.count then record ar { count = index } else ar

  -- `memmove` of the `n` cells from index `k` on to the front
  abbrev pub move_front : List A → ℕ → ℕ → List A
  move_front xs k n = splice xs 0 (take n (drop k xs))

  unfoldable pub shift_left : Array A → ℕ → Array A
  unfolding clear
  shift_left ar num_indices = if leb ar.count num_indices then clear ar else elim ar.slots [
    | [] ↦ ar
    | _ ∷ _ ↦
        let n = ar.count - num_indices in
        record ar { slots = move_front ar.slots num_indices n; count = n }
  ]

  -- The callback changes a state of its own, and not the array.
  for_each_from {ℓ} : {S : Type ℓ} → ℕ → ℕ → (S → A → S) → Array A → S → S
  for_each_from zero i func ar s = s
  for_each_from (suc rounds) i func ar s =
      for_each_from rounds (i + 1) func ar
        (elim (get_elem? ar.slots i) [ none ↦ s | some x ↦ func s x ])

  unfoldable pub for_each {ℓ} : {S : Type ℓ} → (S → A → S) → Array A → S → S
  unfolding for_each_from
  for_each func ar s = for_each_from ar.count 0 func ar s

  -- With a destructor, what it does to each element runs before the memory goes.
  unfoldable pub deinit {ℓ} : {S : Type ℓ} → (S → A → S) → Array A → S → S × Array A
  unfolding for_each
  deinit dtor ar s = elim ar.slots [
    | [] ↦ (s, ar)
    | _ ∷ _ ↦ (for_each dtor ar s, record ar { count = 0; capacity = 0; slots = [] })
  ]

  -- The destination takes the memory, and the source is left empty.
  unfoldable pub take_ownership : Array A → Array A × Array A
  take_ownership from = (from, record from { count = 0; capacity = 0; slots = [] })

  -- The cells of a block of that many bytes, its front kept.
  abbrev pub resized : A → Array A → ℕ → List A
  resized junk ar bytes =
      let n = bytes / ar.elem_size in take n (ar.slots ++ replicate (n - length ar.slots) junk)

  -- A null `value` leaves the new cell as it is.
  abbrev pub store : List A → ℕ → Option A → List A
  store xs index none = xs
  store xs index (some v) = set xs index v

  abbrev pub push_to : Option A → Array A → Array A
  push_to value ar = record ar { count = add32 ar.count 1; slots = store ar.slots ar.count value }

  -- The part behind `array_reserve`; `total` is the new count.
  abbrev pub append_to : List A → ℕ → Err × Array A → Err × Array A
  append_to values total (none_err, ar) =
      (none_err, record ar { count = total; slots = splice ar.slots ar.count values })
  append_to values total (rc, ar) = (rc, ar)

  -- The count is not written.
  abbrev pub append_array_to : List A → Err × Array A → Err × Array A
  append_array_to values (none_err, ar) =
      (none_err, record ar { slots = splice ar.slots ar.count values })
  append_array_to values (rc, ar) = (rc, ar)

-- `grant` says whether an allocation of that many bytes succeeds, and `junk` is what memory holds
-- before it is written.
module _ {A : Type 0} (grant : ℕ → Bool) (junk : A) where
  -- `none` for false
  unfoldable pub realloc : Array A → ℕ → Option (Array A)
  realloc ar cap =
      let cap' : ℕ = if cap == 0 then min_capacity else mul32 cap 2 in
      let bytes = mul32 cap' ar.elem_size in
      if grant bytes
      then some (record ar { capacity = cap'; slots = resized junk ar bytes })
      else none

  unfoldable pub push_back : Array A → Option A → Option (Array A)
  push_back ar value =
      if leb ar.capacity ar.count
      then elim (realloc ar ar.capacity) [ none ↦ none | some ar' ↦ some (push_to value ar') ]
      else some (push_to value ar)

  unfoldable pub reserve : Array A → ℕ → Err × Array A
  reserve ar count =
      if ltb ar.capacity count
      then (let bytes = mul32 ar.elem_size count in
          if grant bytes
          then (none_err, record ar { capacity = count; slots = resized junk ar bytes })
          else (out_of_memory, ar))
      else (none_err, ar)

  unfoldable pub append : Array A → List A → Err × Array A
  append ar values =
      let total = add32 ar.count (length values) in append_to values total (reserve ar total)

  unfoldable pub append_array : Array A → Array A → Err × Array A
  append_array ar src =
      if not (ar.elem_size == src.elem_size)
      then (invalid, ar)
      else append_array_to (take src.count src.slots) (reserve ar (add32 ar.count src.count))
