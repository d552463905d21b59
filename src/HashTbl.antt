-- ===== src/HashTbl.antt =====
-- src/edp_hash_tbl.h and src/edp_hash_tbl.c: a chained table in one block of entries. A colliding
-- entry goes to a free entry of the same block, and the entries with one main position (the hash
-- masked by the capacity) are linked by `next`.
-- The block is the list `slots`, `[]` for a null pointer. The top bit of the C field `next` is the
-- field `is_int` here, and `next` is the other 31 bits. A string key is the text that its pointer
-- leads to; what is behind a null byte may be in it.
pub mod Place
pub mod Remove
pub mod Resize
pub mod Api
pub mod Chain
pub mod Lookup
pub mod Fresh
pub mod Evict
pub mod Keys
pub mod Holds
pub mod Map
use eq_data_patcher.Base.{
  ℕ, zero, suc, ◌+◌, ◌-◌, ◌%◌, ◌/◌, Bool, true, false, not, ◌&&◌, Option, none, some, List, [], ◌∷◌,
  ◌++◌, ltb, ◌==◌, if◌then◌else◌, length, get_or, set, take, drop, replicate, bit_and, add32, sub32,
  mul32,
}
use eq_data_patcher.Err.{Err, none_err, out_of_memory}

-- The union of `keyStr` and `keyInt`: a copied text, or a number, which is 0 for a null pointer.
pub data EntKey : Type 0 where
  raw : ℕ → EntKey
  copy : List ℕ → EntKey

-- The key that a caller passes: a number of 64 bits, or a text of which `len` bytes are the key.
pub data Key : Type 0 where
  int_key : ℕ → Key
  str_key : List ℕ → ℕ → Key

pub record Entry (V : Type 0) : Type 0 where
  pub key : EntKey
  pub hash : ℕ
  pub next : ℕ
  pub is_int : Bool
  pub value : V

pub record HashTbl (V : Type 0) : Type 0 where
  pub capacity : ℕ
  pub elem_size : ℕ
  pub free_index : ℕ
  pub ent_size : ℕ
  pub slots : List (Entry V)

abbrev pub min_capacity : ℕ
min_capacity = 4

abbrev pub next_invalid : ℕ
next_invalid = 0x7fff_ffff

abbrev pub free_index_invalid : ℕ
free_index_invalid = 0x7fff_ffff

-- A text up to its null byte.
abbrev pub c_str : List ℕ → List ℕ
c_str [] = []
c_str (c ∷ cs) = let rest = c ∷ c_str cs in if c == 0 then [] else rest

-- Equality of texts, which `strcmp` decides of the parts up to the null byte.
unfoldable pub same_bytes : List ℕ → List ℕ → Bool
same_bytes [] [] = true
same_bytes [] (y ∷ ys) = false
same_bytes (x ∷ xs) [] = false
same_bytes (x ∷ xs) (y ∷ ys) = x == y && same_bytes xs ys

abbrev pub key_is_zero : EntKey → Bool
key_is_zero (raw n) = n == 0
key_is_zero (copy s) = false

abbrev pub key_is_int : Key → Bool
key_is_int (int_key n) = true
key_is_int (str_key s len) = false

-- `isIntKey` of the two sides agree when this is used.
abbrev pub same_flag : Bool → Bool → Bool
same_flag true b = b
same_flag false b = not b

-- `keyInt == key`, or equal lengths and `strcmp` with the caller's whole text
unfoldable pub equals_key : EntKey → Key → Bool
unfolding same_bytes
equals_key (raw n) (int_key k) = n == k
equals_key (copy s) (str_key t len) = length s == len && same_bytes (c_str s) (c_str t)
equals_key _ _ = false

-- The same by `strncmp` with `len` bytes of the caller's text.
unfoldable pub begins_key : EntKey → Key → Bool
unfolding same_bytes
begins_key (raw n) (int_key k) = n == k
begins_key (copy s) (str_key t len) = length s == len && same_bytes (c_str s) (c_str (take len t))
begins_key _ _ = false

abbrev pub copy_of : EntKey → List (List ℕ)
copy_of (copy s) = s ∷ []
copy_of (raw n) = []

module _ {V : Type 0} where
  -- The macros of the file's head.
  abbrev pub is_empty : Entry V → Bool
  is_empty e = key_is_zero e.key && e.hash == 0

  abbrev pub has_next : Entry V → Bool
  has_next e = not (e.next == next_invalid)

  abbrev pub set_next : ℕ → Entry V → Entry V
  set_next n e = record e { next = n }

  abbrev pub same_head : Entry V → Key → ℕ → Bool
  same_head e key hash = e.hash == hash && same_flag e.is_int (key_is_int key)

  -- The index of the first empty entry of a list whose first has index `i`.
  pub first_empty : List (Entry V) → ℕ → Option ℕ
  first_empty [] i = none
  first_empty (e ∷ es) i = elim (is_empty e) [ true ↦ some i | false ↦ first_empty es (i + 1) ]

  abbrev pub main_pos : HashTbl V → ℕ → ℕ
  main_pos tbl hash = bit_and hash (sub32 tbl.capacity 1)

  unfoldable pub init_size : ℕ → HashTbl V
  init_size elem_size =
      let n = add32 elem_size 16 in
      record {
        capacity = 0;
        elem_size = elem_size;
        free_index = 0;
        ent_size = (if n % 8 == 0 then n else add32 n (8 - n % 8));
        slots = [];
      }

  -- The copies that `tbl_free_keys` frees, in order.
  unfoldable pub free_keys : List (Entry V) → List (List ℕ)
  free_keys [] = []
  free_keys (e ∷ es) =
      (if not (is_empty e) && not e.is_int then copy_of e.key else []) ++ free_keys es

  -- The callback changes a state of its own.
  unfoldable pub for_each_entry {ℓ} : {S : Type ℓ} → (S → Entry V → S) → List (Entry V) → S → S
  for_each_entry func [] s = s
  for_each_entry func (e ∷ es) s = for_each_entry func es (if not (is_empty e) then func s e else s)

  unfoldable pub for_each {ℓ} : {S : Type ℓ} → (S → V → S) → List (Entry V) → S → S
  for_each func [] s = s
  for_each func (e ∷ es) s = for_each func es (if not (is_empty e) then func s e.value else s)

  unfoldable pub deinit {ℓ} :
      {S : Type ℓ} → (S → V → S) → HashTbl V → S → S × List (List ℕ) × HashTbl V
  unfolding for_each free_keys
  deinit dtor tbl s = elim tbl.slots [
    | [] ↦ (s, [], tbl)
    | _ ∷ _ ↦ (
      for_each dtor tbl.slots s,
      free_keys tbl.slots,
      record tbl { capacity = 0; free_index = 0; slots = [] },
    )
  ]

  unfoldable pub advance_free_index : HashTbl V → HashTbl V
  unfolding first_empty
  advance_free_index tbl =
      let from = add32 tbl.free_index 1 in
      record tbl {
        free_index = elim (first_empty (drop from tbl.slots) from) [
          | none ↦ free_index_invalid
          | some i ↦ i
        ];
      }

-- `blank` is the value that zeroed memory holds.
module _ {V : Type 0} (blank : V) where
  -- An entry of zeroed memory, linked to none.
  abbrev pub blank_ent : Entry V
  blank_ent = record { key = raw 0; hash = 0; next = next_invalid; is_int = false; value = blank }

  abbrev pub ent_at : List (Entry V) → ℕ → Entry V
  ent_at slots i = get_or slots i blank_ent

  abbrev pub blank_slots : ℕ → ℕ → List (Entry V)
  blank_slots ent_size n = replicate (mul32 ent_size n / ent_size) blank_ent

-- `grant` says whether an allocation of that many bytes succeeds.
module _ {V : Type 0} (grant : ℕ → Bool) (blank : V) where
  -- `none` for false
  unfoldable pub alloc_default : HashTbl V → Option (HashTbl V)
  alloc_default tbl =
      if grant (mul32 tbl.ent_size min_capacity)
      then some (record tbl {
        capacity = min_capacity;
        slots = blank_slots blank tbl.ent_size min_capacity;
      })
      else none

module _ {V : Type 0} (grant : ℕ → Bool) where
  -- `sstr_create` takes a length, a null byte and four bytes for the length.
  unfoldable pub ent_insert : Entry V → Key → V → ℕ → Err × Entry V
  ent_insert ent (int_key n) value hash =
      (none_err, record ent { key = raw n; hash = hash; is_int = true; value = value })
  ent_insert ent (str_key text len) value hash =
      if grant (add32 len 1 + 4)
      then ((
        none_err,
        record ent { key = copy (take len text); hash = hash; is_int = false; value = value },
      ))
      else (out_of_memory, record ent { key = raw 0 })

-- Where a walk along a chain stops: at an entry that passes the test, or at the chain's end.
pub data WalkEnd : Type 0 where
  found : ℕ → WalkEnd
  last : ℕ → WalkEnd

module _ {V : Type 0} (blank : V) where
  -- `none` where the walk does not end within `fuel` entries.
  unfoldable pub walk : (Entry V → Bool) → List (Entry V) → ℕ → ℕ → Option WalkEnd
  walk test slots zero i = none
  walk test slots (suc fuel) i =
      let e = ent_at blank slots i in
      let rest = walk test slots fuel e.next in
      if test e then some (found i) else if has_next e then rest else some (last i)
