-- ===== src/HashTbl/Api.antt =====
-- src/edp_hash_tbl.c: the functions that a client calls.
use eq_data_patcher.Base.{
  ℕ, zero, suc, Bool, not, ◌&&◌, Option, none, some, List, [], ◌∷◌, ◌==◌, if◌then◌else◌, length,
  ◌⊎◌, inl, inr,
}
use eq_data_patcher.Err.{Err, invalid, out_of_memory}
use eq_data_patcher.Hash.{hash_cstr, hash_int64}
use eq_data_patcher.HashTbl.{
  Key, int_key, str_key, Entry, c_str, HashTbl, begins_key, is_empty, same_head, main_pos, ent_at,
  alloc_default, found, last, walk,
}
use eq_data_patcher.HashTbl.Place.{returns, full, diverges, place}
use eq_data_patcher.HashTbl.Resize.{resized, refused, diverged, realloc}
use eq_data_patcher.HashTbl.Remove.{remove_impl}

-- `len`, or `strlen` for 0
abbrev pub key_length : List ℕ → ℕ → ℕ
key_length text len = if len == 0 then length (c_str text) else len

module _ {V : Type 0} (grant : ℕ → Bool) (blank : V) where
  -- The first part of `tbl_set_impl`.
  abbrev pub ensure_data : HashTbl V → Option (HashTbl V)
  ensure_data tbl = elim tbl.slots [ [] ↦ alloc_default grant blank tbl | _ ∷ _ ↦ some tbl ]

  -- `none` where the function does not return within `fuel` calls of itself.
  unfoldable pub set_impl : ℕ → HashTbl V → Key → V → ℕ → Option (Err × HashTbl V)
  set_impl zero tbl key value hash = none
  set_impl (suc fuel) tbl key value hash = elim (ensure_data tbl) [
    | none ↦ some (out_of_memory, tbl)
    | some t ↦ elim (place grant blank t key value hash) [
      | returns rc t' ↦ some (rc, t')
      | diverges ↦ none
      | full ↦ elim (realloc grant blank t) [
        | refused ↦ some (out_of_memory, t)
        | diverged ↦ none
        | resized t' ↦ set_impl fuel t' key value hash
      ]
    ]
  ]

  -- The text is `none` for a null pointer. After one growth there is room.
  unfoldable pub set_str : HashTbl V → Option (List ℕ) → ℕ → V → Option (Err × HashTbl V)
  set_str tbl none len value = some (invalid, tbl)
  set_str tbl (some text) len value =
      let n = key_length text len in set_impl 2 tbl (str_key text n) value (hash_cstr text n)

  unfoldable pub set_int : HashTbl V → ℕ → V → Option (Err × HashTbl V)
  set_int tbl key value = set_impl 2 tbl (int_key key) value (hash_int64 key)

module _ {V : Type 0} (blank : V) where
  abbrev pub begins : Key → ℕ → Entry V → Bool
  begins key hash e = same_head e key hash && begins_key e.key key

  -- Inside: `none` for the null pointer. Outside: `none` where the walk does not end.
  unfoldable pub get_impl : HashTbl V → Key → ℕ → Option (Option V)
  get_impl tbl key hash = elim tbl.slots [
    | [] ↦ some none
    | _ ∷ _ ↦
        let pos = main_pos tbl hash in
        let ent = ent_at blank tbl.slots pos in
        if is_empty ent
        then some none
        else if not (main_pos tbl ent.hash == pos)
        then some none
        else elim (walk blank (begins key hash) tbl.slots (length tbl.slots) pos) [
          | none ↦ none
          | some (last i) ↦ some none
          | some (found i) ↦ some (some (ent_at blank tbl.slots i).value)
        ]
  ]

  unfoldable pub get_str_raw : HashTbl V → Option (List ℕ) → ℕ → Option (Option V)
  get_str_raw tbl none len = some none
  get_str_raw tbl (some text) len =
      let n = key_length text len in get_impl tbl (str_key text n) (hash_cstr text n)

  unfoldable pub get_int_raw : HashTbl V → ℕ → Option (Option V)
  get_int_raw tbl key = get_impl tbl (int_key key) (hash_int64 key)

  -- For a null pointer the C function returns `ERR_Invalid`, which is no Boolean: the left side.
  unfoldable pub remove_str : ℕ → HashTbl V → Option (List ℕ) → ℕ → Err ⊎ Option (Bool × HashTbl V)
  remove_str fuel tbl none len = inl invalid
  remove_str fuel tbl (some text) len =
      let n = key_length text len in
      inr (remove_impl blank fuel tbl (str_key text n) (hash_cstr text n))

  unfoldable pub remove_int : ℕ → HashTbl V → ℕ → Option (Bool × HashTbl V)
  remove_int fuel tbl key = remove_impl blank fuel tbl (int_key key) (hash_int64 key)
