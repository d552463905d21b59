-- ===== src/HashTbl/Map.antt =====
-- The tables of src/edp_hash_tbl.c as finite maps from keys to values.
pub mod Update
pub mod Laws
use eq_data_patcher.Base.{
  ℕ, zero, suc, ◌+◌, ◌<◌, ◌≤◌, ◌≡◌, ◌≢◌, ◌⊎◌, ◌∙◌, ◌*◌, sym, refl, ap, inl, inr, arith, List, [],
  ◌∷◌, Option, some, none,
}
use eq_data_patcher.Err.{Err, none_err, again, out_of_memory}
use eq_data_patcher.HashTbl.{Key, EntKey, Entry, HashTbl, ent_at}
use eq_data_patcher.HashTbl.Api.{get_impl}
use eq_data_patcher.HashTbl.Keys.{key_of, IsText}
use eq_data_patcher.HashTbl.Holds.{IsTable}
use eq_data_patcher.HashTbl.Chain.Free.{used_count}

module _ {V : Type 0} (blank : V) where
  -- A table with no block, or one whose chains are in order. Neither was made by a removal.
  pub data IsMap (tbl : HashTbl V) : Type 0 where
    no_block : tbl.slots ≡ [] → tbl.free_index ≡ 0 → IsMap tbl
    block : IsTable blank tbl → IsMap tbl

  -- Every lookup gives the same in both.
  abbrev pub SameGets : HashTbl V → HashTbl V → Type 0
  SameGets tbl t =
      (key : Key) (hash : ℕ) → IsText key → get_impl blank t key hash ≡ get_impl blank tbl key hash

  module _ (tbl t : HashTbl V) (key : Key) (value : V) (hash : ℕ) where
    -- What each result code says of the lookups before and after.
    pub data IsUpdate : Err → Type 0 where
      added :
          get_impl blank tbl key hash ≡ some none
          → get_impl blank t key hash ≡ some (some value)
          → ((key' : Key) (hash' : ℕ)
              → IsText key'
              → ((hash' ≢ hash) ⊎ (key_of key' ≢ key_of key))
              → get_impl blank t key' hash' ≡ get_impl blank tbl key' hash')
          → IsUpdate none_err
      present :
          (old : V)
          → get_impl blank tbl key hash ≡ some (some old)
          → SameGets tbl t
          → IsUpdate again
      no_memory : SameGets tbl t → IsUpdate out_of_memory

  -- At most `k` entries are used, and the capacity was doubled for them only.
  abbrev pub IsBounded : ℕ → HashTbl V → Type 0
  IsBounded k tbl =
      (used_count (ent_at blank tbl.slots) tbl.capacity ≤ k) × (tbl.capacity ≤ 2 * k + 4)

  -- Another block with no more entries, of the same size.
  abbrev pub Keeps : HashTbl V → HashTbl V → Type 0
  Keeps tbl t = (t.ent_size ≡ tbl.ent_size) × ((k : ℕ) → IsBounded k tbl → IsBounded k t)

  -- One more entry, of the same size.
  abbrev pub Grows : HashTbl V → HashTbl V → Type 0
  Grows tbl t = (t.ent_size ≡ tbl.ent_size) × ((k : ℕ) → IsBounded k tbl → IsBounded (suc k) t)

  -- A result of `tbl_set_impl` that leaves a map, updated.
  pub data IsUpdated (tbl : HashTbl V) (key : Key) (value : V) (hash : ℕ)
      : Option (Err × HashTbl V) → Type 0 where
    set_to :
        (rc : Err) (t : HashTbl V)
        → IsMap t
        → IsUpdate tbl t key value hash rc
        → Grows tbl t
        → IsUpdated tbl key value hash (some (rc, t))
