-- ===== src/HashTbl/Evict.antt =====
-- `tbl_set_impl` of src/edp_hash_tbl.c for a key whose main position is held by another chain.
use eq_data_patcher.Base.{
  ℕ, suc, ◌<◌, ◌≡◌, ◌≢◌, ◌∙◌, ap, refl, arith, Bool, false, some, List, [], ◌==◌, length,
  length-set, set, get_or-set_self,
}
use eq_data_patcher.Err.{none_err}
use eq_data_patcher.HashTbl.{
  Key, Entry, HashTbl, free_index_invalid, is_empty, main_pos, ent_at, ent_insert,
  advance_free_index, set_next,
}
use eq_data_patcher.HashTbl.Place.{returns, place, evict, find_prev, link, put_at}
use eq_data_patcher.HashTbl.Api.{set_impl, begins, get_impl}
use eq_data_patcher.HashTbl.Lookup.{set_impl-place}
use eq_data_patcher.HashTbl.Fresh.{IsStorable, ent_insert_lem, get_first}

module _ {V : Type 0} (grant : ℕ → Bool) (blank : V) where
  -- The table after the entry at `pos` moved to the free entry, behind `prev`.
  abbrev moved : HashTbl V → ℕ → List (Entry V)
  moved tbl pos = set tbl.slots tbl.free_index (ent_at blank tbl.slots pos)

  abbrev evicted : HashTbl V → Key → V → ℕ → ℕ → ℕ → HashTbl V
  evicted tbl key w hash pos prev =
      let linked = link blank (moved tbl pos) prev tbl.free_index in
      record (advance_free_index (record tbl { slots = linked })) {
        slots = link blank (put_at grant blank linked pos key w hash) pos free_index_invalid;
      }

  place_evict :
      (tbl : HashTbl V) (key : Key) (hash : ℕ) (w : V) (prev : ℕ)
      → is_empty (ent_at blank tbl.slots (main_pos tbl hash)) ≡ false
      → tbl.free_index ≢ free_index_invalid
      → main_pos tbl (ent_at blank tbl.slots (main_pos tbl hash)).hash ≢ main_pos tbl hash
      → find_prev blank
          (moved tbl (main_pos tbl hash))
          (main_pos tbl hash)
          (length tbl.slots)
          (main_pos tbl (ent_at blank tbl.slots (main_pos tbl hash)).hash)
        ≡ some prev
      → place grant blank tbl key w hash
        ≡ returns none_err (evicted tbl key w hash (main_pos tbl hash) prev)
  unfolding place evict
  place_evict tbl key hash w prev used room other chain =
      let some_free : (tbl.free_index == free_index_invalid) ≡ false = ground (arith, room) in
      let away : (main_pos tbl (ent_at blank tbl.slots (main_pos tbl hash)).hash
            == main_pos tbl hash)
          ≡ false =
        ground (arith, other) in
      rw (used, some_free, away) (rw (evict, chain) refl)

  -- Where the main position of a key lies in the block and is held by an entry of another chain,
  -- the table has a free entry, the walk along that chain finds the entry before it within as
  -- many steps as the block has entries, the hash is not 0, and the key is a number or a text
  -- with as many bytes as its length says and memory for its copy, `tbl_set_impl` returns
  -- `ERR_None`, and `tbl_get_impl` with that key and hash then gives the value.
  pub get_impl-set_impl_evict :
      (tbl : HashTbl V) (key : Key) (hash : ℕ) (w : V) (prev fuel : ℕ)
      → main_pos tbl hash < length tbl.slots
      → is_empty (ent_at blank tbl.slots (main_pos tbl hash)) ≡ false
      → tbl.free_index ≢ free_index_invalid
      → main_pos tbl (ent_at blank tbl.slots (main_pos tbl hash)).hash ≢ main_pos tbl hash
      → find_prev blank
          (moved tbl (main_pos tbl hash))
          (main_pos tbl hash)
          (length tbl.slots)
          (main_pos tbl (ent_at blank tbl.slots (main_pos tbl hash)).hash)
        ≡ some prev
      → IsStorable grant key
      → hash ≢ 0
      → (t : HashTbl V) × (set_impl grant blank (suc fuel) tbl key w hash ≡ some (none_err, t))
        × (get_impl blank t key hash ≡ some (some w))
  unfolding advance_free_index
  get_impl-set_impl_evict tbl key hash w prev fuel inside used room other chain storable nz =
      let pos = main_pos tbl hash in
      let linked = link blank (moved tbl pos) prev tbl.free_index in
      let new = (ent_insert grant (ent_at blank linked pos) key w hash).1 in
      let t = evicted tbl key w hash pos prev in
      let (own, val, test) =
        ent_insert_lem grant blank (ent_at blank linked pos) key w hash storable in
      let len_moved = length-set tbl.slots tbl.free_index (ent_at blank tbl.slots pos) in
      let len_linked =
        length-set (moved tbl pos) prev
          (set_next tbl.free_index (ent_at blank (moved tbl pos) prev)) in
      let placed = set linked pos new in
      let len_placed = length-set linked pos new in
      let at_pos : ent_at blank placed pos ≡ new = get_or-set_self linked pos new _ (omega arith) in
      let last = set_next free_index_invalid (ent_at blank placed pos) in
      let here : ent_at blank t.slots pos ≡ last =
        get_or-set_self placed pos last _ (omega arith) in
      let has_block : tbl.slots ≢ [] = λ q. absurd (omega (arith, ap length q)) in
      let stays : t.slots ≢ [] =
        λ q. absurd (omega (arith, length-set placed pos last, ap length q)) in
      (
        t,
        set_impl-place grant blank tbl key hash w fuel none_err t has_block
            (place_evict tbl key hash w prev used room other chain),
        get_first grant blank t key hash last stays here (ap (λ (e : Entry V). e.hash) at_pos ∙ own)
              nz (ap (λ (e : Entry V). begins blank key hash e) at_pos ∙ test)
            ∙ ap (λ (e : Entry V). some (some e.value)) at_pos
            ∙ ap (λ v. some (some v)) val,
      )
