-- ===== src/HashTbl/Place.antt =====
-- src/edp_hash_tbl.c, `tbl_set_impl` in a table that has its block: where a key goes.
use eq_data_patcher.Base.{
  ℕ, zero, suc, Bool, not, ◌&&◌, Option, none, some, List, ◌==◌, if◌then◌else◌, length, set,
}
use eq_data_patcher.Err.{Err, none_err, again}
use eq_data_patcher.HashTbl.{
  Key, Entry, HashTbl, free_index_invalid, equals_key, is_empty, set_next, same_head, main_pos,
  advance_free_index, ent_at, ent_insert, found, last, walk,
}

pub data Outcome (V : Type 0) : Type 0 where
  -- the function's result
  returns : Err → HashTbl V → Outcome V
  -- no free entry is left
  full : Outcome V
  -- a loop does not end
  diverges : Outcome V

module _ {V : Type 0} where
  -- The test of the loop that looks for the key in its chain.
  abbrev pub is_key : Key → ℕ → Entry V → Bool
  is_key key hash e = same_head e key hash && equals_key e.key key

module _ {V : Type 0} (blank : V) where
  -- `while (ent_get_next(mainEnt) != pos)`: the entry that is linked to `pos`.
  unfoldable pub find_prev : List (Entry V) → ℕ → ℕ → ℕ → Option ℕ
  find_prev slots pos zero i = none
  find_prev slots pos (suc fuel) i =
      let rest = find_prev slots pos fuel (ent_at blank slots i).next in
      if (ent_at blank slots i).next == pos then some i else rest

  abbrev pub link : List (Entry V) → ℕ → ℕ → List (Entry V)
  link slots i n = set slots i (set_next n (ent_at blank slots i))

module _ {V : Type 0} (grant : ℕ → Bool) (blank : V) where
  -- The result code of `tbl_ent_insert` is not read.
  abbrev pub put_at : List (Entry V) → ℕ → Key → V → ℕ → List (Entry V)
  put_at slots i key value hash =
      set slots i (ent_insert grant (ent_at blank slots i) key value hash).1

  -- The entry at the key's main position belongs to another chain: it moves to the free entry.
  unfoldable pub evict : HashTbl V → Key → V → ℕ → ℕ → ℕ → Outcome V
  unfolding find_prev
  evict tbl key value hash pos main =
      let free = tbl.free_index in
      let moved = set tbl.slots free (ent_at blank tbl.slots pos) in
      elim (find_prev blank moved pos (length tbl.slots) main) [
        | none ↦ diverges
        | some prev ↦
            let linked = link blank moved prev free in
            let advanced = advance_free_index (record tbl { slots = linked }) in
            let placed = put_at linked pos key value hash in
            returns none_err (record advanced { slots = link blank placed pos free_index_invalid })
      ]

  -- The new key goes to the free entry, behind the last of its chain.
  unfoldable pub extend : HashTbl V → Key → V → ℕ → ℕ → Outcome V
  extend tbl key value hash pos =
      elim (walk blank (is_key key hash) tbl.slots (length tbl.slots) pos) [
        | none ↦ diverges
        | some (found i) ↦ returns again tbl
        | some (last i) ↦
            let free = tbl.free_index in
            let linked = link blank tbl.slots i free in
            let advanced = advance_free_index (record tbl { slots = linked }) in
            returns none_err (record advanced { slots = put_at linked free key value hash })
      ]

  unfoldable pub place : HashTbl V → Key → V → ℕ → Outcome V
  place tbl key value hash =
      let pos = main_pos tbl hash in
      let ent = ent_at blank tbl.slots pos in
      if is_empty ent
      then (let advanced = (if pos == tbl.free_index then advance_free_index tbl else tbl) in
          returns none_err (record advanced { slots = put_at tbl.slots pos key value hash }))
      else if not (tbl.free_index == free_index_invalid)
      then (let main = main_pos tbl ent.hash in
          if not (main == pos)
          then evict tbl key value hash pos main
          else extend tbl key value hash pos)
      else full
