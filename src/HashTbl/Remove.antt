-- ===== src/HashTbl/Remove.antt =====
-- src/edp_hash_tbl.c, `tbl_remove_impl`.
pub mod Stuck
use eq_data_patcher.Base.{
  ℕ, zero, suc, ◌+◌, Bool, true, false, not, ◌&&◌, Option, none, some, List, [], ◌∷◌, ltb, ◌==◌,
  if◌then◌else◌, length, set,
}
use eq_data_patcher.HashTbl.{
  Key, EntKey, raw, Entry, HashTbl, next_invalid, equals_key, is_empty, has_next, set_next,
  same_head, main_pos, ent_at,
}
use eq_data_patcher.HashTbl.Place.{link}

-- How the loop ends.
pub data Search : Type 0 where
  absent : Search
  -- the entry before, if there is one, and the entry with the key
  hit : Option ℕ → ℕ → Search

module _ {V : Type 0} (blank : V) where
  -- Where hash and kind agree and the key differs, `continue` starts the round again at the same
  -- entry. `none` where the loop does not end within `fuel` rounds.
  unfoldable pub search_chain : List (Entry V) → Key → ℕ → ℕ → Option ℕ → ℕ → Option Search
  search_chain slots key hash zero prev i = none
  search_chain slots key hash (suc fuel) prev i =
      let e = ent_at blank slots i in
      let same = search_chain slots key hash fuel prev i in
      let down = search_chain slots key hash fuel (some i) e.next in
      if same_head e key hash
      then (if not (equals_key e.key key) then same else some (hit prev i))
      else if has_next e
      then down
      else some absent

  -- The link is cut last, so that the copied entry of the second case is cleared.
  abbrev pub clear_at : List (Entry V) → ℕ → List (Entry V)
  clear_at slots i =
      set slots i (record (ent_at blank slots i) { key = raw 0; hash = 0; next = next_invalid })

  abbrev pub lower : HashTbl V → ℕ → ℕ
  lower tbl i = if ltb i tbl.free_index then i else tbl.free_index

  unfoldable pub unlink : HashTbl V → Option ℕ → ℕ → HashTbl V
  unlink tbl (some prev) i =
      let cur = (ent_at blank tbl.slots prev).next in
      let linked = link blank tbl.slots prev (ent_at blank tbl.slots i).next in
      record tbl { free_index = lower tbl cur; slots = clear_at linked i }
  unlink tbl none i =
      let next = (ent_at blank tbl.slots i).next in
      if not (next == next_invalid)
      then record tbl {
        free_index = lower tbl next;
        slots = clear_at (set tbl.slots i (ent_at blank tbl.slots next)) next;
      }
      else record tbl { slots = clear_at tbl.slots i }

  -- The removed entry's copy is freed; `none` where the loop does not end within `fuel` rounds.
  unfoldable pub remove_impl : ℕ → HashTbl V → Key → ℕ → Option (Bool × HashTbl V)
  unfolding search_chain unlink
  remove_impl fuel tbl key hash = elim tbl.slots [
    | [] ↦ some (false, tbl)
    | _ ∷ _ ↦
        let pos = main_pos tbl hash in
        let ent = ent_at blank tbl.slots pos in
        if is_empty ent
        then some (false, tbl)
        else if not (main_pos tbl ent.hash == pos)
        then some (false, tbl)
        else elim (search_chain tbl.slots key hash fuel none pos) [
          | none ↦ none
          | some absent ↦ some (false, tbl)
          | some (hit prev i) ↦ some (true, unlink tbl prev i)
        ]
  ]
