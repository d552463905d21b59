-- ===== src/HashTbl/Resize.antt =====
-- src/edp_hash_tbl.c, `tbl_realloc`: every entry moves to a block of twice the size.
use eq_data_patcher.Base.{
  ℕ, ◌+◌, Bool, false, not, Option, none, some, List, [], ◌∷◌, ◌==◌, if◌then◌else◌, length, set,
  drop, sub32, mul32, bit_and,
}
use eq_data_patcher.HashTbl.{
  Entry, HashTbl, free_index_invalid, is_empty, first_empty, ent_at, blank_slots, found, last, walk,
}
use eq_data_patcher.HashTbl.Place.{find_prev, link}

pub data Resized (V : Type 0) : Type 0 where
  resized : HashTbl V → Resized V
  -- no memory
  refused : Resized V
  -- a loop does not end, or leaves the block
  diverged : Resized V

-- The new block and its free index; `none` where a loop does not end or leaves the block.
abbrev pub Rehash : Type 0 → Type 0
Rehash V = Option (List (Entry V) × ℕ)

module _ {V : Type 0} where
  -- `tbl_ent_copy` keeps the link of the entry that it writes.
  abbrev pub ent_copy : Entry V → Entry V → Entry V
  ent_copy new old = record old { next = new.next }

  -- `for (;;)` at the end of a round: the next empty entry.
  unfoldable pub next_free : List (Entry V) → ℕ → Rehash V
  unfolding first_empty
  next_free slots free = elim (first_empty (drop (free + 1) slots) (free + 1)) [
    | none ↦ none
    | some i ↦ some (slots, i)
  ]

module _ {V : Type 0} (blank : V) where
  abbrev pub copy_at : List (Entry V) → ℕ → Entry V → List (Entry V)
  copy_at slots i old = set slots i (ent_copy (ent_at blank slots i) old)

  unfoldable pub rehash_evict : List (Entry V) → ℕ → Entry V → ℕ → ℕ → Rehash V
  unfolding find_prev next_free
  rehash_evict slots free old pos main =
      let moved = set slots free (ent_at blank slots pos) in
      elim (find_prev blank moved pos (length slots) main) [
        | none ↦ none
        | some prev ↦
            let linked = link blank moved prev free in
            let placed = copy_at linked pos old in
            next_free (link blank placed pos free_index_invalid) free
      ]

  unfoldable pub rehash_extend : List (Entry V) → ℕ → Entry V → ℕ → Rehash V
  unfolding walk next_free
  rehash_extend slots free old pos = elim (walk blank (λ _. false) slots (length slots) pos) [
    | none ↦ none
    | some (found i) ↦ none
    | some (last i) ↦ next_free (copy_at (link blank slots i free) free old) free
  ]

  -- One round of the loop over the old block; `mask` is the new capacity less one.
  unfoldable pub rehash_one : ℕ → List (Entry V) → ℕ → Entry V → Rehash V
  unfolding rehash_evict rehash_extend next_free
  rehash_one mask slots free old =
      let pos = bit_and old.hash mask in
      let ent = ent_at blank slots pos in
      if is_empty ent
      then (let copied = copy_at slots pos old in
          if not (pos == free) then some (copied, free) else next_free copied free)
      else (let main = bit_and ent.hash mask in
          if not (main == pos)
          then rehash_evict slots free old pos main
          else rehash_extend slots free old pos)

  unfoldable pub rehash : ℕ → List (Entry V) → List (Entry V) → ℕ → Rehash V
  unfolding rehash_one
  rehash mask [] slots free = some (slots, free)
  rehash mask (old ∷ olds) slots free = elim (rehash_one mask slots free old) [
    | none ↦ none
    | some (slots', free') ↦ rehash mask olds slots' free'
  ]

module _ {V : Type 0} (grant : ℕ → Bool) (blank : V) where
  unfoldable pub realloc : HashTbl V → Resized V
  unfolding rehash
  realloc tbl =
      let cap = mul32 tbl.capacity 2 in
      if grant (mul32 tbl.ent_size cap)
      then elim (rehash blank (sub32 cap 1) tbl.slots (blank_slots blank tbl.ent_size cap) 0) [
        | none ↦ diverged
        | some (slots, free) ↦
            resized (record tbl { capacity = cap; free_index = free; slots = slots })
      ]
      else refused
