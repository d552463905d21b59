-- ===== src/HashTbl/Fresh.antt =====
-- `tbl_set_impl` of src/edp_hash_tbl.c for a key whose main position is empty.
use eq_data_patcher.Base.{
  ℕ, suc, ◌+◌, ◌<◌, ◌≤◌, ◌≡◌, ◌≢◌, ◌∙◌, ap, refl, arith, Bool, true, false, ◌&&◌, some, List, [],
  ◌∷◌, ◌==◌, if◌then◌else◌, ==_iff, length, length-take, length-set, take, bit_and, sub32,
  get_or-set_self, add32,
}
use eq_data_patcher.Err.{none_err}
use eq_data_patcher.HashTbl.{
  Key, int_key, str_key, Entry, HashTbl, begins_key, is_empty, key_is_zero, main_pos, ent_at,
  ent_insert, advance_free_index, walk, found, same_bytes, c_str,
}
use eq_data_patcher.HashTbl.Place.{returns, place, put_at}
use eq_data_patcher.HashTbl.Api.{set_impl, begins, get_impl}
use eq_data_patcher.HashTbl.Lookup.{set_impl-place}

-- The key is a number, or a text with `len` bytes for whose copy there is memory.
abbrev pub IsStorable : (ℕ → Bool) → Key → Type 0
IsStorable grant (int_key n) = n ≡ n
IsStorable grant (str_key text len) = (len ≤ length text) × (grant (add32 len 1 + 4) ≡ true)

pub same_bytes_refl : (s : List ℕ) → same_bytes s s ≡ true
unfolding same_bytes
same_bytes_refl [] = refl
same_bytes_refl (x ∷ s) = rw ((==_iff x x).1 refl) (same_bytes_refl s)

pub and_false : (b : Bool) → (b && false) ≡ false
and_false true = refl
and_false false = refl

pub eqb_false : (a b : ℕ) → a ≢ b → (a == b) ≡ false
eqb_false a b ne = ground (arith, ne)

module _ {V : Type 0} where
  advance_capacity :
      (tbl : HashTbl V) (b : Bool)
      → (if b then advance_free_index tbl else tbl).capacity ≡ tbl.capacity
  unfolding advance_free_index
  advance_capacity tbl true = refl
  advance_capacity tbl false = refl

module _ {V : Type 0} (grant : ℕ → Bool) (blank : V) where
  -- The written entry has the hash and the value, and passes the test of a lookup.
  pub ent_insert_lem :
      (e : Entry V) (key : Key) (w : V) (hash : ℕ)
      → IsStorable grant key
      → let e' = (ent_insert grant e key w hash).1 in
        (e'.hash ≡ hash) × (e'.value ≡ w) × (begins blank key hash e' ≡ true)
  unfolding ent_insert begins_key
  ent_insert_lem e (int_key n) w hash s =
      (refl, refl, rw ((==_iff hash hash).1 refl, (==_iff n n).1 refl) refl)
  ent_insert_lem e (str_key text len) w hash s =
      let short : length (take len text) ≡ len = omega (arith, length-take len text, s) in
      rw s.1 (
        refl,
        refl,
        rw
            (
              (==_iff hash hash).1 refl,
              short,
              (==_iff len len).1 refl,
              same_bytes_refl (c_str (take len text)),
            )
            refl,
      )

  walk_first :
      (test : Entry V → Bool) (slots : List (Entry V)) (fuel i : ℕ)
      → test (ent_at blank slots i) ≡ true
      → walk blank test slots (suc fuel) i ≡ some (found i)
  unfolding walk
  walk_first test slots fuel i h = rw h refl

  first_in_fields :
      (cells size free ent_size : ℕ) (slots : List (Entry V)) (key : Key) (hash : ℕ) (at : Entry V)
      → let tbl : HashTbl V = record {
        capacity = cells;
        elem_size = size;
        free_index = free;
        ent_size = ent_size;
        slots = slots;
      } in
        slots ≢ []
        → ent_at blank slots (main_pos tbl hash) ≡ at
        → at.hash ≡ hash
        → hash ≢ 0
        → begins blank key hash at ≡ true
        → get_impl blank tbl key hash ≡ some (some at.value)
  unfolding get_impl
  first_in_fields cells size free ent_size [] key hash at block here own nz test =
      absurd (block refl)
  first_in_fields cells size free ent_size (e ∷ es) key hash at block here own nz test =
      let i = bit_and hash (sub32 cells 1) in
      let used : is_empty at ≡ false =
        rw (own, eqb_false hash 0 nz) (and_false (key_is_zero at.key)) in
      let stop = walk_first (begins blank key hash) (e ∷ es) (length es) i (rw here test) in
      rw (here, used, own, (==_iff i i).1 refl, stop, here) refl

  -- A lookup that finds the key in its main position.
  pub get_first :
      (tbl : HashTbl V) (key : Key) (hash : ℕ) (at : Entry V)
      → tbl.slots ≢ []
      → ent_at blank tbl.slots (main_pos tbl hash) ≡ at
      → at.hash ≡ hash
      → hash ≢ 0
      → begins blank key hash at ≡ true
      → get_impl blank tbl key hash ≡ some (some at.value)
  get_first tbl = first_in_fields tbl.capacity tbl.elem_size tbl.free_index tbl.ent_size tbl.slots

  -- The table after the key went to its empty main position.
  abbrev placed : HashTbl V → Key → V → ℕ → HashTbl V
  placed tbl key w hash =
      let i = main_pos tbl hash in
      record (if i == tbl.free_index then advance_free_index tbl else tbl) {
        slots = put_at grant blank tbl.slots i key w hash;
      }

  place_empty :
      (tbl : HashTbl V) (key : Key) (hash : ℕ) (w : V)
      → is_empty (ent_at blank tbl.slots (main_pos tbl hash)) ≡ true
      → place grant blank tbl key w hash ≡ returns none_err (placed tbl key w hash)
  unfolding place
  place_empty tbl key hash w empty = rw empty refl

  -- Where the main position of a key lies in the block and is empty, the hash is not 0, and the
  -- key is a number or a text with as many bytes as its length says and memory for its copy,
  -- `tbl_set_impl` returns `ERR_None`, and `tbl_get_impl` with that key and hash then gives the
  -- value.
  pub get_impl-set_impl :
      (tbl : HashTbl V) (key : Key) (hash : ℕ) (w : V) (fuel : ℕ)
      → main_pos tbl hash < length tbl.slots
      → is_empty (ent_at blank tbl.slots (main_pos tbl hash)) ≡ true
      → IsStorable grant key
      → hash ≢ 0
      → (t : HashTbl V) × (set_impl grant blank (suc fuel) tbl key w hash ≡ some (none_err, t))
        × (get_impl blank t key hash ≡ some (some w))
  get_impl-set_impl tbl key hash w fuel inside empty storable nz =
      let i = main_pos tbl hash in
      let old = ent_at blank tbl.slots i in
      let new = (ent_insert grant old key w hash).1 in
      let t = placed tbl key w hash in
      let has_block : tbl.slots ≢ [] = λ q. absurd (omega (arith, ap length q)) in
      let (own, val, test) = ent_insert_lem old key w hash storable in
      let same_capacity : t.capacity ≡ tbl.capacity = advance_capacity tbl (i == tbl.free_index) in
      let here : ent_at blank t.slots i ≡ new = get_or-set_self tbl.slots i new _ inside in
      let stays : t.slots ≢ [] =
        λ q. absurd (omega (arith, length-set tbl.slots i new, ap length q)) in
      let first : ent_at blank t.slots (main_pos t hash) ≡ new =
        ap (λ c. ent_at blank t.slots (bit_and hash (sub32 c 1))) same_capacity ∙ here in
      (
        t,
        set_impl-place grant blank tbl key hash w fuel none_err t has_block
            (place_empty tbl key hash w empty),
        get_first t key hash new stays first own nz test ∙ ap (λ v. some (some v)) val,
      )
