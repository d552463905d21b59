-- ===== src/HashTbl/Lookup.antt =====
-- `tbl_set_impl` and `tbl_get_impl` of src/edp_hash_tbl.c against each other.
use eq_data_patcher.Base.{
  ℕ, zero, suc, ◌≡◌, ◌≢◌, ◌∙◌, ap, refl, arith, Bool, true, false, ◌&&◌, some, List, [], ◌∷◌, ◌==◌,
  ==_iff, length, take, sym, inl, inr, Bool-cases, Option-cases,
}
use eq_data_patcher.Err.{Err, again}
use eq_data_patcher.HashTbl.{
  EntKey, raw, copy, Key, int_key, str_key, Entry, HashTbl, free_index_invalid, c_str, same_bytes,
  equals_key, begins_key, is_empty, same_head, main_pos, ent_at, found, last, walk,
}
use eq_data_patcher.HashTbl.Place.{returns, is_key, extend, place}
use eq_data_patcher.HashTbl.Api.{set_impl, begins, get_impl}

-- A text key that is its text up to the null byte.
abbrev pub IsWhole : Key → Type 0
IsWhole (int_key n) = n ≡ n
IsWhole (str_key text len) = c_str text ≡ take len text

-- Nothing is behind the null byte a second time.
pub c_str_twice : (t : List ℕ) → c_str (c_str t) ≡ c_str t
c_str_twice [] = refl
c_str_twice (c ∷ cs) = elim (Bool-cases (c == 0)) [
  | inl ends ↦ rw ends refl
  | inr more ↦ rw more (rw more (ap (◌∷◌ c) (c_str_twice cs)))
]

pub equals_key-eq-begins_key :
    (k : EntKey) (key : Key) → IsWhole key → equals_key k key ≡ begins_key k key
unfolding equals_key begins_key
equals_key-eq-begins_key (raw n) (int_key k) w = refl
equals_key-eq-begins_key (raw n) (str_key t len) w = refl
equals_key-eq-begins_key (copy s) (int_key k) w = refl
equals_key-eq-begins_key (copy s) (str_key t len) w =
    ap (λ x. length s == len && same_bytes (c_str s) x) (sym (c_str_twice t) ∙ ap c_str w)

module _ {V : Type 0} (grant : ℕ → Bool) (blank : V) where
  walk-congr :
      (f g : Entry V → Bool) (slots : List (Entry V))
      → ((e : Entry V) → f e ≡ g e)
      → (fuel i : ℕ) → walk blank f slots fuel i ≡ walk blank g slots fuel i
  unfolding walk
  walk-congr f g slots h zero i = refl
  walk-congr f g slots h (suc fuel) i =
      rw (h (ent_at blank slots i), walk-congr f g slots h fuel (ent_at blank slots i).next) refl

  -- What a successful lookup says of the key's main position and of its chain.
  pub record IsFound (tbl : HashTbl V) (key : Key) (hash : ℕ) : Type 0 where
    pub used : is_empty (ent_at blank tbl.slots (main_pos tbl hash)) ≡ false
    pub own : main_pos tbl (ent_at blank tbl.slots (main_pos tbl hash)).hash ≡ main_pos tbl hash
    pub place_of : ℕ
    pub ends :
        walk blank (begins blank key hash) tbl.slots (length tbl.slots) (main_pos tbl hash)
        ≡ some (found place_of)

  get_impl-IsFound :
      (cells size free ent_size : ℕ) (slots : List (Entry V)) (key : Key) (hash : ℕ) (v : V)
      → let tbl : HashTbl V = record {
        capacity = cells;
        elem_size = size;
        free_index = free;
        ent_size = ent_size;
        slots = slots;
      } in
        get_impl blank tbl key hash ≡ some (some v) → (tbl.slots ≢ []) × IsFound tbl key hash
  unfolding get_impl
  get_impl-IsFound cells size free ent_size [] key hash v h = ground (arith, h)
  get_impl-IsFound cells size free ent_size (e ∷ es) key hash v h =
      let tbl : HashTbl V = record {
        capacity = cells;
        elem_size = size;
        free_index = free;
        ent_size = ent_size;
        slots = e ∷ es;
      } in
      let pos = main_pos tbl hash in
      elim (Bool-cases (is_empty (ent_at blank tbl.slots pos))) [
        | inl empty ↦ ground (arith, rw empty at h)
        | inr used ↦
            let t = rw used at h in
            elim (Bool-cases (main_pos tbl (ent_at blank tbl.slots pos).hash == pos)) [
              | inr other ↦ ground (arith, rw other at t)
              | inl own ↦
                  let u = rw own at t in
                  elim (Option-cases
                    (walk blank (begins blank key hash) tbl.slots (length tbl.slots) pos)) [
                      | inl stuck ↦ ground (arith, rw stuck at u)
                      | inr (last i, ends) ↦ ground (arith, rw ends at u)
                      | inr (found i, ends) ↦ (
                        λ q. ground (arith, q),
                        record { used = used; own = (==_iff _ _).0 own; place_of = i; ends = ends },
                      )
                    ]
            ]
      ]

  place_found :
      (tbl : HashTbl V) (key : Key) (hash : ℕ) (w : V)
      → IsWhole key
      → tbl.free_index ≢ free_index_invalid
      → IsFound tbl key hash
      → place grant blank tbl key w hash ≡ returns again tbl
  unfolding place extend
  place_found tbl key hash w whole room f =
      let some_free : (tbl.free_index == free_index_invalid) ≡ false = ground (arith, room) in
      let own : (main_pos tbl (ent_at blank tbl.slots (main_pos tbl hash)).hash
            == main_pos tbl hash)
          ≡ true =
        (==_iff _ _).1 f.own in
      let ends =
        walk-congr (is_key key hash) (begins blank key hash) tbl.slots
          (λ e. ap (◌&&◌ (same_head e key hash)) (equals_key-eq-begins_key e.key key whole))
          (length tbl.slots) (main_pos tbl hash)
        ∙ f.ends in
      rw (f.used, some_free, own) (rw (extend, ends) refl)

  in_fields :
      (cells size free ent_size : ℕ) (slots : List (Entry V)) (key : Key) (hash : ℕ) (w : V)
      (fuel : ℕ) (rc : Err) (t : HashTbl V)
      → let tbl : HashTbl V = record {
        capacity = cells;
        elem_size = size;
        free_index = free;
        ent_size = ent_size;
        slots = slots;
      } in
        slots ≢ []
        → place grant blank tbl key w hash ≡ returns rc t
        → set_impl grant blank (suc fuel) tbl key w hash ≡ some (rc, t)
  unfolding set_impl
  in_fields cells size free ent_size [] key hash w fuel rc t block e = absurd (block refl)
  in_fields cells size free ent_size (x ∷ xs) key hash w fuel rc t block e = rw (set_impl, e) refl

  -- In a table that has its block, the key is placed.
  pub set_impl-place :
      (tbl : HashTbl V) (key : Key) (hash : ℕ) (w : V) (fuel : ℕ) (rc : Err) (t : HashTbl V)
      → tbl.slots ≢ []
      → place grant blank tbl key w hash ≡ returns rc t
      → set_impl grant blank (suc fuel) tbl key w hash ≡ some (rc, t)
  set_impl-place tbl = in_fields tbl.capacity tbl.elem_size tbl.free_index tbl.ent_size tbl.slots

  -- Where `tbl_get_impl` finds a key that is a number or the whole of its text up to the null
  -- byte, and the table has a free entry, `tbl_set_impl` with that key and hash returns
  -- `ERR_Again` and leaves the table as it was.
  pub set_impl-get_impl :
      (tbl : HashTbl V) (key : Key) (hash : ℕ) (v w : V) (fuel : ℕ)
      → IsWhole key
      → tbl.free_index ≢ free_index_invalid
      → get_impl blank tbl key hash ≡ some (some v)
      → set_impl grant blank (suc fuel) tbl key w hash ≡ some (again, tbl)
  set_impl-get_impl tbl key hash v w fuel whole room h =
      let (block, f) =
        get_impl-IsFound tbl.capacity tbl.elem_size tbl.free_index tbl.ent_size tbl.slots key hash v
          h in
      set_impl-place tbl key hash w fuel again tbl block (place_found tbl key hash w whole room f)
