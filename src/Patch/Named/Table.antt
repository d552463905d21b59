-- ===== src/Patch/Named/Table.antt =====
-- `patch_set_by_names` of src/patch.c as a whole.
use eq_data_patcher.Base.{
  ==_iff, ◌==◌, length, ℕ, zero, suc, ◌+◌, ◌*◌, ◌^◌, ◌<◌, ◌≤◌, ◌≡◌, ◌⊎◌, ◌∙◌, sym, refl, ap, inl,
  inr, arith, Bool, Option, some, List, [], take, Bool-cases, Option-cases,
}
use eq_data_patcher.Array.{Array, get_raw}
use eq_data_patcher.Array.Inv.{IsValid}
use eq_data_patcher.Err.{Err, none_err, out_of_memory}
use eq_data_patcher.HashTbl.{c_str, str_key, HashTbl, next_invalid, ent_at}
use eq_data_patcher.HashTbl.Api.{key_length, set_str, get_str_raw}
use eq_data_patcher.HashTbl.Keys.{key_of}
use eq_data_patcher.HashTbl.Chain.Free.{used_count}
use eq_data_patcher.HashTbl.Holds.Get.{get_no_block}
use eq_data_patcher.HashTbl.Holds.Grow.{IsSized}
use eq_data_patcher.HashTbl.Map.{IsMap, no_block, IsUpdate, added, present, no_memory, IsBounded}
use eq_data_patcher.HashTbl.Map.Laws.{set_parts}
use eq_data_patcher.Parse.{ManifestEntry}
use eq_data_patcher.Patch.{after_set, names_loop, patch_set_by_names}
use eq_data_patcher.Str.{Str}
use eq_data_patcher.Sstr.{sstr_data, sstr_length}
use native.Mathlib.Nat.{mul-le-mul_left}
use mathlib.Core.Path.{subst}
use eq_data_patcher.Patch.Named.{
  IsNamed, name_key, name_hash, HasNames, raw_some, raw_none, name_text, added-HasNames,
  present-HasNames,
}

key_length_whole : (text : List ℕ) (n : ℕ) → c_str text ≡ take n text → key_length text n ≡ n
key_length_whole text n whole = elim (Bool-cases (n == 0)) [
  | inr nonempty ↦ rw nonempty refl
  | inl empty ↦
      let none_of : n ≡ 0 = (==_iff n 0).0 empty in
      rw empty (ap length whole ∙ ap (λ k. length (take k text)) none_of ∙ sym none_of)
]

-- What the table says of an entry: the index of one with its name, and not a later one.
abbrev pub LeadsTo : Array ManifestEntry → HashTbl ℕ → ℕ → ManifestEntry → Type 0
LeadsTo patches t k me =
    (j : ℕ) × (j ≤ k)
    × (get_str_raw 0 t (some (sstr_data me.name)) (sstr_length me.name) ≡ some (some j))
    × ((me' : ManifestEntry) × (get_raw patches j ≡ some me')
        × (key_of (name_key me') ≡ key_of (name_key me)))

module _ (grant : ℕ → Bool) (junk : ℕ) (patches : Array ManifestEntry) (valid : IsValid patches)
    (named : (k : ℕ) (me : ManifestEntry) → get_raw patches k ≡ some me → IsNamed grant me) where
  abbrev Names : ℕ → ℕ → HashTbl ℕ → Type 0
  Names = HasNames grant junk patches valid named

  -- The loop runs out of memory, or all names are in the table.
  data IsNamesEnd (ent_size : ℕ) : Option (Err × HashTbl ℕ) → Type 0 where
    full_memory : (t : HashTbl ℕ) → IsNamesEnd ent_size (some (out_of_memory, t))
    all_names :
        (i : ℕ) (t : HashTbl ℕ)
        → patches.count ≤ i
        → Names ent_size i t
        → IsNamesEnd ent_size (some (none_err, t))

  module _ (blank : Str) (fresh : ManifestEntry) (ent_size : ℕ) (some_bytes : 0 < ent_size)
      (small : ent_size * (4 * patches.count + 12) < 2 ^ 32)
      (few : 4 * patches.count + 8 < next_invalid) where
    abbrev loop : ℕ → ℕ → HashTbl ℕ → Option (Err × HashTbl ℕ)
    loop rounds i tbl = names_loop grant junk blank fresh rounds i patches tbl

    sizes : (i : ℕ) (tbl : HashTbl ℕ) → i ≤ patches.count → Names ent_size i tbl → IsSized tbl
    sizes i tbl h v =
        let cap = v.bounded.1 in
        let small' : tbl.ent_size * (4 * patches.count + 12) < 2 ^ 32 =
          subst (λ s. s * (4 * patches.count + 12) < 2 ^ 32) (sym v.same_size) small in
        let more : tbl.ent_size * (tbl.capacity * 2 + 4) ≤ tbl.ent_size * (4 * patches.count + 12) =
          mul-le-mul_left tbl.ent_size (omega (arith, cap, h)) in
        (
          omega (arith, some_bytes, v.same_size),
          omega (arith, more, small'),
          omega (arith, cap, h, few),
        )

    module _ (rounds i : ℕ) (me : ManifestEntry) (e : get_raw patches i ≡ some me) (tbl : HashTbl ℕ)
        (v : Names ent_size i tbl)
        (rest : (t : HashTbl ℕ)
          → Names ent_size (suc i) t
          → IsNamesEnd ent_size (loop rounds (i + 1) t)) where
      after_update :
          (t : HashTbl ℕ) (rc : Err)
          → IsMap 0 t
          → IsBounded 0 (suc i) t
          → t.ent_size ≡ tbl.ent_size
          → IsUpdate 0 tbl t (name_key me) i (name_hash me) rc
          → IsNamesEnd ent_size
              (after_set grant junk blank fresh (loop rounds (i + 1)) (some (rc, t)))
      after_update t rc m b size (added before after others) = rest t (
          added-HasNames grant junk patches valid named ent_size i me e tbl t v m b size before
            after others)
      after_update t rc m b size (present old before same) = rest t (
          present-HasNames grant junk patches valid named ent_size i me e tbl t v m b size old
            before same)
      after_update t rc m b size (no_memory same) = full_memory t

      names_step : i ≤ patches.count → IsNamesEnd ent_size (loop (suc rounds) i tbl)
      unfolding names_loop set_str
      names_step h =
          let (storable, whole) = named i me e in
          let (rc, t, done, m, u, (size, grows)) =
            set_parts grant 0 tbl (name_key me) i (name_hash me) 0 v.is_map (sizes i tbl h v)
              storable whole refl in
          let same = key_length_whole (sstr_data me.name) (sstr_length me.name) whole in
          rw (names_loop, e)
            (rw (set_str, same) (rw done (after_update t rc m (grows i v.bounded) size u)))

    names_loop_lem :
        (rounds i : ℕ) (tbl : HashTbl ℕ)
        → i ≤ patches.count
        → patches.count < i + rounds
        → Names ent_size i tbl
        → IsNamesEnd ent_size (loop rounds i tbl)
    unfolding names_loop
    names_loop_lem zero i tbl h enough v = absurd (omega (arith, h, enough))
    names_loop_lem (suc rounds) i tbl h enough v = elim (Option-cases (get_raw patches i)) [
      | inl out ↦
          rw (names_loop, out) (all_names i tbl (raw_none grant junk patches valid named i out) v)
      | inr (me, e) ↦
          let inside = raw_some grant junk patches valid named i me e in
          names_step rounds i me e tbl v
            (λ t v'.
              let next : suc i ≡ i + 1 = omega arith in
              names_loop_lem rounds (i + 1) t (omega (arith, inside)) (omega (arith, enough))
                (subst (λ k. Names ent_size k t) next v'))
            h
    ]

    no_names :
        (tbl : HashTbl ℕ)
        → tbl.slots ≡ []
        → tbl.free_index ≡ 0
        → tbl.capacity ≡ 0
        → tbl.ent_size ≡ ent_size
        → Names ent_size 0 tbl
    no_names tbl nothing first no_cells size = record {
      is_map = no_block nothing first;
      bounded =
          (omega (arith, ap (used_count (ent_at 0 tbl.slots)) no_cells), omega (arith, no_cells));
      same_size = size;
      leads = λ text n hash j clean e.
          ground (arith, sym (get_no_block 0 tbl nothing (str_key text n) hash) ∙ e);
      there = λ k me h e. absurd (omega (arith, h));
    }

  IsNamesEnd-LeadsTo :
      (ent_size : ℕ) (r : Option (Err × HashTbl ℕ)) (k : ℕ) (me : ManifestEntry)
      → get_raw patches k ≡ some me
      → IsNamesEnd ent_size r
      → (rc : Err) × (t : HashTbl ℕ) × (r ≡ some (rc, t))
        × ((rc ≡ out_of_memory) ⊎ ((rc ≡ none_err) × LeadsTo patches t k me))
  unfolding get_str_raw
  IsNamesEnd-LeadsTo ent_size r k me e (full_memory t) = (out_of_memory, t, refl, inl refl)
  IsNamesEnd-LeadsTo ent_size r k me e (all_names i t all v) =
      let (_, whole) = named k me e in
      let (j, le, at) =
        v.there k me (omega (arith, all, raw_some grant junk patches valid named k me e)) e in
      let (_, who) =
        v.leads (sstr_data me.name) (sstr_length me.name) (name_hash me) j
          (name_text grant junk patches valid named k me e) at in
      let same = key_length_whole (sstr_data me.name) (sstr_length me.name) whole in
      (none_err, t, refl, inr (refl, (j, le, rw (get_str_raw, same) at, who)))

  -- For a valid array of patches, each with a name that is the whole of its text up to the null
  -- byte and has memory for its copy, a table with no block, and sizes that stay below 2 ^ 32
  -- for that many names: `patch_set_by_names` returns `ERR_OutOfMemory`, or `ERR_None` and a
  -- table where the lookup of the name of a patch gives the index of a patch with the same name,
  -- which is no later than that patch.
  pub patch_set_by_names_lem :
      (blank : Str) (fresh : ManifestEntry) (tbl : HashTbl ℕ)
      → tbl.slots ≡ []
      → tbl.free_index ≡ 0
      → tbl.capacity ≡ 0
      → 0 < tbl.ent_size
      → tbl.ent_size * (4 * patches.count + 12) < 2 ^ 32
      → 4 * patches.count + 8 < next_invalid
      → (k : ℕ) (me : ManifestEntry) → get_raw patches k ≡ some me
      → (rc : Err) × (t : HashTbl ℕ) × (patch_set_by_names grant junk blank fresh patches tbl
          ≡ some (rc, t))
        × ((rc ≡ out_of_memory) ⊎ ((rc ≡ none_err) × LeadsTo patches t k me))
  unfolding patch_set_by_names
  patch_set_by_names_lem blank fresh tbl nothing first no_cells some_bytes small few k me e =
      IsNamesEnd-LeadsTo tbl.ent_size (patch_set_by_names grant junk blank fresh patches tbl) k me e
        (names_loop_lem blank fresh tbl.ent_size some_bytes small few (suc patches.count) 0 tbl
          (omega arith) (omega arith)
          (no_names blank fresh tbl.ent_size some_bytes small few tbl nothing first no_cells refl))
