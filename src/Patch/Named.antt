-- ===== src/Patch/Named.antt =====
-- `patch_set_by_names` of src/patch.c: the table that leads from a patch's name to its index.
pub mod Table
use eq_data_patcher.Base.{
  ==_iff, ◌==◌, length, ℕ, zero, suc, ◌+◌, ◌*◌, ◌^◌, ◌<◌, ◌≤◌, ◌≡◌, ◌≢◌, ◌⊎◌, ◌∙◌, sym, refl, ap,
  inl, inr, arith, Bool, ltb, Option, some, none, List, [], take, Bool-cases, Option-cases,
  get_elem?-none,
}
use eq_data_patcher.Array.{Array, get_raw}
use eq_data_patcher.Array.Inv.{IsValid}
use eq_data_patcher.Err.{Err, none_err, out_of_memory}
use eq_data_patcher.Hash.{hash_cstr}
use eq_data_patcher.HashTbl.{c_str, EntKey, raw, copy, Key, str_key, HashTbl, next_invalid, ent_at}
use eq_data_patcher.HashTbl.Api.{key_length, set_str, get_impl, get_str_raw}
use eq_data_patcher.HashTbl.Lookup.{IsWhole}
use eq_data_patcher.HashTbl.Fresh.{IsStorable}
use eq_data_patcher.HashTbl.Chain.{index-cases}
use eq_data_patcher.HashTbl.Keys.{key_of, IsText, IsStorable-IsText, same_bytes-cases}
use eq_data_patcher.HashTbl.Chain.Free.{used_count}
use eq_data_patcher.HashTbl.Holds.Get.{get_no_block}
use eq_data_patcher.HashTbl.Holds.Grow.{IsSized}
use eq_data_patcher.HashTbl.Map.{IsMap, no_block, IsUpdate, added, present, no_memory, IsBounded}
use eq_data_patcher.HashTbl.Map.Laws.{set_parts, get_impl-key_of}
use eq_data_patcher.Parse.{ManifestEntry}
use eq_data_patcher.Patch.{after_set, names_loop, patch_set_by_names}
use eq_data_patcher.Str.{Str}
use eq_data_patcher.Sstr.{sstr_data, sstr_length}
use native.Mathlib.Nat.{mul-le-mul_left}
use mathlib.Core.Path.{subst}

-- The name as a key of the table.
abbrev pub name_key : ManifestEntry → Key
name_key me = str_key (sstr_data me.name) (sstr_length me.name)

abbrev pub name_hash : ManifestEntry → ℕ
name_hash me = hash_cstr (sstr_data me.name) (sstr_length me.name)

abbrev copied_text : EntKey → List ℕ
copied_text (raw n) = []
copied_text (copy s) = s

-- A name with a null byte behind it and none before, for whose copy there is memory.
abbrev pub IsNamed : (ℕ → Bool) → ManifestEntry → Type 0
IsNamed grant me = IsStorable grant (name_key me) × IsWhole (name_key me)

module _ (grant : ℕ → Bool) (junk : ℕ) (patches : Array ManifestEntry) (valid : IsValid patches)
    (named : (k : ℕ) (me : ManifestEntry) → get_raw patches k ≡ some me → IsNamed grant me) where
  -- The lookup of an entry's name, as `tbl_get_str` does it.
  abbrev pub look : HashTbl ℕ → ManifestEntry → Option (Option ℕ)
  look t me = get_impl 0 t (name_key me) (name_hash me)

  -- That the index is that of an entry with the key.
  abbrev pub Leads : ℕ → ℕ → Key → Type 0
  Leads i j key =
      (j < i)
      × ((me : ManifestEntry) × (get_raw patches j ≡ some me) × (key_of (name_key me) ≡ key_of key))

  -- The table after the names of the first `i` entries.
  pub record HasNames (ent_size i : ℕ) (t : HashTbl ℕ) : Type 0 where
    pub is_map : IsMap 0 t
    pub bounded : IsBounded 0 i t
    pub same_size : t.ent_size ≡ ent_size
    pub leads :
        (text : List ℕ) (n hash j : ℕ)
        → IsText (str_key text n)
        → get_impl 0 t (str_key text n) hash ≡ some (some j)
        → Leads i j (str_key text n)
    pub there :
        (k : ℕ) (me : ManifestEntry)
        → k < i
        → get_raw patches k ≡ some me
        → (j : ℕ) × (j ≤ k) × (look t me ≡ some (some j))

  pub name_text : (k : ℕ) (me : ManifestEntry) → get_raw patches k ≡ some me → IsText (name_key me)
  name_text k me e =
      let (storable, whole) = named k me e in IsStorable-IsText grant (name_key me) storable whole

  pub raw_some : (k : ℕ) (me : ManifestEntry) → get_raw patches k ≡ some me → k < patches.count
  unfolding get_raw
  raw_some k me e = elim (Bool-cases (ltb k patches.count)) [
    | inl inside ↦ ground (arith, inside)
    | inr out ↦ ground (arith, rw out at e)
  ]

  pub raw_none : (k : ℕ) → get_raw patches k ≡ none → patches.count ≤ k
  unfolding get_raw
  raw_none k e = elim (Bool-cases (ltb k patches.count)) [
    | inr out ↦ ground (arith, out)
    | inl inside ↦
        omega (arith, get_elem?-none patches.slots k (rw inside at e), valid.cells, valid.fits)
  ]

  -- Two names are one key, or a write of the one does not touch the other.
  same_or_other :
      (text text' : List ℕ) (n n' hash hash' : ℕ)
      → ((hash' ≡ hash) × (key_of (str_key text' n') ≡ key_of (str_key text n)))
        ⊎ ((hash' ≢ hash) ⊎ (key_of (str_key text' n') ≢ key_of (str_key text n)))
  same_or_other text text' n n' hash hash' = elim (index-cases hash' hash) [
    | inr ne ↦ inr (inl ne)
    | inl same ↦ elim (same_bytes-cases (take n' text') (take n text)) [
      | inl q ↦ inl (same, ap copy q)
      | inr ne ↦ inr (inr (λ q. ne (ap copied_text q)))
    ]
  ]

  module _ (ent_size i : ℕ) (me : ManifestEntry) (e : get_raw patches i ≡ some me)
      (tbl t : HashTbl ℕ) (v : HasNames ent_size i tbl) (m : IsMap 0 t)
      (bounded : IsBounded 0 (suc i) t) (size : t.ent_size ≡ tbl.ent_size) where
    -- The step for a name that was not there.
    pub added-HasNames :
        look tbl me ≡ some none
        → look t me ≡ some (some i)
        → ((key' : Key) (hash' : ℕ)
            → IsText key'
            → ((hash' ≢ name_hash me) ⊎ (key_of key' ≢ key_of (name_key me)))
            → get_impl 0 t key' hash' ≡ get_impl 0 tbl key' hash')
        → HasNames ent_size (suc i) t
    added-HasNames before after others = record {
      is_map = m;
      bounded = bounded;
      same_size = size ∙ v.same_size;
      leads = λ text n hash j clean found_j.
          elim (same_or_other (sstr_data me.name) text (sstr_length me.name) n (name_hash me)
            hash) [
              | inl (same_hash, same_key) ↦
                  let q =
                    get_impl-key_of 0 t (str_key text n) (name_key me) hash m clean
                      (name_text i me e) same_key refl in
                  let r = sym found_j ∙ q ∙ ap (get_impl 0 t (name_key me)) same_hash ∙ after in
                  let j_i : j ≡ i = ground (arith, r) in
                  (omega (arith, j_i), (me, ap (get_raw patches) j_i ∙ e, sym same_key))
              | inr other ↦
                  let (less, who) =
                    v.leads text n hash j clean
                      (sym (others (str_key text n) hash clean other) ∙ found_j) in
                  (omega (arith, less), who)
            ];
      there = λ k him h at. elim (index-cases k i) [
        | inl same ↦
            let q : some him ≡ some me = sym at ∙ ap (get_raw patches) same ∙ e in
            (
              i,
              omega (arith, same),
              ap (λ o. elim o [ none ↦ some none | some x ↦ look t x ]) q ∙ after,
            )
        | inr ne ↦
            let (j, le, was) = v.there k him (omega (arith, h, ne)) at in
            elim (same_or_other (sstr_data me.name) (sstr_data him.name) (sstr_length me.name)
              (sstr_length him.name) (name_hash me) (name_hash him)) [
                | inl (same_hash, same_key) ↦
                    let q =
                      get_impl-key_of 0 tbl (name_key him) (name_key me) (name_hash him) v.is_map
                        (name_text k him at) (name_text i me e) same_key refl in
                    let r = sym was ∙ q ∙ ap (get_impl 0 tbl (name_key me)) same_hash ∙ before in
                    ground (arith, r)
                | inr other ↦
                    (j, le, others (name_key him) (name_hash him) (name_text k him at) other ∙ was)
              ]
      ];
    }

    -- The step for a name that an entry before has.
    pub present-HasNames :
        (old : ℕ)
        → look tbl me ≡ some (some old)
        → ((key' : Key) (hash' : ℕ)
            → IsText key'
            → get_impl 0 t key' hash' ≡ get_impl 0 tbl key' hash')
        → HasNames ent_size (suc i) t
    present-HasNames old before same = record {
      is_map = m;
      bounded = bounded;
      same_size = size ∙ v.same_size;
      leads = λ text n hash j clean found_j.
          let (less, who) =
            v.leads text n hash j clean (sym (same (str_key text n) hash clean) ∙ found_j) in
          (omega (arith, less), who);
      there = λ k him h at. elim (index-cases k i) [
        | inl q ↦
            let (less, _) =
              v.leads (sstr_data me.name) (sstr_length me.name) (name_hash me) old
                (name_text i me e) before in
            let q' : some him ≡ some me = sym at ∙ ap (get_raw patches) q ∙ e in
            (
              old,
              omega (arith, less, q),
              ap (λ o. elim o [ none ↦ some none | some x ↦ look t x ]) q'
                  ∙ same (name_key me) (name_hash me) (name_text i me e)
                  ∙ before,
            )
        | inr ne ↦
            let (j, le, was) = v.there k him (omega (arith, h, ne)) at in
            (j, le, same (name_key him) (name_hash him) (name_text k him at) ∙ was)
      ];
    }
