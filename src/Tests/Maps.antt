-- ===== src/Tests/Maps.antt =====
-- The theorems on the tables of src/edp_hash_tbl.c as maps, at a table without a block and at one
-- that has no room for a second key.
use eq_data_patcher.Base.{ℕ, ◌≡◌, ◌∙◌, refl, sym, ap, arith, true, [], ◌∷◌, none, some, inl, ◌⊎◌}
use eq_data_patcher.Err.{Err}
use eq_data_patcher.HashTbl.{
  Entry, HashTbl, raw, int_key, str_key, next_invalid, free_index_invalid, blank_ent, ent_at,
  is_empty,
}
use eq_data_patcher.HashTbl.Resize.{realloc}
use eq_data_patcher.HashTbl.Api.{set_impl, get_impl}
use eq_data_patcher.HashTbl.Chain.{Used}
use eq_data_patcher.HashTbl.Chain.Stored.{IsStored}
use eq_data_patcher.HashTbl.Chain.Block.{fill_block-IsStored}
use eq_data_patcher.HashTbl.Keys.{Matches}
use eq_data_patcher.HashTbl.Holds.{home_in, Lacks, IsTable}
use eq_data_patcher.HashTbl.Holds.Grow.{blank-IsChained}
use eq_data_patcher.HashTbl.Map.{IsMap, no_block, block}
use eq_data_patcher.HashTbl.Map.Laws.{
  get_impl-IsMap, IsPut, set_impl-IsMap, set_impl-IsPut, IsRegrown, realloc-get_impl,
}
use eq_data_patcher.Tests.Text.{all_granted}

abbrev new_table : HashTbl ℕ
new_table = record { capacity = 0; elem_size = 4; free_index = 0; ent_size = 24; slots = [] }

-- The number 7, whose hash is 5.
abbrev seven : Entry ℕ
seven = record { key = raw 7; hash = 5; next = next_invalid; is_int = true; value = 42 }

abbrev one_key : HashTbl ℕ
one_key = record {
  capacity = 1;
  elem_size = 4;
  free_index = free_index_invalid;
  ent_size = 24;
  slots = seven ∷ [];
}

seven-IsStored :
    IsStored (home_in 1) 1 (ent_at 0 (blank_ent 0 ∷ [])) (ent_at 0 (seven ∷ [])) seven 0
seven-IsStored =
    fill_block-IsStored 0 (home_in 1) 1 (blank_ent 0 ∷ []) (λ i. 0)
      (blank-IsChained 0 1 (omega arith) (omega arith)) refl 0 seven (omega arith) refl refl refl

one_key-IsTable : IsTable 0 one_key
one_key-IsTable =
    let s = seven-IsStored in
    let only : (i : ℕ) → Used (ent_at 0 (seven ∷ [])) i → i ≡ 0 =
      λ i u. omega (arith, s.chained.inside i u) in
    record {
      sized = refl;
      depth = s.depth;
      chained = s.chained;
      room = inl (
        refl,
        λ j h. let at : j ≡ 0 = omega (arith, h) in ap (λ k. is_empty (ent_at 0 (seven ∷ []) k)) at,
      );
      unique =
          λ i j u w _ _ _. ap (λ k. (ent_at 0 (seven ∷ []) k).value) (only i u ∙ sym (only j w));
    }

get_impl-IsMap_example :
    ((get_impl 0 one_key (int_key 7) 5 ≡ some none) × Lacks (ent_at 0 one_key.slots) (int_key 7) 5)
    ⊎ ((i : ℕ) × (get_impl 0 one_key (int_key 7) 5 ≡ some (some (ent_at 0 one_key.slots i).value))
        × Used (ent_at 0 one_key.slots) i
        × Matches (ent_at 0 one_key.slots i) (int_key 7) 5)
get_impl-IsMap_example = get_impl-IsMap 0 one_key (int_key 7) 5 (block one_key-IsTable) refl

set_impl-IsMap_example :
    (rc : Err) × (t : HashTbl ℕ) × (set_impl all_granted 0 2 new_table
        (str_key (97 ∷ 98 ∷ []) 2)
        43
        9
      ≡ some (rc, t))
    × IsMap 0 t
set_impl-IsMap_example =
    set_impl-IsMap all_granted 0 new_table (str_key (97 ∷ 98 ∷ []) 2) 43 9 0 (no_block refl refl)
      (omega arith, omega arith, omega arith) (omega arith, refl) refl refl

-- The table grows.
set_impl-IsPut_example :
    (rc : Err) × (t : HashTbl ℕ) × (set_impl all_granted 0 2 one_key (int_key 8) 43 6
      ≡ some (rc, t))
    × IsPut all_granted 0 one_key t (int_key 8) 43 6 rc
    × (get_impl 0 t (int_key 7) 5 ≡ get_impl 0 one_key (int_key 7) 5)
set_impl-IsPut_example =
    set_impl-IsPut all_granted 0 one_key (int_key 8) 43 6 0 (block one_key-IsTable)
      (omega arith, omega arith, omega arith) refl refl refl (int_key 7) 5 refl (inl (omega arith))

realloc-get_impl_example :
    IsRegrown all_granted 0 one_key (int_key 7) 5 (realloc all_granted 0 one_key)
realloc-get_impl_example =
    realloc-get_impl all_granted 0 one_key (int_key 7) 5 one_key-IsTable refl
      (omega arith, omega arith, omega arith) refl
