-- ===== src/Tests/Names.antt =====
-- The theorem on `patch_set_by_names` of src/patch.c, at two entries with the name "a".
use eq_data_patcher.Base.{
  ℕ, zero, suc, ◌≡◌, ◌⊎◌, refl, ap, arith, [], ◌∷◌, none, some, ltb, Bool-cases, inl, inr,
}
use eq_data_patcher.Array.{Array, get_raw}
use eq_data_patcher.Array.Inv.{IsValid}
use eq_data_patcher.Err.{Err, none_err, out_of_memory}
use eq_data_patcher.Hash.{hash_cstr, hash_loop}
use eq_data_patcher.HashTbl.{HashTbl}
use eq_data_patcher.Parse.{ManifestEntry}
use eq_data_patcher.Patch.{patch_set_by_names}
use eq_data_patcher.Patch.Named.{IsNamed}
use eq_data_patcher.Patch.Named.Table.{LeadsTo, patch_set_by_names_lem}
use eq_data_patcher.Sstr.{sstr_data, sstr_length}
use eq_data_patcher.Str.{Str}
use eq_data_patcher.Tests.Text.{all_granted}
use mathlib.Core.Path.{subst}

abbrev entry_a : ManifestEntry
entry_a = record {
  name = record { buf_length = 2; buf_data = 97 ∷ 0 ∷ [] };
  content = record { capacity = 0; elem_size = 16; free_index = 0; ent_size = 32; slots = [] };
}

abbrev two_a : Array ManifestEntry
two_a = record { count = 2; capacity = 2; elem_size = 32; slots = entry_a ∷ entry_a ∷ [] }

abbrev blank_str : Str
blank_str = record { str_length = 0; capacity = 0; cells = [] }

abbrev no_names : HashTbl ℕ
no_names = record { capacity = 0; elem_size = 4; free_index = 0; ent_size = 24; slots = [] }

two_a-IsValid : IsValid two_a
two_a-IsValid = record {
  cells = refl;
  fits = omega arith;
  sized = omega arith;
  small = omega arith;
}

only_a : (k : ℕ) (me : ManifestEntry) → get_raw two_a k ≡ some me → entry_a ≡ me
unfolding get_raw
only_a zero me e = ap (λ o. elim o [ none ↦ entry_a | some x ↦ x ]) e
only_a (suc zero) me e = ap (λ o. elim o [ none ↦ entry_a | some x ↦ x ]) e
only_a (suc (suc k)) me e = elim (Bool-cases (ltb (suc (suc k)) 2)) [
  | inl inside ↦ ground (arith, inside)
  | inr out ↦ ground (arith, rw out at e)
]

entry_a-IsNamed : IsNamed all_granted entry_a
unfolding sstr_length sstr_data hash_cstr hash_loop
entry_a-IsNamed = ((omega arith, refl), refl)

patch_set_by_names_lem_example :
    (rc : Err) × (t : HashTbl ℕ) × (patch_set_by_names all_granted 0 blank_str entry_a two_a
        no_names
      ≡ some (rc, t))
    × ((rc ≡ out_of_memory) ⊎ ((rc ≡ none_err) × LeadsTo two_a t 1 entry_a))
unfolding get_raw
patch_set_by_names_lem_example =
    patch_set_by_names_lem all_granted 0 two_a two_a-IsValid
      (λ k me e. subst (IsNamed all_granted) (only_a k me e) entry_a-IsNamed) blank_str entry_a
      no_names refl refl refl (omega arith) (omega arith) (omega arith) 1 entry_a refl
