-- ===== src/Tests/Tables.antt =====
-- The theorems on src/edp_hash_tbl.c at tables that meet their hypotheses.
use eq_data_patcher.Base.{ℕ, ◌≡◌, refl, arith, true, false, [], ◌∷◌, none, some}
use eq_data_patcher.Err.{again}
use eq_data_patcher.Hash.{hash_int64, hash_int64_impl}
use eq_data_patcher.HashTbl.{
  Entry, HashTbl, raw, copy, str_key, next_invalid, blank_ent, walk, begins_key,
}
use eq_data_patcher.HashTbl.Api.{set_impl, get_impl, remove_int}
use eq_data_patcher.HashTbl.Lookup.{set_impl-get_impl}
use eq_data_patcher.HashTbl.Remove.Stuck.{remove_int-stuck}
use eq_data_patcher.Tests.Text.{all_granted}

-- A table of four entries with the number 7 and the text "ab" in one chain, whose hashes are 5 and 9.
abbrev two_keys : HashTbl ℕ
two_keys = record {
  capacity = 4;
  elem_size = 4;
  free_index = 2;
  ent_size = 24;
  slots =
      record {
        key = copy (97 ∷ 98 ∷ []);
        hash = 9;
        next = next_invalid;
        is_int = false;
        value = 43;
      }
      ∷ record { key = raw 7; hash = 5; next = 0; is_int = true; value = 42 }
      ∷ blank_ent 0
      ∷ blank_ent 0
      ∷ [];
}

set_impl-get_impl_example :
    set_impl all_granted 0 1 two_keys (str_key (97 ∷ 98 ∷ []) 2) 50 9 ≡ some (again, two_keys)
unfolding get_impl walk begins_key
set_impl-get_impl_example =
    set_impl-get_impl all_granted 0 two_keys (str_key (97 ∷ 98 ∷ []) 2) 9 43 50 0 refl (omega arith)
      refl

-- The entry of the number 1.
abbrev number_one : Entry ℕ
number_one = record {
  key = raw 1;
  hash = hash_int64 1;
  next = next_invalid;
  is_int = true;
  value = 42;
}

-- Wherever the hash leads, the number 1 is there.
abbrev ones : HashTbl ℕ
ones = record {
  capacity = 2;
  elem_size = 4;
  free_index = 0;
  ent_size = 24;
  slots = number_one ∷ number_one ∷ [];
}

remove_int-stuck_example : remove_int 0 1000 ones 0x100_0001 ≡ none
unfolding hash_int64 hash_int64_impl
remove_int-stuck_example =
    remove_int-stuck 0 ones number_one (number_one ∷ []) 1 0x100_0001 refl refl refl refl
      (omega arith) (omega arith) (omega arith) (omega arith) (omega arith) 1000
