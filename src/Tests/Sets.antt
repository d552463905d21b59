-- ===== src/Tests/Sets.antt =====
-- The theorem on src/bin.c at files that meet its hypothesis.
use eq_data_patcher.Base.{ℕ, arith, true, none, some, List, [], ◌∷◌, ◌==◌, if◌then◌else◌, length}
use eq_data_patcher.Bin.{BinSubHeader, System, bin_filename, bin_create}
use eq_data_patcher.Bin.Offsets.{Made, bin_create_lem}
use eq_data_patcher.Sstr.{
  File, sstr_from_file, sstr_from_file_ptr, sstr_length, sstr_data, buf_create,
}
use eq_data_patcher.Tests.Text.{all_granted}

abbrev blank_head : BinSubHeader
blank_head = record { name_length = 0; name_offset = 0; data_length = 0; data_offset = 0 }

-- "manifest.t" has two bytes, "a/b" has three, and no other path leads to a file.
abbrev manifest_path : List ℕ
manifest_path = 109 ∷ 97 ∷ 110 ∷ 105 ∷ 102 ∷ 101 ∷ 115 ∷ 116 ∷ 46 ∷ 116 ∷ []

abbrev other_path : List ℕ
other_path = 97 ∷ 47 ∷ 98 ∷ []

abbrev text : List ℕ → File
text bytes = record { seek_end = true; size = length bytes; seek_start = true; delivered = bytes }

abbrev sys : System
sys = record {
  file = λ path. elim path [
    | [] ↦ none
    | c ∷ _ ↦
        if c == 109
        then some (text (91 ∷ 93 ∷ []))
        else if c == 97
        then some (text (7 ∷ 8 ∷ 9 ∷ []))
        else none
  ];
  opens = true;
  writes = λ k n. n;
}

abbrev paths : List (List ℕ)
paths = manifest_path ∷ (120 ∷ []) ∷ other_path ∷ []

bin_create_lem_example :
    Made all_granted 0 blank_head sys
      ((91 ∷ 93 ∷ []) ∷ (7 ∷ 8 ∷ 9 ∷ []) ∷ [])
      (bin_create all_granted 0 blank_head sys paths)
unfolding sstr_from_file sstr_from_file_ptr buf_create sstr_length sstr_data bin_filename
bin_create_lem_example = bin_create_lem all_granted 0 blank_head sys paths (omega arith)
