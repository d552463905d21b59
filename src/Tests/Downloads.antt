-- ===== src/Tests/Downloads.antt =====
-- The theorems on src/patch.c and src/db.c at calls that meet their hypotheses.
use eq_data_patcher.Base.{ℕ, ◌≡◌, ◌↔◌, ◌⊎◌, refl, arith, true, Option, none, some, List, [], ◌∷◌}
use eq_data_patcher.Array.{Array}
use eq_data_patcher.Db.{Sqlite, db_init, sqlite_ok}
use eq_data_patcher.Db.Opened.{Filled, code_of, settled, first_result, db_init_lem}
use eq_data_patcher.Err.{none_err}
use eq_data_patcher.HashTbl.{HashTbl}
use eq_data_patcher.Parse.{ManifestEntry}
use eq_data_patcher.Patch.{Curl, row_loop, patch_download_manifests}
use eq_data_patcher.Patch.Counted.{Counts, row_loop-Counts}
use eq_data_patcher.Patch.Settled.{download, rows, patch_download_manifests-settled}
use eq_data_patcher.Str.{Str}
use eq_data_patcher.Tests.Text.{all_granted}

abbrev blank_str : Str
blank_str = record { str_length = 0; capacity = 0; cells = [] }

abbrev one_entry : ManifestEntry
one_entry = record {
  name = record { buf_length = 2; buf_data = 97 ∷ 0 ∷ [] };
  content = record { capacity = 0; elem_size = 16; free_index = 0; ent_size = 40; slots = [] };
}

abbrev one_patch : Array ManifestEntry
one_patch = record { count = 1; capacity = 1; elem_size = 32; slots = one_entry ∷ [] }

abbrev no_names : HashTbl ℕ
no_names = record { capacity = 0; elem_size = 4; free_index = 0; ent_size = 24; slots = [] }

-- A transfer that brings "[a]" in one piece.
abbrev curl : Curl
curl = record {
  has_handle = true;
  set_function = 0;
  set_data = 0;
  set_url = λ url. 0;
  perform = λ write url s. (0, (write (91 ∷ 97 ∷ 93 ∷ []) 1 3 s).1);
}

-- Busy, a row with a URL, and the end.
abbrev calls : List (ℕ × Option (List ℕ))
calls = (5, none) ∷ (100, some (117 ∷ [])) ∷ (101, none) ∷ []

row_loop-Counts_example :
    Counts 1 (row_loop all_granted 0 blank_str one_entry curl calls blank_str one_patch)
row_loop-Counts_example =
    row_loop-Counts all_granted 0 blank_str one_entry curl calls blank_str one_patch 1 (omega arith)
      refl

patch_download_manifests-settled_example :
    patch_download_manifests all_granted 0 blank_str one_entry curl
      ((6, none) ∷ (0, some tt) ∷ [])
      calls
      one_patch
      no_names
    ≡ download all_granted 0 blank_str one_entry curl
        (first_result (settled ((6, none) ∷ (0, some tt) ∷ [])))
        (rows all_granted 0 blank_str one_entry curl (settled calls))
        one_patch
        no_names
patch_download_manifests-settled_example =
    patch_download_manifests-settled all_granted 0 blank_str one_entry curl
      ((6, none) ∷ (0, some tt) ∷ []) calls one_patch no_names

abbrev lib : Sqlite
lib = record { open_existing = 14; open_new = 0; exec = λ text. 0 }

db_init_lem_example :
    (code_of (db_init all_granted 0 lib none) ≡ some none_err)
    ↔ ((lib.open_existing ≡ sqlite_ok) ⊎ Filled all_granted 0 lib none)
db_init_lem_example = db_init_lem all_granted 0 lib none
