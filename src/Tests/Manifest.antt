-- ===== src/Tests/Manifest.antt =====
-- Runs of the parser of src/parse.c.
use eq_data_patcher.Base.{ℕ, List, [], Option, none, some, map, length}
use eq_data_patcher.Err.{Err}
use eq_data_patcher.Array
use eq_data_patcher.Array.{Array}
use eq_data_patcher.Array.Inv.{items}
use eq_data_patcher.HashTbl.Api.{get_str_raw}
use eq_data_patcher.Str.{Str}
use eq_data_patcher.Str.Inv.{text}
use eq_data_patcher.Parse.{Parser, ManifestEntry, parse_init}
use eq_data_patcher.Parse.File.{parse_file}
use eq_data_patcher.Tests.Text.{codes, all_granted}

abbrev pub blank_str : Str
blank_str = record { str_length = 0; capacity = 0; cells = [] }

abbrev pub blank_entry : ManifestEntry
blank_entry = record {
  name = record { buf_length = 0; buf_data = [] };
  content = record { capacity = 0; elem_size = 0; free_index = 0; ent_size = 0; slots = [] };
}

names_of : Option (Err × Parser) → List (List ℕ)
names_of none = []
names_of (some (rc, p)) = map (λ (m : ManifestEntry). m.name.buf_data) (items p.content)

parsed : List ℕ → Option (Err × Parser)
parsed src = parse_file all_granted 0 blank_str blank_entry parse_init src (length src)

run1 : List (List ℕ)
run1 = names_of (parsed (codes "[abc]\nUrl = http://x\n[ d]\n"))

value_text : Option (Option Str) → Option (Option (List ℕ))
value_text none = none
value_text (some none) = some none
value_text (some (some v)) = some (some (text v))

look_in : Option ManifestEntry → List ℕ → Option (Option (List ℕ))
look_in none k = none
look_in (some m) k = value_text (get_str_raw blank_str m.content (some k) 0)

look : Option (Err × Parser) → List ℕ → Option (Option (List ℕ))
look none k = none
look (some (rc, p)) k = look_in (Array.get_raw p.content 0) k

run2 : Option (Option (List ℕ))
run2 = look (parsed (codes "[abc]\nUrl = http://x\n")) (codes "url")
