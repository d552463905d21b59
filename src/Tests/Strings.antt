-- ===== src/Tests/Strings.antt =====
-- The theorems on src/edp_string.c at strings that meet their hypotheses.
use eq_data_patcher.Base.{◌≡◌, refl, arith, [], ◌∷◌, inl}
use eq_data_patcher.Str.{Str, str_append, str_append_char, str_set, str_clear}
use eq_data_patcher.Str.Inv.{IsValid, text}
use eq_data_patcher.Str.Laws.{Appended, str_append_lem, str_append_char_lem, str_set_lem}
use eq_data_patcher.Tests.Text.{all_granted}

-- "ab" with its null byte and a byte to spare.
abbrev ab : Str
ab = record { str_length = 2; capacity = 4; cells = 97 ∷ 98 ∷ 0 ∷ 7 ∷ [] }

ab-IsValid : IsValid ab
ab-IsValid = record { held = refl; room = inl (omega arith) }

str_append_lem_example :
    Appended all_granted 0 ab (99 ∷ 100 ∷ []) (str_append all_granted 0 ab (99 ∷ 100 ∷ 101 ∷ []) 2)
str_append_lem_example =
    str_append_lem all_granted 0 (99 ∷ 100 ∷ 101 ∷ []) 2 ab-IsValid (omega arith) (omega arith)
      (omega arith)

str_append_char_lem_example :
    Appended all_granted 0 ab (99 ∷ []) (str_append_char all_granted 0 ab 99)
str_append_char_lem_example = str_append_char_lem all_granted 0 99 ab-IsValid (omega arith)

str_set_lem_example :
    Appended all_granted 0 (str_clear ab) (99 ∷ []) (str_set all_granted 0 ab (99 ∷ []) 1)
    × IsValid (str_clear ab)
    × (text (str_clear ab) ≡ [])
str_set_lem_example =
    str_set_lem all_granted 0 (99 ∷ []) 1 ab-IsValid (omega arith) (omega arith) (omega arith)
