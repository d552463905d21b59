-- ===== src/Tests/Text.antt =====
-- Text literals as bytes, and an allocator that grants every request, for the tests.
use Prim.Native.Char.{code}
use Prim.Native.String.{String}
use eq_data_patcher.Base.{ℕ, List, [], ◌∷◌, Bool, true}

abbrev pub codes : String → List ℕ
codes String.[] = []
codes (String.◌∷◌ c s) = code c ∷ codes s

abbrev pub all_granted : ℕ → Bool
all_granted n = true
