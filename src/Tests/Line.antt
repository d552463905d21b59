-- ===== src/Tests/Line.antt =====
-- The theorem on `parse_value` of src/parse.c at a parser that awaits the value of a key.
use eq_data_patcher.Base.{
  ℕ, zero, suc, ◌≡◌, ◌∙◌, refl, arith, Option, none, some, [], ◌∷◌, replicate, get_or, ap,
}
use eq_data_patcher.Err.{Err}
use eq_data_patcher.HashTbl
use eq_data_patcher.HashTbl.{HashTbl, Key, Entry, blank_ent, str_key, main_pos}
use eq_data_patcher.HashTbl.Place.{place}
use eq_data_patcher.HashTbl.Api.{set_impl, set_str, key_length}
use eq_data_patcher.Hash.{hash_cstr}
use eq_data_patcher.Array
use mathlib.Core.Path.{subst}
use eq_data_patcher.Lex.{lex_init}
use eq_data_patcher.Lex.Progress.{remaining-lex_init}
use eq_data_patcher.Str.{Str}
use eq_data_patcher.Parse.{Parser, parse_init, parse_value, str_size, table_at}
use eq_data_patcher.Parse.Value.{parse_value_line}
use eq_data_patcher.Parse.Ends.{Ends}
use eq_data_patcher.Parse.Value.Line.{Returns, parse_value_line_lem}
use eq_data_patcher.Tests.Text.{codes, all_granted}
use eq_data_patcher.Tests.Manifest.{blank_str, blank_entry}

get_or-replicate : (n : ℕ) (e : Entry Str) (i : ℕ) → get_or (replicate n e) i e ≡ e
get_or-replicate zero e i = refl
get_or-replicate (suc n) e zero = refl
get_or-replicate (suc n) e (suc i) = get_or-replicate n e i

-- A table without a block, and the same with its first block.
abbrev no_block : HashTbl Str
no_block = HashTbl.init_size str_size

abbrev first_block : HashTbl Str
first_block = record no_block { capacity = 4; slots = replicate 4 (blank_ent blank_str) }

set_impl-no_block :
    (key : Key) (v : Str) (hash : ℕ)
    → (r : Err × HashTbl Str) × (set_impl all_granted blank_str 2 no_block key v hash ≡ some r)
unfolding HashTbl.init_size set_impl place HashTbl.alloc_default
set_impl-no_block key v hash =
    rw (set_impl, place, get_or-replicate 4 (blank_ent blank_str) (main_pos first_block hash))
      (_, refl)

-- After `[abc]` and `Url =`: the table of the first entry is current and has no block yet.
abbrev awaiting : Parser
awaiting = record parse_init {
  lex = lex_init (codes "Url = http://x\n") 15;
  key = some 0;
  len = 3;
  cur_tbl = some 0;
  state = parse_value;
  content = record {
    count = 1;
    capacity = 1;
    elem_size = 32;
    slots = record { name = record { buf_length = 0; buf_data = [] }; content = no_block } ∷ [];
  };
}

awaiting-Returns : Returns all_granted 0 blank_str blank_entry awaiting
unfolding set_str Array.get_raw
awaiting-Returns i tbl at_i at_tbl text v =
    let first : 0 ≡ i = ap (λ (o : Option ℕ). elim o [ none ↦ 0 | some j ↦ j ]) at_i in
    let here : some no_block ≡ some tbl = ap (table_at awaiting.content) first ∙ at_tbl in
    let same : no_block ≡ tbl =
      ap (λ (o : Option (HashTbl Str)). elim o [ none ↦ no_block | some t ↦ t ]) here in
    let n = key_length text 3 in
    subst
      (λ t. (r : Err × HashTbl Str) × (set_str all_granted blank_str t (some text) 3 v ≡ some r))
      same (set_impl-no_block (str_key text n) v (hash_cstr text n))

parse_value_line_lem_example :
    Ends all_granted 0 blank_str blank_entry awaiting
      (parse_value_line all_granted 0 blank_str blank_entry 16 awaiting)
parse_value_line_lem_example =
    parse_value_line_lem all_granted 0 blank_str blank_entry 16 awaiting awaiting-Returns
      (omega (arith, remaining-lex_init (codes "Url = http://x\n") 15))
