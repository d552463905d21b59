-- ===== src/Tests/Tokens.antt =====
-- The theorems on src/lex.c and src/parse.c at texts.
use eq_data_patcher.Base.{arith}
use eq_data_patcher.Lex.{Lexer, lex_init, lex_get, start_cursor}
use eq_data_patcher.Lex.Munch.{Reads, lex_get_lem}
use eq_data_patcher.Lex.Progress.{remaining-lex_init}
use eq_data_patcher.Parse.{Parser, parse_init, parse_start}
use eq_data_patcher.Parse.File.{parse_step}
use eq_data_patcher.Parse.Ends.{Ends, parse_step_lem}
use eq_data_patcher.Tests.Text.{codes, all_granted}
use eq_data_patcher.Tests.Manifest.{blank_str, blank_entry}

abbrev manifest : Lexer
manifest = lex_init (codes "[abc]\nUrl = http://x\n") 21

lex_get_lem_example : Reads manifest (lex_get manifest start_cursor)
lex_get_lem_example = lex_get_lem manifest start_cursor

parse_step_lem_example :
    let p : Parser = record parse_init { lex = manifest } in
    Ends all_granted 0 blank_str blank_entry p
      (parse_step all_granted 0 blank_str blank_entry parse_start 22 p)
parse_step_lem_example =
    parse_step_lem all_granted 0 blank_str blank_entry parse_start 22
      (record parse_init { lex = manifest }) (λ e. ground (arith, e))
      (omega (arith, remaining-lex_init (codes "[abc]\nUrl = http://x\n") 21))
