-- ===== src/Parse/File.antt =====
-- src/parse.c, `parse_file`: the machine that runs the states until the text ends.
use eq_data_patcher.Base.{ℕ, zero, suc, ◌+◌, Bool, true, false, Option, none, some, List}
use eq_data_patcher.Err.{Err, none_err, done}
use eq_data_patcher.Str.{Str}
use eq_data_patcher.Lex.{lex_init}
use eq_data_patcher.Parse.{
  Parser, ManifestEntry, ParseState, parse_start, parse_label, parse_equals, parse_value,
  parse_skip_until, parse_tag, label_loop, equals_loop,
}
use eq_data_patcher.Parse.Value.{parse_value_line}

-- `ERR_Done` is no error.
abbrev pub result_code : Err → Err
result_code done = none_err
result_code rc = rc

-- `grant` says whether an allocation of that many bytes succeeds; the other parameters are what
-- fresh memory holds.
module _ (grant : ℕ → Bool) (junk : ℕ) (blank : Str) (fresh : ManifestEntry) where
  -- `Parse_Start` of the `switch`; a text without `[` ends the parse with no error.
  unfoldable pub parse_first : ℕ → Parser → Option (Err × Parser)
  unfolding parse_skip_until parse_tag
  parse_first fuel p = elim (parse_skip_until fuel p.lex b'[') [
    | none ↦ none
    | some (false, l) ↦ some (done, record p { lex = l })
    | some (true, l) ↦ parse_tag grant junk blank fresh fuel (record p { lex = l })
  ]

  unfoldable pub parse_step : ParseState → ℕ → Parser → Option (Err × Parser)
  unfolding parse_first label_loop equals_loop parse_value_line
  parse_step parse_start fuel p = parse_first fuel p
  parse_step parse_label fuel p = label_loop grant junk blank fresh fuel fuel p
  parse_step parse_equals fuel p = equals_loop fuel p
  parse_step parse_value fuel p = parse_value_line grant junk blank fresh fuel p

  abbrev pub after_step : (Parser → Option (Err × Parser)) → Err × Parser → Option (Err × Parser)
  after_step rest (none_err, p) = rest p
  after_step rest (rc, p) = some (result_code rc, p)

  unfoldable pub parse_loop : ℕ → ℕ → Parser → Option (Err × Parser)
  unfolding parse_step
  parse_loop all zero p = none
  parse_loop all (suc fuel) p = elim (parse_step p.state all p) [
    | none ↦ none
    | some r ↦ after_step (parse_loop all fuel) r
  ]

  -- Each round reads a token, and there are at most `len` of them and the end.
  unfoldable pub parse_file : Parser → List ℕ → ℕ → Option (Err × Parser)
  unfolding parse_loop lex_init
  parse_file p str len = parse_loop (len + 2) (len + 2) (record p { lex = lex_init str len })
