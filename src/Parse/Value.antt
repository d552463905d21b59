-- ===== src/Parse/Value.antt =====
-- src/parse.c, `parse_value`: the line behind `=`, which becomes a value of the table.
pub mod Line
use eq_data_patcher.Base.{
  ℕ, zero, suc, Bool, true, false, not, ◌&&◌, Option, none, some, ◌==◌, if◌then◌else◌,
}
use eq_data_patcher.Err.{Err, none_err, done, invalid}
use eq_data_patcher.Str.{Str, str_init, str_clear, str_append, str_append_char}
use eq_data_patcher.HashTbl.{HashTbl}
use eq_data_patcher.HashTbl.Api.{set_str}
use eq_data_patcher.Lex.{Lexer, token_string, token_end, lex_adv, lex_str, lex_len}
use eq_data_patcher.Parse.{
  Parser, ManifestEntry, parse_label, is_space, table_at, write_table, text_at,
}

-- `grant` says whether an allocation of that many bytes succeeds; the other parameters are what
-- fresh memory holds.
module _ (grant : ℕ → Bool) (junk : ℕ) (blank : Str) (fresh : ManifestEntry) where
  -- The value is stored under the awaiting key, and the accumulator starts again.
  abbrev pub store_value : Parser → Err × HashTbl Str → ℕ → Err × Parser
  store_value p (none_err, tbl) i = (
    none_err,
    record p { content = write_table p.content i tbl; accum = str_init; state = parse_label },
  )
  store_value p (rc, tbl) i = (rc, record p { content = write_table p.content i tbl })

  finish_value : Parser → Option (Err × Parser)
  finish_value p = elim p.key [
    | none ↦ some (invalid, p)
    | some k ↦ elim p.cur_tbl [
      | none ↦ some (invalid, p)
      | some i ↦ elim (table_at p.content i) [
        | none ↦ some (invalid, p)
        | some tbl ↦ elim (set_str grant blank tbl (some (text_at p.lex k)) p.len p.accum) [
          | none ↦ none
          | some r ↦ some (store_value p r i)
        ]
      ]
    ]
  ]

  abbrev pub append_word : Parser → Lexer → Err × Str
  append_word p l = elim (lex_str l) [
    | none ↦ (invalid, p.accum)
    | some i ↦ str_append grant junk p.accum (text_at l i) (lex_len l)
  ]

  -- A failed append ends the loop; else it goes on with `read_string` set.
  abbrev pub after_append :
      (Parser → Option (Err × Parser)) → Parser → Err × Str → Option (Err × Parser)
  after_append rest p (none_err, accum) = rest (record p { accum = accum })
  after_append rest p (rc, accum) = some (rc, record p { accum = accum })

  -- One round of the loop of `parse_value`, with its two flags; `rest` is what the next rounds do.
  value_round :
      (Bool → Bool → Parser → Option (Err × Parser)) → Bool → Bool → Parser → Option (Err × Parser)
  value_round rest skip_newline read_string p =
      let l = lex_adv p.lex in
      let q = record p { lex = l } in
      let c = l.cur.token in
      if c == token_end
      then some (done, q)
      else if c == token_string
      then after_append (rest false true) q (append_word q l)
      else if c == b'\n'
      then (if skip_newline then rest false read_string q else finish_value q)
      else if c == b'\\'
      then rest true read_string q
      else if is_space c && not read_string
      then rest skip_newline read_string q
      else after_append (rest skip_newline true) q (str_append_char grant junk q.accum c)

  unfoldable pub value_loop : ℕ → Bool → Bool → Parser → Option (Err × Parser)
  unfolding value_round finish_value
  value_loop zero skip_newline read_string p = none
  value_loop (suc fuel) skip_newline read_string p =
      value_round (value_loop fuel) skip_newline read_string p

  unfoldable pub parse_value_line : ℕ → Parser → Option (Err × Parser)
  unfolding value_loop str_clear
  parse_value_line fuel p = value_loop fuel false false (record p { accum = str_clear p.accum })
