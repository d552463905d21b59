-- ===== src/Parse/Value/Line.antt =====
-- The loop of `parse_value` of src/parse.c ends.
use eq_data_patcher.Base.{
  ℕ, zero, suc, ◌<◌, ◌≡◌, inl, inr, ap, refl, arith, Bool, true, false, not, ◌&&◌, Option, some,
  List, ◌==◌, Bool-cases, Option-cases,
}
use eq_data_patcher.Err.{Err, none_err, done, invalid}
use eq_data_patcher.HashTbl.{HashTbl}
use eq_data_patcher.HashTbl.Api.{set_str}
use eq_data_patcher.Lex.{lex_adv, token_string, token_end}
use eq_data_patcher.Lex.Progress.{remaining}
use eq_data_patcher.Str.{Str, str_append_char, str_clear}
use eq_data_patcher.Parse.{Parser, ManifestEntry, table_at, text_at, is_space}
use eq_data_patcher.Parse.Value.{
  store_value, finish_value, append_word, after_append, value_round, value_loop, parse_value_line,
}
use eq_data_patcher.Parse.Ends.{Ends, adv_less, by_code}

module _ (grant : ℕ → Bool) (junk : ℕ) (blank : Str) (fresh : ManifestEntry) where
  -- Setting a key of the awaited length in the current table returns.
  abbrev pub Returns : Parser → Type 0
  Returns p =
      (i : ℕ) (tbl : HashTbl Str)
      → p.cur_tbl ≡ some i
      → table_at p.content i ≡ some tbl
      → (text : List ℕ) (v : Str)
      → (r : Err × HashTbl Str) × (set_str grant blank tbl (some text) p.len v ≡ some r)

  store_value-lex :
      (p : Parser) (r : Err × HashTbl Str) (i : ℕ)
      → (store_value grant junk blank fresh p r i).1.lex ≡ p.lex
  store_value-lex p (none_err, tbl) i = refl
  store_value-lex p (rc, tbl) i = refl

  -- What the line's end gives, where `n` bounds what was left before it.
  abbrev Within : ℕ → Option (Err × Parser) → Type 0
  Within n o =
      (rc : Err) × (after : Parser) × (o ≡ some (rc, after))
      × (rc ≡ none_err → remaining after.lex < n)

  finish_value_lem :
      (p : Parser) (n : ℕ)
      → Returns p
      → remaining p.lex < n
      → Within n (finish_value grant junk blank fresh p)
  unfolding finish_value
  finish_value_lem p n ok less = elim (Option-cases p.key) [
    | inl a ↦ rw (finish_value, a) (invalid, p, refl, λ e. less)
    | inr (k, a) ↦ elim (Option-cases p.cur_tbl) [
      | inl b ↦ rw (finish_value, a, b) (invalid, p, refl, λ e. less)
      | inr (i, b) ↦ elim (Option-cases (table_at p.content i)) [
        | inl c ↦ rw (finish_value, a, b, c) (invalid, p, refl, λ e. less)
        | inr (tbl, c) ↦
            let (r, d) = ok i tbl b c (text_at p.lex k) p.accum in
            rw (finish_value, a, b, c, d)
              (
                (store_value grant junk blank fresh p r i).0,
                (store_value grant junk blank fresh p r i).1,
                refl,
                λ e. omega (arith, less, ap remaining (store_value-lex p r i)),
              )
      ]
    ]
  ]

  after_append_lem :
      (rest : Parser → Option (Err × Parser)) (p : Parser) (n : ℕ) (o : Err × Str)
      → remaining p.lex < n
      → ((accum : Str) → Within n (rest (record p { accum = accum })))
      → Within n (after_append grant junk blank fresh rest p o)
  after_append_lem rest p n (none_err, accum) less go = go accum
  after_append_lem rest p n (rc, accum) less go = (rc, _, refl, λ e. less)

  value_loop_lem :
      (fuel : ℕ) (skip_newline read_string : Bool) (p : Parser)
      → Returns p
      → remaining p.lex < fuel
      → Within (remaining p.lex) (value_loop grant junk blank fresh fuel skip_newline read_string p)
  unfolding value_loop value_round
  value_loop_lem zero skip_newline read_string p ok h = absurd (omega arith)
  value_loop_lem (suc fuel) skip_newline read_string p ok h =
      let l = lex_adv p.lex in
      let q : Parser = record p { lex = l } in
      let n = remaining p.lex in
      elim (Bool-cases (l.cur.token == token_end)) [
        | inl e ↦ rw e (done, q, refl, λ t. ground (arith, t))
        | inr f ↦
            let less = adv_less p.lex f in
            let again : (skip read : Bool) (accum : Str)
                → Within n (
                    value_loop grant junk blank fresh fuel skip read (record q { accum = accum })) =
              λ skip read accum.
                let (rc, after, e, d) =
                  value_loop_lem fuel skip read (record q { accum = accum }) ok (omega arith) in
                (rc, after, e, λ t. omega (arith, d t, less)) in
            elim (Bool-cases (l.cur.token == token_string)) [
              | inl g ↦
                  rw (f, g)
                    (after_append_lem (value_loop grant junk blank fresh fuel false true) q n
                      (append_word grant junk blank fresh q l) less (again false true))
              | inr g ↦ elim (Bool-cases (l.cur.token == b'\n')) [
                | inl k ↦ elim (Bool-cases skip_newline) [
                  | inl s ↦ rw (f, g, k, s) (again false read_string q.accum)
                  | inr s ↦ rw (f, g, k, s) (finish_value_lem q n ok less)
                ]
                | inr k ↦ elim (Bool-cases (l.cur.token == b'\\')) [
                  | inl m ↦ rw (f, g, k, m) (again true read_string q.accum)
                  | inr m ↦ elim (Bool-cases (is_space l.cur.token && not read_string)) [
                    | inl w ↦ rw (f, g, k, m, w) (again skip_newline read_string q.accum)
                    | inr w ↦
                        rw (f, g, k, m, w)
                          (after_append_lem
                            (value_loop grant junk blank fresh fuel skip_newline true) q n
                            (str_append_char grant junk q.accum l.cur.token) less
                            (again skip_newline true))
                  ]
                ]
              ]
            ]
      ]

  -- Where setting a key of the awaited length in the current table returns, the state that reads
  -- a value gives a result when it has more fuel than there are tokens left, and where the
  -- result is `ERR_None` fewer tokens are left than before.
  pub parse_value_line_lem :
      (fuel : ℕ) (p : Parser)
      → Returns p
      → remaining p.lex < fuel
      → Ends grant junk blank fresh p (parse_value_line grant junk blank fresh fuel p)
  unfolding parse_value_line
  parse_value_line_lem fuel p ok h =
      let (rc, after, e, d) =
        value_loop_lem fuel false false (record p { accum = str_clear p.accum }) ok h in
      (rc, after, e, by_code rc (remaining after.lex) p d)
