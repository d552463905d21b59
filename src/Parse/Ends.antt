-- ===== src/Parse/Ends.antt =====
-- The loops of src/parse.c that read on to a character end.
use eq_data_patcher.Base.{
  ℕ, zero, suc, ◌≤◌, ◌<◌, ◌≡◌, ◌≢◌, ap, refl, arith, Bool, true, false, Option, none, some, inl,
  inr, ◌⊎◌, ◌==◌, Bool-cases, Option-cases, add32,
}
use eq_data_patcher.Lex.{Lexer, lex_adv, lex_str, lex_len, token_string, token_end}
use eq_data_patcher.Lex.Progress.{remaining, remaining-lex_adv}
use eq_data_patcher.Err.{Err, none_err, done}
use eq_data_patcher.Array
use eq_data_patcher.Sstr.{sstr_create}
use eq_data_patcher.Str.{Str}
use eq_data_patcher.HashTbl
use eq_data_patcher.Parse.{
  Parser, ManifestEntry, TagEnd, or_else, is_space, text_at, str_size, parse_skip_until, tag_loop,
  finish_tag, parse_tag, take_key, label_loop, equals_loop, ParseState, parse_start, parse_label,
  parse_equals, parse_value,
}
use eq_data_patcher.Parse.File.{parse_first, parse_step}

-- The loop gives a result, and where it found its character it has read at least that.
abbrev pub Skipped : Lexer → Option (Bool × Lexer) → Type 0
Skipped lex o =
    (found : Bool) × (after : Lexer) × (o ≡ some (found, after))
    × (found ≡ true → remaining after < remaining lex)

pub adv_less :
    (lex : Lexer)
    → ((lex_adv lex).cur.token == token_end) ≡ false
    → remaining (lex_adv lex) < remaining lex
adv_less lex f = remaining-lex_adv lex (ground (arith, f))

pub parse_skip_until_lem :
    (fuel : ℕ) (lex : Lexer) (c : ℕ)
    → remaining lex < fuel
    → Skipped lex (parse_skip_until fuel lex c)
unfolding parse_skip_until
parse_skip_until_lem zero lex c h = absurd (omega arith)
parse_skip_until_lem (suc fuel) lex c h =
    let l = lex_adv lex in
    elim (Bool-cases (l.cur.token == token_end)) [
      | inl e ↦ rw e (false, l, refl, λ t. ground (arith, t))
      | inr f ↦
          let less = adv_less lex f in
          elim (Bool-cases (l.cur.token == c)) [
            | inl g ↦ rw (f, g) (true, l, refl, λ t. less)
            | inr k ↦
                let (found, after, e, d) = parse_skip_until_lem fuel l c (omega arith) in
                rw (f, k) (found, after, e, λ t. omega (arith, d t, less))
          ]
    ]

abbrev pub Tagged : Lexer → Option TagEnd → Type 0
Tagged lex o = (t : TagEnd) × (o ≡ some t) × (t.closed ≡ true → remaining t.lex < remaining lex)

tag_loop_lem :
    (fuel : ℕ) (lex : Lexer) (str : Option ℕ) (len : ℕ)
    → remaining lex < fuel
    → Tagged lex (tag_loop fuel lex str len)
unfolding tag_loop
tag_loop_lem zero lex str len h = absurd (omega arith)
tag_loop_lem (suc fuel) lex str len h =
    let l = lex_adv lex in
    elim (Bool-cases (l.cur.token == token_end)) [
      | inl e ↦ rw e (_, refl, λ t. ground (arith, t))
      | inr f ↦
          let less = adv_less lex f in
          elim (Bool-cases (l.cur.token == token_string)) [
            | inl g ↦
                let (t, e, d) =
                  tag_loop_lem fuel l (or_else str (lex_str l)) (add32 len (lex_len l))
                    (omega arith) in
                rw (f, g) (t, e, λ c. omega (arith, d c, less))
            | inr g ↦ elim (Bool-cases (l.cur.token == b']')) [
              | inl k ↦ rw (f, g, k) (_, refl, λ t. less)
              | inr k ↦
                  let (t, e, d) = tag_loop_lem fuel l str (add32 len 1) (omega arith) in
                  rw (f, g, k) (t, e, λ c. omega (arith, d c, less))
            ]
          ]
    ]

-- A step gives a result, and where that is `ERR_None` it has read at least one token.
abbrev pub Stepped : Parser → Option (Err × Parser) → Type 0
Stepped p o =
    (rc : Err) × (after : Parser) × (o ≡ some (rc, after))
    × (rc ≡ none_err → remaining after.lex < remaining p.lex)

remaining-take_key : (p : Parser) (l : Lexer) → remaining (take_key p l).lex ≡ remaining l
unfolding remaining
remaining-take_key p l = refl

module _ (grant : ℕ → Bool) (junk : ℕ) (blank : Str) (fresh : ManifestEntry) where
  finish_tag-closed :
      (p : Parser) (t : TagEnd)
      → (finish_tag grant junk blank fresh p t).0 ≡ none_err
      → t.closed ≡ true
  unfolding finish_tag
  finish_tag-closed p t h = elim (Bool-cases t.closed) [
    | inl c ↦ c
    | inr c ↦ ground (arith, rw c at h)
  ]

  finish_tag-lex : (p : Parser) (t : TagEnd) → (finish_tag grant junk blank fresh p t).1.lex ≡ t.lex
  unfolding finish_tag
  finish_tag-lex p t = elim (Bool-cases t.closed) [
    | inr c ↦ rw c refl
    | inl c ↦ elim (Option-cases t.str) [
      | inl s ↦ rw (c, s) refl
      | inr (str, s) ↦ elim (Option-cases (sstr_create grant junk (text_at t.lex str) t.len)) [
        | inl n ↦ rw (c, s, n) refl
        | inr (name, n) ↦
            let me : ManifestEntry = record { name = name; content = HashTbl.init_size str_size } in
            elim (Option-cases (Array.push_back grant fresh p.content (some me))) [
              | inl r ↦ rw (c, s, n, r) refl
              | inr (ar, r) ↦ rw (c, s, n, r) refl
            ]
      ]
    ]
  ]

  parse_tag_lem :
      (fuel : ℕ) (p : Parser)
      → remaining p.lex < fuel
      → Stepped p (parse_tag grant junk blank fresh fuel p)
  unfolding parse_tag
  parse_tag_lem fuel p h =
      let (t, e, d) = tag_loop_lem fuel p.lex none 0 h in
      rw (parse_tag, e)
        (
          (finish_tag grant junk blank fresh p t).0,
          (finish_tag grant junk blank fresh p t).1,
          refl,
          λ k.
              let closed = finish_tag-closed p t k in
              omega (arith, d closed, ap remaining (finish_tag-lex p t)),
        )

  label_loop_lem :
      (all fuel : ℕ) (p : Parser)
      → remaining p.lex < fuel
      → fuel ≤ all
      → Stepped p (label_loop grant junk blank fresh all fuel p)
  unfolding label_loop
  label_loop_lem all zero p h le = absurd (omega arith)
  label_loop_lem all (suc fuel) p h le =
      let l = lex_adv p.lex in
      let q : Parser = record p { lex = l } in
      elim (Bool-cases (l.cur.token == token_end)) [
        | inl e ↦ rw e (done, q, refl, λ t. ground (arith, t))
        | inr f ↦
            let less = adv_less p.lex f in
            elim (Bool-cases (l.cur.token == token_string)) [
              | inl g ↦
                  rw (f, g)
                    (none_err, take_key p l, refl, λ t. omega (arith, less, remaining-take_key p l))
              | inr g ↦ elim (Bool-cases (l.cur.token == b'[')) [
                | inl k ↦
                    let (rc, after, e, d) = parse_tag_lem all q (omega arith) in
                    rw (f, g, k) (rc, after, e, λ c. omega (arith, d c, less))
                | inr k ↦
                    let (rc, after, e, d) = label_loop_lem all fuel q (omega arith) (omega arith) in
                    rw (f, g, k) (rc, after, e, λ c. omega (arith, d c, less))
              ]
            ]
      ]

equals_loop_lem : (fuel : ℕ) (p : Parser) → remaining p.lex < fuel → Stepped p (equals_loop fuel p)
unfolding equals_loop
equals_loop_lem zero p h = absurd (omega arith)
equals_loop_lem (suc fuel) p h =
    let l = lex_adv p.lex in
    let q : Parser = record p { lex = l } in
    elim (Bool-cases (l.cur.token == token_end)) [
      | inl e ↦ rw e (done, q, refl, λ t. ground (arith, t))
      | inr f ↦
          let less = adv_less p.lex f in
          elim (Bool-cases (l.cur.token == b'=')) [
            | inl g ↦ rw (f, g) (none_err, _, refl, λ t. less)
            | inr g ↦ elim (Bool-cases (is_space l.cur.token)) [
              | inl k ↦
                  let (rc, after, e, d) = equals_loop_lem fuel q (omega arith) in
                  rw (f, g, k) (rc, after, e, λ c. omega (arith, d c, less))
              | inr k ↦ rw (f, g, k) (done, q, refl, λ t. ground (arith, t))
            ]
          ]
    ]

pub by_code :
    (rc : Err) (left : ℕ) (p : Parser)
    → (rc ≡ none_err → left < remaining p.lex)
    → (rc ≢ none_err) ⊎ (left < remaining p.lex)
by_code none_err left p d = inr (d refl)
by_code rc left p d = inl (λ e. ground (arith, e))

module _ (grant : ℕ → Bool) (junk : ℕ) (blank : Str) (fresh : ManifestEntry) where
  parse_first_lem :
      (fuel : ℕ) (p : Parser)
      → remaining p.lex < fuel
      → Stepped p (parse_first grant junk blank fresh fuel p)
  unfolding parse_first
  parse_first_lem fuel p h =
      let (found, l, e, d) = parse_skip_until_lem fuel p.lex b'[' h in
      elim (Bool-cases found) [
        | inr f ↦ rw (parse_first, e, f) (done, record p { lex = l }, refl, λ t. ground (arith, t))
        | inl f ↦
            let less : remaining l < remaining p.lex = d f in
            let (rc, after, e', d') =
              parse_tag_lem grant junk blank fresh fuel (record p { lex = l }) (omega arith) in
            rw (parse_first, e, f) (rc, after, e', λ c. omega (arith, d' c, less))
      ]

  step_lem :
      (s : ParseState) (fuel : ℕ) (p : Parser)
      → s ≢ parse_value
      → remaining p.lex < fuel
      → Stepped p (parse_step grant junk blank fresh s fuel p)
  unfolding parse_step
  step_lem parse_start fuel p ne h = parse_first_lem fuel p h
  step_lem parse_label fuel p ne h =
      label_loop_lem grant junk blank fresh fuel fuel p h (omega arith)
  step_lem parse_equals fuel p ne h = equals_loop_lem fuel p h
  step_lem parse_value fuel p ne h = absurd (ne refl)

  -- The result of a step: an error code, or `ERR_None` and fewer tokens left than before.
  abbrev pub Ends : Parser → Option (Err × Parser) → Type 0
  Ends p o =
      (rc : Err) × (after : Parser) × (o ≡ some (rc, after))
      × ((rc ≢ none_err) ⊎ (remaining after.lex < remaining p.lex))

  -- In every state but the one that reads a value, a step of the parser gives a result when it
  -- has more fuel than there are tokens left, and where the result is `ERR_None` fewer tokens
  -- are left than before.
  pub parse_step_lem :
      (s : ParseState) (fuel : ℕ) (p : Parser)
      → s ≢ parse_value
      → remaining p.lex < fuel
      → Ends p (parse_step grant junk blank fresh s fuel p)
  parse_step_lem s fuel p ne h =
      let (rc, after, e, d) = step_lem s fuel p ne h in
      (rc, after, e, by_code rc (remaining after.lex) p d)
