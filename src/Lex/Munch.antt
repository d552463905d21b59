-- ===== src/Lex/Munch.antt =====
-- What `lex_get` of src/lex.c reads: the longest word, one other character, or the end.
use eq_data_patcher.Base.{
  ℕ, zero, suc, ◌+◌, ◌-◌, ◌≤◌, ◌<◌, ◌≡◌, ◌∙◌, ap, refl, arith, true, false, some, List, ltb, get_or,
  Bool-cases, ◌⊎◌, inl, inr, ltb→lt, ltb-false,
}
use eq_data_patcher.Lex.{
  LexCursor, Lexer, is_alnum, run_length, lex_read, lex_get, token_string, token_end,
}

abbrev pub at : Lexer → ℕ → ℕ
at lex i = get_or lex.src i 0

-- A word: all its characters are letters or digits, and none follows.
pub record IsWord (lex after : Lexer) (c : LexCursor) : Type 0 where
  pub is_string : c.token ≡ token_string
  pub begins : c.ptr ≡ some lex.pos
  pub some_letter : 0 < c.len
  pub moved : after ≡ record lex { pos = lex.pos + c.len }
  pub inside : lex.pos + c.len ≤ lex.last
  pub letters : (k : ℕ) → k < c.len → is_alnum (at lex (lex.pos + k)) ≡ true
  pub longest : lex.pos + c.len < lex.last → is_alnum (at lex (lex.pos + c.len)) ≡ false

-- Another character, which is its own token.
pub record IsSymbol (lex after : Lexer) (c : LexCursor) : Type 0 where
  pub is_char : c.token ≡ at lex lex.pos
  pub no_letter : is_alnum (at lex lex.pos) ≡ false
  pub moved : after ≡ record lex { pos = lex.pos + 1 }
  pub inside : lex.pos + 1 ≤ lex.last

-- The end of the text.
pub record IsEnd (lex after : Lexer) (c : LexCursor) : Type 0 where
  pub is_end : c.token ≡ token_end
  pub stays : after ≡ lex
  pub nothing_left : lex.last ≤ lex.pos

run_length-le : (src : List ℕ) (left pos : ℕ) → run_length src left pos ≤ left
unfolding run_length
run_length-le src zero pos = omega arith
run_length-le src (suc left) pos = elim (Bool-cases (is_alnum (get_or src pos 0))) [
  | inl t ↦ let r = run_length-le src left (pos + 1) in rw t (omega (arith, r))
  | inr f ↦ rw f (omega arith)
]

run_length-letters :
    (src : List ℕ) (left pos k : ℕ)
    → k < run_length src left pos
    → is_alnum (get_or src (pos + k) 0) ≡ true
unfolding run_length
run_length-letters src zero pos k h = absurd (omega (arith, h))
run_length-letters src (suc left) pos zero h = elim (Bool-cases (is_alnum (get_or src pos 0))) [
  | inr f ↦ absurd (omega (arith, rw f at h))
  | inl t ↦ ap (λ i. is_alnum (get_or src i 0)) {y = pos} (omega arith) ∙ t
]
run_length-letters src (suc left) pos (suc k) h = elim (Bool-cases (is_alnum (get_or src pos 0))) [
  | inr f ↦ absurd (omega (arith, rw f at h))
  | inl t ↦
      let shorter : k < run_length src left (pos + 1) = omega (arith, rw t at h) in
      ap (λ i. is_alnum (get_or src i 0)) {y = pos + 1 + k} (omega arith)
      ∙ run_length-letters src left (pos + 1) k shorter
]

run_length-longest :
    (src : List ℕ) (left pos : ℕ)
    → run_length src left pos < left
    → is_alnum (get_or src (pos + run_length src left pos) 0) ≡ false
unfolding run_length
run_length-longest src zero pos h = absurd (omega (arith, h))
run_length-longest src (suc left) pos h = elim (Bool-cases (is_alnum (get_or src pos 0))) [
  | inr f ↦ rw f (ap (λ i. is_alnum (get_or src i 0)) {y = pos} (omega arith) ∙ f)
  | inl t ↦
      let shorter : run_length src left (pos + 1) < left = omega (arith, rw t at h) in
      rw t (
        ap (λ i. is_alnum (get_or src i 0)) {y = pos + 1 + run_length src left (pos + 1)}
          (omega arith)
        ∙ run_length-longest src left (pos + 1) shorter)
]

letter_at :
    (lex : Lexer)
    → is_alnum (at lex lex.pos) ≡ true
    → (k : ℕ) → k < suc (run_length lex.src (lex.last - (lex.pos + 1)) (lex.pos + 1))
    → is_alnum (at lex (lex.pos + k)) ≡ true
letter_at lex first zero h = ap (λ i. is_alnum (at lex i)) {y = lex.pos} (omega arith) ∙ first
letter_at lex first (suc k) h =
    ap (λ i. is_alnum (at lex i)) {y = lex.pos + 1 + k} (omega arith)
    ∙ run_length-letters lex.src (lex.last - (lex.pos + 1)) (lex.pos + 1) k (omega (arith, h))

word_lem :
    (lex : Lexer)
    → lex.pos < lex.last
    → is_alnum (at lex lex.pos) ≡ true
    → let (after, c) = lex_read (record lex { pos = lex.pos + 1 }) in IsWord lex after c
unfolding lex_read
word_lem lex inside first =
    let n = run_length lex.src (lex.last - (lex.pos + 1)) (lex.pos + 1) in
    let bound = run_length-le lex.src (lex.last - (lex.pos + 1)) (lex.pos + 1) in
    record {
      is_string = refl;
      begins = ap some (omega arith);
      some_letter = omega arith;
      moved = ap (λ p. record lex { pos = p }) (omega arith);
      inside = omega (arith, bound, inside);
      letters = λ k h. letter_at lex first k (omega (arith, h));
      longest = λ h.
          ap (λ i. is_alnum (at lex i)) {y = lex.pos + 1 + n} (omega arith)
          ∙ run_length-longest lex.src (lex.last - (lex.pos + 1)) (lex.pos + 1) (omega (arith, h));
    }

-- The three things that a read finds.
abbrev pub Reads : Lexer → Lexer × LexCursor → Type 0
Reads lex (after, c) = IsWord lex after c ⊎ (IsSymbol lex after c ⊎ IsEnd lex after c)

-- `lex_get` reads one of three things: a word of letters and digits from the position on, which
-- no further letter or digit follows within the text; one other character, which is its own
-- token; or, with nothing left, the end, where the lexer stays as it was.
pub lex_get_lem : (lex : Lexer) (lc : LexCursor) → Reads lex (lex_get lex lc)
unfolding lex_get
lex_get_lem lex lc = elim (Bool-cases (ltb lex.pos lex.last)) [
  | inr stop ↦
      let left = ltb-false lex.pos lex.last stop in
      rw stop (inr (inr (record { is_end = refl; stays = refl; nothing_left = left })))
  | inl more ↦
      let inside = ltb→lt lex.pos lex.last more in
      elim (Bool-cases (is_alnum (at lex lex.pos))) [
        | inr f ↦
            rw (more, f)
              (inr (
                inl (record {
                  is_char = refl;
                  no_letter = f;
                  moved = refl;
                  inside = omega (arith, inside);
                })))
        | inl t ↦ rw (more, t) (inl (word_lem lex inside t))
      ]
]
