-- ===== src/Lex/Progress.antt =====
-- How much text is left for the lexer of src/lex.c, one token of which is read ahead.
use eq_data_patcher.Base.{
  ℕ, suc, ◌-◌, ◌≤◌, ◌<◌, ◌≡◌, ◌≢◌, ◌∙◌, ap, arith, List, if◌then◌else◌, inl, inr, ◌==◌,
}
use eq_data_patcher.Lex.{LexCursor, Lexer, lex_get, lex_adv, lex_init, start_cursor, token_end}
use eq_data_patcher.Lex.Munch.{Reads, lex_get_lem}

-- A bound on the tokens to come before the end, the one read ahead included.
unfoldable pub remaining : Lexer → ℕ
remaining lex = if lex.next.token == token_end then 0 else suc (lex.last - lex.pos)

-- A read changes neither `cur` nor the text, and goes forward unless it finds the end.
Forward : Lexer → Lexer × LexCursor → Type 0
Forward lex (after, c) =
    (after.cur ≡ lex.cur)
    × (after.last ≡ lex.last)
    × (remaining (record after { next = c }) ≤ lex.last - lex.pos)

lex_get-Forward : (lex : Lexer) (r : Lexer × LexCursor) → Reads lex r → Forward lex r
unfolding Forward remaining
lex_get-Forward lex (after, c) (inl w) = (
  ap (λ (l : Lexer). l.cur) w.moved,
  ap (λ (l : Lexer). l.last) w.moved,
  ground (
    arith,
    ap (λ (l : Lexer). l.last) w.moved,
    ap (λ (l : Lexer). l.pos) w.moved,
    w.inside,
    w.some_letter,
  ),
)
lex_get-Forward lex (after, c) (inr (inl s)) = (
  ap (λ (l : Lexer). l.cur) s.moved,
  ap (λ (l : Lexer). l.last) s.moved,
  ground (arith, ap (λ (l : Lexer). l.last) s.moved, ap (λ (l : Lexer). l.pos) s.moved, s.inside),
)
lex_get-Forward lex (after, c) (inr (inr e)) = (
  ap (λ (l : Lexer). l.cur) e.stays,
  ap (λ (l : Lexer). l.last) e.stays,
  rw (e.is_end) (omega arith),
)

adv-Forward :
    (lex : Lexer)
    → Forward (record lex { cur = lex.next }) (lex_get (record lex { cur = lex.next }) lex.next)
adv-Forward lex = lex_get-Forward _ _ (lex_get_lem (record lex { cur = lex.next }) lex.next)

pub cur-lex_adv : (lex : Lexer) → (lex_adv lex).cur ≡ lex.next
unfolding lex_adv Forward
cur-lex_adv lex = (adv-Forward lex).0

adv_bound : (lex : Lexer) → remaining (lex_adv lex) ≤ lex.last - lex.pos
unfolding lex_adv Forward
adv_bound lex = (adv-Forward lex).2

remaining-pending :
    (lex : Lexer) → lex.next.token ≢ token_end → remaining lex ≡ suc (lex.last - lex.pos)
unfolding remaining
remaining-pending lex ne = ground (arith, ne)

-- A call of `lex_adv` that does not give the end token leaves a smaller bound on the tokens to
-- come.
pub remaining-lex_adv :
    (lex : Lexer) → (lex_adv lex).cur.token ≢ token_end → remaining (lex_adv lex) < remaining lex
remaining-lex_adv lex ne =
    let pending : lex.next.token ≢ token_end =
      λ e. ne (ap (λ (c : LexCursor). c.token) (cur-lex_adv lex) ∙ e) in
    omega (arith, adv_bound lex, remaining-pending lex pending)

-- After `lex_init` no more tokens are left than there are bytes.
pub remaining-lex_init : (src : List ℕ) (len : ℕ) → remaining (lex_init src len) ≤ len
unfolding lex_init Forward
remaining-lex_init src len =
    let lex : Lexer = record {
      pos = 0;
      last = len;
      src = src;
      cur = start_cursor;
      next = start_cursor;
    } in
    let h : remaining (lex_init src len) ≤ len - 0 =
      (lex_get-Forward lex _ (lex_get_lem lex start_cursor)).2 in
    omega (arith, h)
