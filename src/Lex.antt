-- ===== src/Lex.antt =====
-- src/lex.h, src/enum_lex.h and src/lex.c: tokens of a manifest, read one ahead.
-- A pointer into the text is its index, and `none` a null one. A byte above 127 is its own number
-- here and a negative `int` in C; neither is the code of a token, a letter, a digit or a space.
pub mod Munch
pub mod Progress
use eq_data_patcher.Base.{
  ℕ, zero, suc, ◌+◌, ◌-◌, Bool, ◌&&◌, ◌||◌, Option, none, some, List, leb, ltb, ◌==◌, if◌then◌else◌,
  get_or, length, add32,
}

abbrev pub token_string : ℕ
token_string = 1000

abbrev pub token_start : ℕ
token_start = 1001

abbrev pub token_end : ℕ
token_end = 1002

pub record LexCursor : Type 0 where
  pub token : ℕ
  pub ptr : Option ℕ
  pub len : ℕ

pub record Lexer : Type 0 where
  pub pos : ℕ
  pub last : ℕ
  pub src : List ℕ
  pub cur : LexCursor
  pub next : LexCursor

-- `isalnum` in the C locale
unfoldable pub is_alnum : ℕ → Bool
is_alnum c = (leb b'0' c && leb c b'9') || (leb b'a' c && leb c b'z') || (leb b'A' c && leb c b'Z')

-- The loop of `lex_read`: how many more letters and digits stand at `pos`.
unfoldable pub run_length : List ℕ → ℕ → ℕ → ℕ
run_length src zero pos = 0
run_length src (suc left) pos =
    let rest = suc (run_length src left (pos + 1)) in
    if is_alnum (get_or src pos 0) then rest else 0

-- `lex_read`, with `pos` behind the first character.
unfoldable pub lex_read : Lexer → Lexer × LexCursor
unfolding run_length
lex_read lex =
    let n = run_length lex.src (lex.last - lex.pos) lex.pos in
    (
      record lex { pos = lex.pos + n },
      record { token = token_string; ptr = some (lex.pos - 1); len = n + 1 },
    )

-- `lex_get`: the cursor is returned; what it does not write stays as it was.
unfoldable pub lex_get : Lexer → LexCursor → Lexer × LexCursor
unfolding lex_read
lex_get lex lc =
    if ltb lex.pos lex.last
    then (let c = get_or lex.src lex.pos 0 in
        let moved = record lex { pos = lex.pos + 1 } in
        if is_alnum c then lex_read moved else (moved, record lc { token = c }))
    else (lex, record lc { token = token_end })

abbrev pub start_cursor : LexCursor
start_cursor = record { token = token_start; ptr = none; len = 0 }

abbrev pub read_next : Lexer × LexCursor → Lexer
read_next (lex, lc) = record lex { next = lc }

unfoldable pub lex_init : List ℕ → ℕ → Lexer
unfolding lex_get
lex_init str len = read_next (
    lex_get (record { pos = 0; last = len; src = str; cur = start_cursor; next = start_cursor })
      start_cursor)

-- The token that is now current is `(lex_adv lex).cur.token`.
unfoldable pub lex_adv : Lexer → Lexer
unfolding lex_get
lex_adv lex = let shifted = record lex { cur = lex.next } in read_next (lex_get shifted lex.next)

unfoldable pub lex_peek : Lexer → ℕ
lex_peek lex = lex.next.token

unfoldable pub lex_str : Lexer → Option ℕ
lex_str lex = lex.cur.ptr

unfoldable pub lex_len : Lexer → ℕ
lex_len lex = lex.cur.len
