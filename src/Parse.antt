-- ===== src/Parse.antt =====
-- src/parse.h, src/enum_parse.h and src/parse.c: the parser of manifests, a machine of four states.
-- A manifest is `[name]` lines, each followed by lines `key = value`.
-- The loops take fuel, and give `none` where it runs out.
pub mod Value
pub mod File
pub mod Ends
use eq_data_patcher.Base.{
  ℕ, zero, suc, ◌+◌, ◌-◌, ◌≤◌, Bool, true, false, not, ◌&&◌, ◌||◌, Option, none, some, List, [],
  ◌∷◌, ◌++◌, leb, ◌==◌, if◌then◌else◌, get_or, set, take, drop, length, add32, map,
}
use eq_data_patcher.Err.{Err, none_err, done, invalid, out_of_memory}
use eq_data_patcher.Array
use eq_data_patcher.Array.{Array}
use eq_data_patcher.Str.{Str, str_init, str_deinit, str_clear, str_append, str_append_char}
use eq_data_patcher.Sstr.{SimpleBuffer, sstr_create}
use eq_data_patcher.HashTbl
use eq_data_patcher.HashTbl.{HashTbl}
use eq_data_patcher.HashTbl.Api.{set_str}
use eq_data_patcher.Lex.{Lexer, token_string, token_end, lex_init, lex_adv, lex_str, lex_len}

pub data ParseState : Type 0 where
  parse_start parse_label parse_equals parse_value : ParseState

pub record ManifestEntry : Type 0 where
  pub name : SimpleBuffer
  pub content : HashTbl Str

-- `cur_tbl` points to the table of the entry with that index.
pub record Parser : Type 0 where
  pub state : ParseState
  pub lex : Lexer
  pub accum : Str
  pub key : Option ℕ
  pub len : ℕ
  pub cur_tbl : Option ℕ
  pub content : Array ManifestEntry

-- `isspace` and `tolower` in the C locale
unfoldable pub is_space : ℕ → Bool
is_space c = c == b' ' || (leb 9 c && leb c 13)

unfoldable pub to_lower : ℕ → ℕ
to_lower c = if leb b'A' c && leb c b'Z' then c + 32 else c

-- The size of a `ManifestEntry` and of a `String`, in bytes.
abbrev pub entry_size : ℕ
entry_size = 32

abbrev pub str_size : ℕ
str_size = 16

unfoldable pub parse_init : Parser
unfolding lex_init str_init Array.init_size
parse_init = record {
  state = parse_start;
  lex = lex_init [] 0;
  accum = str_init;
  key = none;
  len = 0;
  cur_tbl = none;
  content = Array.init_size entry_size;
}

-- The flag is the C function's result.
unfoldable pub parse_skip_until : ℕ → Lexer → ℕ → Option (Bool × Lexer)
parse_skip_until zero lex c = none
parse_skip_until (suc fuel) lex c =
    let l = lex_adv lex in
    let rest = parse_skip_until fuel l c in
    if l.cur.token == token_end
    then some (false, l)
    else if l.cur.token == c
    then some (true, l)
    else rest

-- The loop of `parse_tag`: where it stops, whether at `]`, and what `str` and `len` are then.
pub record TagEnd : Type 0 where
  pub closed : Bool
  pub lex : Lexer
  pub str : Option ℕ
  pub len : ℕ

abbrev pub or_else {ℓ} : {A : Type ℓ} → Option A → Option A → Option A
or_else none b = b
or_else (some a) b = some a

unfoldable pub tag_loop : ℕ → Lexer → Option ℕ → ℕ → Option TagEnd
unfolding lex_str lex_len
tag_loop zero lex str len = none
tag_loop (suc fuel) lex str len =
    let l = lex_adv lex in
    let word = tag_loop fuel l (or_else str (lex_str l)) (add32 len (lex_len l)) in
    let other = tag_loop fuel l str (add32 len 1) in
    if l.cur.token == token_end
    then some (record { closed = false; lex = l; str = str; len = len })
    else if l.cur.token == token_string
    then word
    else if l.cur.token == b']'
    then some (record { closed = true; lex = l; str = str; len = len })
    else other

-- In place: the key's letters become small ones in the text itself.
unfoldable pub lower_key : List ℕ → ℕ → ℕ → List ℕ
unfolding to_lower
lower_key src i zero = src
lower_key src i (suc n) = lower_key (set src i (to_lower (get_or src i 0))) (i + 1) n

-- The table that `curTbl` points to, and the entries with it written back.
abbrev pub table_at : Array ManifestEntry → ℕ → Option (HashTbl Str)
table_at ar i = elim (Array.get_raw ar i) [ none ↦ none | some me ↦ some me.content ]

abbrev pub write_table : Array ManifestEntry → ℕ → HashTbl Str → Array ManifestEntry
write_table ar i tbl = elim (Array.get_raw ar i) [
  | none ↦ ar
  | some me ↦ record ar { slots = set ar.slots i (record me { content = tbl }) }
]

-- What follows the pointer `key`.
abbrev pub text_at : Lexer → ℕ → List ℕ
text_at lex i = drop i lex.src

-- `parse_deinit_each_value`, `parse_deinit_each_patch_entry`: the names that are freed, and the
-- values of the tables, in order.
abbrev pub Freed : Type 0
Freed = List SimpleBuffer × List Str

unfoldable pub deinit_each_value : List Str → Str → List Str
deinit_each_value freed str = freed ++ str ∷ []

unfoldable pub deinit_each_patch_entry : Freed → ManifestEntry → Freed
unfolding deinit_each_value HashTbl.deinit
deinit_each_patch_entry (names, values) me =
    (names ++ me.name ∷ [], (HashTbl.deinit deinit_each_value me.content values).0)

unfoldable pub parse_deinit : Parser → Freed × Parser
unfolding deinit_each_patch_entry Array.deinit str_deinit
parse_deinit p =
    let (freed, content) = Array.deinit deinit_each_patch_entry p.content ([], []) in
    (freed, record p { accum = str_deinit p.accum; content = content })

-- A word becomes the awaiting key.
abbrev pub take_key : Parser → Lexer → Parser
take_key p l =
    let n = lex_len l in
    let src : List ℕ = elim (lex_str l) [ none ↦ l.src | some i ↦ lower_key l.src i n ] in
    record p { lex = record l { src = src }; key = lex_str l; len = n; state = parse_equals }

unfoldable pub equals_loop : ℕ → Parser → Option (Err × Parser)
equals_loop zero p = none
equals_loop (suc fuel) p =
    let l = lex_adv p.lex in
    let q = record p { lex = l } in
    let rest = equals_loop fuel q in
    if l.cur.token == token_end
    then some (done, q)
    else if l.cur.token == b'='
    then some (none_err, record q { state = parse_value })
    else if is_space l.cur.token
    then rest
    else some (done, q)

-- `grant` says whether an allocation of that many bytes succeeds; the other parameters are what
-- fresh memory holds.
module _ (grant : ℕ → Bool) (junk : ℕ) (blank : Str) (fresh : ManifestEntry) where
  finish_tag : Parser → TagEnd → Err × Parser
  finish_tag p t =
      let q = record p { lex = t.lex } in
      if not t.closed then (done, q) else elim t.str [
        | none ↦ (done, q)
        | some str ↦ elim (sstr_create grant junk (text_at t.lex str) t.len) [
          | none ↦ (out_of_memory, q)
          | some name ↦
              let me : ManifestEntry = record {
                name = name;
                content = HashTbl.init_size str_size;
              } in
              elim (Array.push_back grant fresh p.content (some me)) [
                | none ↦ (out_of_memory, q)
                | some ar ↦ (
                  none_err,
                  record q { content = ar; cur_tbl = some p.content.count; state = parse_label },
                )
              ]
        ]
      ]

  unfoldable pub parse_tag : ℕ → Parser → Option (Err × Parser)
  unfolding tag_loop finish_tag
  parse_tag fuel p = elim (tag_loop fuel p.lex none 0) [
    | none ↦ none
    | some t ↦ some (finish_tag p t)
  ]

  unfoldable pub label_loop : ℕ → ℕ → Parser → Option (Err × Parser)
  unfolding parse_tag lower_key
  label_loop all zero p = none
  label_loop all (suc fuel) p =
      let l = lex_adv p.lex in
      let q = record p { lex = l } in
      let rest = label_loop all fuel q in
      if l.cur.token == token_end
      then some (done, q)
      else if l.cur.token == token_string
      then some (none_err, take_key p l)
      else if l.cur.token == b'['
      then parse_tag all q
      else rest

unfoldable pub parse_get_manifests : Parser → Array ManifestEntry
parse_get_manifests p = p.content
