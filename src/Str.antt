-- ===== src/Str.antt =====
-- src/edp_string.c, `String`: a text that grows.
-- `data` is the list `cells` of the bytes that the allocation holds, `[]` for a null pointer.
pub mod Inv
pub mod Laws
use eq_data_patcher.Base.{
  ℕ, ◌+◌, ◌-◌, Bool, not, ◌||◌, Option, none, some, List, [], ◌∷◌, ◌++◌, leb, ◌==◌, if◌then◌else◌,
  length, take, set, splice, replicate, add32,
}
use eq_data_patcher.Bits.{pow2_greater_than_u32}
use eq_data_patcher.Err.{Err, none_err, invalid, out_of_memory, could_not_open, file_operation}
use eq_data_patcher.Sstr.{File}

pub record Str : Type 0 where
  pub str_length : ℕ
  pub capacity : ℕ
  pub cells : List ℕ

unfoldable pub str_init : Str
str_init = record { str_length = 0; capacity = 0; cells = [] }

unfoldable pub str_deinit : Str → Str
str_deinit str = elim str.cells [
  | [] ↦ str
  | _ ∷ _ ↦ record { str_length = 0; capacity = 0; cells = [] }
]

unfoldable pub str_clear : Str → Str
str_clear str = record str { str_length = 0 }

unfoldable pub str_subtract_chars : Str → ℕ → Str
str_subtract_chars str num_chars = elim str.cells [
  | [] ↦ str
  | _ ∷ _ ↦
      if leb str.str_length num_chars
      then record str { str_length = 0; cells = set str.cells 0 0 }
      else (let len = str.str_length - num_chars in
          record str { str_length = len; cells = set str.cells len 0 })
]

-- `memcpy`, the null byte and the new length.
abbrev pub append_cells : Str → List ℕ → ℕ → Str
append_cells str input newlen = record str {
  str_length = newlen;
  cells = set (splice str.cells str.str_length input) newlen 0;
}

-- What `str_append` does once there is room, or no memory.
unfoldable pub finish_append : Str → List ℕ → ℕ → Option Str → Err × Str
finish_append str input newlen none = (out_of_memory, str)
finish_append str input newlen (some s) = (none_err, append_cells s input newlen)

-- What is read goes behind the text; its length counts only if all of it came.
abbrev pub read_cells : Str → File → Err × Str
read_cells s fp =
    let read = splice s.cells s.str_length fp.delivered in
    if not (length fp.delivered == fp.size)
    then (file_operation, record s { cells = set read s.str_length 0 })
    else (let len = add32 s.str_length fp.size in
        (none_err, record s { str_length = len; cells = set read len 0 }))

-- `grant` says whether an allocation of that many bytes succeeds, and `junk` is the byte that fresh
-- memory holds.
module _ (grant : ℕ → Bool) (junk : ℕ) where
  -- `none` for false
  unfoldable pub str_realloc : Str → ℕ → Option Str
  str_realloc str newlen =
      let n = pow2_greater_than_u32 newlen in
      if grant n
      then some (record str {
        capacity = n;
        cells = take n (str.cells ++ replicate (n - length str.cells) junk);
      })
      else none

  -- The test before a write that ends at `newlen`.
  unfoldable pub ensure : Str → ℕ → Option Str
  ensure str newlen = if leb str.capacity newlen then str_realloc str newlen else some str

  -- The bytes are what the pointer leads to, up to a null byte; a length of 0 means all of them.
  unfoldable pub str_append : Str → List ℕ → ℕ → Err × Str
  str_append str input len =
      let n : ℕ = if len == 0 then length input else len in
      if n == 0
      then (invalid, str)
      else (let newlen = add32 str.str_length n in
          finish_append str (take n input) newlen (ensure str newlen))

  unfoldable pub str_append_char : Str → ℕ → Err × Str
  str_append_char str c =
      let newlen = add32 str.str_length 1 in finish_append str (c ∷ []) newlen (ensure str newlen)

  unfoldable pub str_reserve : Str → ℕ → Err × Str
  str_reserve str count = elim (ensure str count) [
    | none ↦ (out_of_memory, str)
    | some s ↦ (none_err, s)
  ]

  unfoldable pub str_set : Str → List ℕ → ℕ → Err × Str
  unfolding str_clear str_append
  str_set str cstr len = str_append (str_clear str) cstr len

  unfoldable pub str_append_file_ptr : Str → File → Err × Str
  str_append_file_ptr str fp =
      if not fp.seek_end || fp.size == 0 || not fp.seek_start
      then (file_operation, str)
      else elim (ensure str (add32 str.str_length fp.size)) [
        | none ↦ (out_of_memory, str)
        | some s ↦ read_cells s fp
      ]

  -- `none` for a file that does not open
  unfoldable pub str_append_file : Str → Option File → Err × Str
  unfolding str_append_file_ptr
  str_append_file str none = (could_not_open, str)
  str_append_file str (some fp) = str_append_file_ptr str fp

  unfoldable pub str_set_from_file : Str → Option File → Err × Str
  unfolding str_clear str_append_file
  str_set_from_file str file = str_append_file (str_clear str) file

  unfoldable pub str_set_from_file_ptr : Str → File → Err × Str
  unfolding str_clear str_append_file_ptr
  str_set_from_file_ptr str fp = str_append_file_ptr (str_clear str) fp
