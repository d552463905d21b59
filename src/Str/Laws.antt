-- ===== src/Str/Laws.antt =====
-- What the functions of src/edp_string.c do to the text.
use eq_data_patcher.Base.{
  ℕ, ◌+◌, ◌-◌, ◌^◌, ◌≤◌, ◌<◌, Bool, false, Option, none, some, List, [], ◌∷◌, ◌++◌, ◌≡◌, ◌∙◌, ◌⊎◌,
  inl, inr, sym, ap, refl, arith, length, length-take, length-set, length-splice, take, take-take,
  take-set, take-splice, set_past, get_or, get_or-set_self, splice, add32,
}
use eq_data_patcher.Bits.{pow2_greater_than_u32}
use eq_data_patcher.Err.{Err, none_err, out_of_memory}
use eq_data_patcher.Str.{
  Str, append_cells, finish_append, ensure, str_append, str_append_char, str_clear,
  str_subtract_chars, str_set,
}
use eq_data_patcher.Str.Inv.{IsValid, text, Ensured, ensure_lem}

-- A C string: the text ends with a null byte.
abbrev pub IsTerminated : Str → Type 0
IsTerminated s = (s.str_length < length s.cells) × (get_or s.cells s.str_length 0 ≡ 0)

module _ (grant : ℕ → Bool) (junk : ℕ) where
  -- What appending gives: the text followed by the new bytes and a null byte, or a refused
  -- allocation and no change.
  abbrev pub Appended : Str → List ℕ → Err × Str → Type 0
  Appended s new r =
      let (rc, s') = r in
      IsValid s'
      × (((rc ≡ none_err) × (text s' ≡ text s ++ new) × IsTerminated s')
          ⊎ ((rc ≡ out_of_memory)
              × (s' ≡ s)
              × (grant (pow2_greater_than_u32 (s.str_length + length new)) ≡ false)))

  append_some :
      (s s' : Str) (new : List ℕ) (n : ℕ)
      → n ≡ s.str_length + length new
      → Ensured grant junk s n (some s')
      → Appended s new (none_err, append_cells s' new n)
  append_some s s' new n e (held, room, same_len, same) =
      let block = splice s'.cells s'.str_length new in
      let len = length-splice s'.cells s'.str_length new in
      (
        record { held = length-set block n 0 ∙ len ∙ held; room = inl room },
        inl (
          refl,
          take-set n block n 0
              ∙ set_past (take n block) n 0 (omega (arith, length-take n block))
              ∙ take-splice s'.str_length s'.cells new n (omega arith) (omega arith)
              ∙ ap (λ t. t ++ new) same,
          (omega (arith, length-set block n 0), get_or-set_self block n 0 0 (omega arith)),
        ),
      )

  append_any :
      (s : Str) (new : List ℕ) (n : ℕ) (o : Option Str)
      → IsValid s
      → n ≡ s.str_length + length new
      → Ensured grant junk s n o
      → Appended s new (finish_append s new n o)
  unfolding finish_append
  append_any s new n none v e h = (v, inr (refl, refl, rw (← e) h.1))
  append_any s new n (some s') v e h = append_some s s' new n e h

  str_append-eq :
      (s : Str) (input : List ℕ) (len : ℕ)
      → 0 < len
      → s.str_length + len < 2 ^ 32
      → str_append grant junk s input len
        ≡ finish_append s
            (take len input)
            (s.str_length + len)
            (ensure grant junk s (s.str_length + len))
  unfolding str_append
  str_append-eq s input len pos small = ground arith

  -- For a valid string, a length from 1 up to the input's length, and a total below 2 ^ 31,
  -- `str_append` gives a valid string: either `ERR_None` and the text followed by the bytes and
  -- a null byte, or `ERR_OutOfMemory` and no change, where the allocation was refused.
  pub str_append_lem :
      {s : Str} (input : List ℕ) (len : ℕ)
      → IsValid s
      → 0 < len
      → len ≤ length input
      → s.str_length + len < 2 ^ 31
      → Appended s (take len input) (str_append grant junk s input len)
  str_append_lem {s} input len v pos fits small =
      let n = s.str_length + len in
      let l : length (take len input) ≡ len = omega (arith, length-take len input) in
      let out =
        append_any s (take len input) n (ensure grant junk s n) v
          (ap (λ t. s.str_length + t) (sym l))
          (ensure_lem grant junk s n v (omega arith) small (omega arith)) in
      rw (str_append-eq s input len pos (omega arith)) out

  -- For a valid string whose text with one more byte is shorter than 2 ^ 31, `str_append_char`
  -- gives a valid string: either `ERR_None` and the text followed by the byte and a null byte,
  -- or `ERR_OutOfMemory` and no change, where the allocation was refused.
  pub str_append_char_lem :
      {s : Str} (c : ℕ)
      → IsValid s
      → s.str_length + 1 < 2 ^ 31
      → Appended s (c ∷ []) (str_append_char grant junk s c)
  unfolding str_append_char
  str_append_char_lem {s} c v small =
      let e : add32 s.str_length 1 ≡ s.str_length + 1 = omega arith in
      rw (str_append_char, e)
        (append_any s (c ∷ []) (s.str_length + 1) _ v refl
          (ensure_lem grant junk s (s.str_length + 1) v (omega arith) small (omega arith)))

  -- For a valid string, and a length from 1 up to the input's length and below 2 ^ 31, `str_set`
  -- is an append to the cleared string, which is valid and empty: it gives a valid string, and
  -- either `ERR_None`, the bytes alone and a null byte, or `ERR_OutOfMemory` and the cleared
  -- string, where the allocation was refused.
  pub str_set_lem :
      {s : Str} (input : List ℕ) (len : ℕ)
      → IsValid s
      → 0 < len
      → len ≤ length input
      → len < 2 ^ 31
      → Appended (str_clear s) (take len input) (str_set grant junk s input len)
        × IsValid (str_clear s)
        × (text (str_clear s) ≡ [])
  unfolding str_set str_clear
  str_set_lem {s} input len v pos fits small =
      let cleared : IsValid (record s { str_length = 0 }) = record {
        held = v.held;
        room = elim v.room [ inl h ↦ inl (omega arith) | inr h ↦ inr (refl, h.1) ];
      } in
      (str_append_lem input len cleared pos fits (omega arith), cleared, refl)

-- For a valid string, `str_subtract_chars` gives a valid string without the last bytes, as many
-- as it was told or all.
pub str_subtract_chars_lem :
    {s : Str} (n : ℕ)
    → IsValid s
    → let s' = str_subtract_chars s n in
      IsValid s' × (text s' ≡ take (length (text s) - n) (text s))
unfolding str_subtract_chars
str_subtract_chars_lem {s} n v =
    let k = s.str_length - n in
    ground (
      arith,
      length-take s.str_length s.cells,
      length-take k s.cells,
      length-set s.cells 0 0,
      length-set s.cells k 0,
      take-set k s.cells k 0,
      set_past (take k s.cells) k 0,
      take-take k s.str_length s.cells,
    )
