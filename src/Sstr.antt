-- ===== src/Sstr.antt =====
-- src/edp_buffer.c and the first part of src/edp_string.c: blocks of bytes with their length in
-- front, and strings kept in them with a null byte behind.
use eq_data_patcher.Base.{
  ℕ, suc, ◌+◌, Bool, not, ◌||◌, Option, none, some, List, [], ◌∷◌, ◌++◌, ◌==◌, ltb, if◌then◌else◌,
  length, take, set, replicate, add32, sub32,
}

-- `SimpleBuffer`, and `SimpleString` too.
pub record SimpleBuffer : Type 0 where
  pub buf_length : ℕ
  pub buf_data : List ℕ

-- What a file does: whether the two `fseek` succeed, the size that `ftell` tells (0 for a negative
-- one), and the bytes that `fread` delivers.
pub record File : Type 0 where
  pub seek_end : Bool
  pub size : ℕ
  pub seek_start : Bool
  pub delivered : List ℕ

-- How a file is read: a null pointer, a string, or bytes that `fread` puts behind its block.
pub data Loaded : Type 0 where
  not_read : Loaded
  loaded : SimpleBuffer → Loaded
  overrun : Loaded

-- The bytes before the first null byte.
unfoldable pub strlen : List ℕ → ℕ
strlen [] = 0
strlen (c ∷ cs) = let rest = suc (strlen cs) in if c == 0 then 0 else rest

-- `grant` says whether an allocation of that many bytes succeeds, and `junk` is the byte that fresh
-- memory holds.
module _ (grant : ℕ → Bool) (junk : ℕ) where
  -- `data` is `none` for a null pointer, which leaves the bytes as they are.
  unfoldable pub buf_create : Option (List ℕ) → ℕ → Option SimpleBuffer
  buf_create bytes len =
      if grant (len + 4)
      then some (record {
        buf_length = len;
        buf_data = elim bytes [ none ↦ replicate len junk | some b ↦ take len b ];
      })
      else none

  -- The text is what the pointer leads to, with its null byte and what follows. A length of 0 means
  -- all of it.
  unfoldable pub sstr_create : List ℕ → ℕ → Option SimpleBuffer
  unfolding buf_create strlen
  sstr_create text len =
      let n : ℕ = if len == 0 then strlen text else len in
      elim (buf_create (some text) (add32 n 1)) [
        | none ↦ none
        | some b ↦ some (record b { buf_data = set b.buf_data n 0 })
      ]

  -- No null byte is written behind the bytes read. The block's length is cut to 32 bits, that of the
  -- read is not.
  unfoldable pub sstr_from_file_ptr : File → Loaded
  unfolding buf_create
  sstr_from_file_ptr fp =
      if not fp.seek_end || fp.size == 0 || not fp.seek_start
      then not_read
      else elim (buf_create none (add32 fp.size 1)) [
        | none ↦ not_read
        | some b ↦
            if ltb (add32 fp.size 1) (length fp.delivered)
            then overrun
            else if length fp.delivered == fp.size
            then loaded (record b { buf_data = fp.delivered ++ junk ∷ [] })
            else not_read
      ]

  -- `none` for a file that does not open
  unfoldable pub sstr_from_file : Option File → Loaded
  unfolding sstr_from_file_ptr
  sstr_from_file none = not_read
  sstr_from_file (some fp) = sstr_from_file_ptr fp

unfoldable pub sstr_length : SimpleBuffer → ℕ
sstr_length ss = sub32 ss.buf_length 1

unfoldable pub sstr_data : SimpleBuffer → List ℕ
sstr_data ss = ss.buf_data
