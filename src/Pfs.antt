-- ===== src/Pfs.antt =====
-- src/pfs.h and src/pfs.c: archives of compressed files.
-- An entry's bytes are blocks, each a header of two numbers and one compressed run. An entry that
-- was put holds its blocks itself; the others are found in `raw`, the bytes of the opened file.
-- A time is one more than in C, so that -1, for a file that cannot be asked, is 0.
pub mod Open
pub mod Put
pub mod Save
use eq_data_patcher.Base.{
  ℕ, zero, suc, ◌+◌, Bool, Option, none, some, List, [], ◌∷◌, ◌++◌, ltb, ◌==◌, if◌then◌else◌,
  length, take, drop, splice, add32, sub32,
}
use eq_data_patcher.Array
use eq_data_patcher.Array.{Array}
use eq_data_patcher.Bytes.{read32}
use eq_data_patcher.HashTbl
use eq_data_patcher.HashTbl.{HashTbl}
use eq_data_patcher.HashTbl.Api.{get_str_raw, key_length}
use eq_data_patcher.Sstr.{SimpleBuffer, buf_create}

pub record PfsEntry : Type 0 where
  pub crc : ℕ
  pub offset : ℕ
  pub inflated_len : ℕ
  pub deflated_len : ℕ
  pub name : Option SimpleBuffer
  pub replacement : Array ℕ

-- The sizes of the C structs, in bytes.
abbrev pub pfs_header_size : ℕ
pfs_header_size = 12

abbrev pub pfs_block_size : ℕ
pfs_block_size = 8

abbrev pub pfs_file_entry_size : ℕ
pfs_file_entry_size = 12

abbrev pub pfs_entry_size : ℕ
pfs_entry_size = 48

abbrev pub pfs_size : ℕ
pfs_size = 72

pub record Pfs : Type 0 where
  pub entries : Array PfsEntry
  pub by_name : HashTbl ℕ
  pub mod_time : ℕ
  pub raw : Option SimpleBuffer
  pub path : Option SimpleBuffer

unfoldable pub pfs_init : Pfs
pfs_init = record {
  entries = Array.init_size pfs_entry_size;
  by_name = HashTbl.init_size 4;
  mod_time = 1;
  raw = none;
  path = none;
}

unfoldable pub pfs_create : (ℕ → Bool) → Option Pfs
unfolding pfs_init
pfs_create grant = if grant pfs_size then some pfs_init else none

-- What `pfs_deinit` frees: the blocks of the replacements, the table's keys and the two buffers.
pub record PfsFreed : Type 0 where
  pub replacements : List (List ℕ)
  pub keys : List (List ℕ)
  pub buffers : List SimpleBuffer

-- The block of one entry, behind those that are freed already.
unfoldable pub pfs_destroy_entry : List (List ℕ) → PfsEntry → List (List ℕ)
pfs_destroy_entry freed ent = freed ++ ent.replacement.slots ∷ []

abbrev pub held : Option SimpleBuffer → List SimpleBuffer
held none = []
held (some b) = b ∷ []

unfoldable pub pfs_deinit : Pfs → PfsFreed × Pfs
unfolding pfs_destroy_entry Array.deinit HashTbl.deinit
pfs_deinit pfs =
    let (blocks, entries) = Array.deinit pfs_destroy_entry pfs.entries [] in
    let (_, keys, by_name) = HashTbl.deinit {0} (λ s v. s) pfs.by_name tt in
    (
      record { replacements = blocks; keys = keys; buffers = held pfs.raw ++ held pfs.path },
      record pfs { entries = entries; by_name = by_name; raw = none; path = none },
    )

-- `pfs_destroy`: `none` for a null pointer.
unfoldable pub pfs_destroy : Option Pfs → Option PfsFreed
unfolding pfs_deinit
pfs_destroy none = none
pfs_destroy (some pfs) = some (pfs_deinit pfs).0

-- The bytes of the opened file; a null `raw` leads to none.
abbrev pub pfs_data : Pfs → List ℕ
pfs_data pfs = elim pfs.raw [ none ↦ [] | some b ↦ b.buf_data ]

-- `uncompress cap src` is the library's: at most `cap` bytes, or `none` for an error code.
module _ (uncompress : ℕ → List ℕ → Option (List ℕ)) where
  -- The loop of `pfs_decompress`. Outside: `none` where it does not end within `fuel` blocks.
  -- Inside: `none` for the jump to `fail`.
  unfoldable pub decompress_loop : ℕ → List ℕ → ℕ → ℕ → ℕ → List ℕ → Option (Option (List ℕ))
  decompress_loop zero src ilen read pos dst = none
  decompress_loop (suc fuel) src ilen read pos dst =
      let deflated = read32 src pos in
      let inflated = read32 src (pos + 4) in
      let start = add32 pos pfs_block_size in
      let rest : List ℕ → Option (Option (List ℕ)) = λ out.
        decompress_loop fuel src ilen (add32 read inflated) (add32 start deflated)
          (splice dst read out) in
      if ltb read ilen
      then elim (uncompress (sub32 ilen read) (take deflated (drop start src))) [
        | none ↦ some none
        | some out ↦ rest out
      ]
      else some (some dst)

abbrev pub with_data : SimpleBuffer → Option (Option (List ℕ)) → Option (Option SimpleBuffer)
with_data buf none = none
with_data buf (some none) = some none
with_data buf (some (some bytes)) = some (some (record buf { buf_data = bytes }))

-- `grant` says whether an allocation of that many bytes succeeds, and `junk` is the byte that fresh
-- memory holds. The fuel bounds the blocks of one entry.
module _ (grant : ℕ → Bool) (junk : ℕ) (uncompress : ℕ → List ℕ → Option (List ℕ)) where
  unfoldable pub pfs_decompress : ℕ → Pfs → ℕ → Option (Option SimpleBuffer)
  pfs_decompress fuel pfs i = elim (Array.get_raw pfs.entries i) [
    | none ↦ some none
    | some ent ↦ elim (buf_create grant junk none ent.inflated_len) [
      | none ↦ some none
      | some buf ↦ with_data buf (
          decompress_loop uncompress fuel (drop ent.offset (pfs_data pfs)) ent.inflated_len 0 0
            buf.buf_data)
    ]
  ]

-- The index that the table holds for a name; -1 is `none`.
unfoldable pub pfs_index_by_name : Pfs → List ℕ → ℕ → Option (Option ℕ)
pfs_index_by_name pfs name len = get_str_raw 0 pfs.by_name (some name) (key_length name len)

module _ (grant : ℕ → Bool) (junk : ℕ) (uncompress : ℕ → List ℕ → Option (List ℕ)) where
  unfoldable pub pfs_get : ℕ → Pfs → List ℕ → ℕ → Option (Option SimpleBuffer)
  pfs_get fuel pfs name len = elim (pfs_index_by_name pfs name len) [
    | none ↦ none
    | some none ↦ some none
    | some (some i) ↦ pfs_decompress grant junk uncompress fuel pfs i
  ]
