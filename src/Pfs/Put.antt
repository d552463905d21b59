-- ===== src/Pfs/Put.antt =====
-- src/pfs.c: replacing and adding the files of an archive, compressed in blocks.
pub mod Blocks
pub mod Unpack
pub mod Extend
pub mod Pack
pub mod RoundTrip
use eq_data_patcher.Base.{
  ℕ, zero, suc, ◌+◌, Bool, Option, none, some, List, [], ◌∷◌, ◌++◌, ltb, ◌==◌, if◌then◌else◌,
  length, take, drop, set,
}
use eq_data_patcher.Array
use eq_data_patcher.Array.{Array}
use eq_data_patcher.Bytes.{le32}
use eq_data_patcher.Crc.{crc_calc}
use eq_data_patcher.Err.{Err, none_err, generic, out_of_memory, compression}
use eq_data_patcher.HashTbl.{HashTbl}
use eq_data_patcher.HashTbl.Api.{set_str, key_length}
use eq_data_patcher.Sstr.{SimpleBuffer, sstr_create}
use eq_data_patcher.Pfs.{PfsEntry, Pfs, pfs_index_by_name, pfs_data}

abbrev pub compress_input_size : ℕ
compress_input_size = 8192

abbrev pub compress_buf_size : ℕ
compress_buf_size = 8320

-- `memset` to 0, the checksum, the name and an empty replacement.
abbrev pub new_entry : List ℕ → SimpleBuffer → PfsEntry
new_entry name copied = record {
  crc = crc_calc name;
  offset = 0;
  inflated_len = 0;
  deflated_len = 0;
  name = some copied;
  replacement = Array.init_size 1;
}

-- The table's entry is made, or the pushed entry is taken off again.
abbrev pub named : Pfs → ℕ → Err × HashTbl ℕ → Option ℕ × Pfs
named pfs index (none_err, tbl) = (some index, record pfs { by_name = tbl })
named pfs index (rc, tbl) =
    (none, record pfs { by_name = tbl; entries = Array.pop_back pfs.entries })

abbrev pub with_entry : Pfs → ℕ → PfsEntry → Pfs
with_entry pfs i ent = record pfs {
  entries = record pfs.entries { slots = set pfs.entries.slots i ent };
}

-- `grant` says whether an allocation of that many bytes succeeds; `junk` and `fresh` are what fresh
-- memory holds. `compress2 cap src` is the library's: at most `cap` bytes, or `none` for an error.
module _ (grant : ℕ → Bool) (junk : ℕ) (fresh : PfsEntry) where
  append_entry : Pfs → List ℕ → ℕ → Option (Option ℕ × Pfs)
  append_entry pfs name len = elim (sstr_create grant junk name len) [
    | none ↦ some (none, pfs)
    | some copied ↦
        elim (Array.push_back grant fresh pfs.entries (some (new_entry (take len name) copied))) [
          | none ↦ some (none, pfs)
          | some entries ↦
              let index = pfs.entries.count in
              elim (set_str grant 0 pfs.by_name (some name) len index) [
                | none ↦ none
                | some r ↦ some (named (record pfs { entries = entries }) index r)
              ]
        ]
  ]

  -- The index stands for the pointer to the entry, `none` for a null one.
  unfoldable pub pfs_get_or_append_entry : Pfs → List ℕ → ℕ → Option (Option ℕ × Pfs)
  unfolding append_entry
  pfs_get_or_append_entry pfs name len = elim (pfs_index_by_name pfs name len) [
    | none ↦ none
    | some (some index) ↦ some (if ltb index pfs.entries.count then some index else none, pfs)
    | some none ↦ append_entry pfs name (key_length name len)
  ]

  abbrev pub finish_block : PfsEntry → Err × Array ℕ → Err × PfsEntry
  finish_block ent (none_err, ar) = (none_err, record ent { replacement = ar })
  finish_block ent (rc, ar) = (out_of_memory, record ent { replacement = ar })

  abbrev pub append_out : PfsEntry → List ℕ → Err × Array ℕ → Err × PfsEntry
  append_out ent out (none_err, ar) = finish_block ent (Array.append grant junk ar out)
  append_out ent out (rc, ar) = (out_of_memory, record ent { replacement = ar })

  -- The header of a block and its compressed bytes are appended.
  abbrev pub append_block : PfsEntry → ℕ → List ℕ → Err × PfsEntry
  append_block ent r out =
      append_out ent out (Array.append grant junk ent.replacement (le32 (length out) ++ le32 r))

  module _ (compress2 : ℕ → List ℕ → Option (List ℕ)) where
    abbrev pub after_block : (PfsEntry → Err × PfsEntry) → Err × PfsEntry → Err × PfsEntry
    after_block rest (none_err, ent) = rest ent
    after_block rest (rc, ent) = (rc, ent)

    -- The loop of `pfs_compress`: each round takes bytes off, so as many rounds as bytes
    -- are enough, and `generic`, for fuel that runs out, is not reached.
    unfoldable pub compress_loop : ℕ → PfsEntry → List ℕ → Err × PfsEntry
    compress_loop fuel ent [] = (none_err, ent)
    compress_loop zero ent (b ∷ bytes) = (generic, ent)
    compress_loop (suc fuel) ent (b ∷ bytes) =
        let left = length (b ∷ bytes) in
        let r : ℕ = if ltb left compress_input_size then left else compress_input_size in
        let rest : PfsEntry → Err × PfsEntry = λ e. compress_loop fuel e (drop r (b ∷ bytes)) in
        elim (compress2 compress_buf_size (take r (b ∷ bytes))) [
          | none ↦ (compression, ent)
          | some out ↦ after_block rest (append_block ent r out)
        ]

    abbrev pub with_length : Err × PfsEntry → Err × PfsEntry
    with_length (none_err, ent) = (none_err, record ent { deflated_len = ent.replacement.count })
    with_length (rc, ent) = (rc, ent)

    -- The list is the `len` bytes at `data`.
    unfoldable pub pfs_compress : PfsEntry → List ℕ → Err × PfsEntry
    unfolding compress_loop
    pfs_compress ent bytes =
        with_length
          (compress_loop (length bytes) (record ent { inflated_len = length bytes }) bytes)

    abbrev pub put_at : Pfs → ℕ → List ℕ → Err × Pfs
    put_at pfs i bytes = elim (Array.get_raw pfs.entries i) [
      | none ↦ (out_of_memory, pfs)
      | some ent ↦
          let (rc, ent') =
            pfs_compress (record ent { replacement = Array.clear ent.replacement }) bytes in
          (rc, with_entry pfs i ent')
    ]

    unfoldable pub pfs_put : Pfs → List ℕ → ℕ → List ℕ → Option (Err × Pfs)
    unfolding pfs_get_or_append_entry pfs_compress
    pfs_put pfs name namelen bytes = elim (pfs_get_or_append_entry pfs name namelen) [
      | none ↦ none
      | some (none, pfs') ↦ some (out_of_memory, pfs')
      | some (some i, pfs') ↦ some (put_at pfs' i bytes)
    ]

  abbrev pub put_compressed_at : Pfs → ℕ → List ℕ → ℕ → Err × Pfs
  put_compressed_at pfs i bytes inflated = elim (Array.get_raw pfs.entries i) [
    | none ↦ (out_of_memory, pfs)
    | some ent ↦
        let (rc, ar) = Array.append grant junk (Array.clear ent.replacement) bytes in
        (
          rc,
          with_entry pfs i (record ent {
            deflated_len = length bytes;
            inflated_len = inflated;
            replacement = ar;
          }),
        )
  ]

  unfoldable pub pfs_put_compressed : Pfs → List ℕ → ℕ → List ℕ → ℕ → Option (Err × Pfs)
  unfolding pfs_get_or_append_entry
  pfs_put_compressed pfs name namelen bytes inflated =
      elim (pfs_get_or_append_entry pfs name namelen) [
        | none ↦ none
        | some (none, pfs') ↦ some (out_of_memory, pfs')
        | some (some i, pfs') ↦ some (put_compressed_at pfs' i bytes inflated)
      ]

-- The deflated and the inflated length and what the pointer leads to, `none` for a null pointer.
unfoldable pub pfs_get_compressed : Pfs → List ℕ → ℕ → Option (Option (ℕ × ℕ × List ℕ))
pfs_get_compressed pfs name len = elim (pfs_index_by_name pfs name len) [
  | none ↦ none
  | some none ↦ some none
  | some (some i) ↦ elim (Array.get_raw pfs.entries i) [
    | none ↦ some none
    | some ent ↦ some (some (ent.deflated_len, ent.inflated_len, drop ent.offset (pfs_data pfs)))
  ]
]
