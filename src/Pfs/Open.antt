-- ===== src/Pfs/Open.antt =====
-- src/pfs.c, `pfs_open`: the header, the directory, and the names of an archive.
pub mod Walk
use eq_data_patcher.Base.{
  ℕ, zero, suc, ◌+◌, ◌-◌, Bool, true, false, not, ◌&&◌, Option, none, some, List, [], ◌∷◌, ltb,
  ◌==◌, if◌then◌else◌, length, take, drop, set, add32, sub32,
}
use eq_data_patcher.Array
use eq_data_patcher.Array.{Array}
use eq_data_patcher.Array.Sort.{sort}
use eq_data_patcher.Bytes.{read32}
use eq_data_patcher.Err.{Err, none_err, invalid, out_of_memory, out_of_bounds}
use eq_data_patcher.HashTbl.{HashTbl}
use eq_data_patcher.HashTbl.Api.{set_str}
use eq_data_patcher.Sstr.{
  SimpleBuffer, File, loaded, not_read, overrun, sstr_create, sstr_from_file, sstr_length,
}
use eq_data_patcher.Pfs.{
  PfsEntry, Pfs, pfs_header_size, pfs_block_size, pfs_file_entry_size, pfs_data, pfs_decompress,
}
use eq_data_patcher.Pfs.Put.{with_entry}

-- "PFS " as a number
abbrev pub signature : ℕ
signature = 0x2053_4650

-- `return a->offset < b->offset`
unfoldable pub pfs_cmp : PfsEntry → PfsEntry → Bool
pfs_cmp a b = ltb a.offset b.offset

-- Where a walk over an entry's blocks ends.
pub data Scan : Type 0 where
  ends_at : ℕ → Scan
  bad_size : Scan
  -- the loop does not end
  no_end : Scan

-- `while (ilen < totalLen)` in a file of `len` bytes, with `fuel` rounds at most.
unfoldable pub scan_blocks : ℕ → List ℕ → ℕ → ℕ → ℕ → ℕ → Scan
scan_blocks zero bytes len total ilen p = no_end
scan_blocks (suc fuel) bytes len total ilen p =
    let body = add32 p pfs_block_size in
    let next = add32 body (read32 bytes p) in
    let rest = scan_blocks fuel bytes len total (add32 ilen (read32 bytes (p + 4))) next in
    if ltb ilen total
    then (if ltb len body then bad_size else if ltb len next then bad_size else rest)
    else ends_at p

-- The entry that is read at `p` and whose blocks end at `last`.
abbrev pub entry_at : List ℕ → ℕ → ℕ → PfsEntry
entry_at bytes p last =
    let offset = read32 bytes (p + 4) in
    record {
      crc = read32 bytes p;
      offset = offset;
      inflated_len = read32 bytes (p + 8);
      deflated_len = sub32 last offset;
      name = none;
      replacement = Array.init_size 1;
    }

-- `grant` says whether an allocation of that many bytes succeeds, and `junk` and `fresh` are what
-- fresh memory holds. `fuel` bounds the blocks of one entry.
module _ (grant : ℕ → Bool) (junk : ℕ) (fresh : PfsEntry) where
  -- One round of the loop over the directory; `rest` is what the next ones do.
  abbrev pub scan_entry :
      (Array PfsEntry → Option (Err × Array PfsEntry))
      → List ℕ
      → ℕ
      → Array PfsEntry
      → Scan
      → Option (Err × Array PfsEntry)
  scan_entry rest bytes p entries no_end = none
  scan_entry rest bytes p entries bad_size = some (out_of_bounds, entries)
  scan_entry rest bytes p entries (ends_at last) =
      elim (Array.push_back grant fresh entries (some (entry_at bytes p last))) [
        | none ↦ some (out_of_memory, entries)
        | some entries' ↦ rest entries'
      ]

  unfoldable pub scan_entries :
      ℕ → ℕ → List ℕ → ℕ → ℕ → Array PfsEntry → Option (Err × Array PfsEntry)
  unfolding scan_blocks
  scan_entries fuel zero bytes len p entries = some (none_err, entries)
  scan_entries fuel (suc n) bytes len p entries =
      let next = add32 p pfs_file_entry_size in
      if ltb len next
      then some (out_of_bounds, entries)
      else scan_entry (scan_entries fuel n bytes len next) bytes p entries
          (scan_blocks fuel bytes len (read32 bytes (p + 8)) 0 (read32 bytes (p + 4)))

  -- The name of entry `i` is copied, and then set in the table.
  abbrev pub after_name :
      (Pfs → Option (Err × Pfs)) → Pfs → Option (Err × HashTbl ℕ) → Option (Err × Pfs)
  after_name rest pfs none = none
  after_name rest pfs (some (none_err, tbl)) = rest (record pfs { by_name = tbl })
  after_name rest pfs (some (rc, tbl)) = some (rc, record pfs { by_name = tbl })

  name_entry : (Pfs → Option (Err × Pfs)) → Pfs → ℕ → List ℕ → ℕ → Option (Err × Pfs)
  name_entry rest pfs i name len = elim (Array.get_raw pfs.entries i) [
    | none ↦ some (out_of_bounds, pfs)
    | some ent ↦ elim (sstr_create grant junk name len) [
      | none ↦ some (out_of_memory, with_entry pfs i (record ent { name = none }))
      | some copied ↦
          let pfs' = with_entry pfs i (record ent { name = some copied }) in
          after_name rest pfs' (set_str grant 0 pfs'.by_name (some name) len i)
    ]
  ]

  -- The loop over the names; `i` is its index, with `n` rounds to go.
  unfoldable pub name_loop : ℕ → ℕ → List ℕ → ℕ → ℕ → Pfs → Option (Err × Pfs)
  unfolding name_entry
  name_loop zero i bytes len p pfs = some (none_err, pfs)
  name_loop (suc n) i bytes len p pfs =
      let body = add32 p 4 in
      let namelen = read32 bytes p in
      let next = add32 body namelen in
      if ltb len body
      then some (out_of_bounds, pfs)
      else if ltb len next
      then some (out_of_bounds, pfs)
      else name_entry (name_loop n (i + 1) bytes len next) pfs i (drop body bytes) (sub32 namelen 1)

  module _ (uncompress : ℕ → List ℕ → Option (List ℕ)) (fuel : ℕ) where
    read_names : Pfs → SimpleBuffer → Option (Err × Pfs)
    unfolding name_loop
    read_names pfs names =
        if ltb names.buf_length 4
        then some (out_of_bounds, pfs)
        else name_loop (read32 names.buf_data 0) 0 names.buf_data names.buf_length 4 pfs

    -- The last entry in the order of the offsets holds the names, and is taken off.
    pub take_names : Pfs → Option (Err × Pfs)
    unfolding read_names
    take_names pfs =
        if pfs.entries.count == 0
        then some (invalid, pfs)
        else elim (pfs_decompress grant junk uncompress fuel pfs (pfs.entries.count - 1)) [
          | none ↦ none
          | some none ↦ some (out_of_memory, pfs)
          | some (some names) ↦
              read_names (record pfs { entries = Array.pop_back pfs.entries }) names
        ]

    abbrev pub sort_entries : Pfs → Option (Err × Array PfsEntry) → Option (Err × Pfs)
    sort_entries pfs none = none
    sort_entries pfs (some (none_err, entries)) = take_names (record pfs { entries = entries })
    sort_entries pfs (some (rc, entries)) = some (out_of_memory, record pfs { entries = entries })

    abbrev pub after_scan : Pfs → Option (Err × Array PfsEntry) → Option (Err × Pfs)
    after_scan pfs none = none
    after_scan pfs (some (none_err, entries)) = sort_entries pfs (sort grant fresh pfs_cmp entries)
    after_scan pfs (some (rc, entries)) = some (rc, record pfs { entries = entries })

    -- What follows once the file is read: the header says where the directory is. `none` where a
    -- walk does not end, or the sort of the entries overflows an `int`.
    unfoldable pub open_bytes : Pfs → List ℕ → ℕ → Option (Err × Pfs)
    unfolding scan_entries take_names pfs_cmp
    open_bytes pfs bytes len =
        let p = read32 bytes 0 in
        if ltb len pfs_header_size
        then some (out_of_bounds, pfs)
        else if not (read32 bytes 4 == signature)
        then some (invalid, pfs)
        else if ltb len p
        then some (out_of_bounds, pfs)
        else after_scan pfs (scan_entries fuel (read32 bytes p) bytes len (add32 p 4) pfs.entries)

    -- `file` and `time` are what the system says of the path. `none` also where the file is read
    -- behind its block.
    unfoldable pub pfs_open : Pfs → List ℕ → Option File → ℕ → Option (Err × Pfs)
    unfolding open_bytes
    pfs_open pfs path file time = elim (sstr_from_file grant junk file) [
      | overrun ↦ none
      | not_read ↦ some (out_of_memory, pfs)
      | loaded raw ↦
          let copied = sstr_create grant junk path (length path) in
          let pfs' = record pfs { mod_time = time; raw = some raw; path = copied } in
          elim copied [
            | none ↦ some (out_of_memory, pfs')
            | some _ ↦ open_bytes pfs' raw.buf_data (sstr_length raw)
          ]
    ]
