-- ===== src/Pfs/Save.antt =====
-- src/pfs.c, `pfs_save`: an archive is put together in memory and then written to its file.
pub mod Layout
use eq_data_patcher.Base.{
  ℕ, zero, suc, ◌+◌, Bool, true, false, Option, none, some, List, [], ◌∷◌, ◌++◌, ltb, ◌==◌,
  if◌then◌else◌, length, take, drop, add32,
}
use eq_data_patcher.Array
use eq_data_patcher.Array.{Array}
use eq_data_patcher.Array.Inv.{items}
use eq_data_patcher.Array.Sort.{sort}
use eq_data_patcher.Bytes.{le32, write_all}
use eq_data_patcher.Err.{
  Err, none_err, invalid, out_of_memory, out_of_bounds, again, file_operation,
}
use eq_data_patcher.Sstr.{SimpleBuffer, sstr_length, sstr_data}
use eq_data_patcher.Pfs.{PfsEntry, Pfs, pfs_header_size, pfs_file_entry_size, pfs_data}
use eq_data_patcher.Pfs.Open.{signature}
use eq_data_patcher.Pfs.Put.{pfs_compress}

pub record PfsFileEntry : Type 0 where
  pub crc : ℕ
  pub offset : ℕ
  pub inflated_len : ℕ

-- `return a->crc < b->crc`
unfoldable pub pfs_crc_cmp : PfsFileEntry → PfsFileEntry → Bool
pfs_crc_cmp a b = ltb a.crc b.crc

abbrev pub names_crc : ℕ
names_crc = 0x6158_0ac9

-- What is gathered before anything is written.
pub record Gathered : Type 0 where
  pub file_entries : Array PfsFileEntry
  pub data_buf : Array ℕ
  pub name_buf : Array ℕ
  pub position : ℕ

-- The bytes that an entry puts into the file.
abbrev pub entry_bytes : List ℕ → PfsEntry → List ℕ
entry_bytes raw ent =
    if ent.replacement.count == 0
    then take ent.deflated_len (drop ent.offset raw)
    else take ent.deflated_len ent.replacement.slots

abbrev pub file_entry_of : PfsEntry → ℕ → PfsFileEntry
file_entry_of ent p = record { crc = ent.crc; offset = p; inflated_len = ent.inflated_len }

-- The bytes of a header and of a line of the directory.
abbrev pub header_bytes : ℕ → List ℕ
header_bytes offset = le32 offset ++ le32 signature ++ le32 131072

abbrev pub file_entry_bytes : PfsFileEntry → List ℕ
file_entry_bytes fent = le32 fent.crc ++ le32 fent.offset ++ le32 fent.inflated_len

-- What the system does: the two times at which the file was last written, whether it opens, and
-- how many bytes the `fwrite` with that number, counted from 0, writes of those that it is given.
pub record Disk : Type 0 where
  pub time_before : ℕ
  pub time_after : ℕ
  pub opens : Bool
  pub writes : ℕ → ℕ → ℕ

abbrev pub pfs_check_modified : Pfs → ℕ → Bool
pfs_check_modified pfs time = ltb pfs.mod_time time

abbrev pub map_bytes : List PfsFileEntry → List (List ℕ)
map_bytes [] = []
map_bytes (f ∷ fs) = file_entry_bytes f ∷ map_bytes fs

-- `grant` says whether an allocation of that many bytes succeeds; `junk` and `fresh` are what fresh
-- memory holds.
module _ (grant : ℕ → Bool) (junk : ℕ) (fresh : PfsFileEntry) where
  abbrev pub after_append : (Array ℕ → Err × Gathered) → Gathered → Err × Array ℕ → Err × Gathered
  after_append rest g (none_err, ar) = rest ar
  after_append rest g (rc, ar) = (out_of_memory, g)

  -- One entry: its name with length and null byte, its line of the directory, and its bytes.
  unfoldable pub gather_entry :
      (Gathered → Err × Gathered) → List ℕ → Gathered → PfsEntry → SimpleBuffer → Err × Gathered
  gather_entry rest raw g ent name =
      let n = add32 (sstr_length name) 1 in
      after_append
        (λ lens.
          after_append
            (λ names.
              elim (Array.push_back grant fresh g.file_entries
                (some (file_entry_of ent g.position))) [
                  | none ↦ (out_of_memory, g)
                  | some fents ↦
                      after_append
                        (λ blobs. rest (record {
                          file_entries = fents;
                          data_buf = blobs;
                          name_buf = names;
                          position = add32 g.position ent.deflated_len;
                        }))
                        g (Array.append grant junk g.data_buf (entry_bytes raw ent))
                ])
            g (Array.append grant junk lens (take n (sstr_data name))))
        g (Array.append grant junk g.name_buf (le32 n))

  unfoldable pub gather_loop : List ℕ → List PfsEntry → Gathered → Err × Gathered
  gather_loop raw [] g = (none_err, g)
  gather_loop raw (ent ∷ ents) g = elim ent.name [
    | none ↦ (invalid, g)
    | some name ↦ gather_entry (gather_loop raw ents) raw g ent name
  ]

  abbrev pub nothing_gathered : Gathered
  nothing_gathered = record {
    file_entries = Array.init_size pfs_file_entry_size;
    data_buf = Array.init_size 1;
    name_buf = Array.init_size 1;
    position = pfs_header_size;
  }

  -- The number of names, and then every entry in order.
  unfoldable pub gather : List ℕ → Array PfsEntry → Err × Gathered
  gather raw entries =
      after_append
        (λ names. gather_loop raw (items entries) (record nothing_gathered { name_buf = names }))
        nothing_gathered (Array.append grant junk nothing_gathered.name_buf (le32 entries.count))

  module _ (compress2 : ℕ → List ℕ → Option (List ℕ)) where
    abbrev pub names_entry : PfsEntry
    names_entry = record {
      crc = 0;
      offset = 0;
      inflated_len = 0;
      deflated_len = 0;
      name = none;
      replacement = Array.init_size 1;
    }

    -- The second test and the writes; the list is the file, `none` where it was not touched.
    abbrev pub write_file :
        Disk → Pfs → Gathered → Array PfsFileEntry → Array ℕ → Err × Option (List ℕ)
    write_file disk pfs g fents names =
        let offset = add32 g.position names.count in
        if pfs_check_modified pfs disk.time_after
        then (again, none)
        else if disk.opens
        then (let (rc, file) =
              write_all disk.writes 0
                (header_bytes offset
                  ∷ items g.data_buf
                  ∷ items names
                  ∷ le32 fents.count
                  ∷ map_bytes (items fents))
                [] in
            (rc, some file))
        else (out_of_memory, none)

    abbrev pub after_names :
        Disk → Pfs → Gathered → Array PfsFileEntry → Err × PfsEntry → Err × Option (List ℕ)
    after_names disk pfs g fents (none_err, ent) = write_file disk pfs g fents ent.replacement
    after_names disk pfs g fents (rc, ent) = (rc, none)

    abbrev pub after_sort :
        Disk → Pfs → Gathered → Option (Err × Array PfsFileEntry) → Option (Err × Option (List ℕ))
    after_sort disk pfs g none = none
    after_sort disk pfs g (some (none_err, fents)) = some (
        after_names disk pfs g fents
          (pfs_compress grant junk names_entry compress2 names_entry (items g.name_buf)))
    after_sort disk pfs g (some (rc, fents)) = some (out_of_memory, none)

    abbrev pub after_gather : Disk → Pfs → Err × Gathered → Option (Err × Option (List ℕ))
    after_gather disk pfs (none_err, g) =
        elim (Array.push_back grant fresh g.file_entries (
          some
            (record { crc = names_crc; offset = g.position; inflated_len = g.name_buf.count }))) [
              | none ↦ some (out_of_memory, none)
              | some fents ↦ after_sort disk pfs g (sort grant fresh pfs_crc_cmp fents)
            ]
    after_gather disk pfs (rc, g) = some (rc, none)

    -- `none` where the sort of the directory overflows an `int`.
    unfoldable pub pfs_save : Disk → Pfs → Option (Err × Option (List ℕ))
    pfs_save disk pfs =
        if pfs_check_modified pfs disk.time_before
        then some (again, none)
        else after_gather disk pfs (gather (pfs_data pfs) pfs.entries)
