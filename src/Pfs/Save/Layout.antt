-- ===== src/Pfs/Save/Layout.antt =====
-- `pfs_save` of src/pfs.c: when the file is touched, and what stands in it.
use eq_data_patcher.Base.{
  ℕ, ◌^◌, ◌<◌, ◌≤◌, ◌≡◌, ◌≢◌, ◌⊎◌, Bool, Option, none, some, List, ◌∷◌, add32,
}
use eq_data_patcher.Array
use eq_data_patcher.Array.{Array}
use eq_data_patcher.Array.Inv.{items}
use eq_data_patcher.Array.Sort.{sort}
use eq_data_patcher.Bytes.{le32, joined, Written}
use eq_data_patcher.Err.{Err, none_err}
use eq_data_patcher.Pfs.{PfsEntry, Pfs, pfs_data}
use eq_data_patcher.Pfs.Put.{pfs_compress}
use eq_data_patcher.Pfs.Save.{
  PfsFileEntry, Gathered, pfs_crc_cmp, names_crc, names_entry, header_bytes, map_bytes, Disk,
  gather,
}

-- The file's bytes: the header, the entries' bytes, the compressed names, and the directory.
abbrev pub image : Gathered → Array PfsFileEntry → Array ℕ → List ℕ
image g fents names = joined (
    header_bytes (add32 g.position names.count)
    ∷ items g.data_buf
    ∷ items names
    ∷ le32 fents.count
    ∷ map_bytes (items fents))

module _ (grant : ℕ → Bool) (junk : ℕ) (fresh : PfsFileEntry)
    (compress2 : ℕ → List ℕ → Option (List ℕ)) (pfs : Pfs) where
  -- The line of the directory that leads to the names.
  abbrev pub names_line : Gathered → PfsFileEntry
  names_line g = record { crc = names_crc; offset = g.position; inflated_len = g.name_buf.count }

  -- What is written: the gathered entries, the sorted directory, and the names compressed.
  pub record IsReady (g : Gathered) (fents : Array PfsFileEntry) (names : Array ℕ) : Type 0 where
    pub gathered : gather grant junk fresh (pfs_data pfs) pfs.entries ≡ (none_err, g)
    pub lines : Array PfsFileEntry
    pub pushed : Array.push_back grant fresh g.file_entries (some (names_line g)) ≡ some lines
    pub sorted : sort grant fresh pfs_crc_cmp lines ≡ some (none_err, fents)
    pub ent : PfsEntry
    pub compressed :
        pfs_compress grant junk
          (names_entry grant junk fresh compress2)
          compress2
          (names_entry grant junk fresh compress2)
          (items g.name_buf)
        ≡ (none_err, ent)
    pub blocks : ent.replacement ≡ names

  module _ (disk : Disk) where
    -- Untouched, with an error; or the archive was not modified since it was opened, and the file
    -- holds all of an image, or the front of one where a write failed.
    abbrev pub Saved : Err × Option (List ℕ) → Type 0
    Saved r =
        let (rc, file) = r in
        ((file ≡ none) × (rc ≢ none_err))
        ⊎ ((disk.time_before ≤ pfs.mod_time)
            × (disk.time_after ≤ pfs.mod_time)
            × ((g : Gathered) × (fents : Array PfsFileEntry) × (names : Array ℕ) × (out : List ℕ)
                × IsReady g fents names
                × (file ≡ some out)
                × Written (image g fents names) (rc, out)))

    -- Where the sort of the directory overflows, what was gathered has more than 2^30 lines.
    abbrev pub Ends : Option (Err × Option (List ℕ)) → Type 0
    Ends none =
        (disk.time_before ≤ pfs.mod_time)
        × ((g : Gathered) × (lines : Array PfsFileEntry) × (gather grant junk fresh (pfs_data pfs)
                pfs.entries
              ≡ (none_err, g))
            × (Array.push_back grant fresh g.file_entries (some (names_line g)) ≡ some lines)
            × (2 ^ 30 < lines.count))
    Ends (some r) = Saved r
