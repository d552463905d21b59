-- ===== src/Tests/Archives.antt =====
-- The theorems on src/pfs.c at entries and bytes that meet their hypotheses.
use eq_data_patcher.Base.{
  ℕ, ◌≤◌, ◌≡◌, refl, arith, true, Option, none, some, List, [], ◌∷◌, ◌++◌, leb, if◌then◌else◌,
  length,
}
use eq_data_patcher.Array
use eq_data_patcher.Array.Inv.{init_size-IsValid}
use eq_data_patcher.Bytes.{le32, read32}
use eq_data_patcher.Sstr.{SimpleBuffer}
use eq_data_patcher.Pfs.{PfsEntry, Pfs, pfs_init, pfs_decompress}
use eq_data_patcher.Pfs.Open.{scan_blocks, ends_at, no_end}
use eq_data_patcher.Pfs.Open.Walk.{
  EndsInside, scan_blocks-EndsInside, scan_blocks-encode, scan_blocks_stuck,
}
use eq_data_patcher.Pfs.Put.{pfs_compress, compress_buf_size}
use eq_data_patcher.Pfs.Put.Blocks.{Chunk, IsZlib, ArePacked}
use eq_data_patcher.Pfs.Put.Extend.{HasBytes}
use eq_data_patcher.Pfs.Put.Pack.{Stored, pfs_compress_lem}
use eq_data_patcher.Pfs.Put.RoundTrip.{pfs_decompress-pfs_compress}
use eq_data_patcher.Pfs.Save.{PfsFileEntry, Disk}

-- A library that stores bytes as they are.
abbrev keep : ℕ → List ℕ → Option (List ℕ)
keep cap bytes = if leb (length bytes) cap then some bytes else none

keep_fits : (cap : ℕ) (bytes out : List ℕ) → keep cap bytes ≡ some out → length out ≤ cap
keep_fits cap bytes out e = ground arith

keep_expands :
    (cap n : ℕ) (bytes out : List ℕ)
    → keep cap bytes ≡ some out
    → length bytes ≤ n
    → keep n out ≡ some bytes
keep_expands cap n bytes out e fits = ground arith

keep-IsZlib : IsZlib keep keep
keep-IsZlib = record { fits = keep_fits; expands = keep_expands }

abbrev hi : List ℕ
hi = 104 ∷ 105 ∷ []

abbrev hi_chunk : Chunk
hi_chunk = record { plain = hi; packed = hi }

abbrev blank_name : SimpleBuffer
blank_name = record { buf_length = 1; buf_data = 0 ∷ [] }

abbrev blank_entry : PfsEntry
blank_entry = record {
  crc = 0;
  offset = 0;
  inflated_len = 0;
  deflated_len = 0;
  name = none;
  replacement = Array.init_size 1;
}

blank-HasBytes : HasBytes blank_entry
unfolding Array.init_size
blank-HasBytes = record { valid = init_size-IsValid 1 (omega arith); bytes = refl }

abbrev hi_entry : PfsEntry
hi_entry = record blank_entry { offset = 3; inflated_len = 2; deflated_len = 10 }

abbrev hi_bytes : List ℕ
hi_bytes = 1 ∷ 2 ∷ 3 ∷ le32 2 ++ le32 2 ++ hi ++ 9 ∷ []

abbrev hi_archive : Pfs
hi_archive = record pfs_init {
  entries = record { count = 1; capacity = 1; elem_size = 48; slots = hi_entry ∷ [] };
  raw = some (record { buf_length = 14; buf_data = hi_bytes });
}

pfs_decompress-pfs_compress_example :
    pfs_decompress (λ n. true) 7 keep 3 hi_archive 0
    ≡ some (some (record { buf_length = 2; buf_data = hi }))
unfolding pfs_compress pfs_init Array.init_size Array.append Array.reserve Array.get_raw
pfs_decompress-pfs_compress_example =
    pfs_decompress-pfs_compress keep keep keep-IsZlib (λ n. true) 7 blank_entry blank_entry hi
      (9 ∷ []) hi_archive 0 3 1 hi_entry blank-HasBytes refl (omega arith) (omega arith) refl refl
      refl refl refl (omega arith)

pfs_compress_lem_example :
    Stored
      (λ n. true)
      7
      blank_entry
      keep
      hi
      (pfs_compress (λ n. true) 7 blank_entry keep blank_entry hi)
unfolding Array.init_size
pfs_compress_lem_example =
    pfs_compress_lem (λ n. true) 7 blank_entry keep blank_entry hi 1 blank-HasBytes refl
      (keep_fits compress_buf_size) (omega arith) (omega arith)

hi-ArePacked : ArePacked keep (hi_chunk ∷ [])
hi-ArePacked = (record { some_byte = omega arith; small = omega arith; result = refl }, tt)

scan_blocks-encode_example : scan_blocks 2 hi_bytes 14 2 0 3 ≡ ends_at 13
scan_blocks-encode_example =
    scan_blocks-encode keep (keep_fits compress_buf_size) hi_bytes 14 2 (omega arith)
      (hi_chunk ∷ []) (9 ∷ []) 2 0 3 hi-ArePacked refl (omega arith) refl (omega arith)
      (omega arith)

scan_blocks-EndsInside_example : EndsInside 14 (scan_blocks 2 hi_bytes 14 2 0 3)
scan_blocks-EndsInside_example = scan_blocks-EndsInside 2 hi_bytes 14 2 0 3 (omega arith)

-- A block whose length leads back to its start.
abbrev looping : List ℕ
looping = 248 ∷ 255 ∷ 255 ∷ 255 ∷ 0 ∷ 0 ∷ 0 ∷ 0 ∷ []

scan_blocks_stuck_example : scan_blocks 1000 looping 8 2 0 0 ≡ no_end
unfolding read32
scan_blocks_stuck_example =
    scan_blocks_stuck 1000 looping 8 2 0 refl refl (omega arith) (omega arith) (omega arith)

abbrev no_line : PfsFileEntry
no_line = record { crc = 0; offset = 0; inflated_len = 0 }

abbrev disk : Disk
disk = record { time_before = 1; time_after = 1; opens = true; writes = λ k n. n }
