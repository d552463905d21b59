-- ===== src/Pfs/Put/Blocks.antt =====
-- The blocks of an archive's entry: what `pfs_compress` of src/pfs.c writes and what its readers take.
use eq_data_patcher.Base.{ℕ, ◌≤◌, ◌<◌, ◌≡◌, Option, some, List, [], ◌∷◌, ◌++◌, length}
use eq_data_patcher.Bytes.{le32}
use eq_data_patcher.Pfs.Put.{compress_input_size, compress_buf_size}

-- One block: the bytes, and what they are compressed to.
pub record Chunk : Type 0 where
  pub plain : List ℕ
  pub packed : List ℕ

-- The bytes in the archive, and the file's bytes.
abbrev pub encode : List Chunk → List ℕ
encode [] = []
encode (c ∷ cs) = le32 (length c.packed) ++ le32 (length c.plain) ++ c.packed ++ encode cs

abbrev pub content : List Chunk → List ℕ
content [] = []
content (c ∷ cs) = c.plain ++ content cs

-- What zlib's documentation says: a result fits the buffer, and is expanded to what it was made
-- from wherever that fits.
pub record IsZlib (compress2 uncompress : ℕ → List ℕ → Option (List ℕ)) : Type 0 where
  pub fits : (cap : ℕ) (src out : List ℕ) → compress2 cap src ≡ some out → length out ≤ cap
  pub expands :
      (cap n : ℕ) (src out : List ℕ)
      → compress2 cap src ≡ some out
      → length src ≤ n
      → uncompress n out ≡ some src

module _ (compress2 : ℕ → List ℕ → Option (List ℕ)) where
  -- A block that `pfs_compress` may write.
  pub record IsPacked (c : Chunk) : Type 0 where
    pub some_byte : 0 < length c.plain
    pub small : length c.plain ≤ compress_input_size
    pub result : compress2 compress_buf_size c.plain ≡ some c.packed

  abbrev pub ArePacked : List Chunk → Type 0
  ArePacked [] = Unit {0}
  ArePacked (c ∷ cs) = IsPacked c × ArePacked cs
