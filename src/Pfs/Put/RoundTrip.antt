-- ===== src/Pfs/Put/RoundTrip.antt =====
-- `pfs_compress` and `pfs_decompress` of src/pfs.c together.
use eq_data_patcher.Base.{
  ℕ, ◌+◌, ◌*◌, ◌^◌, ◌≤◌, ◌<◌, ◌≡◌, ◌∙◌, sym, ap, arith, inl, inr, Bool, true, Option, some, List,
  [], ◌∷◌, ◌++◌, length, length-append, drop, replicate, length-replicate,
}
use eq_data_patcher.Array.{get_raw}
use eq_data_patcher.Array.Inv.{items, length-items}
use eq_data_patcher.Err.{Err, none_err}
use eq_data_patcher.Sstr.{buf_create}
use eq_data_patcher.Pfs.{PfsEntry, Pfs, pfs_data, with_data, pfs_decompress}
use eq_data_patcher.Pfs.Put.{compress_input_size, compress_buf_size, pfs_compress}
use eq_data_patcher.Pfs.Put.Blocks.{Chunk, encode, content, IsZlib, ArePacked}
use eq_data_patcher.Pfs.Put.Extend.{HasBytes}
use eq_data_patcher.Pfs.Put.Pack.{Stored, pfs_compress_lem}
use eq_data_patcher.Pfs.Put.Unpack.{decompress_loop_lem}

module _ (compress2 uncompress : ℕ → List ℕ → Option (List ℕ))
    (z : IsZlib compress2 uncompress) where
  -- No block is empty.
  chunks_lem : (cs : List Chunk) → ArePacked compress2 cs → length cs ≤ length (content cs)
  chunks_lem [] ps = omega arith
  chunks_lem (c ∷ cs) (p, ps) =
      omega (arith, p.some_byte, chunks_lem cs ps, length-append c.plain (content cs))

  module _ (grant : ℕ → Bool) (junk : ℕ) (fresh : PfsEntry) (bytes post : List ℕ) (pfs : Pfs)
      (i fuel : ℕ) (e : PfsEntry) (here : get_raw pfs.entries i ≡ some e)
      (size : e.inflated_len ≡ length bytes) (room : grant (length bytes + 4) ≡ true)
      (enough : length bytes < fuel) (small : length bytes < 2 ^ 32) where
    unpack_lem :
        (r : Err × PfsEntry)
        → r.0 ≡ none_err
        → Stored grant junk fresh compress2 bytes r
        → drop e.offset (pfs_data pfs) ≡ items r.1.replacement ++ post
        → pfs_decompress grant junk uncompress fuel pfs i
          ≡ some (some (record { buf_length = length bytes; buf_data = bytes }))
    unfolding pfs_decompress buf_create
    unpack_lem (rc, ent') ok (b, len, inl (_, (cs, ps, plain, its, n))) at =
        let count : length (encode cs) ≡ ent'.replacement.count =
          sym (ap length its) ∙ length-items b.valid in
        let one = b.bytes in
        let below : ent'.replacement.capacity < 2 ^ 32 = grind (arith, b.valid, b.bytes) in
        let fits : length (encode cs) < 2 ^ 32 = omega (arith, b.valid.fits) in
        let loop =
          decompress_loop_lem compress2 uncompress z (drop e.offset (pfs_data pfs)) (length bytes)
            cs post fuel 0 0 (replicate (length bytes) junk) ps (at ∙ ap (λ t. t ++ post) its)
            (omega arith) (omega (arith, ap length plain)) small
            (length-replicate (length bytes) junk)
            (omega (arith, chunks_lem cs ps, ap length plain)) in
        rw (pfs_decompress, here)
          (rw (size, room)
            (rw size (
              ap (with_data (record { buf_length = length bytes; buf_data = [] }))
                (loop ∙ ap (λ t. some (some t)) plain))))
    unpack_lem (rc, ent') ok (b, len, inr (inl (wrong, _))) at = cc
    unpack_lem (rc, ent') ok (b, len, inr (inr (wrong, _))) at = cc

  -- Where `pfs_compress` of some bytes into an entry with a valid and empty replacement returns
  -- `ERR_None`, and the replacement's bytes stand in the archive's file at the offset of an
  -- entry with the bytes' number as its length, `pfs_decompress` of that entry gives the bytes,
  -- with a buffer that is granted and more rounds than there are bytes. The library expands what
  -- it compressed wherever that fits, and the bytes fit a number of blocks that together are
  -- below 2 ^ 32.
  pub pfs_decompress-pfs_compress :
      (grant : ℕ → Bool) (junk : ℕ) (fresh ent : PfsEntry) (bytes post : List ℕ) (pfs : Pfs)
      (i fuel k : ℕ) (e : PfsEntry)
      → HasBytes ent
      → ent.replacement.count ≡ 0
      → length bytes ≤ compress_input_size * k
      → (8 + compress_buf_size) * k < 2 ^ 32
      → (pfs_compress grant junk fresh compress2 ent bytes).0 ≡ none_err
      → get_raw pfs.entries i ≡ some e
      → e.inflated_len ≡ length bytes
      → drop e.offset (pfs_data pfs)
        ≡ items (pfs_compress grant junk fresh compress2 ent bytes).1.replacement ++ post
      → grant (length bytes + 4) ≡ true
      → length bytes < fuel
      → pfs_decompress grant junk uncompress fuel pfs i
        ≡ some (some (record { buf_length = length bytes; buf_data = bytes }))
  pfs_decompress-pfs_compress grant junk fresh ent bytes post pfs i fuel k e b none_yet blocks room
        ok here size at granted enough =
      unpack_lem grant junk fresh bytes post pfs i fuel e here size granted enough (omega arith)
        (pfs_compress grant junk fresh compress2 ent bytes) ok
        (pfs_compress_lem grant junk fresh compress2 ent bytes k b none_yet
          (z.fits compress_buf_size) blocks room)
        at
