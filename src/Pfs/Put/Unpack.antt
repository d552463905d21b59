-- ===== src/Pfs/Put/Unpack.antt =====
-- `pfs_decompress` of src/pfs.c reads blocks back.
use eq_data_patcher.Base.{
  ℕ, zero, suc, ◌+◌, ◌-◌, ◌%◌, ◌^◌, ◌<◌, ◌≡◌, ◌∙◌, sym, ap, refl, arith, Option, some, List, [],
  ◌∷◌, ◌++◌, append_assoc, append-nil, length, length-append, length-splice, take, drop, take_all,
  take-splice, lt→ltb, le→ltb-false, splice,
}
use eq_data_patcher.Bytes.{
  le32, read32, read32-drop, read32-le32, read32-second, drop-drop, drop-append, take-append_exact,
}
use eq_data_patcher.Pfs.{decompress_loop}
use eq_data_patcher.Pfs.Put.{compress_buf_size}
use eq_data_patcher.Pfs.Put.Blocks.{Chunk, encode, content, IsZlib, ArePacked}

-- Where the bytes from `p` on start with a block, its header can be read, and what follows.
module _ (src : List ℕ) (p : ℕ) (c : Chunk) (tail : List ℕ)
    (at : drop p src ≡ le32 (length c.packed) ++ le32 (length c.plain) ++ c.packed ++ tail) where
  pub packed-length : length c.packed < 2 ^ 32 → read32 src p ≡ length c.packed
  packed-length small =
      sym (read32-drop p src 0 p (omega arith))
      ∙ ap (λ s. read32 s 0) at
      ∙ read32-le32 (length c.packed) _ small

  pub plain-length : length c.plain < 2 ^ 32 → read32 src (p + 4) ≡ length c.plain
  plain-length small =
      sym (read32-drop p src 4 (p + 4) refl)
      ∙ ap (λ s. read32 s 4) at
      ∙ read32-second (length c.packed) (length c.plain) _ small

  pub body : drop (p + 8) src ≡ c.packed ++ tail
  body = sym (drop-drop p 8 (p + 8) src refl) ∙ ap (drop 8) at

  pub behind : drop (p + 8 + length c.packed) src ≡ tail
  behind =
      sym (drop-drop (p + 8) (length c.packed) (p + 8 + length c.packed) src refl)
      ∙ ap (drop (length c.packed)) body
      ∙ drop-append c.packed tail 0 (length c.packed) (omega arith)

module _ (compress2 uncompress : ℕ → List ℕ → Option (List ℕ)) (z : IsZlib compress2 uncompress)
    (src : List ℕ) (ilen : ℕ) where
  pub decompress_loop_lem :
      (cs : List Chunk) (post : List ℕ) (fuel read pos : ℕ) (dst : List ℕ)
      → ArePacked compress2 cs
      → drop pos src ≡ encode cs ++ post
      → pos + length (encode cs) < 2 ^ 32
      → ilen ≡ read + length (content cs)
      → ilen < 2 ^ 32
      → length dst ≡ ilen
      → length cs < fuel
      → decompress_loop uncompress fuel src ilen read pos dst
        ≡ some (some (take read dst ++ content cs))
  unfolding decompress_loop
  decompress_loop_lem cs post zero read pos dst p at room size fits len enough =
      absurd (omega arith)
  decompress_loop_lem [] post (suc fuel) read pos dst p at room size fits len enough =
      rw (le→ltb-false read ilen (omega arith)) (
        ap (λ d. some (some d))
          (sym (append-nil (take read dst) ∙ take_all read dst (omega arith))))
  decompress_loop_lem (c ∷ cs) post (suc fuel) read pos dst (p, ps) at room size fits len enough =
      let tail = encode cs ++ post in
      let split : drop pos src
          ≡ le32 (length c.packed) ++ le32 (length c.plain) ++ c.packed ++ tail =
        at
        ∙ ap (λ t. le32 (length c.packed) ++ le32 (length c.plain) ++ t)
            (append_assoc c.packed (encode cs) post) in
      let packed_small = z.fits compress_buf_size c.plain c.packed p.result in
      let deflated = packed-length src pos c tail split (omega arith) in
      let inflated = plain-length src pos c tail split (omega (arith, p.small)) in
      let sizes = length-append c.packed (encode cs) in
      let plains = length-append c.plain (content cs) in
      let more : read < ilen = omega (arith, p.some_byte) in
      let start : (pos + 8) % 2 ^ 32 ≡ pos + 8 = omega arith in
      let cap : (ilen + 2 ^ 32 - read) % 2 ^ 32 ≡ ilen - read = omega arith in
      let out : take (length c.packed) (drop (pos + 8) src) ≡ c.packed =
        ap (take (length c.packed)) (body src pos c tail split) ∙ take-append_exact c.packed tail in
      let result =
        z.expands compress_buf_size (ilen - read) c.plain c.packed p.result (omega arith) in
      let next : (pos + 8 + length c.packed) % 2 ^ 32 ≡ pos + 8 + length c.packed = omega arith in
      let done : (read + length c.plain) % 2 ^ 32 ≡ read + length c.plain = omega arith in
      let read' = read + length c.plain in
      let dst' = splice dst read c.plain in
      let rest =
        decompress_loop_lem cs post fuel read' (pos + 8 + length c.packed) dst' ps
          (behind src pos c tail split) (omega arith) (omega arith) fits
          (length-splice dst read c.plain ∙ len) (omega arith) in
      let front : take read' dst' ≡ take read dst ++ c.plain =
        take-splice read dst c.plain read' refl (omega arith) in
      let same : take read' dst' ++ content cs ≡ take read dst ++ (c.plain ++ content cs) =
        ap (λ t. t ++ content cs) front ∙ append_assoc (take read dst) c.plain (content cs) in
      rw (lt→ltb read ilen more, deflated, start, cap, out, result)
        (rw (deflated, inflated, start, next, done) (rest ∙ ap (λ t. some (some t)) same))
