-- ===== src/Pfs/Open/Walk.antt =====
-- The walk of `pfs_open` over the blocks of an entry, in src/pfs.c.
use eq_data_patcher.Base.{
  ℕ, zero, suc, ◌+◌, ◌-◌, ◌%◌, ◌^◌, ◌≤◌, ◌<◌, ◌≡◌, ◌∙◌, inl, inr, ap, refl, arith, Bool, true,
  false, Option, some, List, [], ◌∷◌, ◌++◌, append_assoc, length, length-append, drop, ltb, lt→ltb,
  le→ltb-false, ltb-false, Bool-cases, if◌then◌else◌, add32,
}
use eq_data_patcher.Bytes.{le32, read32}
use eq_data_patcher.Pfs.{pfs_block_size}
use eq_data_patcher.Pfs.Open.{Scan, ends_at, bad_size, no_end, scan_blocks}
use eq_data_patcher.Pfs.Put.{compress_buf_size}
use eq_data_patcher.Pfs.Put.Blocks.{Chunk, encode, content, ArePacked}
use eq_data_patcher.Pfs.Put.Unpack.{packed-length, plain-length, behind}

-- An end that was found is inside the file.
abbrev pub EndsInside : ℕ → Scan → Type 0
EndsInside len (ends_at last) = last ≤ len
EndsInside len bad_size = Unit {0}
EndsInside len no_end = Unit {0}

if-EndsInside :
    (len : ℕ) (b : Bool) (x y : Scan)
    → EndsInside len x
    → EndsInside len y
    → EndsInside len (if b then x else y)
if-EndsInside len true x y h k = h
if-EndsInside len false x y h k = k

-- From a place inside the file, an end that the walk of `pfs_open` over an entry's blocks finds
-- is inside the file, whatever the bytes are.
pub scan_blocks-EndsInside :
    (fuel : ℕ) (bytes : List ℕ) (len total ilen p : ℕ)
    → p ≤ len
    → EndsInside len (scan_blocks fuel bytes len total ilen p)
unfolding scan_blocks
scan_blocks-EndsInside zero bytes len total ilen p h = tt
scan_blocks-EndsInside (suc fuel) bytes len total ilen p h =
    let body = add32 p pfs_block_size in
    let next = add32 body (read32 bytes p) in
    elim (Bool-cases (ltb len next)) [
      | inl out ↦
          rw out
            (if-EndsInside len (ltb ilen total) _ _ (if-EndsInside len (ltb len body) _ _ tt tt) h)
      | inr inside ↦
          let rest =
            scan_blocks-EndsInside fuel bytes len total (add32 ilen (read32 bytes (p + 4))) next
              (ltb-false _ _ inside) in
          if-EndsInside len (ltb ilen total) _ _
            (if-EndsInside len (ltb len body) _ _ tt (if-EndsInside len (ltb len next) _ _ tt rest))
            h
    ]

module _ (compress2 : ℕ → List ℕ → Option (List ℕ))
    (cap : (src out : List ℕ)
      → compress2 compress_buf_size src ≡ some out
      → length out ≤ compress_buf_size)
    (bytes : List ℕ) (len total : ℕ) (small : len < 2 ^ 32) where
  -- In a file shorter than 2 ^ 32 bytes, over blocks of compressed bytes that lie inside it and
  -- hold as many bytes as the walk has left, the walk of `pfs_open` ends behind the last block,
  -- with more rounds than there are blocks.
  pub scan_blocks-encode :
      (cs : List Chunk) (post : List ℕ) (fuel ilen p : ℕ)
      → ArePacked compress2 cs
      → drop p bytes ≡ encode cs ++ post
      → p + length (encode cs) ≤ len
      → total ≡ ilen + length (content cs)
      → total < 2 ^ 32
      → length cs < fuel
      → scan_blocks fuel bytes len total ilen p ≡ ends_at (p + length (encode cs))
  unfolding scan_blocks
  scan_blocks-encode cs post zero ilen p ps at room size fits enough = absurd (omega arith)
  scan_blocks-encode [] post (suc fuel) ilen p ps at room size fits enough =
      rw (le→ltb-false ilen total (omega arith)) (ap ends_at (omega arith))
  scan_blocks-encode (c ∷ cs) post (suc fuel) ilen p (q, ps) at room size fits enough =
      let tail = encode cs ++ post in
      let split : drop p bytes
          ≡ le32 (length c.packed) ++ le32 (length c.plain) ++ c.packed ++ tail =
        at
        ∙ ap (λ t. le32 (length c.packed) ++ le32 (length c.plain) ++ t)
            (append_assoc c.packed (encode cs) post) in
      let packed_small = cap c.plain c.packed q.result in
      let sizes = length-append c.packed (encode cs) in
      let plains = length-append c.plain (content cs) in
      let deflated = packed-length bytes p c tail split (omega arith) in
      let inflated = plain-length bytes p c tail split (omega (arith, q.small)) in
      let more : ltb ilen total ≡ true = lt→ltb ilen total (omega (arith, q.some_byte)) in
      let start : (p + 8) % 2 ^ 32 ≡ p + 8 = omega arith in
      let next : (p + 8 + length c.packed) % 2 ^ 32 ≡ p + 8 + length c.packed = omega arith in
      let done : (ilen + length c.plain) % 2 ^ 32 ≡ ilen + length c.plain = omega arith in
      let body_in : ltb len (p + 8) ≡ false = le→ltb-false _ _ (omega arith) in
      let next_in : ltb len (p + 8 + length c.packed) ≡ false = le→ltb-false _ _ (omega arith) in
      let rest =
        scan_blocks-encode cs post fuel (ilen + length c.plain) (p + 8 + length c.packed) ps
          (behind bytes p c tail split) (omega arith) (omega arith) fits (omega arith) in
      rw (more, start, deflated, inflated)
        (rw (next, body_in, done) (rw next_in (rest ∙ ap ends_at (omega arith))))

-- In a file shorter than 2 ^ 32 bytes, the walk of `pfs_open` over an entry with some content
-- does not end, with any fuel, where its first block lies inside the file and has the lengths 2
-- ^ 32 - 8 and 0.
pub scan_blocks_stuck :
    (fuel : ℕ) (bytes : List ℕ) (len total p : ℕ)
    → read32 bytes p ≡ 2 ^ 32 - 8
    → read32 bytes (p + 4) ≡ 0
    → 0 < total
    → p + 8 ≤ len
    → len < 2 ^ 32
    → scan_blocks fuel bytes len total 0 p ≡ no_end
unfolding scan_blocks
scan_blocks_stuck zero bytes len total p back none_new more inside small = refl
scan_blocks_stuck (suc fuel) bytes len total p back none_new more inside small =
    let unread : ltb 0 total ≡ true = lt→ltb 0 total more in
    let start : (p + 8) % 2 ^ 32 ≡ p + 8 = omega arith in
    let next : (p + 8 + (2 ^ 32 - 8)) % 2 ^ 32 ≡ p = omega arith in
    let body_in : ltb len (p + 8) ≡ false = le→ltb-false _ _ inside in
    let next_in : ltb len p ≡ false = le→ltb-false _ _ (omega arith) in
    let rest = scan_blocks_stuck fuel bytes len total p back none_new more inside small in
    rw (unread, start, back, none_new) (rw (next, body_in) (rw next_in rest))
