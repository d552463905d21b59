-- ===== src/Pfs/Put/Pack.antt =====
-- `pfs_compress` of src/pfs.c: what it appends to an entry's blocks.
use eq_data_patcher.Base.{
  ℕ, zero, suc, ◌+◌, ◌*◌, ◌^◌, ◌≤◌, ◌<◌, ◌≡◌, ◌∙◌, ◌⊎◌, inl, inr, sym, ap, refl, arith, Bool, false,
  Option, none, some, List, [], ◌∷◌, ◌++◌, append_assoc, append-nil, if◌then◌else◌, ltb, length,
  length-append, length-take, length-drop, take, drop, take-append-drop,
}
use eq_data_patcher.Array.Inv.{items, length-items}
use eq_data_patcher.Bytes.{le32}
use eq_data_patcher.Err.{Err, none_err, out_of_memory, compression}
use eq_data_patcher.Pfs.{PfsEntry}
use eq_data_patcher.Pfs.Put.{
  compress_input_size, compress_buf_size, append_block, after_block, compress_loop, with_length,
  pfs_compress,
}
use eq_data_patcher.Pfs.Put.Blocks.{Chunk, encode, content, IsPacked, ArePacked}
use eq_data_patcher.Pfs.Put.Extend.{HasBytes, Extended, append_block_lem}

module _ (grant : ℕ → Bool) (junk : ℕ) (fresh : PfsEntry) where
  module _ (compress2 : ℕ → List ℕ → Option (List ℕ)) where
    -- Blocks that hold `bytes` stand behind the entry's blocks; or an allocation was refused; or
    -- the library failed on some of the bytes.
    abbrev pub Packed : PfsEntry → List ℕ → Err × PfsEntry → Type 0
    Packed ent bytes r =
        let (rc, ent') = r in
        HasBytes ent'
        × (ent'.inflated_len ≡ ent.inflated_len)
        × (((rc ≡ none_err)
              × ((cs : List Chunk) × ArePacked compress2 cs
                  × (content cs ≡ bytes)
                  × (items ent'.replacement ≡ items ent.replacement ++ encode cs)))
            ⊎ ((rc ≡ out_of_memory) × ((n : ℕ) × (grant n ≡ false)))
            ⊎ ((rc ≡ compression)
                × ((part : List ℕ) × (length part ≤ compress_input_size)
                    × (compress2 compress_buf_size part ≡ none))))

    after_lem :
        (ent : PfsEntry) (c : Chunk) (bytes tail : List ℕ) (rest : PfsEntry → Err × PfsEntry)
        (r : Err × PfsEntry)
        → IsPacked compress2 c
        → HasBytes ent
        → bytes ≡ c.plain ++ tail
        → Extended grant junk fresh ent
            (le32 (length c.packed) ++ le32 (length c.plain) ++ c.packed)
            r
        → ((e : PfsEntry)
            → HasBytes e
            → e.replacement.count ≡ ent.replacement.count + 8 + length c.packed
            → Packed e tail (rest e))
        → Packed ent bytes (after_block grant junk fresh compress2 rest r)
    after_lem ent c bytes tail rest (none_err, e) p b split (h, size, inl (_, same)) next =
        let front = le32 (length c.packed) ++ le32 (length c.plain) ++ c.packed in
        let n : e.replacement.count ≡ ent.replacement.count + 8 + length c.packed = omega (
          arith,
          length-items h.valid,
          length-items b.valid,
          ap length same,
          length-append (items ent.replacement) front,
        ) in
        let (h', size', r) = next e h n in
        (
          h',
          size' ∙ size,
          elim r [
            | inl (g, (cs, ps, plain, its)) ↦ inl (
              g,
              (
                c ∷ cs,
                (p, ps),
                ap (λ t. c.plain ++ t) plain ∙ sym split,
                its
                    ∙ ap (λ t. t ++ encode cs) same
                    ∙ append_assoc (items ent.replacement) front (encode cs),
              ),
            )
            | inr failed ↦ inr failed
          ],
        )
    after_lem ent c bytes tail rest (out_of_memory, e) p b split (h, size, inr (g, m)) next =
        (h, size, inr (inl (refl, m)))
    after_lem ent c bytes tail rest (_, e) p b split (h, size, inl (wrong, same)) next = cc
    after_lem ent c bytes tail rest (_, e) p b split (h, size, inr (wrong, m)) next = cc

    round_lem :
        (ent : PfsEntry) (bytes : List ℕ) (r : ℕ) (rest : PfsEntry → Err × PfsEntry)
        (o : Option (List ℕ))
        → HasBytes ent
        → 0 < r
        → r ≤ compress_input_size
        → r ≤ length bytes
        → ((src out : List ℕ)
            → compress2 compress_buf_size src ≡ some out
            → length out ≤ compress_buf_size)
        → ent.replacement.count + 8 + compress_buf_size < 2 ^ 32
        → ((e : PfsEntry)
            → HasBytes e
            → e.replacement.count ≤ ent.replacement.count + 8 + compress_buf_size
            → Packed e (drop r bytes) (rest e))
        → compress2 compress_buf_size (take r bytes) ≡ o
        → Packed ent bytes (elim o [
          | none ↦ (compression, ent)
          | some out ↦
              after_block grant junk fresh compress2 rest (append_block grant junk fresh ent r out)
        ])
    round_lem ent bytes r rest none b some_byte small fits cap room next e =
        (b, refl, inr (inr (refl, (take r bytes, omega (arith, length-take r bytes), e))))
    round_lem ent bytes r rest (some out) b some_byte small fits cap room next e =
        let len : length (take r bytes) ≡ r = omega (arith, length-take r bytes) in
        let c : Chunk = record { plain = take r bytes; packed = out } in
        let p : IsPacked compress2 c = record {
          some_byte = omega arith;
          small = omega arith;
          result = e;
        } in
        let bound = cap (take r bytes) out e in
        let put = append_block_lem grant junk fresh ent r out b (omega arith) in
        after_lem ent c bytes (drop r bytes) rest (append_block grant junk fresh ent r out) p b
          (sym (take-append-drop r bytes)) (rw len put) (λ e' h n. next e' h (omega arith))

    compress_loop_lem :
        (k fuel : ℕ) (ent : PfsEntry) (bytes : List ℕ)
        → ((src out : List ℕ)
            → compress2 compress_buf_size src ≡ some out
            → length out ≤ compress_buf_size)
        → HasBytes ent
        → length bytes ≤ fuel
        → length bytes ≤ compress_input_size * k
        → ent.replacement.count + (8 + compress_buf_size) * k < 2 ^ 32
        → Packed ent bytes (compress_loop grant junk fresh compress2 fuel ent bytes)
    unfolding compress_loop
    compress_loop_lem k fuel ent [] z h enough blocks room =
        (h, refl, inl (refl, ([], tt, refl, sym (append-nil (items ent.replacement)))))
    compress_loop_lem k zero ent (b ∷ bytes) z h enough blocks room = absurd (omega arith)
    compress_loop_lem zero (suc fuel) ent (b ∷ bytes) z h enough blocks room = absurd (omega arith)
    compress_loop_lem (suc k) (suc fuel) ent (b ∷ bytes) z h enough blocks room =
        let left = length (b ∷ bytes) in
        let r : ℕ = if ltb left compress_input_size then left else compress_input_size in
        let positive : 0 < r = ground arith in
        let small : r ≤ compress_input_size = ground arith in
        let fits : r ≤ left = ground arith in
        let behind : left ≤ compress_input_size * k + r = ground arith in
        round_lem ent (b ∷ bytes) r _ _ h positive small fits z (omega arith)
          (λ e h' n.
            compress_loop_lem k fuel e (drop r (b ∷ bytes)) z h'
              (omega (arith, length-drop r (b ∷ bytes))) (omega (arith, length-drop r (b ∷ bytes)))
              (omega arith))
          refl

    -- What an entry holds once bytes were compressed into it.
    abbrev pub Stored : List ℕ → Err × PfsEntry → Type 0
    Stored bytes r =
        let (rc, ent') = r in
        HasBytes ent'
        × (ent'.inflated_len ≡ length bytes)
        × (((rc ≡ none_err)
              × ((cs : List Chunk) × ArePacked compress2 cs
                  × (content cs ≡ bytes)
                  × (items ent'.replacement ≡ encode cs)
                  × (ent'.deflated_len ≡ length (encode cs))))
            ⊎ ((rc ≡ out_of_memory) × ((n : ℕ) × (grant n ≡ false)))
            ⊎ ((rc ≡ compression)
                × ((part : List ℕ) × (length part ≤ compress_input_size)
                    × (compress2 compress_buf_size part ≡ none))))

    with_length_lem :
        (ent : PfsEntry) (bytes : List ℕ) (r : Err × PfsEntry)
        → items ent.replacement ≡ []
        → ent.inflated_len ≡ length bytes
        → Packed ent bytes r
        → Stored bytes (with_length grant junk fresh compress2 r)
    with_length_lem ent bytes (none_err, e) empty len (h, size, inl (_, (cs, ps, plain, its))) =
        let same : items e.replacement ≡ encode cs = its ∙ ap (λ t. t ++ encode cs) empty in
        (
          record { valid = h.valid; bytes = h.bytes },
          size ∙ len,
          inl (refl, (cs, ps, plain, same, sym (length-items h.valid) ∙ ap length same)),
        )
    with_length_lem ent bytes (out_of_memory, e) empty len (h, size, inr (inl (_, m))) =
        (h, size ∙ len, inr (inl (refl, m)))
    with_length_lem ent bytes (compression, e) empty len (h, size, inr (inr (_, m))) =
        (h, size ∙ len, inr (inr (refl, m)))
    with_length_lem ent bytes (_, e) empty len (h, size, inl (wrong, _)) = cc
    with_length_lem ent bytes (_, e) empty len (h, size, inr (inl (wrong, _))) = cc
    with_length_lem ent bytes (_, e) empty len (h, size, inr (inr (wrong, _))) = cc

    -- For an entry with a valid and empty replacement, and bytes that fit a number of blocks
    -- that together are below 2 ^ 32, where the library's results fit the buffer, `pfs_compress`
    -- stores the bytes' number and keeps the replacement valid: it returns `ERR_None`, and the
    -- replacement is the blocks of the compressed bytes and the compressed length theirs; or
    -- `ERR_OutOfMemory`, where some allocation is refused; or `ERR_Compression`, where the
    -- library fails on at most 8192 bytes.
    pub pfs_compress_lem :
        (ent : PfsEntry) (bytes : List ℕ) (k : ℕ)
        → HasBytes ent
        → ent.replacement.count ≡ 0
        → ((src out : List ℕ)
            → compress2 compress_buf_size src ≡ some out
            → length out ≤ compress_buf_size)
        → length bytes ≤ compress_input_size * k
        → (8 + compress_buf_size) * k < 2 ^ 32
        → Stored bytes (pfs_compress grant junk fresh compress2 ent bytes)
    unfolding pfs_compress
    pfs_compress_lem ent bytes k b none_yet z blocks room =
        let sized = record ent { inflated_len = length bytes } in
        let r = compress_loop grant junk fresh compress2 (length bytes) sized bytes in
        let empty : items ent.replacement ≡ [] = rw none_yet refl in
        with_length_lem sized bytes r empty refl (
          compress_loop_lem k (length bytes) sized bytes z
            (record { valid = b.valid; bytes = b.bytes }) (omega arith) blocks (omega arith))
