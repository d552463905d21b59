-- ===== src/HashTbl/Holds/Rehash.antt =====
-- A round of the loop of `tbl_realloc` of src/edp_hash_tbl.c over the old block.
pub mod Loop
use eq_data_patcher.Base.{
  ℕ, zero, suc, ◌+◌, ◌<◌, ◌≡◌, ◌≢◌, ◌⊎◌, ◌∙◌, sym, refl, ap, inl, inr, arith, false, true, List, [],
  ◌∷◌, some, length, length-set, bit_and, Bool-cases, ◌==◌, ==_iff,
}
use eq_data_patcher.HashTbl.{Entry, next_invalid, is_empty, set_next, ent_at, WalkEnd, walk}
use eq_data_patcher.HashTbl.Place.{link}
use eq_data_patcher.HashTbl.Resize.{
  Rehash, next_free, rehash_evict, rehash_extend, rehash_one, rehash,
}
use eq_data_patcher.HashTbl.Chain.{index-cases, Used, Unused, content, IsChained}
use eq_data_patcher.HashTbl.Chain.Walk.{IsEnd, at_found, at_last}
use eq_data_patcher.HashTbl.Chain.Stored.{IsStored}
use eq_data_patcher.HashTbl.Chain.Block.{
  write_at, evict_linked, extend_block, evict_block, fill_block-IsStored, extend_block-IsStored,
  evict_block-IsStored, length-evict_linked, evict_prev, chain_walk,
}
use eq_data_patcher.HashTbl.Chain.Free.{used_count, used_count-spent, used_count_all, next_empty}
use mathlib.Core.Path.{subst}

module _ {V : Type 0} (blank : V) (mask cap : ℕ) where
  abbrev home : ℕ → ℕ
  home hash = bit_and hash mask

  -- The new block in the middle of the loop, with a free entry.
  pub record IsFilling (slots : List (Entry V)) (free : ℕ) : Type 0 where
    pub sized : length slots ≡ cap
    pub depth : ℕ → ℕ
    pub chained : IsChained home cap (ent_at blank slots) depth
    pub inside : free < cap
    pub unused : Unused (ent_at blank slots) free
    pub below : (j : ℕ) → j < free → Used (ent_at blank slots) j

  -- One round puts the entry into the block.
  pub data IsRound (slots : List (Entry V)) (old : Entry V) : Rehash V → Type 0 where
    copied :
        (slots' : List (Entry V)) (free' spent : ℕ)
        → IsFilling slots' free'
        → IsStored home cap
            (ent_at blank slots)
            (ent_at blank slots')
            (set_next next_invalid old)
            spent
        → IsRound slots old (some (slots', free'))

  module _ (slots : List (Entry V)) (free : ℕ) (old : Entry V) (v : IsFilling slots free)
      (room : suc (used_count (ent_at blank slots) cap) < cap) (used : is_empty old ≡ false) where
    abbrev ents : ℕ → Entry V
    ents = ent_at blank slots

    abbrev pos : ℕ
    pos = home old.hash

    at_free :
        (slots' : List (Entry V))
        → length slots' ≡ length slots
        → IsStored home cap ents (ent_at blank slots') (set_next next_invalid old) free
        → IsRound slots old (next_free slots' free)
    unfolding next_free
    at_free slots' same s =
        let sized : length slots' ≡ cap = same ∙ v.sized in
        elim (next_empty blank (ent_at blank slots') slots' free cap sized v.inside (λ j ne. refl)
          (λ j le. elim (index-cases j free) [
            | inl q ↦ ap (λ k. is_empty (ent_at blank slots' k)) q ∙ s.now
            | inr ne ↦ s.others j ne ∙ v.below j (omega (arith, le, ne))
          ])) [
            | inl (_, all) ↦
                let more =
                  used_count-spent ents (ent_at blank slots') free s.others s.was s.now cap
                    v.inside in
                let all_used = used_count_all (ent_at blank slots') cap all in
                absurd (omega (arith, more, all_used, room))
            | inr (i, stop, hi, free_i, all) ↦
                rw (next_free, stop)
                  (copied slots' i free
                    (record {
                      sized = sized;
                      depth = s.depth;
                      chained = s.chained;
                      inside = hi;
                      unused = free_i;
                      below = all;
                    })
                    s)
          ]

    one_fill : Unused ents pos → IsRound slots old (rehash_one blank mask slots free old)
    unfolding rehash_one
    one_fill empty =
        let slots' = write_at blank slots pos old in
        let s =
          fill_block-IsStored blank home cap slots v.depth v.chained v.sized pos old
            (v.chained.homes old.hash) empty used refl in
        let same_length : length slots' ≡ length slots = length-set slots pos _ in
        elim (index-cases pos free) [
          | inl same ↦
              let same' : (pos == free) ≡ true = (==_iff pos free).1 same in
              let s' =
                subst
                  (λ k. IsStored home cap ents (ent_at blank slots') (set_next next_invalid old) k)
                  same s in
              rw (empty, same') (at_free slots' same_length s')
          | inr other ↦
              let other' : (pos == free) ≡ false = ground (arith, other) in
              rw (empty, other')
                (copied slots' free pos
                  (record {
                    sized = same_length ∙ v.sized;
                    depth = s.depth;
                    chained = s.chained;
                    inside = v.inside;
                    unused = s.others free (λ q. other (sym q)) ∙ v.unused;
                    below = λ j h. elim (index-cases j pos) [
                      | inl same ↦ ap (λ k. is_empty (ent_at blank slots' k)) same ∙ s.now
                      | inr ne ↦ s.others j ne ∙ v.below j h
                    ];
                  })
                  s)
        ]

    one_evict :
        Used ents pos
        → home (ents pos).hash ≢ pos
        → IsRound slots old (rehash_one blank mask slots free old)
    unfolding rehash_one rehash_evict
    one_evict taken far =
        let other : (home (ents pos).hash == pos) ≡ false = ground (arith, far) in
        let (prev, stop, pu, linked) =
          evict_prev blank home cap slots v.depth v.chained v.sized pos free taken far v.unused in
        let mid = evict_linked blank slots pos prev free in
        let slots' = evict_block blank slots pos prev free old in
        let s =
          evict_block-IsStored blank home cap slots v.depth v.chained v.sized pos prev free taken pu
            v.inside v.unused old far linked used refl in
        let mid_length =
          length-evict_linked blank home cap slots v.depth v.chained v.sized pos prev free taken pu
            v.inside v.unused in
        let same_length : length slots' ≡ length slots =
          length-set (write_at blank mid pos old) pos _ ∙ length-set mid pos _ ∙ mid_length in
        rw (taken, other) (rw (rehash_evict, stop) (at_free slots' same_length s))

    extend_stopped :
        (taken : Used ents pos)
        → home (ents pos).hash ≡ pos
        → (w : WalkEnd) → walk blank (λ _. false) slots (length slots) pos ≡ some w
        → IsEnd home cap ents v.depth v.chained blank slots
            (λ i u. refl)
            (λ _. false)
            pos
            (v.depth pos)
            w
        → IsRound slots old (rehash_extend blank slots free old pos)
    unfolding rehash_extend
    extend_stopped taken own w stop (at_found i u m passes) = ground (arith, passes)
    extend_stopped taken own w stop (at_last i u m ended all) =
        let slots' = extend_block blank slots i free old in
        let s =
          extend_block-IsStored blank home cap slots v.depth v.chained v.sized i free old u ended
            v.inside v.unused used (sym m) in
        let same_length : length slots' ≡ length slots =
          length-set (link blank slots i free) free _ ∙ length-set slots i _ in
        rw (rehash_extend, stop) (at_free slots' same_length s)

    one_extend :
        Used ents pos
        → home (ents pos).hash ≡ pos
        → IsRound slots old (rehash_one blank mask slots free old)
    unfolding rehash_one
    one_extend taken own =
        let own' : (home (ents pos).hash == pos) ≡ true = (==_iff _ _).1 own in
        let (w, stop, is_end) =
          chain_walk blank home cap slots v.depth v.chained v.sized (λ _. false) pos taken own in
        rw (taken, own') (extend_stopped taken own w stop is_end)

    pub rehash_one_lem : IsRound slots old (rehash_one blank mask slots free old)
    rehash_one_lem = elim (Bool-cases (is_empty (ents pos))) [
      | inl empty ↦ one_fill empty
      | inr taken ↦ elim (index-cases (home (ents pos).hash) pos) [
        | inl own ↦ one_extend taken own
        | inr far ↦ one_evict taken far
      ]
    ]
