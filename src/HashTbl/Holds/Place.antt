-- ===== src/HashTbl/Holds/Place.antt =====
-- `tbl_set_impl` of src/edp_hash_tbl.c where it does not grow the table.
use eq_data_patcher.Base.{
  ℕ, ◌+◌, ◌<◌, ◌≤◌, ◌≡◌, ◌≢◌, ◌∙◌, sym, refl, ap, inl, inr, arith, Bool, false, true, List, Option,
  some, none, length, length-set, drop, add32, Bool-cases, ◌==◌, ==_iff,
}
use eq_data_patcher.Err.{none_err, again}
use eq_data_patcher.HashTbl.{
  Key, Entry, HashTbl, free_index_invalid, is_empty, set_next, ent_at, first_empty,
  advance_free_index, WalkEnd, walk,
}
use eq_data_patcher.HashTbl.Place.{
  Outcome, returns, full, is_key, link, put_at, evict, extend, place,
}
use eq_data_patcher.HashTbl.Lookup.{IsWhole}
use eq_data_patcher.HashTbl.Fresh.{IsStorable}
use eq_data_patcher.HashTbl.Chain.{put, put_other, index-cases, Used, Unused, Unused-ne}
use eq_data_patcher.HashTbl.Chain.Walk.{IsEnd, at_found, at_last}
use eq_data_patcher.HashTbl.Chain.Stored.{IsStored, put-cases}
use eq_data_patcher.HashTbl.Chain.Block.{
  write_at, evict_linked, extend_block, evict_block, ent_at-set, fill_block-IsStored,
  extend_block-IsStored, evict_block-IsStored, ent_at-evict_linked, length-evict_linked, evict_prev,
  chain_walk,
}
use eq_data_patcher.HashTbl.Chain.Free.{IsFree, next_empty}
use eq_data_patcher.HashTbl.Keys.{
  Matches, fresh, IsKey, IsStorable-IsText, begins-Matches, Matches-begins, is_key-eq-begins,
  put_at-fresh,
}
use eq_data_patcher.HashTbl.Holds.{home_in, Lacks, IsTable, with_block, stored-IsTable}
use mathlib.Core.Path.{subst}

-- A link uses up no entry.
link_empty :
    {V : Type 0} (f g : ℕ → Entry V) (i n j : ℕ)
    → f j ≡ g j
    → f i ≡ g i
    → is_empty (put f i (set_next n (g i)) j) ≡ is_empty (g j)
link_empty f g i n j same at = elim (put-cases f i (set_next n (g i)) j) [
  | inl (q, e) ↦ ap is_empty e ∙ ap (λ k. is_empty (g k)) (sym q)
  | inr (_, e) ↦ ap is_empty e ∙ ap is_empty same
]

module _ {V : Type 0} (grant : ℕ → Bool) (blank : V) (tbl : HashTbl V) (v : IsTable blank tbl)
    (key : Key) (value : V) (hash : ℕ) (storable : IsStorable grant key) (whole : IsWhole key)
    (kept : IsKey key hash) where
  abbrev ents : ℕ → Entry V
  ents = ent_at blank tbl.slots

  abbrev pos : ℕ
  pos = home_in tbl.capacity hash

  abbrev home : ℕ → ℕ
  home = home_in tbl.capacity

  -- What `tbl_set_impl` does without a call of `tbl_realloc`.
  pub data IsPlaced : Outcome V → Type 0 where
    stored :
        (free : ℕ) (slots : List (Entry V)) (spent : ℕ)
        → Lacks ents key hash
        → IsStored home tbl.capacity ents (ent_at blank slots) (fresh key value hash) spent
        → IsTable blank (with_block blank tbl free slots)
        → IsPlaced (returns none_err (with_block blank tbl free slots))
    present : (i : ℕ) → Used ents i → Matches (ents i) key hash → IsPlaced (returns again tbl)
    no_room : tbl.free_index ≡ free_index_invalid → IsPlaced full

  abbrev index_or_invalid : Option ℕ → ℕ
  index_or_invalid found_at = elim found_at [ none ↦ free_index_invalid | some i ↦ i ]

  -- The free index after the search from the one behind `free`.
  abbrev after_free : List (Entry V) → ℕ → ℕ
  after_free mid free = index_or_invalid (first_empty (drop (add32 free 1) mid) (add32 free 1))

  after_free-eq :
      (mid : List (Entry V)) (free : ℕ) (found_at : Option ℕ)
      → free < tbl.capacity
      → first_empty (drop (free + 1) mid) (free + 1) ≡ found_at
      → after_free mid free ≡ index_or_invalid found_at
  after_free-eq mid free found_at h stop =
      let next : add32 free 1 ≡ free + 1 = omega (arith, h, v.chained.few) in
      ap (λ f. index_or_invalid (first_empty (drop f mid) f)) next ∙ ap index_or_invalid stop

  after_free-IsFree :
      (ents' : ℕ → Entry V) (mid : List (Entry V)) (free : ℕ)
      → length mid ≡ tbl.capacity
      → free < tbl.capacity
      → ((j : ℕ) → j ≢ free → is_empty (ents' j) ≡ is_empty (ent_at blank mid j))
      → ((j : ℕ) → j ≤ free → Used ents' j)
      → IsFree tbl.capacity ents' (after_free mid free)
  after_free-IsFree ents' mid free sized h same below =
      elim (next_empty blank ents' mid free tbl.capacity sized h same below) [
        | inl (stop, all) ↦
            subst (IsFree tbl.capacity ents') (sym (after_free-eq mid free none h stop))
              (inl (refl, all))
        | inr (i, stop, hi, free_i, all) ↦
            subst (IsFree tbl.capacity ents') (sym (after_free-eq mid free (some i) h stop))
              (inr (hi, free_i, all))
      ]

  -- Where no entry is in the main position, or one of another chain, no entry has the key.
  no_chain : (Used ents pos → home (ents pos).hash ≢ pos) → Lacks ents key hash
  no_chain other i u (h, _, _) =
      let at = ap home h in
      let (hu, hm) = v.chained.headed i u in
      other (ap (λ k. is_empty (ents k)) (sym at) ∙ hu)
        (ap (λ k. home (ents k).hash) (sym at) ∙ hm ∙ at)

  written :
      (slots : List (Entry V)) (i : ℕ)
      → put_at grant blank slots i key value hash ≡ write_at blank slots i (fresh key value hash)
  written slots i = put_at-fresh grant blank slots i key value hash storable

  place_fill : Unused ents pos → IsPlaced (place grant blank tbl key value hash)
  unfolding place advance_free_index
  place_fill empty =
      let within = v.chained.homes hash in
      let s =
        fill_block-IsStored blank home tbl.capacity tbl.slots v.depth v.chained v.sized pos
          (fresh key value hash) within empty kept refl in
      let lacks = no_chain (λ u. ground (arith, empty, u)) in
      let slots = write_at blank tbl.slots pos (fresh key value hash) in
      let same_length : length slots ≡ length tbl.slots = length-set tbl.slots pos _ in
      elim v.room [
        | inl (_, all) ↦ ground (arith, empty, all pos within)
        | inr (hf, free, below) ↦ elim (Bool-cases (pos == tbl.free_index)) [
          | inl at_free ↦
              let at_free' = (==_iff pos tbl.free_index).0 at_free in
              let room =
                after_free-IsFree (ent_at blank slots) tbl.slots tbl.free_index v.sized hf
                  (λ j ne. s.others j (λ q. ne (q ∙ at_free')))
                  (λ j le. elim (index-cases j pos) [
                    | inl same ↦ ap (λ k. is_empty (ent_at blank slots k)) same ∙ s.now
                    | inr ne ↦ s.others j ne ∙ below j (omega (arith, le, ne, at_free'))
                  ]) in
              rw (empty, at_free, written tbl.slots pos)
                (stored (after_free tbl.slots tbl.free_index) slots pos lacks s
                  (stored-IsTable blank tbl slots key value hash pos s lacks _ v same_length room))
          | inr other ↦
              let other' : pos ≢ tbl.free_index =
                λ q. ground (arith, other, (==_iff pos tbl.free_index).1 q) in
              let room : IsFree tbl.capacity (ent_at blank slots) tbl.free_index = inr (
                hf,
                s.others tbl.free_index (λ q. other' (sym q)) ∙ free,
                λ j h. elim (index-cases j pos) [
                  | inl same ↦ ap (λ k. is_empty (ent_at blank slots k)) same ∙ s.now
                  | inr ne ↦ s.others j ne ∙ below j h
                ],
              ) in
              rw (empty, other, written tbl.slots pos)
                (stored tbl.free_index slots pos lacks s
                  (stored-IsTable blank tbl slots key value hash pos s lacks _ v same_length room))
        ]
      ]

  module _ (hf : tbl.free_index < tbl.capacity) (free : Unused ents tbl.free_index)
      (below : (j : ℕ) → j < tbl.free_index → Used ents j) (used : Used ents pos) where
    -- The new table after an entry took the free place, when only it differs in `mid`.
    stored_at_free :
        (mid slots : List (Entry V))
        → length mid ≡ tbl.capacity
        → length slots ≡ length tbl.slots
        → ((j : ℕ) → j ≢ tbl.free_index → is_empty (ent_at blank mid j) ≡ is_empty (ents j))
        → Lacks ents key hash
        → IsStored home tbl.capacity ents (ent_at blank slots) (fresh key value hash) tbl.free_index
        → IsPlaced (returns none_err (with_block blank tbl (after_free mid tbl.free_index) slots))
    stored_at_free mid slots sized same_length same lacks s =
        let room =
          after_free-IsFree (ent_at blank slots) mid tbl.free_index sized hf
            (λ j ne. s.others j ne ∙ sym (same j ne))
            (λ j le. elim (index-cases j tbl.free_index) [
              | inl q ↦ ap (λ k. is_empty (ent_at blank slots k)) q ∙ s.now
              | inr ne ↦ s.others j ne ∙ below j (omega (arith, le, ne))
            ]) in
        stored (after_free mid tbl.free_index) slots tbl.free_index lacks s (
          stored-IsTable blank tbl slots key value hash tbl.free_index s lacks _ v same_length room)

    place_evict : home (ents pos).hash ≢ pos → IsPlaced (place grant blank tbl key value hash)
    unfolding place evict advance_free_index
    place_evict far =
        let f = tbl.free_index in
        let some_free : (f == free_index_invalid) ≡ false = ground (arith, hf, v.chained.few) in
        let other : (home (ents pos).hash == pos) ≡ false = ground (arith, far) in
        let (prev, stop, pu, linked) =
          evict_prev blank home tbl.capacity tbl.slots v.depth v.chained v.sized pos f used far
            free in
        let mid = evict_linked blank tbl.slots pos prev f in
        let new = fresh key value hash in
        let slots = evict_block blank tbl.slots pos prev f new in
        let s =
          evict_block-IsStored blank home tbl.capacity tbl.slots v.depth v.chained v.sized pos prev
            f used pu hf free new far linked kept refl in
        let mid_eq =
          ent_at-evict_linked blank home tbl.capacity tbl.slots v.depth v.chained v.sized pos prev f
            used pu hf free in
        let mid_length =
          length-evict_linked blank home tbl.capacity tbl.slots v.depth v.chained v.sized pos prev f
            used pu hf free in
        let placed_length : length slots ≡ length tbl.slots =
          length-set (write_at blank mid pos new) pos _ ∙ length-set mid pos _ ∙ mid_length in
        let same : (j : ℕ) → j ≢ f → is_empty (ent_at blank mid j) ≡ is_empty (ents j) = λ j ne.
          ap (λ g. is_empty (g j)) mid_eq
          ∙ link_empty (put ents f (ents pos)) ents prev f j (put_other ents f (ents pos) j ne)
              (put_other ents f (ents pos) prev (Unused-ne ents prev f pu free)) in
        rw (used, some_free, other)
          (rw (evict, stop, written mid pos)
            (stored_at_free mid slots (mid_length ∙ v.sized) placed_length same
              (no_chain (λ _. far)) s))

    module _ (own : home (ents pos).hash ≡ pos) where
      extend_stopped :
          (w : WalkEnd)
          → walk blank (is_key key hash) tbl.slots (length tbl.slots) pos ≡ some w
          → IsEnd home tbl.capacity ents v.depth v.chained blank tbl.slots
              (λ i u. refl)
              (is_key key hash)
              pos
              (v.depth pos)
              w
          → IsPlaced (extend grant blank tbl key value hash pos)
      unfolding extend advance_free_index
      extend_stopped w stop (at_found i u m passes) =
          rw (extend, stop)
            (present i u (
              begins-Matches blank key hash (ents i) (IsStorable-IsText grant key storable whole)
                (sym (is_key-eq-begins blank key hash (ents i) whole) ∙ passes)))
      extend_stopped w stop (at_last i u m ended all) =
          let f = tbl.free_index in
          let new = fresh key value hash in
          let mid = link blank tbl.slots i f in
          let slots = extend_block blank tbl.slots i f new in
          let s =
            extend_block-IsStored blank home tbl.capacity tbl.slots v.depth v.chained v.sized i f
              new u ended hf free kept (sym m) in
          let mid_eq =
            ent_at-set blank tbl.slots i (set_next f (ents i))
              (omega (arith, v.chained.inside i u, v.sized)) in
          let mid_length : length mid ≡ length tbl.slots = length-set tbl.slots i _ in
          let same : (j : ℕ) → j ≢ f → is_empty (ent_at blank mid j) ≡ is_empty (ents j) =
            λ j ne. ap (λ g. is_empty (g j)) mid_eq ∙ link_empty ents ents i f j refl refl in
          let lacks : Lacks ents key hash = λ k ku match_k.
            let fails =
              all k ku (ap home match_k.0) (omega (arith, v.chained.starts pos used own)) in
            let passes =
              is_key-eq-begins blank key hash (ents k) whole
              ∙ Matches-begins blank key hash (ents k) (IsStorable-IsText grant key storable whole)
                  match_k in
            ground (arith, fails, passes) in
          rw (extend, stop, written mid f)
            (stored_at_free mid slots (mid_length ∙ v.sized) (length-set mid f _ ∙ mid_length) same
              lacks s)

      place_extend : IsPlaced (place grant blank tbl key value hash)
      unfolding place
      place_extend =
          let some_free : (tbl.free_index == free_index_invalid) ≡ false =
            ground (arith, hf, v.chained.few) in
          let own' : (home (ents pos).hash == pos) ≡ true = (==_iff _ _).1 own in
          let (w, stop, is_end) =
            chain_walk blank home tbl.capacity tbl.slots v.depth v.chained v.sized (is_key key hash)
              pos used own in
          rw (used, some_free, own') (extend_stopped w stop is_end)

  place_full :
      Used ents pos
      → tbl.free_index ≡ free_index_invalid
      → IsPlaced (place grant blank tbl key value hash)
  unfolding place
  place_full used none_free =
      let full_now : (tbl.free_index == free_index_invalid) ≡ true = (==_iff _ _).1 none_free in
      rw (used, full_now) (no_room none_free)

  pub place_lem : IsPlaced (place grant blank tbl key value hash)
  place_lem = elim (Bool-cases (is_empty (ents pos))) [
    | inl empty ↦ place_fill empty
    | inr used ↦ elim v.room [
      | inl (none_free, _) ↦ place_full used none_free
      | inr (hf, free, below) ↦ elim (index-cases (home (ents pos).hash) pos) [
        | inl own ↦ place_extend hf free below used own
        | inr far ↦ place_evict hf free below used far
      ]
    ]
  ]
