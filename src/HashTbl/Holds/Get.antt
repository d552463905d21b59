-- ===== src/HashTbl/Holds/Get.antt =====
-- `tbl_get_impl` of src/edp_hash_tbl.c on a table whose chains are in order.
use eq_data_patcher.Base.{
  ℕ, ◌≡◌, ◌≢◌, ◌⊎◌, ◌∙◌, sym, refl, ap, inl, inr, arith, false, not, List, [], ◌∷◌, Option, some,
  none, length, Bool-cases, ◌==◌, ==_iff, if◌then◌else◌,
}
use eq_data_patcher.HashTbl.{Key, Entry, HashTbl, is_empty, ent_at, WalkEnd, found, last, walk}
use eq_data_patcher.HashTbl.Api.{begins, get_impl}
use eq_data_patcher.HashTbl.Chain.{Used, content}
use eq_data_patcher.HashTbl.Chain.Walk.{IsEnd, at_found, at_last}
use eq_data_patcher.HashTbl.Chain.Block.{chain_walk}
use eq_data_patcher.HashTbl.Keys.{IsText, Matches, begins-Matches, Matches-begins}
use eq_data_patcher.HashTbl.Holds.{home_in, Lacks, content-Matches, IsTable}

module _ {V : Type 0} (blank : V) where
  -- The end of the walk as the result of the lookup.
  abbrev value_at : List (Entry V) → Option WalkEnd → Option (Option V)
  value_at slots none = none
  value_at slots (some (found i)) = some (some (ent_at blank slots i).value)
  value_at slots (some (last i)) = some none

  -- `tbl_get_impl` after the test for a null pointer.
  abbrev chain_get : List (Entry V) → ℕ → Key → ℕ → Option (Option V)
  chain_get slots capacity key hash =
      let pos = home_in capacity hash in
      let ent = ent_at blank slots pos in
      if is_empty ent
      then some none
      else if not (home_in capacity ent.hash == pos)
      then some none
      else value_at slots (walk blank (begins blank key hash) slots (length slots) pos)

  value_at-elim :
      (slots : List (Entry V)) (w : Option WalkEnd)
      → (elim w [
        | none ↦ none
        | some (last i) ↦ some none
        | some (found i) ↦ some (some (ent_at blank slots i).value)
      ])
        ≡ value_at slots w
  value_at-elim slots none = refl
  value_at-elim slots (some (found i)) = refl
  value_at-elim slots (some (last i)) = refl

  get_in_block :
      (cells size free ent_size : ℕ) (slots : List (Entry V)) (key : Key) (hash : ℕ)
      → slots ≢ []
      → let tbl : HashTbl V = record {
        capacity = cells;
        elem_size = size;
        free_index = free;
        ent_size = ent_size;
        slots = slots;
      } in
        get_impl blank tbl key hash ≡ chain_get slots cells key hash
  unfolding get_impl
  get_in_block cells size free ent_size [] key hash block = absurd (block refl)
  get_in_block cells size free ent_size (e ∷ es) key hash block =
      rw
        (value_at-elim (e ∷ es)
          (walk blank (begins blank key hash) (e ∷ es) (length (e ∷ es)) (home_in cells hash)))
        refl

  pub get_no_block :
      (tbl : HashTbl V)
      → tbl.slots ≡ []
      → (key : Key) (hash : ℕ) → get_impl blank tbl key hash ≡ some none
  unfolding get_impl
  get_no_block tbl nothing key hash = rw (get_impl, nothing) refl

  module _ (tbl : HashTbl V) (v : IsTable blank tbl) (key : Key) (hash : ℕ)
      (text : IsText key) where
    abbrev pos : ℕ
    pos = home_in tbl.capacity hash

    abbrev ents : ℕ → Entry V
    ents = ent_at blank tbl.slots

    has_block : tbl.slots ≢ []
    has_block q = absurd (omega (arith, ap length q, v.sized, v.chained.homes hash))

    get-eq : get_impl blank tbl key hash ≡ chain_get tbl.slots tbl.capacity key hash
    get-eq =
        get_in_block tbl.capacity tbl.elem_size tbl.free_index tbl.ent_size tbl.slots key hash
          has_block

    -- An entry with the key is in the chain of the key's main position.
    headed_at :
        (i : ℕ)
        → Used ents i
        → Matches (ents i) key hash
        → Used ents pos × (home_in tbl.capacity (ents pos).hash ≡ pos)
    headed_at i u (h, _, _) =
        let at = ap (home_in tbl.capacity) h in
        let (hu, hm) = v.chained.headed i u in
        (
          ap (λ k. is_empty (ents k)) (sym at) ∙ hu,
          ap (λ k. home_in tbl.capacity (ents k).hash) (sym at) ∙ hm ∙ at,
        )

    -- The key's value, or nothing where no entry has the key.
    abbrev pub Looked : Type 0
    Looked =
        (Lacks ents key hash × (get_impl blank tbl key hash ≡ some none))
        ⊎ ((i : ℕ) × Used ents i
            × Matches (ents i) key hash
            × (get_impl blank tbl key hash ≡ some (some (ents i).value)))

    in_chain :
        (w : WalkEnd)
        → is_empty (ents pos) ≡ false
        → (own : home_in tbl.capacity (ents pos).hash ≡ pos)
        → walk blank (begins blank key hash) tbl.slots (length tbl.slots) pos ≡ some w
        → IsEnd
            (home_in tbl.capacity)
            tbl.capacity
            ents
            v.depth
            v.chained
            blank
            tbl.slots
            (λ i u. refl)
            (begins blank key hash)
            pos
            (v.depth pos)
            w
        → Looked
    in_chain w used own ends (at_found i u m passes) = inr (
      i,
      u,
      begins-Matches blank key hash (ents i) text passes,
      get-eq ∙ rw (used, own, (==_iff pos pos).1 refl, ends) refl,
    )
    in_chain w used own ends (at_last i u m ended all) = inl (
      λ k ku found_k.
          let fails =
            all k ku (ap (home_in tbl.capacity) found_k.0)
              (omega (arith, v.chained.starts pos used own)) in
          ground (arith, fails, Matches-begins blank key hash (ents k) text found_k),
      get-eq ∙ rw (used, own, (==_iff pos pos).1 refl, ends) refl,
    )

    pub get_impl_lem : Looked
    get_impl_lem = elim (Bool-cases (is_empty (ents pos))) [
      | inl empty ↦
          inl (λ i u m. ground (arith, empty, (headed_at i u m).0), get-eq ∙ rw empty refl)
      | inr used ↦ elim (Bool-cases (home_in tbl.capacity (ents pos).hash == pos)) [
        | inr other ↦ inl (
          λ i u m. ground (arith, other, (==_iff _ _).1 (headed_at i u m).1),
          get-eq ∙ rw (used, other) refl,
        )
        | inl own ↦
            let own' = (==_iff (home_in tbl.capacity (ents pos).hash) pos).0 own in
            let (w, ends, is_end) =
              chain_walk blank (home_in tbl.capacity) tbl.capacity tbl.slots v.depth v.chained
                v.sized (begins blank key hash) pos used own' in
            in_chain w used own' ends is_end
      ]
    ]

  module _ (tbl t : HashTbl V) (v : IsTable blank tbl) (v' : IsTable blank t) (key : Key) (hash : ℕ)
      (text : IsText key) where
    abbrev old : ℕ → Entry V
    old = ent_at blank tbl.slots

    abbrev new : ℕ → Entry V
    new = ent_at blank t.slots

    -- Where the entries with a key are the same, so is the result of its lookup.
    pub get_impl-same :
        ((i : ℕ)
          → Used (ent_at blank tbl.slots) i
          → Matches (ent_at blank tbl.slots i) key hash
          → (j : ℕ) × Used (ent_at blank t.slots) j
            × (content (ent_at blank t.slots j) ≡ content (ent_at blank tbl.slots i)))
        → ((j : ℕ)
            → Used (ent_at blank t.slots) j
            → Matches (ent_at blank t.slots j) key hash
            → (i : ℕ) × Used (ent_at blank tbl.slots) i
              × (content (ent_at blank t.slots j) ≡ content (ent_at blank tbl.slots i)))
        → get_impl blank t key hash ≡ get_impl blank tbl key hash
    get_impl-same forth back = elim (get_impl_lem tbl v key hash text) [
      | inl (lacks, e) ↦ elim (get_impl_lem t v' key hash text) [
        | inl (_, e') ↦ e' ∙ sym e
        | inr (j, ju, jm, _) ↦
            let (i, iu, q) = back j ju jm in
            absurd (lacks i iu (content-Matches (old i) (new j) key hash (sym q) jm))
      ]
      | inr (i, iu, im, e) ↦ elim (get_impl_lem t v' key hash text) [
        | inl (lacks, _) ↦
            let (j, ju, q) = forth i iu im in
            absurd (lacks j ju (content-Matches (new j) (old i) key hash q im))
        | inr (j, ju, jm, e') ↦
            let (k, ku, q) = back j ju jm in
            let (a, b, c) = content-Matches (old k) (new j) key hash (sym q) jm in
            let (a', b', c') = im in
            let same = v.unique k i ku iu (a ∙ sym a') (b ∙ sym b') (c ∙ sym c') in
            e' ∙ ap (λ x. some (some x)) (ap (λ x. x.value) q ∙ same) ∙ sym e
      ]
    ]
