-- ===== src/HashTbl/Map/Update.antt =====
-- `tbl_set_impl` of src/edp_hash_tbl.c updates the map that the table holds.
use eq_data_patcher.Base.{
  ◌<◌, ℕ, suc, ◌≡◌, ◌⊎◌, ◌∙◌, sym, refl, ap, inl, inr, arith, Bool, List, [], ◌∷◌, Option, some,
  none, length,
}
use eq_data_patcher.Err.{Err, none_err, again, out_of_memory}
use eq_data_patcher.HashTbl.{Key, Entry, HashTbl, free_index_invalid, ent_at, alloc_default}
use eq_data_patcher.HashTbl.Place.{Outcome, place}
use eq_data_patcher.HashTbl.Resize.{Resized, resized, refused, diverged, realloc}
use eq_data_patcher.HashTbl.Api.{ensure_data, set_impl, get_impl}
use eq_data_patcher.HashTbl.Lookup.{IsWhole}
use eq_data_patcher.HashTbl.Fresh.{IsStorable}
use eq_data_patcher.HashTbl.Chain.{Used}
use eq_data_patcher.HashTbl.Keys.{IsKey, IsText, IsStorable-IsText, Matches, fresh}
use eq_data_patcher.HashTbl.Chain.Stored.{IsStored}
use eq_data_patcher.HashTbl.Holds.{home_in, Lacks, content-Matches, IsTable, with_block}
use eq_data_patcher.HashTbl.Holds.Get.{get_no_block, get_impl_lem, get_impl-same}
use eq_data_patcher.HashTbl.Holds.Place.{IsPlaced, stored, present, no_room, place_lem}
use eq_data_patcher.HashTbl.Holds.Grow.{
  IsSized, IsAllocated, alloc_default_lem, IsGrown, grown, realloc_lem,
}
use eq_data_patcher.HashTbl.Holds.Grow
use eq_data_patcher.HashTbl.Chain.Free.{used_count-spent, used_count_all, used_count_none}
use eq_data_patcher.HashTbl.Map.{
  IsMap, block, SameGets, IsBounded, Keeps, IsUpdate, IsUpdated, set_to,
}
use eq_data_patcher.HashTbl.Map

list-cases : {A : Type 0} (xs : List A) → (xs ≡ []) ⊎ ((x : A) × (ys : List A) × (xs ≡ x ∷ ys))
list-cases [] = inl refl
list-cases (x ∷ xs) = inr (x, xs, refl)

module _ {V : Type 0} (grant : ℕ → Bool) (blank : V) (key : Key) (value : V) (hash : ℕ)
    (storable : IsStorable grant key) (whole : IsWhole key) (kept : IsKey key hash) where
  text : IsText key
  text = IsStorable-IsText grant key storable whole

  module _ (t : HashTbl V) (v : IsTable blank t) where
    -- The map after a new entry was stored.
    stored-IsUpdate :
        (slots : List (Entry V)) (free spent : ℕ)
        → Lacks (ent_at blank t.slots) key hash
        → IsStored
            (home_in t.capacity)
            t.capacity
            (ent_at blank t.slots)
            (ent_at blank slots)
            (fresh key value hash)
            spent
        → IsTable blank (with_block blank t free slots)
        → IsUpdate blank t (with_block blank t free slots) key value hash none_err
    stored-IsUpdate slots free spent lacks s v' =
        let t' = with_block blank t free slots in
        let ents' = ent_at blank slots in
        let new = fresh key value hash in
        let before : get_impl blank t key hash ≡ some none =
          elim (get_impl_lem blank t v key hash text) [
            | inl (_, e) ↦ e
            | inr (i, u, m, _) ↦ absurd (lacks i u m)
          ] in
        let (j, ju, q) = s.added in
        let jm : Matches (ents' j) key hash =
          content-Matches (ents' j) new key hash q (refl, refl, refl) in
        let after : get_impl blank t' key hash ≡ some (some value) =
          elim (get_impl_lem blank t' v' key hash text) [
            | inl (lacks', _) ↦ absurd (lacks' j ju jm)
            | inr (i, u, (a, b, c), e) ↦
                let (a', b', c') = jm in
                e
                ∙ ap (λ x. some (some x))
                    (v'.unique i j u ju (a ∙ sym a') (b ∙ sym b') (c ∙ sym c')
                      ∙ ap (λ x. x.value) q)
          ] in
        Map.added before after (λ key' hash' text' other.
          get_impl-same blank t t' v v' key' hash' text' (λ i u _. s.kept i u)
            (λ i u m. elim (s.origin i u) [
              | inr old ↦ old
              | inl e ↦
                  let (a, b, _) = content-Matches new (ents' i) key' hash' (sym e) m in
                  elim other [ inl ne ↦ absurd (ne (sym a)) | inr ne ↦ absurd (ne (sym b)) ]
            ]))

    present-IsUpdate :
        (i : ℕ)
        → Used (ent_at blank t.slots) i
        → Matches (ent_at blank t.slots i) key hash
        → IsUpdate blank t t key value hash again
    present-IsUpdate i u m = elim (get_impl_lem blank t v key hash text) [
      | inl (lacks, _) ↦ absurd (lacks i u m)
      | inr (j, _, _, e) ↦ Map.present (ent_at blank t.slots j).value e (λ key' hash' _. refl)
    ]

  more_room : (t : HashTbl V) (k : ℕ) → IsBounded blank k t → IsBounded blank (suc k) t
  more_room t k (few, small) = (omega (arith, few), omega (arith, small))

  -- An update of a table that has the same lookups.
  rebased :
      (tbl t : HashTbl V)
      → SameGets blank tbl t
      → (t' : HashTbl V) (rc : Err) → IsUpdate blank t t' key value hash rc
      → IsUpdate blank tbl t' key value hash rc
  rebased tbl t same t' rc (Map.added before after others) =
      Map.added (sym (same key hash text) ∙ before) after (λ k h w ne. others k h w ne ∙ same k h w)
  rebased tbl t same t' rc (Map.present old before kept) =
      Map.present old (sym (same key hash text) ∙ before) (λ k h w. kept k h w ∙ same k h w)
  rebased tbl t same t' rc (Map.no_memory kept) = Map.no_memory (λ k h w. kept k h w ∙ same k h w)

  rebased_set :
      (tbl t : HashTbl V)
      → SameGets blank tbl t
      → Keeps blank tbl t
      → (r : Option (Err × HashTbl V)) → IsUpdated blank t key value hash r
      → IsUpdated blank tbl key value hash r
  rebased_set tbl t same (size, keeps) r (set_to rc t' m u (size', grows)) =
      set_to rc t' m (rebased tbl t same t' rc u) (size' ∙ size, λ k b. grows k (keeps k b))

  -- What `tbl_set_impl` does after `tbl_realloc`.
  abbrev after_realloc : ℕ → HashTbl V → Resized V → Option (Err × HashTbl V)
  after_realloc fuel t r = elim r [
    | refused ↦ some (out_of_memory, t)
    | diverged ↦ none
    | resized t' ↦ set_impl grant blank fuel t' key value hash
  ]

  module _ (tbl t : HashTbl V) (fuel : ℕ) (has : ensure_data grant blank tbl ≡ some t)
      (same : SameGets blank tbl t) (keeps : Keeps blank tbl t) (v : IsTable blank t) where
    placed :
        (t.free_index ≡ free_index_invalid
          → IsUpdated blank tbl key value hash (after_realloc fuel t (realloc grant blank t)))
        → (o : Outcome V) → place grant blank t key value hash ≡ o
        → IsPlaced grant blank t v key value hash storable whole kept o
        → IsUpdated blank tbl key value hash (set_impl grant blank (suc fuel) tbl key value hash)
    unfolding set_impl
    placed grow o e (stored free slots spent lacks s v') =
        rw (set_impl, has)
          (rw e (
            set_to none_err (with_block blank t free slots) (block v')
              (rebased tbl t same (with_block blank t free slots) none_err
                (stored-IsUpdate t v slots free spent lacks s v'))
              (
                keeps.0,
                λ k b.
                    let more =
                      used_count-spent (ent_at blank t.slots) (ent_at blank slots) spent s.others
                        s.was s.now t.capacity s.within in
                    let (few, small) = keeps.1 k b in
                    (omega (arith, more, few), omega (arith, small)),
              )))
    placed grow o e (present i u m) =
        rw (set_impl, has)
          (rw e (
            set_to again t (block v) (rebased tbl t same t again (present-IsUpdate t v i u m))
              (keeps.0, λ k b. more_room t k (keeps.1 k b))))
    placed grow o e (no_room none_free) = rw (set_impl, has) (rw e (grow none_free))

    set_with_block :
        (t.free_index ≡ free_index_invalid
          → IsUpdated blank tbl key value hash (after_realloc fuel t (realloc grant blank t)))
        → IsUpdated blank tbl key value hash (set_impl grant blank (suc fuel) tbl key value hash)
    set_with_block grow =
        placed grow (place grant blank t key value hash) refl
          (place_lem grant blank t v key value hash storable whole kept)

  ensure_block : (t : HashTbl V) → IsTable blank t → ensure_data grant blank t ≡ some t
  ensure_block t v = elim (list-cases t.slots) [
    | inl nothing ↦ absurd (omega (arith, ap length nothing, v.sized, v.chained.homes 0))
    | inr (x, xs, e) ↦ rw e refl
  ]

  after_grown :
      (t : HashTbl V) (v : IsTable blank t) (fuel : ℕ) (r : Resized V)
      → ((j : ℕ) → j < t.capacity → Used (ent_at blank t.slots) j)
      → IsGrown grant blank t r
      → IsUpdated blank t key value hash (after_realloc (suc fuel) t r)
  after_grown t v fuel r all Grow.no_memory =
      set_to out_of_memory t (block v) (Map.no_memory (λ k h w. refl)) (refl, more_room t)
  after_grown t v fuel r all (grown t' v' twice size count room forth back) =
      let same : SameGets blank t t' = λ k h w.
        get_impl-same blank t t' v v' k h w (λ i u _. forth i u)
          (λ j u _. let (i, iu, q) = back j u in (i, iu, sym q)) in
      let full = used_count_all (ent_at blank t.slots) t.capacity all in
      let keeps : Keeps blank t t' = (
        size,
        λ k (few, small). (omega (arith, few, full, count), omega (arith, few, full, twice)),
      ) in
      rebased_set t t' same keeps (set_impl grant blank (suc fuel) t' key value hash) (
        set_with_block t' t' fuel (ensure_block t' v') (λ k h w. refl) (refl, λ k b. b) v'
          (λ none_free. absurd (room none_free)))

  set_table :
      (t : HashTbl V) (fuel : ℕ)
      → IsTable blank t
      → IsSized t
      → IsUpdated blank t key value hash (set_impl grant blank (suc (suc fuel)) t key value hash)
  set_table t fuel v sizes =
      set_with_block t t (suc fuel) (ensure_block t v) (λ k h w. refl) (refl, λ k b. b) v
        (λ none_free. elim v.room [
          | inl (_, all) ↦
              after_grown t v fuel (realloc grant blank t) all
                (realloc_lem grant blank t v all sizes)
          | inr (hf, _, _) ↦ absurd (omega (arith, hf, none_free, v.chained.few))
        ])

  ensure_no_block :
      (tbl : HashTbl V)
      → tbl.slots ≡ []
      → ensure_data grant blank tbl ≡ alloc_default grant blank tbl
  ensure_no_block tbl nothing = rw nothing refl

  set_no_block :
      (tbl : HashTbl V) (fuel : ℕ) (r : Option (HashTbl V))
      → tbl.slots ≡ []
      → tbl.free_index ≡ 0
      → alloc_default grant blank tbl ≡ r
      → IsAllocated grant blank tbl r
      → IsUpdated blank tbl key value hash (set_impl grant blank (suc fuel) tbl key value hash)
  unfolding set_impl
  set_no_block tbl fuel r nothing first e Grow.no_block =
      rw (set_impl, ensure_no_block tbl nothing ∙ e)
        (set_to out_of_memory tbl (Map.no_block nothing first) (Map.no_memory (λ k h w. refl))
          (refl, more_room tbl))
  set_no_block tbl fuel r nothing first e (Grow.empty_block t v first' four size unused) =
      let same : SameGets blank tbl t = λ k h w. elim (get_impl_lem blank t v k h w) [
        | inl (_, q) ↦ q ∙ sym (get_no_block blank tbl nothing k h)
        | inr (i, u, _, _) ↦ ground (arith, u, unused i)
      ] in
      let none_used = used_count_none (ent_at blank t.slots) t.capacity unused in
      let keeps : Keeps blank tbl t =
        (size, λ k (few, small). (omega (arith, none_used), omega (arith, four))) in
      set_with_block tbl t fuel (ensure_no_block tbl nothing ∙ e) same keeps v
        (λ none_free. absurd (omega (arith, none_free, first')))

  pub set_impl_lem :
      (tbl : HashTbl V) (fuel : ℕ)
      → IsMap blank tbl
      → IsSized tbl
      → IsUpdated blank tbl key value hash
          (set_impl grant blank (suc (suc fuel)) tbl key value hash)
  set_impl_lem tbl fuel (Map.no_block nothing first) sizes =
      set_no_block tbl (suc fuel) (alloc_default grant blank tbl) nothing first refl
        (alloc_default_lem grant blank tbl first sizes)
  set_impl_lem tbl fuel (block v) sizes = set_table tbl fuel v sizes
