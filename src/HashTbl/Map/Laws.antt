-- ===== src/HashTbl/Map/Laws.antt =====
-- What `tbl_set_impl`, `tbl_get_impl` and `tbl_realloc` of src/edp_hash_tbl.c promise their callers.
use eq_data_patcher.Base.{
  ℕ, suc, ◌≤◌, ◌≡◌, ◌≢◌, ◌⊎◌, ◌∙◌, sym, refl, ap, inl, inr, arith, Bool, true, ◌*◌, List, [],
  Option, some, none,
}
use eq_data_patcher.Err.{Err, none_err, again, out_of_memory}
use eq_data_patcher.HashTbl.{Key, Entry, HashTbl, key_is_int, free_index_invalid, is_empty, ent_at}
use eq_data_patcher.HashTbl.Resize.{Resized, resized, refused, realloc}
use eq_data_patcher.HashTbl.Api.{set_impl, get_impl}
use eq_data_patcher.HashTbl.Lookup.{IsWhole}
use eq_data_patcher.HashTbl.Fresh.{IsStorable}
use eq_data_patcher.HashTbl.Chain.{Used}
use eq_data_patcher.HashTbl.Keys.{IsKey, key_of, IsText, IsStorable-IsText, Matches}
use eq_data_patcher.HashTbl.Holds.{Lacks, IsTable}
use eq_data_patcher.HashTbl.Holds.Get.{get_no_block, get_impl_lem, get_impl-same}
use eq_data_patcher.HashTbl.Holds.Grow.{IsSized, IsGrown, no_memory, grown, realloc_lem}
use eq_data_patcher.HashTbl.Map.{
  Grows, IsMap, no_block, block, IsUpdate, added, present, IsUpdated, set_to,
}
use eq_data_patcher.HashTbl.Map
use eq_data_patcher.HashTbl.Map.Update.{set_impl_lem}

module _ {V : Type 0} (blank : V) where
  unused_nowhere :
      (slots : List (Entry V)) → slots ≡ [] → (i : ℕ) → Used (ent_at blank slots) i → 1 ≤ 0
  unused_nowhere slots nothing i u =
      let none_at : is_empty (ent_at blank slots i) ≡ true =
        ap (λ s. is_empty (ent_at blank s i)) nothing in
      ground (arith, u, none_at)

  -- For such a table, and a key that is a number or a text with as many bytes as its length says
  -- and no null byte among them, `tbl_get_impl` returns: the value of an entry with the hash and
  -- the key, or nothing where no entry has them.
  pub get_impl-IsMap :
      (tbl : HashTbl V) (key : Key) (hash : ℕ)
      → IsMap blank tbl
      → IsText key
      → ((get_impl blank tbl key hash ≡ some none) × Lacks (ent_at blank tbl.slots) key hash)
        ⊎ ((i : ℕ) × (get_impl blank tbl key hash ≡ some (some (ent_at blank tbl.slots i).value))
            × Used (ent_at blank tbl.slots) i
            × Matches (ent_at blank tbl.slots i) key hash)
  get_impl-IsMap tbl key hash (no_block nothing first) text = inl (
    get_no_block blank tbl nothing key hash,
    λ i u. absurd (omega (arith, unused_nowhere tbl.slots nothing i u)),
  )
  get_impl-IsMap tbl key hash (block v) text = elim (get_impl_lem blank tbl v key hash text) [
    | inl (lacks, e) ↦ inl (e, lacks)
    | inr (i, u, m, e) ↦ inr (i, e, u, m)
  ]

module _ {V : Type 0} (blank : V) where
  -- A lookup reads no more of the caller's key than what an entry holds of it.
  pub get_impl-key_of :
      (tbl : HashTbl V) (key key' : Key) (hash : ℕ)
      → IsMap blank tbl
      → IsText key
      → IsText key'
      → key_of key ≡ key_of key'
      → key_is_int key ≡ key_is_int key'
      → get_impl blank tbl key hash ≡ get_impl blank tbl key' hash
  get_impl-key_of tbl key key' hash (no_block nothing first) text text' same kind =
      get_no_block blank tbl nothing key hash ∙ sym (get_no_block blank tbl nothing key' hash)
  get_impl-key_of tbl key key' hash (block v) text text' same kind =
      elim (get_impl_lem blank tbl v key hash text) [
        | inl (lacks, e) ↦ elim (get_impl_lem blank tbl v key' hash text') [
          | inl (_, e') ↦ e ∙ sym e'
          | inr (i, u, (a, b, c), _) ↦ absurd (lacks i u (a, b ∙ sym same, c ∙ sym kind))
        ]
        | inr (i, u, (a, b, c), e) ↦ elim (get_impl_lem blank tbl v key' hash text') [
          | inl (lacks, _) ↦ absurd (lacks i u (a, b ∙ same, c ∙ kind))
          | inr (j, w, (a', b', c'), e') ↦
              let value = v.unique i j u w (a ∙ sym a') (b ∙ same ∙ sym b') (c ∙ kind ∙ sym c') in
              e ∙ ap (λ x. some (some x)) value ∙ sym e'
        ]
      ]

module _ {V : Type 0} (grant : ℕ → Bool) (blank : V) where
  -- What the result code says of the lookups of the key before and after.
  abbrev pub IsPut : HashTbl V → HashTbl V → Key → V → ℕ → Err → Type 0
  IsPut tbl t key value hash rc =
      ((rc ≡ none_err)
        × (get_impl blank tbl key hash ≡ some none)
        × (get_impl blank t key hash ≡ some (some value)))
      ⊎ ((rc ≡ again)
          × ((old : V) × (get_impl blank tbl key hash ≡ some (some old))
              × (get_impl blank t key hash ≡ some (some old))))
      ⊎ ((rc ≡ out_of_memory) × (get_impl blank t key hash ≡ get_impl blank tbl key hash))

  IsUpdate-IsPut :
      (tbl t : HashTbl V) (key : Key) (value : V) (hash : ℕ) (rc : Err)
      → IsText key
      → IsUpdate blank tbl t key value hash rc
      → IsPut tbl t key value hash rc
  IsUpdate-IsPut tbl t key value hash rc text (added before after others) =
      inl (refl, before, after)
  IsUpdate-IsPut tbl t key value hash rc text (present old before same) =
      inr (inl (refl, (old, before, same key hash text ∙ before)))
  IsUpdate-IsPut tbl t key value hash rc text (Map.no_memory same) =
      inr (inr (refl, same key hash text))

  IsUpdate-other :
      (tbl t : HashTbl V) (key : Key) (value : V) (hash : ℕ) (rc : Err) (key' : Key) (hash' : ℕ)
      → IsText key'
      → (hash' ≢ hash) ⊎ (key_of key' ≢ key_of key)
      → IsUpdate blank tbl t key value hash rc
      → get_impl blank t key' hash' ≡ get_impl blank tbl key' hash'
  IsUpdate-other tbl t key value hash rc key' hash' text' ne (added before after others) =
      others key' hash' text' ne
  IsUpdate-other tbl t key value hash rc key' hash' text' ne (present old before same) =
      same key' hash' text'
  IsUpdate-other tbl t key value hash rc key' hash' text' ne (Map.no_memory same) =
      same key' hash' text'

  IsUpdated-parts :
      (tbl : HashTbl V) (key : Key) (value : V) (hash : ℕ) (r : Option (Err × HashTbl V))
      → IsUpdated blank tbl key value hash r
      → (rc : Err) × (t : HashTbl V) × (r ≡ some (rc, t))
        × IsMap blank t
        × IsUpdate blank tbl t key value hash rc
        × Grows blank tbl t
  IsUpdated-parts tbl key value hash r (set_to rc t m u g) = (rc, t, refl, m, u, g)

  module _ (tbl : HashTbl V) (key : Key) (value : V) (hash fuel : ℕ) (m : IsMap blank tbl)
      (sizes : IsSized tbl) (storable : IsStorable grant key) (whole : IsWhole key)
      (kept : IsKey key hash) where
    pub set_parts :
        (rc : Err) × (t : HashTbl V) × (set_impl grant blank (suc (suc fuel)) tbl key value hash
          ≡ some (rc, t))
        × IsMap blank t
        × IsUpdate blank tbl t key value hash rc
        × Grows blank tbl t
    set_parts =
        IsUpdated-parts tbl key value hash
          (set_impl grant blank (suc (suc fuel)) tbl key value hash)
          (set_impl_lem grant blank key value hash storable whole kept tbl fuel m sizes)

    -- Under the same conditions, `tbl_set_impl` leaves a table that has no block, or whose
    -- chains are in order: the entries with one main position are linked from that position,
    -- each once, and the free index is that of the first unused entry, or invalid where there is
    -- none.
    pub set_impl-IsMap :
        (rc : Err) × (t : HashTbl V) × (set_impl grant blank (suc (suc fuel)) tbl key value hash
          ≡ some (rc, t))
        × IsMap blank t
    set_impl-IsMap = let (rc, t, e, m', _, _) = set_parts in (rc, t, e, m')

    -- For a table that has no block, or whose chains are in order and from which nothing was
    -- removed, with sizes that stay below 2 ^ 32, a key that is a number or the whole of its
    -- text up to the null byte, with memory for its copy, where a number 0 has another hash than
    -- 0, and a second key without null bytes, where that key or its hash differs: `tbl_set_impl`
    -- returns within two calls of itself. It returns `ERR_None` where the key was absent, and a
    -- lookup then gives the value; or `ERR_Again` where the key was present, and the lookup
    -- gives the old value; or `ERR_OutOfMemory`, and the lookup gives what it gave. The lookup
    -- of the second key gives what it gave, also where the table has grown.
    pub set_impl-IsPut :
        (key' : Key) (hash' : ℕ)
        → IsText key'
        → (hash' ≢ hash) ⊎ (key_of key' ≢ key_of key)
        → (rc : Err) × (t : HashTbl V) × (set_impl grant blank (suc (suc fuel)) tbl key value hash
            ≡ some (rc, t))
          × IsPut tbl t key value hash rc
          × (get_impl blank t key' hash' ≡ get_impl blank tbl key' hash')
    set_impl-IsPut key' hash' text' ne =
        let (rc, t, e, _, u, _) = set_parts in
        (
          rc,
          t,
          e,
          IsUpdate-IsPut tbl t key value hash rc (IsStorable-IsText grant key storable whole) u,
          IsUpdate-other tbl t key value hash rc key' hash' text' ne u,
        )

  -- The two results of `tbl_realloc`.
  abbrev pub IsRegrown : HashTbl V → Key → ℕ → Resized V → Type 0
  IsRegrown tbl key hash r =
      (r ≡ refused)
      ⊎ ((t : HashTbl V) × (r ≡ resized t)
          × IsTable blank t
          × (t.capacity ≡ 2 * tbl.capacity)
          × (t.free_index ≢ free_index_invalid)
          × (get_impl blank t key hash ≡ get_impl blank tbl key hash))

  IsGrown-IsRegrown :
      (tbl : HashTbl V) (v : IsTable blank tbl) (key : Key) (hash : ℕ) (r : Resized V)
      → IsText key
      → IsGrown grant blank tbl r
      → IsRegrown tbl key hash r
  IsGrown-IsRegrown tbl v key hash r text no_memory = inl refl
  IsGrown-IsRegrown tbl v key hash r text (grown t v' twice size count room forth back) =
      let same =
        get_impl-same blank tbl t v v' key hash text (λ i u _. forth i u)
          (λ j u _. let (i, iu, q) = back j u in (i, iu, sym q)) in
      inr (t, refl, v', twice, room, same)

  -- For a table whose chains are in order and that has no free entry, with sizes that stay below
  -- 2 ^ 32, `tbl_realloc` returns: there is no memory, or the table has twice the capacity, its
  -- chains are in order, it has a free entry, and the lookup of a key that is a number or a text
  -- with as many bytes as its length says and no null byte among them gives what it gave.
  pub realloc-get_impl :
      (tbl : HashTbl V) (key : Key) (hash : ℕ)
      → IsTable blank tbl
      → tbl.free_index ≡ free_index_invalid
      → IsSized tbl
      → IsText key
      → IsRegrown tbl key hash (realloc grant blank tbl)
  realloc-get_impl tbl key hash v none_free sizes text = elim v.room [
    | inl (_, all) ↦
        IsGrown-IsRegrown tbl v key hash (realloc grant blank tbl) text
          (realloc_lem grant blank tbl v all sizes)
    | inr (hf, _, _) ↦ absurd (omega (arith, hf, none_free, v.chained.few))
  ]
