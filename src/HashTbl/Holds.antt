-- ===== src/HashTbl/Holds.antt =====
-- The tables of src/edp_hash_tbl.c whose chains are in order, and what such a table holds.
pub mod Get
pub mod Place
pub mod Rehash
pub mod Grow
use eq_data_patcher.Base.{
  ℕ, ◌+◌, ◌<◌, ◌≡◌, ◌≢◌, ◌⊎◌, ◌∙◌, sym, refl, ap, inl, inr, arith, List, length, bit_and, sub32,
}
use eq_data_patcher.HashTbl.{Key, Entry, HashTbl, ent_at}
use eq_data_patcher.HashTbl.Chain.{Used, content, IsChained}
use eq_data_patcher.HashTbl.Chain.Stored.{IsStored}
use eq_data_patcher.HashTbl.Chain.Free.{IsFree}
use eq_data_patcher.HashTbl.Keys.{Matches, fresh}

-- `TBL_MAIN_POS` for a capacity.
abbrev pub home_in : ℕ → ℕ → ℕ
home_in capacity hash = bit_and hash (sub32 capacity 1)

module _ {V : Type 0} where
  -- Two entries with one key have one value.
  abbrev pub IsUnique : (ℕ → Entry V) → Type 0
  IsUnique ents =
      (i j : ℕ)
      → Used ents i
      → Used ents j
      → (ents i).hash ≡ (ents j).hash
      → (ents i).key ≡ (ents j).key
      → (ents i).is_int ≡ (ents j).is_int
      → (ents i).value ≡ (ents j).value

  -- No entry has the key.
  abbrev pub Lacks : (ℕ → Entry V) → Key → ℕ → Type 0
  Lacks ents key hash = (i : ℕ) → Used ents i → ¬ Matches (ents i) key hash

  -- The contents of the one are among those of the other.
  abbrev pub Within : (ℕ → Entry V) → (ℕ → Entry V) → Type 0
  Within ents ents' =
      (i : ℕ) → Used ents i → (j : ℕ) × Used ents' j × (content (ents' j) ≡ content (ents i))

  pub content-Matches :
      (e e' : Entry V) (key : Key) (hash : ℕ)
      → content e ≡ content e'
      → Matches e' key hash
      → Matches e key hash
  content-Matches e e' key hash q (a, b, c) =
      (ap (λ x. x.hash) q ∙ a, ap (λ x. x.key) q ∙ b, ap (λ x. x.is_int) q ∙ c)

  -- Entries that come from a table with unique keys have unique keys.
  pub Within-IsUnique :
      (ents ents' : ℕ → Entry V) → Within ents' ents → IsUnique ents → IsUnique ents'
  Within-IsUnique ents ents' back unique i j u w h k f =
      let (i', u', p) = back i u in
      let (j', w', q) = back j w in
      sym (ap (λ x. x.value) p)
      ∙ unique i' j' u' w' (ap (λ x. x.hash) p ∙ h ∙ sym (ap (λ x. x.hash) q))
          (ap (λ x. x.key) p ∙ k ∙ sym (ap (λ x. x.key) q))
          (ap (λ x. x.is_int) p ∙ f ∙ sym (ap (λ x. x.is_int) q))
      ∙ ap (λ x. x.value) q

module _ {V : Type 0} (blank : V) where
  -- The state of a table that has its block and from which no key was removed.
  pub record IsTable (tbl : HashTbl V) : Type 0 where
    pub sized : length tbl.slots ≡ tbl.capacity
    pub depth : ℕ → ℕ
    pub chained : IsChained (home_in tbl.capacity) tbl.capacity (ent_at blank tbl.slots) depth
    pub room : IsFree tbl.capacity (ent_at blank tbl.slots) tbl.free_index
    pub unique : IsUnique (ent_at blank tbl.slots)

  -- The table with another free index and another block.
  abbrev pub with_block : HashTbl V → ℕ → List (Entry V) → HashTbl V
  with_block tbl free slots = record tbl { free_index = free; slots = slots }

  module _ (tbl : HashTbl V) (slots : List (Entry V)) (key : Key) (value : V) (hash spent : ℕ)
      (s : IsStored
        (home_in tbl.capacity)
        tbl.capacity
        (ent_at blank tbl.slots)
        (ent_at blank slots)
        (fresh key value hash)
        spent)
      (lacks : Lacks (ent_at blank tbl.slots) key hash) where
    -- An entry that has the new key is the new one.
    new_or_old :
        (i j : ℕ)
        → Used (ent_at blank tbl.slots) j
        → content (ent_at blank slots i) ≡ content (fresh key value hash)
        → (ent_at blank slots i).hash ≡ (ent_at blank tbl.slots j).hash
        → (ent_at blank slots i).key ≡ (ent_at blank tbl.slots j).key
        → (ent_at blank slots i).is_int ≢ (ent_at blank tbl.slots j).is_int
    new_or_old i j u e h k f =
        lacks j u
          (sym h ∙ ap (λ x. x.hash) e, sym k ∙ ap (λ x. x.key) e, sym f ∙ ap (λ x. x.is_int) e)

    stored-IsUnique : IsUnique (ent_at blank tbl.slots) → IsUnique (ent_at blank slots)
    stored-IsUnique unique i j u w h k f = elim (s.origin i u) [
      | inl e ↦ elim (s.origin j w) [
        | inl e' ↦ ap (λ x. x.value) e ∙ sym (ap (λ x. x.value) e')
        | inr (b, bu, q) ↦ absurd (
            new_or_old i b bu e (h ∙ ap (λ x. x.hash) q) (k ∙ ap (λ x. x.key) q)
              (f ∙ ap (λ x. x.is_int) q))
      ]
      | inr (a, au, p) ↦ elim (s.origin j w) [
        | inl e' ↦ absurd (
            new_or_old j a au e' (sym h ∙ ap (λ x. x.hash) p) (sym k ∙ ap (λ x. x.key) p)
              (sym f ∙ ap (λ x. x.is_int) p))
        | inr (b, bu, q) ↦
            ap (λ x. x.value) p
            ∙ unique a b au bu (sym (ap (λ x. x.hash) p) ∙ h ∙ ap (λ x. x.hash) q)
                (sym (ap (λ x. x.key) p) ∙ k ∙ ap (λ x. x.key) q)
                (sym (ap (λ x. x.is_int) p) ∙ f ∙ ap (λ x. x.is_int) q)
            ∙ sym (ap (λ x. x.value) q)
      ]
    ]

    pub stored-IsTable :
        (free : ℕ)
        → IsTable tbl
        → length slots ≡ length tbl.slots
        → IsFree tbl.capacity (ent_at blank slots) free
        → IsTable (with_block tbl free slots)
    stored-IsTable free v same room = record {
      sized = same ∙ v.sized;
      depth = s.depth;
      chained = s.chained;
      room = room;
      unique = stored-IsUnique v.unique;
    }
