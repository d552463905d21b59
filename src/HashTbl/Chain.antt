-- ===== src/HashTbl/Chain.antt =====
-- The chains in the block of a table of src/edp_hash_tbl.c, as a function from indices to entries.
pub mod Count
pub mod Fill
pub mod Append
pub mod Move
pub mod Walk
pub mod Stored
pub mod Block
pub mod Free
use eq_data_patcher.Base.{
  ℕ, zero, suc, ◌+◌, ◌<◌, ◌≡◌, ◌≢◌, ◌⊎◌, refl, ap, arith, Bool, true, false, inl, inr, Bool-cases,
  ==_iff, ◌==◌, if◌then◌else◌,
}
use eq_data_patcher.HashTbl.{Entry, next_invalid, is_empty}

-- The cells, one of them written.
abbrev pub put : {A : Type 0} → (ℕ → A) → ℕ → A → ℕ → A
put f i x j = if j == i then x else f j

module _ {A : Type 0} (f : ℕ → A) (i : ℕ) (x : A) where
  pub put_self : put f i x i ≡ x
  put_self = rw ((==_iff i i).1 refl) refl

  pub put_other : (j : ℕ) → j ≢ i → put f i x j ≡ f j
  put_other j ne = elim (Bool-cases (j == i)) [
    | inl same ↦ absurd (ne ((==_iff j i).0 same))
    | inr other ↦ rw other refl
  ]

-- To split on an index.
pub index-cases : (i j : ℕ) → (i ≡ j) ⊎ (i ≢ j)
index-cases i j = elim (Bool-cases (i == j)) [
  | inl same ↦ inl ((==_iff i j).0 same)
  | inr other ↦ inr (λ e. ground (arith, other, (==_iff i j).1 e))
]

module _ {V : Type 0} where
  abbrev pub Used : (ℕ → Entry V) → ℕ → Type 0
  Used ents i = is_empty (ents i) ≡ false

  abbrev pub Unused : (ℕ → Entry V) → ℕ → Type 0
  Unused ents i = is_empty (ents i) ≡ true

  -- Everything but the link.
  abbrev pub content : Entry V → Entry V
  content e = record e { next = 0 }

  pub Unused-ne : (ents : ℕ → Entry V) (i j : ℕ) → Used ents i → Unused ents j → i ≢ j
  Unused-ne ents i j used unused e = ground (arith, used, unused, ap (λ k. is_empty (ents k)) e)

  -- `home` gives the main position of a hash.
  module _ (home : ℕ → ℕ) where
    abbrev pub main_of : (ℕ → Entry V) → ℕ → ℕ
    main_of ents i = home (ents i).hash

    -- 1 for an entry of the chain with that main position.
    abbrev pub belongs : ℕ → Entry V → ℕ
    belongs m e = if is_empty e then 0 else if home e.hash == m then 1 else 0

    -- How many of the first `n` entries are of that chain.
    abbrev pub chain_count : (ℕ → Entry V) → ℕ → ℕ → ℕ
    chain_count ents m zero = 0
    chain_count ents m (suc n) = chain_count ents m n + belongs m (ents n)

    -- The entries with one main position are one chain: it starts there, every other entry has one
    -- before it, and `depth` is an entry's distance from the start. An unused entry is in none.
    pub record IsChained (n : ℕ) (ents : ℕ → Entry V) (depth : ℕ → ℕ) : Type 0 where
      pub inside : (i : ℕ) → Used ents i → i < n
      pub few : n < next_invalid
      pub homes : (h : ℕ) → home h < n
      pub loose : (i : ℕ) → Unused ents i → (ents i).next ≡ next_invalid
      pub headed :
          (i : ℕ)
          → Used ents i
          → Used ents (main_of ents i) × (main_of ents (main_of ents i) ≡ main_of ents i)
      pub follows :
          (i : ℕ)
          → Used ents i
          → (ents i).next ≢ next_invalid
          → Used ents (ents i).next
            × (main_of ents (ents i).next ≡ main_of ents i)
            × ((ents i).next ≢ main_of ents i)
            × (depth (ents i).next ≡ suc (depth i))
      pub before :
          (i : ℕ) → Used ents i → main_of ents i ≢ i → (p : ℕ) × Used ents p × ((ents p).next ≡ i)
      pub apart :
          (i j : ℕ)
          → Used ents i
          → Used ents j
          → (ents i).next ≡ (ents j).next
          → (ents i).next ≢ next_invalid
          → i ≡ j
      pub starts : (i : ℕ) → Used ents i → main_of ents i ≡ i → depth i ≡ 0
      pub shallow : (i : ℕ) → Used ents i → depth i < chain_count ents (main_of ents i) n
