-- ===== src/HashTbl/Chain/Stored.antt =====
-- What it is to store one more entry in the chains: all that the callers of src/edp_hash_tbl.c's
-- three ways to place an entry need to know.
pub mod Added
pub mod Evicted
use eq_data_patcher.Base.{
  ℕ, suc, ◌+◌, ◌<◌, ◌≡◌, ◌≢◌, ◌⊎◌, ◌∙◌, sym, refl, ap, inl, inr, arith, Bool-cases, false, true,
  ◌==◌, ==_iff, if◌then◌else◌,
}
use eq_data_patcher.HashTbl.{Entry, is_empty}
use eq_data_patcher.HashTbl.Chain.{
  put, put_self, put_other, index-cases, Used, Unused, content, IsChained,
}

module _ {V : Type 0} (home : ℕ → ℕ) (n : ℕ) (ents ents' : ℕ → Entry V) (new : Entry V) where
  -- The entry `spent` is no longer free, and but for that one the contents are what they were.
  pub record IsStored (spent : ℕ) : Type 0 where
    pub depth : ℕ → ℕ
    pub chained : IsChained home n ents' depth
    pub within : spent < n
    pub was : Unused ents spent
    pub now : Used ents' spent
    pub others : (j : ℕ) → j ≢ spent → is_empty (ents' j) ≡ is_empty (ents j)
    pub kept :
        (i : ℕ) → Used ents i → (j : ℕ) × Used ents' j × (content (ents' j) ≡ content (ents i))
    pub added : (j : ℕ) × Used ents' j × (content (ents' j) ≡ content new)
    pub origin :
        (j : ℕ)
        → Used ents' j
        → (content (ents' j) ≡ content new)
          ⊎ ((i : ℕ) × Used ents i × (content (ents' j) ≡ content (ents i)))

module _ {V : Type 0} (f : ℕ → V) (i : ℕ) where
  -- To split on whether a cell is the written one.
  pub put-cases : (x : V) (j : ℕ) → ((j ≡ i) × (put f i x j ≡ x)) ⊎ ((j ≢ i) × (put f i x j ≡ f j))
  put-cases x j = elim (index-cases j i) [
    | inl same ↦ inl (same, ap (put f i x) same ∙ put_self f i x)
    | inr other ↦ inr (other, put_other f i x j other)
  ]
