-- ===== src/HashTbl/Remove/Stuck.antt =====
-- `tbl_remove_impl` of src/edp_hash_tbl.c, where a chain's first entry shares the hash of the key.
use eq_data_patcher.Base.{
  ℕ, zero, suc, ◌%◌, ◌^◌, ◌<◌, ◌≡◌, ◌≢◌, sym, refl, arith, true, false, Option, none, List, ◌∷◌,
  ◌==◌, ==_iff,
}
use eq_data_patcher.Hash.{hash_int64}
use eq_data_patcher.Hash.Laws.{hash_int64-congr}
use eq_data_patcher.HashTbl.{
  Key, int_key, raw, Entry, HashTbl, equals_key, is_empty, same_head, main_pos, ent_at,
}
use eq_data_patcher.HashTbl.Remove.{search_chain, remove_impl}
use eq_data_patcher.HashTbl.Api.{remove_int}

module _ {V : Type 0} (blank : V) where
  -- An entry with the hash and kind of the key but another key holds the loop.
  pub search_chain-stuck :
      (slots : List (Entry V)) (key : Key) (hash : ℕ) (prev : Option ℕ) (i : ℕ)
      → same_head (ent_at blank slots i) key hash ≡ true
      → equals_key (ent_at blank slots i).key key ≡ false
      → (fuel : ℕ) → search_chain blank slots key hash fuel prev i ≡ none
  unfolding search_chain
  search_chain-stuck slots key hash prev i head other zero = refl
  search_chain-stuck slots key hash prev i head other (suc fuel) =
      rw (head, other) (search_chain-stuck slots key hash prev i head other fuel)

  remove_impl-stuck :
      (tbl : HashTbl V) (e : Entry V) (es : List (Entry V)) (key : Key) (hash : ℕ)
      → tbl.slots ≡ e ∷ es
      → (ent_at blank (e ∷ es) (main_pos tbl hash)).hash ≡ hash
      → is_empty (ent_at blank (e ∷ es) (main_pos tbl hash)) ≡ false
      → same_head (ent_at blank (e ∷ es) (main_pos tbl hash)) key hash ≡ true
      → equals_key (ent_at blank (e ∷ es) (main_pos tbl hash)).key key ≡ false
      → (fuel : ℕ) → remove_impl blank fuel tbl key hash ≡ none
  unfolding remove_impl
  remove_impl-stuck tbl e es key hash block own used head other fuel =
      let i = main_pos tbl hash in
      let places : (i == i) ≡ true = (==_iff i i).1 refl in
      rw (block, used, own, places, search_chain-stuck (e ∷ es) key hash none i head other fuel)
        refl

  -- In a table with a block whose entry at the main position of a number above 0 holds that
  -- number with its hash, the removal of another number with the same low 24 bits gives no
  -- result with any fuel; both are below 2 ^ 64.
  pub remove_int-stuck :
      (tbl : HashTbl V) (e : Entry V) (es : List (Entry V)) (j k : ℕ)
      → tbl.slots ≡ e ∷ es
      → (ent_at blank (e ∷ es) (main_pos tbl (hash_int64 j))).key ≡ raw j
      → (ent_at blank (e ∷ es) (main_pos tbl (hash_int64 j))).hash ≡ hash_int64 j
      → (ent_at blank (e ∷ es) (main_pos tbl (hash_int64 j))).is_int ≡ true
      → 0 < j
      → j < 2 ^ 64
      → k < 2 ^ 64
      → j % 2 ^ 24 ≡ k % 2 ^ 24
      → j ≢ k
      → (fuel : ℕ) → remove_int blank fuel tbl k ≡ none
  unfolding remove_int equals_key
  remove_int-stuck tbl e es j k block key hash kind pos hj hk low ne fuel =
      let same : hash_int64 k ≡ hash_int64 j = sym (hash_int64-congr j k hj hk low) in
      let used : (j == 0) ≡ false = ground (arith, pos) in
      let differ : (j == k) ≡ false = ground (arith, ne) in
      let hashes : (hash_int64 j == hash_int64 j) ≡ true = (==_iff _ _).1 refl in
      rw same (
        remove_impl-stuck tbl e es (int_key k) (hash_int64 j) block hash (rw (key, used) refl)
          (rw (hash, kind, hashes) refl) (rw (key, differ) refl) fuel)
