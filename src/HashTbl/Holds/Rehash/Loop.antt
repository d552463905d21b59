-- ===== src/HashTbl/Holds/Rehash/Loop.antt =====
-- The loop of `tbl_realloc` of src/edp_hash_tbl.c, round after round.
use eq_data_patcher.Base.{
  ℕ, zero, suc, ◌+◌, ◌<◌, ◌≡◌, ◌⊎◌, ◌∙◌, refl, inl, inr, arith, List, [], ◌∷◌, some, length,
  bit_and,
}
use eq_data_patcher.HashTbl.{Entry, next_invalid, set_next, ent_at}
use eq_data_patcher.HashTbl.Resize.{Rehash, rehash_one, rehash}
use eq_data_patcher.HashTbl.Chain.{Used, content}
use eq_data_patcher.HashTbl.Chain.Stored.{IsStored}
use eq_data_patcher.HashTbl.Chain.Free.{used_count, used_count-spent}
use eq_data_patcher.HashTbl.Holds.Rehash.{IsFilling, IsRound, copied, rehash_one_lem}

module _ {V : Type 0} (blank : V) (mask cap : ℕ) where
  abbrev home : ℕ → ℕ
  home hash = bit_and hash mask

  -- The whole loop: what the block held and the old entries are in it, and nothing else.
  pub data IsRehash (slots : List (Entry V)) (olds : List (Entry V)) : Rehash V → Type 0 where
    done :
        (slots' : List (Entry V)) (free' : ℕ)
        → IsFilling blank mask cap slots' free'
        → used_count (ent_at blank slots') cap ≡ used_count (ent_at blank slots) cap + length olds
        → ((i : ℕ)
            → Used (ent_at blank slots) i
            → (j : ℕ) × Used (ent_at blank slots') j
              × (content (ent_at blank slots' j) ≡ content (ent_at blank slots i)))
        → ((i : ℕ)
            → i < length olds
            → (j : ℕ) × Used (ent_at blank slots') j
              × (content (ent_at blank slots' j) ≡ content (ent_at blank olds i)))
        → ((j : ℕ)
            → Used (ent_at blank slots') j
            → ((i : ℕ) × Used (ent_at blank slots) i
                × (content (ent_at blank slots' j) ≡ content (ent_at blank slots i)))
              ⊎ ((i : ℕ) × (i < length olds)
                  × (content (ent_at blank slots' j) ≡ content (ent_at blank olds i))))
        → IsRehash slots olds (some (slots', free'))

  first_or_later :
      (old : Entry V) (olds slots' : List (Entry V)) (ents'' : ℕ → Entry V)
      → (j : ℕ) × Used (ent_at blank slots') j × (content (ent_at blank slots' j) ≡ content old)
      → ((i : ℕ)
          → Used (ent_at blank slots') i
          → (j : ℕ) × Used ents'' j × (content (ents'' j) ≡ content (ent_at blank slots' i)))
      → ((i : ℕ)
          → i < length olds
          → (j : ℕ) × Used ents'' j × (content (ents'' j) ≡ content (ent_at blank olds i)))
      → (i : ℕ) → i < length (old ∷ olds)
      → (j : ℕ) × Used ents'' j × (content (ents'' j) ≡ content (ent_at blank (old ∷ olds) i))
  first_or_later old olds slots' ents'' first kept later zero h =
      let (j, ju, p) = first in let (k, ku, q) = kept j ju in (k, ku, q ∙ p)
  first_or_later old olds slots' ents'' first kept later (suc i) h = later i (omega (arith, h))

  rehash_more :
      (slots : List (Entry V)) (old : Entry V) (olds : List (Entry V)) (slots' : List (Entry V))
      (spent : ℕ)
      → IsStored home cap
          (ent_at blank slots)
          (ent_at blank slots')
          (set_next next_invalid old)
          spent
      → (r : Rehash V) → IsRehash slots' olds r
      → IsRehash slots (old ∷ olds) r
  rehash_more slots old olds slots' spent s r (done slots'' free'' v count kept added origin) =
      let more =
        used_count-spent (ent_at blank slots) (ent_at blank slots') spent s.others s.was s.now cap
          s.within in
      done slots'' free'' v (omega (arith, more, count))
        (λ i u. let (j, ju, p) = s.kept i u in let (k, ku, q) = kept j ju in (k, ku, q ∙ p))
        (first_or_later old olds slots' (ent_at blank slots'') s.added kept added)
        (λ k ku. elim (origin k ku) [
          | inl (j, ju, q) ↦ elim (s.origin j ju) [
            | inl p ↦ inr (0, omega arith, q ∙ p)
            | inr (i, iu, p) ↦ inl (i, iu, q ∙ p)
          ]
          | inr (i, h, q) ↦ inr (suc i, omega (arith, h), q)
        ])

  rehash_next :
      (old : Entry V) (olds slots : List (Entry V)) (free : ℕ)
      → used_count (ent_at blank slots) cap + length (old ∷ olds) < cap
      → ((slots' : List (Entry V)) (free' : ℕ)
          → IsFilling blank mask cap slots' free'
          → used_count (ent_at blank slots') cap + length olds < cap
          → IsRehash slots' olds (rehash blank mask olds slots' free'))
      → (r : Rehash V) → rehash_one blank mask slots free old ≡ r
      → IsRound blank mask cap slots old r
      → IsRehash slots (old ∷ olds) (rehash blank mask (old ∷ olds) slots free)
  unfolding rehash
  rehash_next old olds slots free room rest r e (copied slots' free' spent v s) =
      let more =
        used_count-spent (ent_at blank slots) (ent_at blank slots') spent s.others s.was s.now cap
          s.within in
      rw (rehash, e)
        (rehash_more slots old olds slots' spent s (rehash blank mask olds slots' free')
          (rest slots' free' v (omega (arith, more, room))))

  pub rehash_lem :
      (olds slots : List (Entry V)) (free : ℕ)
      → IsFilling blank mask cap slots free
      → ((i : ℕ) → i < length olds → Used (ent_at blank olds) i)
      → used_count (ent_at blank slots) cap + length olds < cap
      → IsRehash slots olds (rehash blank mask olds slots free)
  unfolding rehash
  rehash_lem [] slots free v all room =
      done slots free v (omega arith) (λ i u. (i, u, refl)) (λ i h. absurd (omega (arith, h)))
        (λ j u. inl (j, u, refl))
  rehash_lem (old ∷ olds) slots free v all room =
      rehash_next old olds slots free room
        (λ slots' free' v' room'.
          rehash_lem olds slots' free' v' (λ i h. all (suc i) (omega (arith, h))) room')
        (rehash_one blank mask slots free old) refl
        (rehash_one_lem blank mask cap slots free old v (omega (arith, room)) (all 0 (omega arith)))
