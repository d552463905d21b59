-- ===== src/HashTbl/Chain/Count.antt =====
-- How many entries a chain has, when one is written.
use eq_data_patcher.Base.{ℕ, zero, suc, ◌+◌, ◌≤◌, ◌<◌, ◌≡◌, ◌≢◌, ◌∙◌, refl, ap, inl, inr, arith}
use eq_data_patcher.HashTbl.{Entry}
use eq_data_patcher.HashTbl.Chain.{put, put_self, put_other, index-cases, belongs, chain_count}

module _ {V : Type 0} (home : ℕ → ℕ) where
  chain_count-past :
      (ents : ℕ → Entry V) (m i n : ℕ) (e : Entry V)
      → n ≤ i
      → chain_count home (put ents i e) m n ≡ chain_count home ents m n
  chain_count-past ents m i zero e h = refl
  chain_count-past ents m i (suc n) e h =
      let ne : n ≢ i = λ q. absurd (omega arith) in
      rw (chain_count-past ents m i n e (omega arith), put_other ents i e n ne) refl

  pub chain_count-put :
      (ents : ℕ → Entry V) (m i n : ℕ) (e : Entry V)
      → i < n
      → chain_count home (put ents i e) m n + belongs home m (ents i)
        ≡ chain_count home ents m n + belongs home m e
  chain_count-put ents m i zero e h = absurd (omega arith)
  chain_count-put ents m i (suc n) e h = elim (index-cases n i) [
    | inl same ↦
        let kept = chain_count-past ents m i n e (omega arith) in
        let new : belongs home m (put ents i e n) ≡ belongs home m e =
          ap (λ k. belongs home m (put ents i e k)) same
          ∙ ap (belongs home m) (put_self ents i e) in
        let old : belongs home m (ents n) ≡ belongs home m (ents i) =
          ap (λ k. belongs home m (ents k)) same in
        omega (arith, kept, new, old)
    | inr other ↦
        let rest = chain_count-put ents m i n e (omega (arith, other)) in
        let kept = ap (belongs home m) (put_other ents i e n other) in omega (arith, rest, kept)
  ]

  pub chain_count_le : (ents : ℕ → Entry V) (m n : ℕ) → chain_count home ents m n ≤ n
  chain_count_le ents m zero = omega arith
  chain_count_le ents m (suc n) = ground (arith, chain_count_le ents m n)
