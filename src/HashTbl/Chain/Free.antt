-- ===== src/HashTbl/Chain/Free.antt =====
-- `freeIndex` of src/edp_hash_tbl.c, and how many entries of the block are in use.
use eq_data_patcher.Base.{
  ℕ, zero, suc, ◌+◌, ◌<◌, ◌≤◌, ◌≡◌, ◌≢◌, ◌⊎◌, ◌∙◌, sym, refl, ap, inl, inr, arith, false, List, [],
  ◌∷◌, some, none, length, length-drop, drop, Bool-cases, ltb, ◌-◌, if◌then◌else◌,
}
use eq_data_patcher.HashTbl.{Entry, free_index_invalid, is_empty, ent_at, first_empty}
use eq_data_patcher.HashTbl.Chain.{index-cases, Used, Unused}

module _ {V : Type 0} where
  -- All entries are in use, or `free` is the first that is not.
  abbrev pub IsFree : ℕ → (ℕ → Entry V) → ℕ → Type 0
  IsFree n ents free =
      ((free ≡ free_index_invalid) × ((j : ℕ) → j < n → Used ents j))
      ⊎ ((free < n) × Unused ents free × ((j : ℕ) → j < free → Used ents j))

  abbrev pub used_count : (ℕ → Entry V) → ℕ → ℕ
  used_count ents zero = 0
  used_count ents (suc n) = used_count ents n + (if is_empty (ents n) then 0 else 1)

  module _ (ents ents' : ℕ → Entry V) (spent : ℕ)
      (others : (j : ℕ) → j ≢ spent → is_empty (ents' j) ≡ is_empty (ents j)) where
    used_count-past : (n : ℕ) → n ≤ spent → used_count ents' n ≡ used_count ents n
    used_count-past zero h = refl
    used_count-past (suc n) h =
        rw (used_count-past n (omega (arith, h)), others n (λ q. absurd (omega (arith, h, q)))) refl

    pub used_count-spent :
        Unused ents spent
        → Used ents' spent
        → (n : ℕ) → spent < n
        → used_count ents' n ≡ suc (used_count ents n)
    used_count-spent was now zero h = absurd (omega (arith, h))
    used_count-spent was now (suc n) h = elim (index-cases n spent) [
      | inl same ↦
          let kept = used_count-past n (omega (arith, same)) in
          let was' : Unused ents n = ap (λ k. is_empty (ents k)) same ∙ was in
          let now' : Used ents' n = ap (λ k. is_empty (ents' k)) same ∙ now in
          rw (was', now', kept) (omega arith)
      | inr other ↦
          let rest = used_count-spent was now n (omega (arith, h, other)) in
          rw (others n other, rest) (omega arith)
    ]

  pub used_count_none :
      (ents : ℕ → Entry V) (n : ℕ) → ((j : ℕ) → Unused ents j) → used_count ents n ≡ 0
  used_count_none ents zero all = refl
  used_count_none ents (suc n) all = rw (used_count_none ents n all, all n) (omega arith)

  pub used_count_all :
      (ents : ℕ → Entry V) (n : ℕ) → ((j : ℕ) → j < n → Used ents j) → used_count ents n ≡ n
  used_count_all ents zero all = refl
  used_count_all ents (suc n) all =
      rw (used_count_all ents n (λ j h. all j (omega (arith, h))), all n (omega arith))
        (omega arith)

index-or : (j free : ℕ) → (j ≤ free) ⊎ ((k : ℕ) × (j ≡ free + 1 + k))
index-or j free = elim (Bool-cases (ltb free j)) [
  | inl later ↦ inr (j - (free + 1), ground (arith, later))
  | inr le ↦ inl (ground (arith, le))
]

module _ {V : Type 0} (blank : V) where
  -- Where the search from index `from` stops.
  abbrev FirstEmpty : List (Entry V) → ℕ → Type 0
  FirstEmpty es from =
      ((first_empty es from ≡ none) × ((j : ℕ) → j < length es → Used (ent_at blank es) j))
      ⊎ ((k : ℕ) × (first_empty es from ≡ some (from + k))
          × (k < length es)
          × Unused (ent_at blank es) k
          × ((j : ℕ) → j < k → Used (ent_at blank es) j))

  Used-before :
      (e : Entry V) (es : List (Entry V)) (k : ℕ)
      → is_empty e ≡ false
      → ((j : ℕ) → j < k → Used (ent_at blank es) j)
      → (j : ℕ) → j < suc k
      → Used (ent_at blank (e ∷ es)) j
  Used-before e es k u all zero h = u
  Used-before e es k u all (suc j) h = all j (omega (arith, h))

  first_empty_lem : (es : List (Entry V)) (from : ℕ) → FirstEmpty es from
  unfolding first_empty
  first_empty_lem [] from = inl (refl, λ j h. absurd (omega (arith, h)))
  first_empty_lem (e ∷ es) from = elim (Bool-cases (is_empty e)) [
    | inl empty ↦ inr (
      0,
      rw (first_empty, empty) (ap some (omega arith)),
      omega arith,
      empty,
      λ j h. absurd (omega (arith, h)),
    )
    | inr used ↦ elim (first_empty_lem es (from + 1)) [
      | inl (stop, all) ↦ inl (rw (first_empty, used) stop, Used-before e es (length es) used all)
      | inr (k, stop, h, free, all) ↦ inr (
        suc k,
        rw (first_empty, used) (stop ∙ ap some (omega arith)),
        omega (arith, h),
        free,
        Used-before e es k used all,
      )
    ]
  ]

  get_or-drop :
      (m : ℕ) (es : List (Entry V)) (j : ℕ) → ent_at blank (drop m es) j ≡ ent_at blank es (m + j)
  get_or-drop zero es j = let e : j ≡ 0 + j = omega arith in ap (ent_at blank es) e
  get_or-drop (suc m) [] j = refl
  get_or-drop (suc m) (e ∷ es) j =
      let q : suc (m + j) ≡ suc m + j = omega arith in
      get_or-drop m es j ∙ ap (ent_at blank (e ∷ es)) q

  -- The search that starts behind `free`, in a block `mid` in which the same entries are in use as
  -- in `ents'`, but perhaps for `free`.
  pub next_empty :
      (ents' : ℕ → Entry V) (mid : List (Entry V)) (free n : ℕ)
      → length mid ≡ n
      → free < n
      → ((j : ℕ) → j ≢ free → is_empty (ents' j) ≡ is_empty (ent_at blank mid j))
      → ((j : ℕ) → j ≤ free → Used ents' j)
      → ((first_empty (drop (free + 1) mid) (free + 1) ≡ none) × ((j : ℕ) → j < n → Used ents' j))
        ⊎ ((i : ℕ) × (first_empty (drop (free + 1) mid) (free + 1) ≡ some i)
            × (i < n)
            × Unused ents' i
            × ((j : ℕ) → j < i → Used ents' j))
  next_empty ents' mid free n sized h same below =
      let m = free + 1 in
      let len = length-drop m mid in
      let later : (k : ℕ) → is_empty (ents' (m + k)) ≡ is_empty (ent_at blank (drop m mid) k) = λ k.
        same (m + k) (λ q. absurd (omega (arith, q))) ∙ ap is_empty (sym (get_or-drop m mid k)) in
      elim (first_empty_lem (drop m mid) m) [
        | inl (stop, all) ↦ inl (
          stop,
          λ j hj. elim (index-or j free) [
            | inl le ↦ below j le
            | inr (k, q) ↦
                ap (λ x. is_empty (ents' x)) q ∙ later k ∙ all k (omega (arith, len, sized, hj, q))
          ],
        )
        | inr (k, stop, hk, free_k, all) ↦ inr (
          m + k,
          stop,
          omega (arith, hk, len, sized, h),
          later k ∙ free_k,
          λ j hj. elim (index-or j free) [
            | inl le ↦ below j le
            | inr (i, q) ↦ ap (λ x. is_empty (ents' x)) q ∙ later i ∙ all i (omega (arith, hj, q))
          ],
        )
      ]
