-- ===== src/HashTbl/Holds/Grow.antt =====
-- `tbl_realloc` and `tbl_alloc_default` of src/edp_hash_tbl.c: a new block, with the same contents.
use eq_data_patcher.Base.{
  ℕ, zero, suc, ◌+◌, ◌*◌, ◌/◌, ◌^◌, ◌<◌, ◌≤◌, ◌≡◌, ◌≢◌, ◌∙◌, sym, refl, ap, inl, inr, arith, Bool,
  List, Option, some, none, length-replicate, replicate, sub32, mul32, Bool-cases,
}
use eq_data_patcher.Bits.Or.{bit_and_le}
use eq_data_patcher.HashTbl.{
  Entry, HashTbl, min_capacity, free_index_invalid, next_invalid, is_empty, ent_at, blank_ent,
  blank_slots, alloc_default,
}
use eq_data_patcher.HashTbl.Resize.{Resized, resized, refused, diverged, Rehash, rehash, realloc}
use eq_data_patcher.HashTbl.Chain.{Used, Unused, IsChained}
use eq_data_patcher.HashTbl.Chain.Free.{used_count}
use eq_data_patcher.HashTbl.Holds.{home_in, IsUnique, Within, Within-IsUnique, IsTable}
use eq_data_patcher.HashTbl.Holds.Rehash.{IsFilling}
use eq_data_patcher.HashTbl.Holds.Rehash.Loop.{IsRehash, done, rehash_lem}
use native.Mathlib.Nat.{mul-div_left, mul-le-mul_left, mul_comm}
use mathlib.Core.Path.{subst}

-- The sizes of the blocks, now and after a growth, are below 2^32, and the indices are not the
-- invalid one.
abbrev pub IsSized : {V : Type 0} → HashTbl V → Type 0
IsSized tbl =
    (0 < tbl.ent_size)
    × (tbl.ent_size * (tbl.capacity * 2 + 4) < 2 ^ 32)
    × (tbl.capacity * 2 < next_invalid)

home_in_lt : (cap hash : ℕ) → 0 < cap → cap < 2 ^ 32 → home_in cap hash < cap
home_in_lt cap hash some_cells small =
    let mask : sub32 cap 1 + 1 ≡ cap = omega (arith, some_cells, small) in
    let le = bit_and_le (sub32 cap 1) hash (sub32 cap 1) (omega arith) in omega (arith, mask, le)

module _ {V : Type 0} (blank : V) where
  blank_at : (n i : ℕ) → ent_at blank (replicate n (blank_ent blank)) i ≡ blank_ent blank
  blank_at zero i = refl
  blank_at (suc n) zero = refl
  blank_at (suc n) (suc i) = blank_at n i

  all-Unused : (n i : ℕ) → Unused (ent_at blank (replicate n (blank_ent blank))) i
  all-Unused n i = ap is_empty (blank_at n i)

  none_used : (n k : ℕ) → used_count (ent_at blank (replicate n (blank_ent blank))) k ≡ 0
  none_used n zero = refl
  none_used n (suc k) = rw (all-Unused n k, none_used n k) (omega arith)

  pub blank-IsChained :
      (n : ℕ)
      → 0 < n
      → n < next_invalid
      → IsChained (home_in n) n (ent_at blank (replicate n (blank_ent blank))) (λ i. 0)
  blank-IsChained n some_cells few =
      let unused = all-Unused n in
      record {
        inside = λ i u. ground (arith, u, unused i);
        few = few;
        homes = λ h. home_in_lt n h some_cells (omega (arith, few));
        loose = λ i u. ap (λ e. e.next) (blank_at n i);
        headed = λ i u. ground (arith, u, unused i);
        follows = λ i u. ground (arith, u, unused i);
        before = λ i u. ground (arith, u, unused i);
        apart = λ i j u. ground (arith, u, unused i);
        starts = λ i u. ground (arith, u, unused i);
        shallow = λ i u. ground (arith, u, unused i);
      }

  blank_slots-eq :
      (ent_size n : ℕ)
      → 0 < ent_size
      → ent_size * n < 2 ^ 32
      → blank_slots blank ent_size n ≡ replicate n (blank_ent blank)
  blank_slots-eq ent_size n some_bytes small =
      let exact : mul32 ent_size n ≡ n * ent_size = omega (arith, small, mul_comm ent_size n) in
      ap (λ b. replicate (b / ent_size) (blank_ent blank)) exact
      ∙ ap (λ c. replicate c (blank_ent blank)) (mul-div_left n some_bytes)

  blank-IsFilling :
      (n : ℕ)
      → 0 < n
      → n < next_invalid
      → IsFilling blank (sub32 n 1) n (replicate n (blank_ent blank)) 0
  blank-IsFilling n some_cells few = record {
    sized = length-replicate n (blank_ent blank);
    depth = λ i. 0;
    chained = blank-IsChained n some_cells few;
    inside = some_cells;
    unused = all-Unused n 0;
    below = λ j h. absurd (omega (arith, h));
  }

  -- A block that is being filled, with its free index, as a table.
  filled-IsTable :
      (tbl : HashTbl V) (n free : ℕ) (slots : List (Entry V))
      → IsFilling blank (sub32 n 1) n slots free
      → IsUnique (ent_at blank slots)
      → IsTable blank (record tbl { capacity = n; free_index = free; slots = slots })
  filled-IsTable tbl n free slots v unique = record {
    sized = v.sized;
    depth = v.depth;
    chained = v.chained;
    room = inr (v.inside, v.unused, v.below);
    unique = unique;
  }

module _ {V : Type 0} (grant : ℕ → Bool) (blank : V) where
  -- The default block: no memory for it, or a table with no entry.
  pub data IsAllocated (tbl : HashTbl V) : Option (HashTbl V) → Type 0 where
    no_block : IsAllocated tbl none
    empty_block :
        (t : HashTbl V)
        → IsTable blank t
        → t.free_index ≡ 0
        → t.capacity ≡ 4
        → t.ent_size ≡ tbl.ent_size
        → ((i : ℕ) → Unused (ent_at blank t.slots) i)
        → IsAllocated tbl (some t)

  pub alloc_default_lem :
      (tbl : HashTbl V)
      → tbl.free_index ≡ 0
      → IsSized tbl
      → IsAllocated tbl (alloc_default grant blank tbl)
  unfolding alloc_default
  alloc_default_lem tbl first (some_bytes, small, _) =
      elim (Bool-cases (grant (mul32 tbl.ent_size min_capacity))) [
        | inr denied ↦ rw denied no_block
        | inl granted ↦
            let more : tbl.ent_size * 4 ≤ tbl.ent_size * (tbl.capacity * 2 + 4) =
              mul-le-mul_left tbl.ent_size (omega arith) in
            let block =
              blank_slots-eq blank tbl.ent_size 4 some_bytes (omega (arith, more, small)) in
            let unique : IsUnique (ent_at blank (replicate 4 (blank_ent blank))) =
              λ i j u. ground (arith, u, all-Unused blank 4 i) in
            let filling = blank-IsFilling blank 4 (omega arith) (omega arith) in
            rw (granted, block)
              (empty_block (record tbl { capacity = 4; slots = replicate 4 (blank_ent blank) })
                (subst
                  (λ f. IsTable blank (record tbl {
                    capacity = 4;
                    free_index = f;
                    slots = replicate 4 (blank_ent blank);
                  }))
                  (sym first)
                  (filled-IsTable blank tbl 4 0 (replicate 4 (blank_ent blank)) filling unique))
                first refl refl (all-Unused blank 4))
      ]

  -- The larger block: no memory for it, or a table with the same contents and a free entry.
  pub data IsGrown (tbl : HashTbl V) : Resized V → Type 0 where
    no_memory : IsGrown tbl refused
    grown :
        (t : HashTbl V)
        → IsTable blank t
        → t.capacity ≡ 2 * tbl.capacity
        → t.ent_size ≡ tbl.ent_size
        → used_count (ent_at blank t.slots) t.capacity ≡ tbl.capacity
        → t.free_index ≢ free_index_invalid
        → Within (ent_at blank tbl.slots) (ent_at blank t.slots)
        → Within (ent_at blank t.slots) (ent_at blank tbl.slots)
        → IsGrown tbl (resized t)

  module _ (tbl : HashTbl V) (v : IsTable blank tbl)
      (all : (j : ℕ) → j < tbl.capacity → Used (ent_at blank tbl.slots) j) where
    abbrev rehashed_to : ℕ → Rehash V → Resized V
    rehashed_to cap r = elim r [
      | none ↦ diverged
      | some (slots, free) ↦
          resized (record tbl { capacity = cap; free_index = free; slots = slots })
    ]

    rehashed :
        (n : ℕ) (r : Rehash V)
        → n ≡ 2 * tbl.capacity
        → n < next_invalid
        → IsRehash blank (sub32 n 1) n (replicate n (blank_ent blank)) tbl.slots r
        → IsGrown tbl (rehashed_to n r)
    rehashed n r twice few (done slots free filling count kept added origin) =
        let back : Within (ent_at blank slots) (ent_at blank tbl.slots) = λ j u. elim (origin j u) [
          | inl (i, iu, _) ↦ ground (arith, iu, all-Unused blank n i)
          | inr (i, h, q) ↦ (i, all i (omega (arith, h, v.sized)), sym q)
        ] in
        let unique = Within-IsUnique (ent_at blank tbl.slots) (ent_at blank slots) back v.unique in
        grown _ (filled-IsTable blank tbl n free slots filling unique) twice refl
          (omega (arith, count, none_used blank n n, v.sized))
          (λ q. absurd (omega (arith, q, filling.inside, few)))
          (λ i u. added i (omega (arith, v.chained.inside i u, v.sized))) back

    pub realloc_lem : IsSized tbl → IsGrown tbl (realloc grant blank tbl)
    unfolding realloc
    realloc_lem (some_bytes, small, few) =
        let cap = mul32 tbl.capacity 2 in
        let twice : cap ≡ 2 * tbl.capacity = omega (arith, few) in
        let inner = v.chained.homes 0 in
        elim (Bool-cases (grant (mul32 tbl.ent_size cap))) [
          | inr denied ↦ rw denied no_memory
          | inl granted ↦
              let more : tbl.ent_size * cap ≤ tbl.ent_size * (tbl.capacity * 2 + 4) =
                mul-le-mul_left tbl.ent_size (omega (arith, twice)) in
              let block =
                blank_slots-eq blank tbl.ent_size cap some_bytes (omega (arith, more, small)) in
              let some_cells : 0 < cap = omega (arith, twice, inner) in
              let fits : cap < next_invalid = omega (arith, twice, few) in
              let full =
                rehash_lem blank (sub32 cap 1) cap tbl.slots (replicate cap (blank_ent blank)) 0
                  (blank-IsFilling blank cap some_cells fits)
                  (λ i h. all i (omega (arith, h, v.sized)))
                  (omega (arith, none_used blank cap cap, v.sized, twice, inner)) in
              rw (granted, block)
                (rehashed cap
                  (rehash blank (sub32 cap 1) tbl.slots (replicate cap (blank_ent blank)) 0) twice
                  fits full)
        ]
