-- ===== src/Array/Sort/Rearrange.antt =====
-- What `array_sort_swap` of src/edp_array.c does: it rearranges the cells of a range.
use mathlib.Core.List.{Perm}
use mathlib.Core.List.Perm
use eq_data_patcher.Base.{
  ℕ, zero, suc, ◌≤◌, ◌<◌, inl, inr, ◌⊎◌, ◌≡◌, ◌∙◌, refl, arith, List, [], ◌∷◌, ◌==◌, ◌&&◌, leb, ltb,
  length, length-set, get_or, get_or-set_self, get_or-set_ne, set, Bool-cases, if◌then◌else◌,
}
use eq_data_patcher.Array.Sort.{swap}

module _ {A : Type 0} (d : A) where
  -- `ys` is `xs` with the cells of `[lo, hi)` rearranged.
  pub record Rearranges (lo hi : ℕ) (xs ys : List A) : Type 0 where
    pub same_length : length ys ≡ length xs
    pub perm : Perm ys xs
    pub outside : (i : ℕ) → (i < lo) ⊎ (hi ≤ i) → get_or ys i d ≡ get_or xs i d
    pub inside :
        (i : ℕ) → lo ≤ i → i < hi → (j : ℕ) × (lo ≤ j) × (j < hi) × (get_or ys i d ≡ get_or xs j d)

  pub Rearranges-refl : (lo hi : ℕ) (xs : List A) → Rearranges lo hi xs xs
  Rearranges-refl lo hi xs = record {
    same_length = refl;
    perm = Perm.refl xs;
    outside = λ i h. refl;
    inside = λ i h k. (i, h, k, refl);
  }

  pub Rearranges-trans :
      {lo hi : ℕ} {xs ys zs : List A}
      → Rearranges lo hi xs ys
      → Rearranges lo hi ys zs
      → Rearranges lo hi xs zs
  Rearranges-trans r s = record {
    same_length = s.same_length ∙ r.same_length;
    perm = Perm.trans s.perm r.perm;
    outside = λ i h. s.outside i h ∙ r.outside i h;
    inside = λ i h k.
        let (j, h', k', e) = s.inside i h k in
        let (j', h'', k'', e') = r.inside j h' k' in (j', h'', k'', e ∙ e');
  }

  pub Rearranges-widen :
      {lo hi : ℕ} (lo' hi' : ℕ) {xs ys : List A}
      → lo' ≤ lo
      → hi ≤ hi'
      → Rearranges lo hi xs ys
      → Rearranges lo' hi' xs ys
  Rearranges-widen {lo} {hi} lo' hi' h k r = record {
    same_length = r.same_length;
    perm = r.perm;
    outside = λ i o. r.outside i (ground arith);
    inside = λ i p q. elim (Bool-cases (leb lo i && ltb i hi)) [
      | inl mid ↦
          let (j, a, b, e) = r.inside i (ground arith) (ground arith) in
          (j, omega arith, omega arith, e)
      | inr off ↦ (i, p, q, r.outside i (ground arith))
    ];
  }

  cons_set_perm :
      (xs : List A) (j : ℕ) (x : A) → j < length xs → Perm (get_or xs j d ∷ set xs j x) (x ∷ xs)
  cons_set_perm [] j x h = absurd (omega arith)
  cons_set_perm (y ∷ ys) zero x h = Perm.swap x y ys
  cons_set_perm (y ∷ ys) (suc j) x h =
      Perm.trans (Perm.swap y _ _)
        (Perm.trans (Perm.cons y (cons_set_perm ys j x (omega arith))) (Perm.swap x y ys))

  pub swap_perm :
      (xs : List A) (a b : ℕ)
      → a < b
      → b < length xs
      → Perm (set (set xs a (get_or xs b d)) b (get_or xs a d)) xs
  swap_perm [] a b h k = absurd (omega arith)
  swap_perm (x ∷ xs) zero zero h k = absurd (omega arith)
  swap_perm (x ∷ xs) zero (suc b) h k = cons_set_perm xs b x (omega arith)
  swap_perm (x ∷ xs) (suc a) zero h k = absurd (omega arith)
  swap_perm (x ∷ xs) (suc a) (suc b) h k =
      Perm.cons x (swap_perm xs a b (omega arith) (omega arith))

  -- The cells after a swap.
  pub get_or-swap :
      (xs : List A) (a b i : ℕ)
      → a ≤ b
      → b < length xs
      → get_or (swap d xs a b) i d
        ≡ (if i == a then get_or xs b d else if i == b then get_or xs a d else get_or xs i d)
  unfolding swap
  get_or-swap xs a b i h k = ground (
    arith,
    length-set xs a (get_or xs b d),
    get_or-set_self xs a (get_or xs b d) d,
    get_or-set_ne xs a i (get_or xs b d) d,
    get_or-set_self (set xs a (get_or xs b d)) b (get_or xs a d) d,
    get_or-set_ne (set xs a (get_or xs b d)) b i (get_or xs a d) d,
  )

  pub length-swap : (xs : List A) (a b : ℕ) → length (swap d xs a b) ≡ length xs
  unfolding swap
  length-swap xs a b = ground (
    arith,
    length-set xs a (get_or xs b d),
    length-set (set xs a (get_or xs b d)) b (get_or xs a d),
  )

  pub swap-Rearranges :
      {lo hi : ℕ} (xs : List A) (a b : ℕ)
      → lo ≤ a
      → a ≤ b
      → b < hi
      → b < length xs
      → Rearranges lo hi xs (swap d xs a b)
  swap-Rearranges {lo} {hi} xs a b la h bh k = record {
    same_length = length-swap xs a b;
    perm = elim (Bool-cases (a == b)) [
      | inl e ↦ unfold swap in rw e (Perm.refl xs)
      | inr e ↦ unfold swap in rw e (swap_perm xs a b (ground arith) k)
    ];
    outside = λ i o. ground (arith, get_or-swap xs a b i h k);
    inside = λ i p q. (
      (if i == a then b else if i == b then a else i),
      ground arith,
      ground arith,
      ground (arith, get_or-swap xs a b i h k),
    );
  }
