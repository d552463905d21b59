-- ===== src/HashTbl/Chain/Fill.antt =====
-- An entry at its main position, which was unused: a chain of its own.
use eq_data_patcher.Base.{
  ℕ, suc, ◌+◌, ◌<◌, ◌≡◌, ◌≢◌, ◌⊎◌, ◌∙◌, sym, refl, ap, inl, inr, arith, false, ==_iff,
}
use eq_data_patcher.HashTbl.{Entry, next_invalid, is_empty}
use eq_data_patcher.HashTbl.Chain.{
  index-cases, Used, Unused, Unused-ne, main_of, belongs, chain_count, IsChained,
}

module _ {V : Type 0} (home : ℕ → ℕ) (n : ℕ) (ents ents' : ℕ → Entry V) (depth depth' : ℕ → ℕ)
    (pos : ℕ) (new : Entry V) (v : IsChained home n ents depth) (inside : pos < n)
    (free : Unused ents pos) (used : is_empty new ≡ false) (last : new.next ≡ next_invalid)
    (own : home new.hash ≡ pos) (at : ents' pos ≡ new)
    (else_at : (j : ℕ) → j ≢ pos → ents' j ≡ ents j) (depth_at : depth' pos ≡ 0)
    (depth_else : (j : ℕ) → j ≢ pos → depth' j ≡ depth j)
    (counted : (m : ℕ)
      → chain_count home ents' m n + belongs home m (ents pos)
        ≡ chain_count home ents m n + belongs home m new) where
  old : (j : ℕ) → Used ents j → ents' j ≡ ents j
  old j u = else_at j (Unused-ne ents j pos u free)

  old_depth : (j : ℕ) → Used ents j → depth' j ≡ depth j
  old_depth j u = depth_else j (Unused-ne ents j pos u free)

  still : (j : ℕ) → Used ents j → Used ents' j
  still j u = rw (old j u) u

  new_main : main_of home ents' pos ≡ pos
  new_main = rw at own

  new-Used : Used ents' pos
  new-Used = rw at used

  which : (i : ℕ) → Used ents' i → (i ≡ pos) ⊎ Used ents i
  which i u = elim (index-cases i pos) [
    | inl same ↦ inl same
    | inr other ↦ inr (sym (ap is_empty (else_at i other)) ∙ u)
  ]

  fill_loose : (i : ℕ) → Unused ents' i → (ents' i).next ≡ next_invalid
  fill_loose i u = elim (index-cases i pos) [
    | inl same ↦ ap (λ k. (ents' k).next) same ∙ ap (λ e. e.next) at ∙ last
    | inr other ↦
        ap (λ e. e.next) (else_at i other) ∙ v.loose i (sym (ap is_empty (else_at i other)) ∙ u)
  ]

  fill_headed :
      (i : ℕ)
      → Used ents' i
      → Used ents' (main_of home ents' i)
        × (main_of home ents' (main_of home ents' i) ≡ main_of home ents' i)
  fill_headed i u = elim (which i u) [
    | inl same ↦ rw same (rw new_main (new-Used, new_main))
    | inr u' ↦
        let (hu, hm) = v.headed i u' in rw (old i u') (rw (old (main_of home ents i) hu) (hu, hm))
  ]

  fill_follows :
      (i : ℕ)
      → Used ents' i
      → (ents' i).next ≢ next_invalid
      → Used ents' (ents' i).next
        × (main_of home ents' (ents' i).next ≡ main_of home ents' i)
        × ((ents' i).next ≢ main_of home ents' i)
        × (depth' (ents' i).next ≡ suc (depth' i))
  fill_follows i u linked = elim (which i u) [
    | inl same ↦ absurd (linked (ap (λ k. (ents' k).next) same ∙ ap (λ e. e.next) at ∙ last))
    | inr u' ↦
        let e = old i u' in
        let (fu, fm, fh, fd) = v.follows i u' (λ q. linked (ap (λ x. x.next) e ∙ q)) in
        rw (e, old_depth i u')
          (rw (old (ents i).next fu, old_depth (ents i).next fu) (fu, fm, fh, fd))
  ]

  fill_before :
      (i : ℕ)
      → Used ents' i
      → main_of home ents' i ≢ i
      → (p : ℕ) × Used ents' p × ((ents' p).next ≡ i)
  fill_before i u away = elim (which i u) [
    | inl same ↦ absurd (away (ap (main_of home ents') same ∙ new_main ∙ sym same))
    | inr u' ↦
        let (p, pu, pn) = v.before i u' (λ q. away (ap (λ x. home x.hash) (old i u') ∙ q)) in
        (p, still p pu, ap (λ x. x.next) (old p pu) ∙ pn)
  ]

  fill_apart :
      (i j : ℕ)
      → Used ents' i
      → Used ents' j
      → (ents' i).next ≡ (ents' j).next
      → (ents' i).next ≢ next_invalid
      → i ≡ j
  fill_apart i j u w e linked = elim (which i u) [
    | inl same ↦ absurd (linked (ap (λ k. (ents' k).next) same ∙ ap (λ x. x.next) at ∙ last))
    | inr u' ↦ elim (which j w) [
      | inl same ↦ absurd (linked (e ∙ ap (λ k. (ents' k).next) same ∙ ap (λ x. x.next) at ∙ last))
      | inr w' ↦
          let a = ap (λ x. x.next) (old i u') in
          let b = ap (λ x. x.next) (old j w') in
          v.apart i j u' w' (sym a ∙ e ∙ b) (λ q. linked (a ∙ q))
    ]
  ]

  fill_starts : (i : ℕ) → Used ents' i → main_of home ents' i ≡ i → depth' i ≡ 0
  fill_starts i u m = elim (which i u) [
    | inl same ↦ ap depth' same ∙ depth_at
    | inr u' ↦ old_depth i u' ∙ v.starts i u' (sym (ap (λ x. home x.hash) (old i u')) ∙ m)
  ]

  fill_shallow : (i : ℕ) → Used ents' i → depth' i < chain_count home ents' (main_of home ents' i) n
  fill_shallow i u = elim (which i u) [
    | inl same ↦
        let k = counted pos in
        let one : belongs home pos new ≡ 1 = rw (used, own) (rw ((==_iff pos pos).1 refl) refl) in
        let none_yet : belongs home pos (ents pos) ≡ 0 = rw free refl in
        rw same (rw (depth_at, new_main) (omega (arith, k, one, none_yet)))
    | inr u' ↦
        let m = main_of home ents i in
        let k = counted m in
        let none_yet : belongs home m (ents pos) ≡ 0 = rw free refl in
        rw (old_depth i u', old i u') (omega (arith, k, none_yet, v.shallow i u'))
  ]

  pub fill-IsChained : IsChained home n ents' depth'
  fill-IsChained = record {
    inside = λ i u. elim (which i u) [ inl same ↦ omega (arith, inside) | inr u' ↦ v.inside i u' ];
    few = v.few;
    homes = v.homes;
    loose = fill_loose;
    headed = fill_headed;
    follows = fill_follows;
    before = fill_before;
    apart = fill_apart;
    starts = fill_starts;
    shallow = fill_shallow;
  }
