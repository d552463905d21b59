-- ===== src/HashTbl/Chain/Append.antt =====
-- An entry behind the last of its chain.
use eq_data_patcher.Base.{
  ℕ, suc, ◌+◌, ◌<◌, ◌≡◌, ◌≢◌, ◌⊎◌, ◌∙◌, sym, refl, ap, inl, inr, arith, false, ==_iff,
}
use eq_data_patcher.HashTbl.{Entry, next_invalid, is_empty, set_next}
use eq_data_patcher.HashTbl.Chain.{
  index-cases, Used, Unused, Unused-ne, main_of, belongs, chain_count, IsChained,
}

module _ {V : Type 0} (home : ℕ → ℕ) (n : ℕ) (ents ents' : ℕ → Entry V) (depth depth' : ℕ → ℕ)
    (end free : ℕ) (new : Entry V) (v : IsChained home n ents depth) (end_used : Used ents end)
    (ended : (ents end).next ≡ next_invalid) (inside : free < n) (unused : Unused ents free)
    (used : is_empty new ≡ false) (last : new.next ≡ next_invalid)
    (own : home new.hash ≡ main_of home ents end) (at : ents' free ≡ new)
    (at_end : ents' end ≡ set_next free (ents end))
    (else_at : (j : ℕ) → j ≢ free → j ≢ end → ents' j ≡ ents j)
    (depth_at : depth' free ≡ suc (depth end))
    (depth_else : (j : ℕ) → j ≢ free → depth' j ≡ depth j)
    (counted : (m : ℕ)
      → chain_count home ents' m n + belongs home m (ents free)
        ≡ chain_count home ents m n + belongs home m new) where
  away : (j : ℕ) → Used ents j → j ≢ free
  away j u = Unused-ne ents j free u unused

  old_depth : (j : ℕ) → Used ents j → depth' j ≡ depth j
  old_depth j u = depth_else j (away j u)

  same_next : (j : ℕ) → Used ents j → j ≢ end → (ents' j).next ≡ (ents j).next
  same_next j u ne = ap (λ e. e.next) (else_at j (away j u) ne)

  end_next : (ents' end).next ≡ free
  end_next = ap (λ e. e.next) at_end

  same_empty : (j : ℕ) → j ≢ free → is_empty (ents' j) ≡ is_empty (ents j)
  same_empty j ne = elim (index-cases j end) [
    | inl same ↦
        ap (λ k. is_empty (ents' k)) same
        ∙ ap is_empty at_end
        ∙ ap (λ k. is_empty (ents k)) (sym same)
    | inr other ↦ ap is_empty (else_at j ne other)
  ]

  same_main : (j : ℕ) → j ≢ free → main_of home ents' j ≡ main_of home ents j
  same_main j ne = elim (index-cases j end) [
    | inl same ↦
        ap (main_of home ents') same
        ∙ ap (λ e. home e.hash) at_end
        ∙ ap (main_of home ents) (sym same)
    | inr other ↦ ap (λ e. home e.hash) (else_at j ne other)
  ]

  still : (j : ℕ) → Used ents j → Used ents' j
  still j u = same_empty j (away j u) ∙ u

  kept_main : (j : ℕ) → Used ents j → main_of home ents' j ≡ main_of home ents j
  kept_main j u = same_main j (away j u)

  new-Used : Used ents' free
  new-Used = ap is_empty at ∙ used

  new_main : main_of home ents' free ≡ main_of home ents end
  new_main = ap (λ e. home e.hash) at ∙ own

  new_last : (i : ℕ) → i ≡ free → (ents' i).next ≡ next_invalid
  new_last i same = ap (λ k. (ents' k).next) same ∙ ap (λ e. e.next) at ∙ last

  which : (i : ℕ) → Used ents' i → (i ≡ free) ⊎ Used ents i
  which i u = elim (index-cases i free) [
    | inl same ↦ inl same
    | inr other ↦ inr (sym (same_empty i other) ∙ u)
  ]

  -- A linked entry is the old end, or has the link that it had.
  which_link :
      (i : ℕ)
      → Used ents' i
      → (ents' i).next ≢ next_invalid
      → (i ≡ end) ⊎ ((i ≢ end) × Used ents i × ((ents' i).next ≡ (ents i).next))
  which_link i u linked = elim (which i u) [
    | inl same ↦ absurd (linked (new_last i same))
    | inr u' ↦ elim (index-cases i end) [
      | inl same ↦ inl same
      | inr other ↦ inr (other, u', same_next i u' other)
    ]
  ]

  append_loose : (i : ℕ) → Unused ents' i → (ents' i).next ≡ next_invalid
  append_loose i u = elim (index-cases i free) [
    | inl same ↦ new_last i same
    | inr other ↦
        let u' = sym (same_empty i other) ∙ u in
        let ne : i ≢ end = λ q. Unused-ne ents end i end_used u' (sym q) in
        ap (λ e. e.next) (else_at i other ne) ∙ v.loose i u'
  ]

  append_headed :
      (i : ℕ)
      → Used ents' i
      → Used ents' (main_of home ents' i)
        × (main_of home ents' (main_of home ents' i) ≡ main_of home ents' i)
  append_headed i u = elim (which i u) [
    | inl same ↦
        let (hu, hm) = v.headed end end_used in
        rw same (rw new_main (still _ hu, kept_main _ hu ∙ hm))
    | inr u' ↦ let (hu, hm) = v.headed i u' in rw (kept_main i u') (still _ hu, kept_main _ hu ∙ hm)
  ]

  append_follows :
      (i : ℕ)
      → Used ents' i
      → (ents' i).next ≢ next_invalid
      → Used ents' (ents' i).next
        × (main_of home ents' (ents' i).next ≡ main_of home ents' i)
        × ((ents' i).next ≢ main_of home ents' i)
        × (depth' (ents' i).next ≡ suc (depth' i))
  append_follows i u linked = elim (which_link i u linked) [
    | inl same ↦
        let (hu, hm) = v.headed end end_used in
        rw same (
          rw (end_next, kept_main end end_used, old_depth end end_used)
            (new-Used, new_main, λ q. away _ hu (sym q), depth_at))
    | inr (other, u', e) ↦
        let (fu, fm, fh, fd) = v.follows i u' (λ q. linked (e ∙ q)) in
        rw (e, kept_main i u', old_depth i u')
          (still _ fu, kept_main _ fu ∙ fm, fh, old_depth _ fu ∙ fd)
  ]

  append_before :
      (i : ℕ)
      → Used ents' i
      → main_of home ents' i ≢ i
      → (p : ℕ) × Used ents' p × ((ents' p).next ≡ i)
  append_before i u far = elim (which i u) [
    | inl same ↦ (end, still end end_used, end_next ∙ sym same)
    | inr u' ↦
        let (p, pu, pn) = v.before i u' (λ q. far (kept_main i u' ∙ q)) in
        let ne : p ≢ end =
          λ q. absurd (omega (arith, ap (λ k. (ents k).next) q, pn, ended, v.inside i u', v.few)) in
        (p, still p pu, same_next p pu ne ∙ pn)
  ]

  -- No used entry was linked to the free one.
  unlinked :
      (j : ℕ)
      → Used ents j
      → (ents' j).next ≡ (ents j).next
      → (ents' j).next ≢ next_invalid
      → (ents' j).next ≢ free
  unlinked j u e linked q =
      let (fu, _, _, _) = v.follows j u (λ z. linked (e ∙ z)) in away _ fu (sym e ∙ q)

  append_apart :
      (i j : ℕ)
      → Used ents' i
      → Used ents' j
      → (ents' i).next ≡ (ents' j).next
      → (ents' i).next ≢ next_invalid
      → i ≡ j
  append_apart i j u w e linked =
      let linked_j : (ents' j).next ≢ next_invalid = λ q. linked (e ∙ q) in
      elim (which_link i u linked) [
        | inl same ↦ elim (which_link j w linked_j) [
          | inl same' ↦ same ∙ sym same'
          | inr (_, wj, ej) ↦
              absurd (unlinked j wj ej linked_j (sym e ∙ ap (λ k. (ents' k).next) same ∙ end_next))
        ]
        | inr (_, ui, ei) ↦ elim (which_link j w linked_j) [
          | inl same' ↦
              absurd (unlinked i ui ei linked (e ∙ ap (λ k. (ents' k).next) same' ∙ end_next))
          | inr (_, wj, ej) ↦ v.apart i j ui wj (sym ei ∙ e ∙ ej) (λ q. linked (ei ∙ q))
        ]
      ]

  append_starts : (i : ℕ) → Used ents' i → main_of home ents' i ≡ i → depth' i ≡ 0
  append_starts i u m = elim (which i u) [
    | inl same ↦
        let (hu, hm) = v.headed end end_used in
        absurd (away _ hu (sym new_main ∙ ap (main_of home ents') (sym same) ∙ m ∙ same))
    | inr u' ↦ old_depth i u' ∙ v.starts i u' (sym (kept_main i u') ∙ m)
  ]

  append_shallow :
      (i : ℕ) → Used ents' i → depth' i < chain_count home ents' (main_of home ents' i) n
  append_shallow i u = elim (which i u) [
    | inl same ↦
        let m = main_of home ents end in
        let one : belongs home m new ≡ 1 = rw (used, own) (rw ((==_iff m m).1 refl) refl) in
        let none_yet : belongs home m (ents free) ≡ 0 = rw unused refl in
        rw same (
          rw (depth_at, new_main) (omega (arith, counted m, one, none_yet, v.shallow end end_used)))
    | inr u' ↦
        let m = main_of home ents i in
        let none_yet : belongs home m (ents free) ≡ 0 = rw unused refl in
        rw (old_depth i u', kept_main i u') (omega (arith, counted m, none_yet, v.shallow i u'))
  ]

  pub append-IsChained : IsChained home n ents' depth'
  append-IsChained = record {
    inside = λ i u. elim (which i u) [ inl same ↦ omega (arith, inside) | inr u' ↦ v.inside i u' ];
    few = v.few;
    homes = v.homes;
    loose = append_loose;
    headed = append_headed;
    follows = append_follows;
    before = append_before;
    apart = append_apart;
    starts = append_starts;
    shallow = append_shallow;
  }
