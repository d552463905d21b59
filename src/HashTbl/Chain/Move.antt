-- ===== src/HashTbl/Chain/Move.antt =====
-- An entry that is not at its main position moves to a free one, and the entry before it is linked
-- to the new place.
use eq_data_patcher.Base.{ℕ, suc, ◌<◌, ◌≡◌, ◌≢◌, ◌⊎◌, ◌∙◌, sym, refl, ap, inl, inr, arith}
use eq_data_patcher.HashTbl.{Entry, next_invalid, is_empty, set_next}
use eq_data_patcher.HashTbl.Chain.{
  index-cases, Used, Unused, Unused-ne, main_of, chain_count, IsChained,
}

module _ {V : Type 0} (home : ℕ → ℕ) (n : ℕ) (ents ents' : ℕ → Entry V) (depth depth' : ℕ → ℕ)
    (pos prev free : ℕ) (v : IsChained home n ents depth) (pos_used : Used ents pos)
    (far : main_of home ents pos ≢ pos) (prev_used : Used ents prev)
    (linked_pos : (ents prev).next ≡ pos) (inside : free < n) (unused : Unused ents free)
    (at : ents' free ≡ ents pos) (at_prev : ents' prev ≡ set_next free (ents prev))
    (gone : Unused ents' pos) (gone_next : (ents' pos).next ≡ next_invalid)
    (else_at : (j : ℕ) → j ≢ free → j ≢ prev → j ≢ pos → ents' j ≡ ents j)
    (depth_at : depth' free ≡ depth pos) (depth_else : (j : ℕ) → j ≢ free → depth' j ≡ depth j)
    (counted : (m : ℕ) → chain_count home ents' m n ≡ chain_count home ents m n) where
  away : (j : ℕ) → Used ents j → j ≢ free
  away j u = Unused-ne ents j free u unused

  old_depth : (j : ℕ) → Used ents j → depth' j ≡ depth j
  old_depth j u = depth_else j (away j u)

  -- What the link from `prev` says of `pos`.
  pos_follows : (main_of home ents pos ≡ main_of home ents prev) × (depth pos ≡ suc (depth prev))
  pos_follows =
      let linked : (ents prev).next ≢ next_invalid =
        λ q. absurd (omega (arith, q, linked_pos, v.inside pos pos_used, v.few)) in
      let (_, fm, _, fd) = v.follows prev prev_used linked in
      (ap (main_of home ents) (sym linked_pos) ∙ fm, ap depth (sym linked_pos) ∙ fd)

  prev_ne : prev ≢ pos
  prev_ne q = absurd (omega (arith, pos_follows.1, ap depth q))

  same_next : (j : ℕ) → Used ents j → j ≢ prev → j ≢ pos → (ents' j).next ≡ (ents j).next
  same_next j u ne np = ap (λ e. e.next) (else_at j (away j u) ne np)

  prev_next : (ents' prev).next ≡ free
  prev_next = ap (λ e. e.next) at_prev

  free_next : (ents' free).next ≡ (ents pos).next
  free_next = ap (λ e. e.next) at

  same_empty : (j : ℕ) → j ≢ free → j ≢ pos → is_empty (ents' j) ≡ is_empty (ents j)
  same_empty j ne np = elim (index-cases j prev) [
    | inl same ↦
        ap (λ k. is_empty (ents' k)) same
        ∙ ap is_empty at_prev
        ∙ ap (λ k. is_empty (ents k)) (sym same)
    | inr other ↦ ap is_empty (else_at j ne other np)
  ]

  kept_main : (j : ℕ) → Used ents j → j ≢ pos → main_of home ents' j ≡ main_of home ents j
  kept_main j u np = elim (index-cases j prev) [
    | inl same ↦
        ap (main_of home ents') same
        ∙ ap (λ e. home e.hash) at_prev
        ∙ ap (main_of home ents) (sym same)
    | inr other ↦ ap (λ e. home e.hash) (else_at j (away j u) other np)
  ]

  still : (j : ℕ) → Used ents j → j ≢ pos → Used ents' j
  still j u np = same_empty j (away j u) np ∙ u

  new-Used : Used ents' free
  new-Used = ap is_empty at ∙ pos_used

  new_main : main_of home ents' free ≡ main_of home ents pos
  new_main = ap (λ e. home e.hash) at

  -- `pos` starts no chain.
  no_head : (j : ℕ) → Used ents j → main_of home ents j ≢ pos
  no_head j u q = let (_, hm) = v.headed j u in far (ap (main_of home ents) (sym q) ∙ hm ∙ q)

  which : (i : ℕ) → Used ents' i → (i ≡ free) ⊎ (Used ents i × (i ≢ pos))
  which i u = elim (index-cases i free) [
    | inl same ↦ inl same
    | inr other ↦ elim (index-cases i pos) [
      | inl same ↦ absurd (Unused-ne ents' i pos u gone same)
      | inr np ↦ inr (sym (same_empty i other np) ∙ u, np)
    ]
  ]

  -- A linked entry is the one before, or has the link of the entry whose place it has taken.
  which_link :
      (i : ℕ)
      → Used ents' i
      → (ents' i).next ≢ next_invalid
      → (i ≡ prev)
        ⊎ ((o : ℕ) × Used ents o
            × ((ents' i).next ≡ (ents o).next)
            × (((o ≡ pos) × (i ≡ free)) ⊎ ((o ≡ i) × (i ≢ pos))))
  which_link i u linked = elim (which i u) [
    | inl same ↦ inr (pos, pos_used, ap (λ k. (ents' k).next) same ∙ free_next, inl (refl, same))
    | inr (u', np) ↦ elim (index-cases i prev) [
      | inl same ↦ inl same
      | inr other ↦ inr (i, u', same_next i u' other np, inr (refl, np))
    ]
  ]

  move_loose : (i : ℕ) → Unused ents' i → (ents' i).next ≡ next_invalid
  move_loose i u = elim (index-cases i pos) [
    | inl same ↦ ap (λ k. (ents' k).next) same ∙ gone_next
    | inr np ↦
        let nf : i ≢ free = λ q. Unused-ne ents' free i new-Used u (sym q) in
        let u' = sym (same_empty i nf np) ∙ u in
        let ne : i ≢ prev = λ q. Unused-ne ents prev i prev_used u' (sym q) in
        ap (λ e. e.next) (else_at i nf ne np) ∙ v.loose i u'
  ]

  move_headed :
      (i : ℕ)
      → Used ents' i
      → Used ents' (main_of home ents' i)
        × (main_of home ents' (main_of home ents' i) ≡ main_of home ents' i)
  move_headed i u = elim (which i u) [
    | inl same ↦
        let (hu, hm) = v.headed pos pos_used in
        rw same (rw new_main (still _ hu far, kept_main _ hu far ∙ hm))
    | inr (u', np) ↦
        let (hu, hm) = v.headed i u' in
        let nh = no_head i u' in rw (kept_main i u' np) (still _ hu nh, kept_main _ hu nh ∙ hm)
  ]

  move_follows :
      (i : ℕ)
      → Used ents' i
      → (ents' i).next ≢ next_invalid
      → Used ents' (ents' i).next
        × (main_of home ents' (ents' i).next ≡ main_of home ents' i)
        × ((ents' i).next ≢ main_of home ents' i)
        × (depth' (ents' i).next ≡ suc (depth' i))
  move_follows i u linked = elim (which_link i u linked) [
    | inl same ↦
        let (hu, _) = v.headed prev prev_used in
        rw same (
          rw (prev_next, kept_main prev prev_used prev_ne, old_depth prev prev_used)
            (new-Used, new_main ∙ pos_follows.0, λ q. away _ hu (sym q), depth_at ∙ pos_follows.1))
    | inr (o, ou, e, inl (o_pos, same)) ↦
        let e' = e ∙ ap (λ k. (ents k).next) o_pos in
        let (fu, fm, fh, fd) = v.follows pos pos_used (λ q. linked (e' ∙ q)) in
        let nn : (ents pos).next ≢ pos = λ q. absurd (omega (arith, ap depth q, fd)) in
        rw e' (
          rw same (
            rw (new_main, depth_at)
              (still _ fu nn, kept_main _ fu nn ∙ fm, fh, old_depth _ fu ∙ fd)))
    | inr (o, ou, e, inr (o_i, np)) ↦
        let e' = e ∙ ap (λ k. (ents k).next) o_i in
        let u' : Used ents i = ap (λ k. is_empty (ents k)) (sym o_i) ∙ ou in
        let linked' : (ents i).next ≢ next_invalid = λ q. linked (e' ∙ q) in
        let (fu, fm, fh, fd) = v.follows i u' linked' in
        let nn : (ents i).next ≢ pos = λ q. elim (index-cases i prev) [
          | inl same ↦
              absurd
                (away pos pos_used (sym q ∙ sym e' ∙ ap (λ k. (ents' k).next) same ∙ prev_next))
          | inr other ↦ absurd (other (v.apart i prev u' prev_used (q ∙ sym linked_pos) linked'))
        ] in
        rw (e', kept_main i u' np, old_depth i u')
          (still _ fu nn, kept_main _ fu nn ∙ fm, fh, old_depth _ fu ∙ fd)
  ]

  move_before :
      (i : ℕ)
      → Used ents' i
      → main_of home ents' i ≢ i
      → (p : ℕ) × Used ents' p × ((ents' p).next ≡ i)
  move_before i u apart_i = elim (which i u) [
    | inl same ↦ (prev, still prev prev_used prev_ne, prev_next ∙ sym same)
    | inr (u', np) ↦
        let (p, pu, pn) = v.before i u' (λ q. apart_i (kept_main i u' np ∙ q)) in
        elim (index-cases p pos) [
          | inl same ↦ (free, new-Used, free_next ∙ ap (λ k. (ents k).next) (sym same) ∙ pn)
          | inr other ↦
              let ne : p ≢ prev = λ q. np (sym pn ∙ ap (λ k. (ents k).next) q ∙ linked_pos) in
              (p, still p pu other, same_next p pu ne other ∙ pn)
        ]
  ]

  -- No used entry was linked to the free one.
  unlinked :
      (i o : ℕ)
      → Used ents o
      → (ents' i).next ≡ (ents o).next
      → (ents' i).next ≢ next_invalid
      → (ents' i).next ≢ free
  unlinked i o u e linked q =
      let (fu, _, _, _) = v.follows o u (λ z. linked (e ∙ z)) in away _ fu (sym e ∙ q)

  move_apart :
      (i j : ℕ)
      → Used ents' i
      → Used ents' j
      → (ents' i).next ≡ (ents' j).next
      → (ents' i).next ≢ next_invalid
      → i ≡ j
  move_apart i j u w e linked =
      let linked_j : (ents' j).next ≢ next_invalid = λ q. linked (e ∙ q) in
      elim (which_link i u linked) [
        | inl same ↦ elim (which_link j w linked_j) [
          | inl same' ↦ same ∙ sym same'
          | inr (o, ou, eo, _) ↦
              absurd
                (unlinked j o ou eo linked_j (sym e ∙ ap (λ k. (ents' k).next) same ∙ prev_next))
        ]
        | inr (o, ou, eo, oi) ↦ elim (which_link j w linked_j) [
          | inl same' ↦
              absurd (unlinked i o ou eo linked (e ∙ ap (λ k. (ents' k).next) same' ∙ prev_next))
          | inr (k, ku, ek, kj) ↦
              let q = v.apart o k ou ku (sym eo ∙ e ∙ ek) (λ z. linked (eo ∙ z)) in
              elim oi [
                | inl (o_pos, i_free) ↦ elim kj [
                  | inl (k_pos, j_free) ↦ i_free ∙ sym j_free
                  | inr (k_j, np) ↦ absurd (np (sym k_j ∙ sym q ∙ o_pos))
                ]
                | inr (o_i, np) ↦ elim kj [
                  | inl (k_pos, j_free) ↦ absurd (np (sym o_i ∙ q ∙ k_pos))
                  | inr (k_j, _) ↦ sym o_i ∙ q ∙ k_j
                ]
              ]
        ]
      ]

  move_starts : (i : ℕ) → Used ents' i → main_of home ents' i ≡ i → depth' i ≡ 0
  move_starts i u m = elim (which i u) [
    | inl same ↦
        let (hu, _) = v.headed pos pos_used in
        absurd (away _ hu (sym new_main ∙ ap (main_of home ents') (sym same) ∙ m ∙ same))
    | inr (u', np) ↦ old_depth i u' ∙ v.starts i u' (sym (kept_main i u' np) ∙ m)
  ]

  move_shallow : (i : ℕ) → Used ents' i → depth' i < chain_count home ents' (main_of home ents' i) n
  move_shallow i u = elim (which i u) [
    | inl same ↦
        rw same (rw (depth_at, new_main, counted (main_of home ents pos)) (v.shallow pos pos_used))
    | inr (u', np) ↦
        rw (old_depth i u', kept_main i u' np) (rw (counted (main_of home ents i)) (v.shallow i u'))
  ]

  pub move-IsChained : IsChained home n ents' depth'
  move-IsChained = record {
    inside =
        λ i u. elim (which i u) [ inl same ↦ omega (arith, inside) | inr (u', _) ↦ v.inside i u' ];
    few = v.few;
    homes = v.homes;
    loose = move_loose;
    headed = move_headed;
    follows = move_follows;
    before = move_before;
    apart = move_apart;
    starts = move_starts;
    shallow = move_shallow;
  }
