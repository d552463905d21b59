-- ===== src/HashTbl/Chain/Block.antt =====
-- The three ways to store an entry, on the list that models the block of src/edp_hash_tbl.c's
-- tables: `tbl_set_impl` and `tbl_realloc` share them.
use eq_data_patcher.Base.{
  ℕ, ◌<◌, ◌≡◌, ◌≢◌, ◌∙◌, sym, refl, ap, inl, inr, arith, false, List, some, length, length-set, set,
  get_or-set_self, get_or-set_ne, Bool,
}
use eq_data_patcher.HashTbl.{
  Entry, next_invalid, free_index_invalid, is_empty, set_next, ent_at, walk, WalkEnd,
}
use eq_data_patcher.HashTbl.Place.{link, find_prev}
use eq_data_patcher.HashTbl.Chain.{
  put, put_self, put_other, Used, Unused, Unused-ne, main_of, IsChained,
}
use eq_data_patcher.HashTbl.Chain.Walk.{depth_bound, start_of, find_prev_lem, walk_lem, IsEnd}
use eq_data_patcher.HashTbl.Chain.Stored.{IsStored, put-cases}
use eq_data_patcher.HashTbl.Chain.Stored.Added.{fill-IsStored, append-IsStored}
use eq_data_patcher.HashTbl.Chain.Stored.Evicted.{put_again, evict-IsStored}
use mathlib.Core.Path.{subst, fun_ext}

module _ {V : Type 0} (blank : V) where
  pub ent_at-set :
      (slots : List (Entry V)) (i : ℕ) (e : Entry V)
      → i < length slots
      → ent_at blank (set slots i e) ≡ put (ent_at blank slots) i e
  ent_at-set slots i e h = fun_ext (λ j. elim (put-cases (ent_at blank slots) i e j) [
    | inl (same, q) ↦ ap (ent_at blank (set slots i e)) same ∙ get_or-set_self slots i e _ h ∙ sym q
    | inr (other, q) ↦ get_or-set_ne slots i j e _ (λ z. other (sym z)) ∙ sym q
  ])

  -- `memcpy` and the like keep the link that the written entry has.
  abbrev pub write_at : List (Entry V) → ℕ → Entry V → List (Entry V)
  write_at slots i c = set slots i (set_next (ent_at blank slots i).next c)

  abbrev pub extend_block : List (Entry V) → ℕ → ℕ → Entry V → List (Entry V)
  extend_block slots end free c = write_at (link blank slots end free) free c

  abbrev pub evict_linked : List (Entry V) → ℕ → ℕ → ℕ → List (Entry V)
  evict_linked slots pos prev free = link blank (set slots free (ent_at blank slots pos)) prev free

  abbrev pub evict_block : List (Entry V) → ℕ → ℕ → ℕ → Entry V → List (Entry V)
  evict_block slots pos prev free c =
      link blank (write_at (evict_linked slots pos prev free) pos c) pos free_index_invalid

  module _ (home : ℕ → ℕ) (n : ℕ) (slots : List (Entry V)) (depth : ℕ → ℕ)
      (v : IsChained home n (ent_at blank slots) depth) (sized : length slots ≡ n) where
    abbrev ents : ℕ → Entry V
    ents = ent_at blank slots

    in_block : (i : ℕ) → i < n → i < length slots
    in_block i h = omega (arith, h, sized)

    pub fill_block-IsStored :
        (pos : ℕ) (c : Entry V)
        → pos < n
        → Unused ents pos
        → is_empty c ≡ false
        → home c.hash ≡ pos
        → IsStored home n ents (ent_at blank (write_at slots pos c)) (set_next next_invalid c) pos
    fill_block-IsStored pos c h free used own =
        let new = set_next next_invalid c in
        let e : ent_at blank (write_at slots pos c) ≡ put ents pos new =
          ent_at-set slots pos _ (in_block pos h)
          ∙ ap (λ k. put ents pos (set_next k c)) (v.loose pos free) in
        subst (λ f. IsStored home n ents f new pos) (sym e)
          (fill-IsStored home n ents depth v new used refl pos h free own)

    pub extend_block-IsStored :
        (end free : ℕ) (c : Entry V)
        → Used ents end
        → (ents end).next ≡ next_invalid
        → free < n
        → Unused ents free
        → is_empty c ≡ false
        → home c.hash ≡ main_of home ents end
        → IsStored home n ents
            (ent_at blank (extend_block slots end free c))
            (set_next next_invalid c)
            free
    extend_block-IsStored end free c end_used ended h unused used own =
        let new = set_next next_invalid c in
        let mid = link blank slots end free in
        let mid_eq : ent_at blank mid ≡ put ents end (set_next free (ents end)) =
          ent_at-set slots end _ (in_block end (v.inside end end_used)) in
        let next : (ent_at blank mid free).next ≡ next_invalid =
          ap (λ f. (f free).next) mid_eq
          ∙ ap (λ x. x.next)
              (put_other ents end (set_next free (ents end)) free
                (λ q. Unused-ne ents end free end_used unused (sym q)))
          ∙ v.loose free unused in
        let e : ent_at blank (extend_block slots end free c)
            ≡ put (put ents end (set_next free (ents end))) free new =
          ent_at-set mid free _
            (omega (arith, length-set slots end (set_next free (ents end)), in_block free h))
          ∙ ap (λ k. put (ent_at blank mid) free (set_next k c)) next
          ∙ ap (λ f. put f free new) mid_eq in
        subst (λ f. IsStored home n ents f new free) (sym e)
          (append-IsStored home n ents depth v new used refl end free end_used ended h unused own)

    module _ (pos prev free : ℕ) (pos_used : Used ents pos) (prev_used : Used ents prev)
        (h : free < n) (unused : Unused ents free) where
      pub ent_at-evict_linked :
          ent_at blank (evict_linked slots pos prev free)
          ≡ put (put ents free (ents pos)) prev (set_next free (ents prev))
      ent_at-evict_linked =
          let moved = set slots free (ents pos) in
          let moved_eq : ent_at blank moved ≡ put ents free (ents pos) =
            ent_at-set slots free _ (in_block free h) in
          let same : ent_at blank moved prev ≡ ents prev =
            ap (λ f. f prev) moved_eq
            ∙ put_other ents free (ents pos) prev (Unused-ne ents prev free prev_used unused) in
          ent_at-set moved prev _ (
            omega
              (arith, length-set slots free (ents pos), in_block prev (v.inside prev prev_used)))
          ∙ ap (λ x. put (ent_at blank moved) prev (set_next free x)) same
          ∙ ap (λ f. put f prev (set_next free (ents prev))) moved_eq

      pub length-evict_linked : length (evict_linked slots pos prev free) ≡ length slots
      length-evict_linked =
          length-set (set slots free (ents pos)) prev _ ∙ length-set slots free (ents pos)

      pub evict_block-IsStored :
          (c : Entry V)
          → main_of home ents pos ≢ pos
          → (ents prev).next ≡ pos
          → is_empty c ≡ false
          → home c.hash ≡ pos
          → IsStored home n ents
              (ent_at blank (evict_block slots pos prev free c))
              (set_next next_invalid c)
              free
      evict_block-IsStored c far linked used own =
          let new = set_next next_invalid c in
          let mid = evict_linked slots pos prev free in
          let inner = in_block pos (v.inside pos pos_used) in
          let x = set_next (ent_at blank mid pos).next c in
          let placed = set mid pos x in
          let placed_eq : ent_at blank placed ≡ put (ent_at blank mid) pos x =
            ent_at-set mid pos x (omega (arith, length-evict_linked, inner)) in
          let same : ent_at blank placed pos ≡ x =
            ap (λ f. f pos) placed_eq ∙ put_self (ent_at blank mid) pos x in
          let e : ent_at blank (evict_block slots pos prev free c)
              ≡ put (put (put ents free (ents pos)) prev (set_next free (ents prev))) pos new =
            ent_at-set placed pos _
              (omega (arith, length-set mid pos x, length-evict_linked, inner))
            ∙ ap (λ k. put (ent_at blank placed) pos (set_next free_index_invalid k)) same
            ∙ ap (λ f. put f pos new) placed_eq
            ∙ put_again (ent_at blank mid) pos x new
            ∙ ap (λ f. put f pos new) ent_at-evict_linked in
          subst (λ f. IsStored home n ents f new free) (sym e)
            (evict-IsStored home n ents depth v blank pos prev free pos_used far prev_used linked h
              unused new used refl own)

    -- The loop of an eviction finds the entry before the one that moves.
    pub evict_prev :
        (pos free : ℕ)
        → Used ents pos
        → main_of home ents pos ≢ pos
        → Unused ents free
        → (p : ℕ) × (find_prev blank
              (set slots free (ents pos))
              pos
              (length slots)
              (main_of home ents pos)
            ≡ some p)
          × Used ents p
          × ((ents p).next ≡ pos)
    evict_prev pos free pu far unused =
        let (hu, hm) = v.headed pos pu in
        let zero_depth = v.starts _ hu hm in
        let deep : depth pos ≢ 0 = λ q. far (start_of home n ents depth v pos pu q) in
        let agree : (i : ℕ) → Used ents i → ent_at blank (set slots free (ents pos)) i ≡ ents i =
          λ i u. get_or-set_ne slots free i _ _ (λ q. Unused-ne ents i free u unused (sym q)) in
        find_prev_lem home n ents depth v blank (set slots free (ents pos)) agree pos pu
          (length slots) (main_of home ents pos) hu (sym hm) (omega (arith, zero_depth, deep))
          (omega (arith, depth_bound home n ents depth v pos pu, sized))

    -- A walk from the start of a chain ends, with `IsEnd`.
    pub chain_walk :
        (test : Entry V → Bool) (pos : ℕ)
        → Used ents pos
        → main_of home ents pos ≡ pos
        → (w : WalkEnd) × (walk blank test slots (length slots) pos ≡ some w)
          × IsEnd home n ents depth v blank slots (λ i u. refl) test pos (depth pos) w
    chain_walk test pos u own =
        walk_lem home n ents depth v blank slots (λ i u. refl) test pos (length slots) pos u own
          (omega (arith, sized))
