-- ===== src/HashTbl/Chain/Walk.antt =====
-- A walk along a chain of src/edp_hash_tbl.c, from its start.
use eq_data_patcher.Base.{
  ℕ, zero, suc, ◌+◌, ◌≤◌, ◌<◌, ◌≡◌, ◌≢◌, ◌∙◌, sym, refl, ap, inl, inr, arith, Bool, false, true,
  ◌==◌, ==_iff, Bool-cases, List, some, ◌-◌,
}
use eq_data_patcher.HashTbl.{Entry, next_invalid, ent_at, WalkEnd, found, last, walk}
use eq_data_patcher.HashTbl.Place.{find_prev}
use eq_data_patcher.HashTbl.Chain.{index-cases, Used, main_of, IsChained}
use eq_data_patcher.HashTbl.Chain.Count.{chain_count_le}
use mathlib.Core.Path.{subst}

module _ {V : Type 0} (home : ℕ → ℕ) (n : ℕ) (ents : ℕ → Entry V) (depth : ℕ → ℕ)
    (v : IsChained home n ents depth) where
  pub depth_bound : (i : ℕ) → Used ents i → depth i < n
  depth_bound i u = omega (arith, v.shallow i u, chain_count_le home ents (main_of home ents i) n)

  linked_to : (p i : ℕ) → Used ents i → (ents p).next ≡ i → (ents p).next ≢ next_invalid
  linked_to p i u e q = absurd (omega (arith, e, q, v.inside i u, v.few))

  -- The entry before one that is not the start of its chain.
  back :
      (i d : ℕ)
      → Used ents i
      → depth i ≡ suc d
      → (p : ℕ) × Used ents p
        × ((ents p).next ≡ i)
        × (main_of home ents p ≡ main_of home ents i)
        × (depth p ≡ d)
  back i d u e =
      let (p, pu, pn) = v.before i u (λ q. absurd (omega (arith, v.starts i u q, e))) in
      let (_, fm, _, fd) = v.follows p pu (linked_to p i u pn) in
      let m = sym fm ∙ ap (main_of home ents) pn in
      (p, pu, pn, m, omega (arith, fd, ap depth pn, e))

  pub start_of : (i : ℕ) → Used ents i → depth i ≡ 0 → main_of home ents i ≡ i
  start_of i u e = elim (index-cases (main_of home ents i) i) [
    | inl own ↦ own
    | inr other ↦
        let (p, pu, pn) = v.before i u other in
        let (_, _, _, fd) = v.follows p pu (linked_to p i u pn) in
        absurd (omega (arith, fd, ap depth pn, e))
  ]

  -- A chain has one entry at each distance.
  depth_unique :
      (d i j : ℕ)
      → Used ents i
      → Used ents j
      → main_of home ents i ≡ main_of home ents j
      → depth i ≡ d
      → depth j ≡ d
      → i ≡ j
  depth_unique zero i j u w m e f = sym (start_of i u e) ∙ m ∙ start_of j w f
  depth_unique (suc d) i j u w m e f =
      let (p, pu, pn, pm, pd) = back i d u e in
      let (q, qu, qn, qm, qd) = back j d w f in
      sym pn ∙ ap (λ k. (ents k).next) (depth_unique d p q pu qu (pm ∙ m ∙ sym qm) pd qd) ∙ qn

  -- The entry of the same chain at a smaller distance.
  ancestor :
      (g d i : ℕ)
      → Used ents i
      → depth i ≡ d + g
      → (a : ℕ) × Used ents a × (main_of home ents a ≡ main_of home ents i) × (depth a ≡ d)
  ancestor zero d i u e = (i, u, refl, omega (arith, e))
  ancestor (suc g) d i u e =
      let (p, pu, pn, pm, pd) = back i (d + g) u (omega (arith, e)) in
      let (a, au, am, ad) = ancestor g d p pu pd in (a, au, am ∙ pm, ad)

  -- An entry that has another of its chain further on is linked to the next of them.
  pub onward :
      (i k : ℕ)
      → Used ents i
      → Used ents k
      → main_of home ents k ≡ main_of home ents i
      → depth i < depth k
      → Used ents (ents i).next
        × (main_of home ents (ents i).next ≡ main_of home ents i)
        × (depth (ents i).next ≡ suc (depth i))
        × ((ents i).next ≢ next_invalid)
  onward i k u w m h =
      let (a, au, am, ad) =
        ancestor (depth k - suc (depth i)) (suc (depth i)) k w (omega (arith, h)) in
      let (p, pu, pn, pm, pd) = back a (depth i) au ad in
      let same = depth_unique (depth i) p i pu u (pm ∙ am ∙ m) pd refl in
      let e = ap (λ x. (ents x).next) (sym same) ∙ pn in
      let linked = linked_to i a au e in
      let (fu, fm, _, fd) = v.follows i u linked in (fu, fm, fd, linked)

  module _ (blank : V) (slots : List (Entry V))
      (agree : (i : ℕ) → Used ents i → ent_at blank slots i ≡ ents i) where
    -- The link that leads to `pos` is found.
    pub find_prev_lem :
        (pos : ℕ)
        → Used ents pos
        → (fuel i : ℕ) → Used ents i
        → main_of home ents pos ≡ main_of home ents i
        → depth i < depth pos
        → depth pos ≤ depth i + fuel
        → (p : ℕ) × (find_prev blank slots pos fuel i ≡ some p)
          × Used ents p
          × ((ents p).next ≡ pos)
    unfolding find_prev
    find_prev_lem pos pu zero i u m h room = absurd (omega (arith, h, room))
    find_prev_lem pos pu (suc fuel) i u m h room =
        let (fu, fm, fd, _) = onward i pos u pu m h in
        let here = ap (λ e. e.next) (agree i u) in
        elim (Bool-cases ((ents i).next == pos)) [
          | inl same ↦ (i, rw here (rw same refl), u, (==_iff _ _).0 same)
          | inr other ↦
              let less : depth (ents i).next < depth pos =
                elim (index-cases (depth (ents i).next) (depth pos)) [
                  | inl q ↦
                      let z =
                        depth_unique (depth pos) (ents i).next pos fu pu (fm ∙ sym m) q refl in
                      ground (arith, other, (==_iff _ _).1 z)
                  | inr ne ↦ omega (arith, ne, fd, h)
                ] in
              let (p, e, pu2, pn2) =
                find_prev_lem pos pu fuel (ents i).next fu (m ∙ sym fm) less
                  (omega (arith, fd, room)) in
              (p, rw here (rw (other, e) refl), pu2, pn2)
        ]

  module _ (blank : V) (slots : List (Entry V))
      (agree : (i : ℕ) → Used ents i → ent_at blank slots i ≡ ents i) (test : Entry V → Bool) where
    -- What is known of the end of a walk from an entry of the chain `m`: an entry of that chain
    -- that passes the test, or the last one after entries that do not.
    pub data IsEnd (m from : ℕ) : WalkEnd → Type 0 where
      at_found :
          (i : ℕ)
          → Used ents i
          → main_of home ents i ≡ m
          → test (ents i) ≡ true
          → IsEnd m from (found i)
      at_last :
          (i : ℕ)
          → Used ents i
          → main_of home ents i ≡ m
          → (ents i).next ≡ next_invalid
          → ((k : ℕ)
              → Used ents k
              → main_of home ents k ≡ m
              → from ≤ depth k
              → test (ents k) ≡ false)
          → IsEnd m from (last i)

    -- Of the entries not nearer to the start than `i`, the others are further.
    further :
        (m i : ℕ) (w : WalkEnd)
        → Used ents i
        → main_of home ents i ≡ m
        → test (ents i) ≡ false
        → IsEnd m (suc (depth i)) w
        → IsEnd m (depth i) w
    further m i _ u e fails (at_found j ju jm passes) = at_found j ju jm passes
    further m i _ u e fails (at_last j ju jm ended all) = at_last j ju jm ended (λ k ku km le.
        elim (index-cases (depth k) (depth i)) [
          | inl same ↦
              ap (λ x. test (ents x)) (depth_unique (depth i) k i ku u (km ∙ sym e) same refl)
              ∙ fails
          | inr ne ↦ all k ku km (omega (arith, le, ne))
        ])

    pub walk_lem :
        (m fuel i : ℕ)
        → Used ents i
        → main_of home ents i ≡ m
        → n ≤ fuel + depth i
        → (w : WalkEnd) × (walk blank test slots fuel i ≡ some w) × IsEnd m (depth i) w
    unfolding walk
    walk_lem m zero i u e room = absurd (omega (arith, room, depth_bound i u))
    walk_lem m (suc fuel) i u e room = elim (Bool-cases (test (ents i))) [
      | inl passes ↦ (found i, rw (agree i u) (rw passes refl), at_found i u e passes)
      | inr fails ↦ elim (Bool-cases ((ents i).next == next_invalid)) [
        | inl ended ↦
            let ended' = (==_iff (ents i).next next_invalid).0 ended in
            (
              last i,
              rw (agree i u) (rw (fails, ended) refl),
              at_last i u e ended' (λ k ku km le. elim (index-cases (depth k) (depth i)) [
                | inl same ↦
                    ap (λ x. test (ents x)) (depth_unique (depth i) k i ku u (km ∙ sym e) same refl)
                    ∙ fails
                | inr ne ↦
                    let (_, _, _, linked) = onward i k u ku (km ∙ sym e) (omega (arith, le, ne)) in
                    absurd (linked ended')
              ]),
            )
        | inr linked ↦
            let linked' : (ents i).next ≢ next_invalid =
              λ q. ground (arith, linked, (==_iff _ _).1 q) in
            let (fu, fm, _, fd) = v.follows i u linked' in
            let (w, ends, is_end) =
              walk_lem m fuel (ents i).next fu (fm ∙ e) (omega (arith, fd, room)) in
            (
              w,
              rw (agree i u) (rw (fails, linked) ends),
              further m i w u e fails (subst (λ d. IsEnd m d w) fd is_end),
            )
      ]
    ]
