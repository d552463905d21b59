-- ===== src/HashTbl/Chain/Stored/Evicted.antt =====
-- An entry in its main position, from which one of another chain has moved to the free entry.
use eq_data_patcher.Base.{ℕ, ◌<◌, ◌≡◌, ◌≢◌, ◌∙◌, sym, refl, ap, inl, inr, arith, false}
use eq_data_patcher.HashTbl.{Entry, next_invalid, is_empty, set_next, blank_ent}
use eq_data_patcher.HashTbl.Chain.{
  put, put_self, put_other, index-cases, Used, Unused, Unused-ne, content, main_of, belongs,
  chain_count, IsChained,
}
use eq_data_patcher.HashTbl.Chain.Count.{chain_count-put}
use eq_data_patcher.HashTbl.Chain.Move.{move-IsChained}
use eq_data_patcher.HashTbl.Chain.Stored.{IsStored, put-cases}
use eq_data_patcher.HashTbl.Chain.Stored.Added.{fill-IsStored}
use mathlib.Core.Path.{subst, fun_ext}

-- The last of two writes to one cell is the one that stays.
pub put_again : {A : Type 0} (f : ℕ → A) (i : ℕ) (x y : A) → put (put f i x) i y ≡ put f i y
put_again f i x y = fun_ext (λ j. elim (put-cases (put f i x) i y j) [
  | inl (same, e) ↦ e ∙ sym (ap (put f i y) same ∙ put_self f i y)
  | inr (other, e) ↦ e ∙ put_other f i x j other ∙ sym (put_other f i y j other)
])

module _ {V : Type 0} (home : ℕ → ℕ) (n : ℕ) (ents : ℕ → Entry V) (depth : ℕ → ℕ)
    (v : IsChained home n ents depth) (blank : V) (pos prev free : ℕ) (pos_used : Used ents pos)
    (far : main_of home ents pos ≢ pos) (prev_used : Used ents prev)
    (linked_pos : (ents prev).next ≡ pos) (within : free < n) (unused : Unused ents free) where
  abbrev copied : ℕ → Entry V
  copied = put ents free (ents pos)

  abbrev linked : ℕ → Entry V
  linked = put copied prev (set_next free (ents prev))

  abbrev moved : ℕ → Entry V
  moved = put linked pos (blank_ent blank)

  pos_ne : pos ≢ free
  pos_ne = Unused-ne ents pos free pos_used unused

  prev_free : prev ≢ free
  prev_free = Unused-ne ents prev free prev_used unused

  pos_prev : pos ≢ prev
  pos_prev q =
      let linked_prev : (ents prev).next ≢ next_invalid =
        λ z. absurd (omega (arith, z, linked_pos, v.inside pos pos_used, v.few)) in
      let (_, _, _, fd) = v.follows prev prev_used linked_prev in
      absurd (omega (arith, fd, ap depth linked_pos, ap depth q))

  copied_else : (j : ℕ) → j ≢ free → copied j ≡ ents j
  copied_else = put_other ents free (ents pos)

  moved_free : moved free ≡ ents pos
  moved_free =
      put_other linked pos (blank_ent blank) free (λ q. pos_ne (sym q))
      ∙ put_other copied prev (set_next free (ents prev)) free (λ q. prev_free (sym q))
      ∙ put_self ents free (ents pos)

  moved_prev : moved prev ≡ set_next free (ents prev)
  moved_prev =
      put_other linked pos (blank_ent blank) prev (λ q. pos_prev (sym q))
      ∙ put_self copied prev (set_next free (ents prev))

  moved_pos : moved pos ≡ blank_ent blank
  moved_pos = put_self linked pos (blank_ent blank)

  moved_else : (j : ℕ) → j ≢ free → j ≢ prev → j ≢ pos → moved j ≡ ents j
  moved_else j nf ne np =
      put_other linked pos (blank_ent blank) j np
      ∙ put_other copied prev (set_next free (ents prev)) j ne
      ∙ copied_else j nf

  linked_at_pos : linked pos ≡ ents pos
  linked_at_pos =
      put_other copied prev (set_next free (ents prev)) pos pos_prev ∙ copied_else pos pos_ne

  moved_count : (m : ℕ) → chain_count home moved m n ≡ chain_count home ents m n
  moved_count m =
      let a = chain_count-put home ents m free n (ents pos) within in
      let b =
        chain_count-put home copied m prev n (set_next free (ents prev))
          (v.inside prev prev_used) in
      let c = chain_count-put home linked m pos n (blank_ent blank) (v.inside pos pos_used) in
      let a' : belongs home m (ents free) ≡ 0 = rw unused refl in
      let b' : belongs home m (copied prev) ≡ belongs home m (ents prev) =
        ap (belongs home m) (copied_else prev prev_free) in
      let c' : belongs home m (linked pos) ≡ belongs home m (ents pos) =
        ap (belongs home m) linked_at_pos in
      omega (arith, a, b, c, a', b', c')

  moved-IsChained : IsChained home n moved (put depth free (depth pos))
  moved-IsChained =
      move-IsChained home n ents moved depth (put depth free (depth pos)) pos prev free v pos_used
        far prev_used linked_pos within unused moved_free moved_prev (ap is_empty moved_pos)
        (ap (λ e. e.next) moved_pos) moved_else (put_self depth free (depth pos))
        (put_other depth free (depth pos)) moved_count

  -- Where the content of an entry has gone.
  moved_kept :
      (i : ℕ) → Used ents i → (j : ℕ) × Used moved j × (content (moved j) ≡ content (ents i))
  moved_kept i u = elim (index-cases i pos) [
    | inl same ↦ (
      free,
      ap is_empty moved_free ∙ pos_used,
      ap content moved_free ∙ ap (λ k. content (ents k)) (sym same),
    )
    | inr np ↦ elim (index-cases i prev) [
      | inl same ↦
          let e = ap content moved_prev ∙ ap (λ k. content (ents k)) (sym same) in
          (prev, ap is_empty moved_prev ∙ prev_used, e)
      | inr ne ↦
          let e = moved_else i (Unused-ne ents i free u unused) ne np in
          (i, ap is_empty e ∙ u, ap content e)
    ]
  ]

  -- Where it has come from.
  moved_origin :
      (j : ℕ) → Used moved j → (i : ℕ) × Used ents i × (content (moved j) ≡ content (ents i))
  moved_origin j u = elim (index-cases j free) [
    | inl same ↦ (pos, pos_used, ap (λ k. content (moved k)) same ∙ ap content moved_free)
    | inr nf ↦ elim (index-cases j prev) [
      | inl same ↦ (prev, prev_used, ap (λ k. content (moved k)) same ∙ ap content moved_prev)
      | inr ne ↦ elim (index-cases j pos) [
        | inl same ↦ absurd (Unused-ne moved j pos u (ap is_empty moved_pos) same)
        | inr np ↦ let e = moved_else j nf ne np in (j, sym (ap is_empty e) ∙ u, ap content e)
      ]
    ]
  ]

  moved_others : (j : ℕ) → j ≢ free → j ≢ pos → is_empty (moved j) ≡ is_empty (ents j)
  moved_others j nf np = elim (index-cases j prev) [
    | inl same ↦
        ap (λ k. is_empty (moved k)) same
        ∙ ap is_empty moved_prev
        ∙ ap (λ k. is_empty (ents k)) (sym same)
    | inr ne ↦ ap is_empty (moved_else j nf ne np)
  ]

  pub evict-IsStored :
      (new : Entry V)
      → is_empty new ≡ false
      → new.next ≡ next_invalid
      → home new.hash ≡ pos
      → IsStored home n ents (put linked pos new) new free
  evict-IsStored new used last own =
      let s =
        subst (λ f. IsStored home n moved f new pos) (put_again linked pos (blank_ent blank) new)
          (fill-IsStored home n moved (put depth free (depth pos)) moved-IsChained new used last pos
            (v.inside pos pos_used) (ap is_empty moved_pos) own) in
      record {
        depth = s.depth;
        chained = s.chained;
        within = within;
        was = unused;
        now = s.others free (λ q. pos_ne (sym q)) ∙ ap is_empty moved_free ∙ pos_used;
        others = λ j nf. elim (index-cases j pos) [
          | inl same ↦
              ap (λ k. is_empty (put linked pos new k)) same
              ∙ s.now
              ∙ sym pos_used
              ∙ ap (λ k. is_empty (ents k)) (sym same)
          | inr np ↦ s.others j np ∙ moved_others j nf np
        ];
        kept = λ i u.
            let (j, ju, e) = moved_kept i u in let (k, ku, f) = s.kept j ju in (k, ku, f ∙ e);
        added = s.added;
        origin = λ j u. elim (s.origin j u) [
          | inl e ↦ inl e
          | inr (i, iu, e) ↦ let (k, ku, f) = moved_origin i iu in inr (k, ku, e ∙ f)
        ];
      }
