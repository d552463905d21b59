-- ===== src/HashTbl/Chain/Stored/Added.antt =====
-- A free main position, and the free entry behind the end of a chain.
use eq_data_patcher.Base.{ℕ, suc, ◌<◌, ◌≡◌, ◌∙◌, sym, ap, inl, inr, arith, false}
use eq_data_patcher.HashTbl.{Entry, next_invalid, is_empty, set_next}
use eq_data_patcher.HashTbl.Chain.{
  put, put_self, put_other, Used, Unused, Unused-ne, content, main_of, belongs, IsChained,
}
use eq_data_patcher.HashTbl.Chain.Count.{chain_count-put}
use eq_data_patcher.HashTbl.Chain.Fill.{fill-IsChained}
use eq_data_patcher.HashTbl.Chain.Append.{append-IsChained}
use eq_data_patcher.HashTbl.Chain.Stored.{IsStored, put-cases}

module _ {V : Type 0} (home : ℕ → ℕ) (n : ℕ) (ents : ℕ → Entry V) (depth : ℕ → ℕ)
    (v : IsChained home n ents depth) (new : Entry V) (used : is_empty new ≡ false)
    (last : new.next ≡ next_invalid) where
  pub fill-IsStored :
      (pos : ℕ)
      → pos < n
      → Unused ents pos
      → home new.hash ≡ pos
      → IsStored home n ents (put ents pos new) new pos
  fill-IsStored pos within free own =
      let at = put_self ents pos new in
      let keep = put_other ents pos new in
      record {
        depth = put depth pos 0;
        chained =
            fill-IsChained home n ents (put ents pos new) depth (put depth pos 0) pos new v within
              free used last own at keep (put_self depth pos 0) (put_other depth pos 0)
              (λ m. chain_count-put home ents m pos n new within);
        within = within;
        was = free;
        now = ap is_empty at ∙ used;
        others = λ j ne. ap is_empty (keep j ne);
        kept = λ i u.
            let e = keep i (Unused-ne ents i pos u free) in (i, ap is_empty e ∙ u, ap content e);
        added = (pos, ap is_empty at ∙ used, ap content at);
        origin = λ j u. elim (put-cases ents pos new j) [
          | inl (_, e) ↦ inl (ap content e)
          | inr (_, e) ↦ inr (j, sym (ap is_empty e) ∙ u, ap content e)
        ];
      }

  module _ (end free : ℕ) where
    abbrev linked : ℕ → Entry V
    linked = put ents end (set_next free (ents end))

    linked_content : (j : ℕ) → content (linked j) ≡ content (ents j)
    linked_content j = elim (put-cases ents end (set_next free (ents end)) j) [
      | inl (same, e) ↦ ap content e ∙ ap (λ k. content (ents k)) (sym same)
      | inr (_, e) ↦ ap content e
    ]

    linked_empty : (j : ℕ) → is_empty (linked j) ≡ is_empty (ents j)
    linked_empty j = ap is_empty (linked_content j)

    pub append-IsStored :
        Used ents end
        → (ents end).next ≡ next_invalid
        → free < n
        → Unused ents free
        → home new.hash ≡ main_of home ents end
        → IsStored home n ents (put linked free new) new free
    append-IsStored end_used ended within unused own =
        let at = put_self linked free new in
        let keep = put_other linked free new in
        let end_ne = Unused-ne ents end free end_used unused in
        let depth' = put depth free (suc (depth end)) in
        record {
          depth = depth';
          chained =
              append-IsChained home n ents (put linked free new) depth depth' end free new v
                end_used ended within unused used last own at
                (keep end end_ne ∙ put_self ents end (set_next free (ents end)))
                (λ j nf ne. keep j nf ∙ put_other ents end (set_next free (ents end)) j ne)
                (put_self depth free (suc (depth end))) (put_other depth free (suc (depth end)))
                (λ m.
                  let a = chain_count-put home linked m free n new within in
                  let b =
                    chain_count-put home ents m end n (set_next free (ents end))
                      (v.inside end end_used) in
                  let c : belongs home m (linked free) ≡ belongs home m (ents free) =
                    ap (belongs home m) (linked_content free) in
                  omega (arith, a, b, c));
          within = within;
          was = unused;
          now = ap is_empty at ∙ used;
          others = λ j ne. ap is_empty (keep j ne) ∙ linked_empty j;
          kept = λ i u.
              let e = keep i (Unused-ne ents i free u unused) in
              (i, ap is_empty e ∙ linked_empty i ∙ u, ap content e ∙ linked_content i);
          added = (free, ap is_empty at ∙ used, ap content at);
          origin = λ j u. elim (put-cases linked free new j) [
            | inl (_, e) ↦ inl (ap content e)
            | inr (_, e) ↦
                inr (
                  j,
                  sym (linked_empty j) ∙ sym (ap is_empty e) ∙ u,
                  ap content e ∙ linked_content j,
                )
          ];
        }
