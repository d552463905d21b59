-- ===== src/Pfs/Put/Extend.antt =====
-- Blocks appended to an entry, in src/pfs.c.
use eq_data_patcher.Base.{
  ℕ, ◌+◌, ◌*◌, ◌^◌, ◌<◌, ◌≡◌, ◌∙◌, ◌⊎◌, inl, inr, ap, refl, arith, Bool, false, List, ◌++◌,
  append_assoc, length, length-append,
}
use eq_data_patcher.Array.{Array}
use eq_data_patcher.Array.Append.{Appended, append_lem, append-elem_size}
use eq_data_patcher.Array.Inv.{IsValid, items, length-items}
use eq_data_patcher.Bytes.{le32}
use eq_data_patcher.Err.{Err, none_err, out_of_memory}
use eq_data_patcher.Pfs.{PfsEntry}
use eq_data_patcher.Pfs.Put.{append_block, append_out, finish_block}

-- An entry whose blocks are bytes in a valid array.
pub record HasBytes (ent : PfsEntry) : Type 0 where
  pub valid : IsValid ent.replacement
  pub bytes : ent.replacement.elem_size ≡ 1

module _ (grant : ℕ → Bool) (junk : ℕ) (fresh : PfsEntry) where
  -- The values stand behind the entry's blocks, or an allocation was refused.
  abbrev pub Extended : PfsEntry → List ℕ → Err × PfsEntry → Type 0
  Extended ent values r =
      let (rc, ent') = r in
      HasBytes ent'
      × (ent'.inflated_len ≡ ent.inflated_len)
      × (((rc ≡ none_err) × (items ent'.replacement ≡ items ent.replacement ++ values))
          ⊎ ((rc ≡ out_of_memory) × ((n : ℕ) × (grant n ≡ false))))

  finish_lem :
      (ent : PfsEntry) (ar : Array ℕ) (values : List ℕ) (rc : Err) (ar' : Array ℕ)
      → ar'.elem_size ≡ 1
      → Appended grant junk ar values (rc, ar')
      → Extended
          (record ent { replacement = ar })
          values
          (finish_block grant junk fresh ent (rc, ar'))
  finish_lem ent ar values none_err ar' one (v, inl (e, same)) =
      (record { valid = v; bytes = one }, refl, inl (refl, same))
  finish_lem ent ar values _ ar' one (v, inl (wrong, same)) = cc
  finish_lem ent ar values out_of_memory ar' one (v, inr (e, same, g)) =
      (record { valid = v; bytes = one }, refl, inr (refl, (_, g)))
  finish_lem ent ar values _ ar' one (v, inr (wrong, same, g)) = cc

  out_lem :
      (ent : PfsEntry) (header out : List ℕ) (rc : Err) (ar : Array ℕ)
      → HasBytes ent
      → ar.elem_size ≡ 1
      → ent.replacement.count + length header + length out < 2 ^ 32
      → Appended grant junk ent.replacement header (rc, ar)
      → Extended ent (header ++ out) (append_out grant junk fresh ent out (rc, ar))
  out_lem ent header out none_err ar b one room (v, inl (e, same)) =
      let n : ar.count ≡ ent.replacement.count + length header = omega (
        arith,
        length-items v,
        length-items b.valid,
        ap length same,
        length-append (items ent.replacement) header,
      ) in
      let fits : ar.elem_size * (ar.count + length out) < 2 ^ 32 = rw one (omega arith) in
      let (w, size, r) =
        finish_lem ent ar out _ _ (append-elem_size grant junk ar out ∙ one)
          (append_lem grant junk out v fits) in
      elim r [
        | inl (e', s) ↦ (
          w,
          size,
          inl (e', s ∙ ap (λ t. t ++ out) same ∙ append_assoc (items ent.replacement) header out),
        )
        | inr g ↦ (w, size, inr g)
      ]
  out_lem ent header out _ ar b one room (v, inl (wrong, same)) = cc
  out_lem ent header out out_of_memory ar b one room (v, inr (e, same, g)) =
      (record { valid = v; bytes = one }, refl, inr (refl, (_, g)))
  out_lem ent header out _ ar b one room (v, inr (wrong, same, g)) = cc

  pub append_block_lem :
      (ent : PfsEntry) (r : ℕ) (out : List ℕ)
      → HasBytes ent
      → ent.replacement.count + 8 + length out < 2 ^ 32
      → Extended ent (le32 (length out) ++ le32 r ++ out) (append_block grant junk fresh ent r out)
  append_block_lem ent r out b room =
      let ar = ent.replacement in
      let header = le32 (length out) ++ le32 r in
      let fits : ar.elem_size * (ar.count + length header) < 2 ^ 32 = rw b.bytes (omega arith) in
      out_lem ent header out _ _ b (append-elem_size grant junk ar header ∙ b.bytes) (omega arith)
        (append_lem grant junk header b.valid fits)
