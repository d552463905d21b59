-- ===== src/Str/Inv.antt =====
-- What keeps a `String` of src/edp_string.c well formed: room for the text and its null byte.
use eq_data_patcher.Base.{
  ℕ, ◌-◌, ◌^◌, ◌≤◌, ◌<◌, Bool, false, Option, none, some, List, [], ◌++◌, ◌≡◌, ◌∙◌, ◌⊎◌, inl, inr,
  refl, arith, length, length-append, length-take, length-replicate, take, take-take, take-append,
  replicate, Bool-cases, leb, leb→le,
}
use eq_data_patcher.Bits.{pow2_greater_than_u32}
use eq_data_patcher.Bits.Pow2.{pow2_greater_than_u32_lem}
use eq_data_patcher.Str.{Str, str_init, str_realloc, ensure}

pub record IsValid (s : Str) : Type 0 where
  pub held : length s.cells ≡ s.capacity
  pub room : (s.str_length < s.capacity) ⊎ ((s.str_length ≡ 0) × (s.capacity ≡ 0))

-- The text.
abbrev pub text : Str → List ℕ
text s = take s.str_length s.cells

pub str_init-IsValid : IsValid str_init × (text str_init ≡ [])
unfolding str_init
str_init-IsValid = (record { held = refl; room = inr (refl, refl) }, refl)

module _ (grant : ℕ → Bool) (junk : ℕ) where
  -- What making room for `newlen` bytes and a null byte gives, or a refused allocation.
  abbrev pub Ensured : Str → ℕ → Option Str → Type 0
  Ensured s newlen none = (s.capacity ≤ newlen) × (grant (pow2_greater_than_u32 newlen) ≡ false)
  Ensured s newlen (some s') =
      (length s'.cells ≡ s'.capacity)
      × (newlen < s'.capacity)
      × (s'.str_length ≡ s.str_length)
      × (text s' ≡ text s)

  -- For a valid string and a length from 1 on, below 2 ^ 31 and not below the text's, the growth
  -- that the appends share gives room for that many bytes and a null byte with the text as it
  -- was, or fails where the capacity is not above the length and the allocation is refused.
  pub ensure_lem :
      (s : Str) (newlen : ℕ)
      → IsValid s
      → 0 < newlen
      → newlen < 2 ^ 31
      → s.str_length ≤ newlen
      → Ensured s newlen (ensure grant junk s newlen)
  unfolding ensure str_realloc
  ensure_lem s newlen v pos small fits = elim (Bool-cases (leb s.capacity newlen)) [
    | inr enough ↦ rw enough (v.held, ground arith, refl, refl)
    | inl short ↦
        let n = pow2_greater_than_u32 newlen in
        let (k, e, above, _) = pow2_greater_than_u32_lem newlen pos small in
        let fill = replicate (n - length s.cells) junk in
        let len = length-append s.cells fill in
        elim (Bool-cases (grant n)) [
          | inr no_memory ↦ rw (short, no_memory) (leb→le _ _ short, no_memory)
          | inl granted ↦
              rw (short, granted)
                (
                  omega (
                    arith,
                    length-take n (s.cells ++ fill),
                    len,
                    length-replicate (n - length s.cells) junk,
                  ),
                  above,
                  refl,
                  take-take s.str_length n (s.cells ++ fill) (omega arith)
                      ∙ take-append s.str_length s.cells fill (omega (arith, v.held, v.room)),
                )
        ]
  ]
