-- ===== src/Patch/Counted.antt =====
-- `patch_download_manifests` of src/patch.c: the patches that are counted.
use eq_data_patcher.Base.{
  ℕ, ◌<◌, ◌≡◌, ◌∙◌, refl, inl, inr, arith, Bool, true, false, not, Option, none, some, List, [],
  ◌∷◌, ◌==◌, Bool-cases, if◌then◌else◌, ltb, add32, mul32,
}
use eq_data_patcher.Array
use eq_data_patcher.Array.{Array}
use eq_data_patcher.Db.{sqlite_done, sqlite_row}
use eq_data_patcher.Err.{Err, none_err}
use eq_data_patcher.Parse.{Parser, ManifestEntry}
use eq_data_patcher.Str.{Str}
use eq_data_patcher.Patch.{
  Curl, row_is_busy, patch_write_manifest, continue_with, after_parse, fetch, row_loop,
}

-- `array_append_array` leaves the count as it was.
append_array-count :
    {A : Type 0} (grant : ℕ → Bool) (junk : A) (ar src : Array A)
    → (Array.append_array grant junk ar src).1.count ≡ ar.count
unfolding Array.append_array Array.reserve
append_array-count grant junk ar src = elim (Bool-cases (not (ar.elem_size == src.elem_size))) [
  | inl differ ↦ rw differ refl
  | inr agree ↦ elim (Bool-cases (ltb ar.capacity (add32 ar.count src.count))) [
    | inr fits ↦ rw (agree, fits) refl
    | inl short ↦ elim (Bool-cases (grant (mul32 ar.elem_size (add32 ar.count src.count)))) [
      | inl granted ↦ rw (agree, short, granted) refl
      | inr refused ↦ rw (agree, short, refused) refl
    ]
  ]
]

-- Where the loop ends, this many patches are counted.
abbrev pub Counts : ℕ → Option (Err × Array ManifestEntry × Bool) → Type 0
Counts n none = Unit {0}
Counts n (some r) = let (rc, patches, all) = r in patches.count ≡ n

if-Counts :
    (n : ℕ) (b : Bool) (x y : Option (Err × Array ManifestEntry × Bool))
    → Counts n x
    → Counts n y
    → Counts n (if b then x else y)
if-Counts n true x y h k = h
if-Counts n false x y h k = k

module _ (grant : ℕ → Bool) (junk : ℕ) (blank : Str) (fresh : ManifestEntry) where
  continue_lem :
      (n : ℕ) (rest : Str → Array ManifestEntry → Option (Err × Array ManifestEntry × Bool))
      (accum : Str) (rc : Err) (patches : Array ManifestEntry)
      → patches.count ≡ n
      → ((a : Str) (p : Array ManifestEntry) → p.count ≡ n → Counts n (rest a p))
      → Counts n (continue_with grant junk blank fresh rest accum (rc, patches))
  continue_lem n rest accum none_err patches e next = next accum patches e
  continue_lem n rest accum _ patches e next = e

  parse_lem :
      (n : ℕ) (rest : Str → Array ManifestEntry → Option (Err × Array ManifestEntry × Bool))
      (accum : Str) (patches : Array ManifestEntry) (o : Option (Err × Parser))
      → 0 < n
      → patches.count ≡ n
      → ((a : Str) (p : Array ManifestEntry) → p.count ≡ n → Counts n (rest a p))
      → Counts n (after_parse grant junk blank fresh rest accum patches o)
  parse_lem n rest accum patches none some_there e next = tt
  parse_lem n rest accum patches (some (none_err, p)) some_there e next =
      let nonempty : (patches.count == 0) ≡ false = ground (arith, e) in
      rw nonempty (
        continue_lem n rest (record accum { cells = p.lex.src }) _ _
          (append_array-count grant fresh patches _ ∙ e) next)
  parse_lem n rest accum patches (some (_, p)) some_there e next = e

  text_lem :
      (curl : Curl) (n : ℕ)
      (rest : Str → Array ManifestEntry → Option (Err × Array ManifestEntry × Bool))
      (text : Option (List ℕ)) (accum : Str) (patches : Array ManifestEntry)
      → 0 < n
      → patches.count ≡ n
      → ((a : Str) (p : Array ManifestEntry) → p.count ≡ n → Counts n (rest a p))
      → Counts n (elim text [
        | none ↦ rest accum patches
        | some url ↦ fetch grant junk blank fresh curl rest url accum patches
      ])
  text_lem curl n rest none accum patches some_there e next = next accum patches e
  text_lem curl n rest (some url) accum patches some_there e next =
      if-Counts n (not (curl.set_url url == 0)) _ _ e (
        if-Counts n (not ((curl.perform _ url accum).0 == 0)) _ _ e (
          parse_lem n rest (curl.perform (patch_write_manifest grant junk blank fresh) url accum).1
            patches _ some_there e next))

  -- Where some patches are there, as many are counted when the loop over the URLs has ended,
  -- however many manifests it fetched.
  pub row_loop-Counts :
      (curl : Curl) (calls : List (ℕ × Option (List ℕ))) (accum : Str)
      (patches : Array ManifestEntry) (n : ℕ)
      → 0 < n
      → patches.count ≡ n
      → Counts n (row_loop grant junk blank fresh curl calls accum patches)
  unfolding row_loop
  row_loop-Counts curl [] accum patches n some_there e = tt
  row_loop-Counts curl ((code, text) ∷ calls) accum patches n some_there e =
      let next : (a : Str) (p : Array ManifestEntry)
          → p.count ≡ n
          → Counts n (row_loop grant junk blank fresh curl calls a p) =
        λ a p h. row_loop-Counts curl calls a p n some_there h in
      if-Counts n (row_is_busy code) _ _ (next accum patches e) (
        if-Counts n (code == sqlite_done) _ _ e (
          if-Counts n (not (code == sqlite_row)) _ _ e
            (text_lem curl n _ text accum patches some_there e next)))
