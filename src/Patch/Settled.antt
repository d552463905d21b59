-- ===== src/Patch/Settled.antt =====
-- `patch_download_manifests` of src/patch.c: a busy database only costs time.
use mathlib.Core.Path.{fun_ext}
use eq_data_patcher.Base.{
  ℕ, ◌≡◌, refl, ap, ap₂, ◌||◌, inl, inr, Bool, not, Option, none, some, List, [], ◌∷◌, ◌==◌,
  Bool-cases, if◌then◌else◌,
}
use eq_data_patcher.Array.{Array}
use eq_data_patcher.Db.Opened.{settled, first_result, db_prep-settled}
use eq_data_patcher.Err.{Err, could_not_init}
use eq_data_patcher.HashTbl.{HashTbl}
use eq_data_patcher.Parse.{ManifestEntry}
use eq_data_patcher.Str.{Str, str_init}
use eq_data_patcher.Patch.{
  Curl, Ended, returns, frees_uninitialised, after_rows, row, row_loop, patch_download_manifests,
}

module _ (grant : ℕ → Bool) (junk : ℕ) (blank : Str) (fresh : ManifestEntry) where
  -- The rows, where no call is to be made again.
  unfoldable pub rows :
      Curl
      → List (ℕ × Option (List ℕ))
      → Str
      → Array ManifestEntry
      → Option (Err × Array ManifestEntry × Bool)
  rows curl [] accum patches = none
  rows curl ((code, text) ∷ calls) accum patches =
      row grant junk blank fresh curl (rows curl calls) code text accum patches

  -- The download, given the statement and what the rows come to.
  abbrev pub download :
      Curl
      → Option (Option (Unit {0}))
      → (Str → Array ManifestEntry → Option (Err × Array ManifestEntry × Bool))
      → Array ManifestEntry
      → HashTbl ℕ
      → Option Ended
  download curl stmt rows patches tbl =
      if curl.has_handle
      then elim stmt [
        | none ↦ none
        | some none ↦ some frees_uninitialised
        | some (some _) ↦
            if not (curl.set_function == 0) || not (curl.set_data == 0)
            then some (returns could_not_init patches tbl)
            else after_rows grant junk blank fresh tbl (rows str_init patches)
      ]
      else some (returns could_not_init patches tbl)

  row_loop-settled :
      (curl : Curl) (calls : List (ℕ × Option (List ℕ)))
      → row_loop grant junk blank fresh curl calls ≡ rows curl (settled calls)
  unfolding row_loop rows settled
  row_loop-settled curl [] = refl
  row_loop-settled curl ((code, text) ∷ calls) =
      let later = row_loop-settled curl calls in
      fun_ext (λ accum. fun_ext (λ patches. elim (Bool-cases (code == 5)) [
        | inl busy ↦ rw busy (ap (λ f. f accum patches) later)
        | inr free ↦ elim (Bool-cases (code == 6)) [
          | inl locked ↦ rw (free, locked) (ap (λ f. f accum patches) later)
          | inr other ↦
              rw (free, other)
                (ap (λ f. row grant junk blank fresh curl f code text accum patches) later)
        ]
      ]))

  -- Whatever the calls of the database return, `patch_download_manifests` gives what the
  -- download gives that never makes a call again, that is with the first result of a prepare and
  -- the row of every step, on the calls that are left when those with `SQLITE_BUSY` (5) and
  -- `SQLITE_LOCKED` (6), and no others, are taken out.
  pub patch_download_manifests-settled :
      (curl : Curl) (prepares : List (ℕ × Option (Unit {0}))) (calls : List (ℕ × Option (List ℕ)))
      (patches : Array ManifestEntry) (tbl : HashTbl ℕ)
      → patch_download_manifests grant junk blank fresh curl prepares calls patches tbl
        ≡ download curl (first_result (settled prepares)) (rows curl (settled calls)) patches tbl
  unfolding patch_download_manifests
  patch_download_manifests-settled curl prepares calls patches tbl =
      ap₂ (λ stmt f. download curl stmt f patches tbl) (db_prep-settled prepares)
        (row_loop-settled curl calls)
