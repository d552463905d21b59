-- ===== src/Patch.antt =====
-- src/patch.c: downloading the manifests and the patches that they name.
-- libcurl and SQLite are parameters. `perform` is `curl_easy_perform` with the callback and the
-- string that were set: a callback is given a text, a size and a count, and gives a number of
-- bytes; the result is libcurl's code and the string afterwards.
pub mod Counted
pub mod Settled
pub mod Named
use eq_data_patcher.Base.{
  ℕ, zero, suc, ◌+◌, ◌*◌, ◌%◌, ◌^◌, Bool, true, false, not, ◌||◌, Option, none, some, List, [], ◌∷◌,
  ◌==◌, if◌then◌else◌,
}
use eq_data_patcher.Array
use eq_data_patcher.Array.{Array}
use eq_data_patcher.Db.{sqlite_busy, sqlite_locked, sqlite_done, sqlite_row, db_prep}
use eq_data_patcher.Err.{
  Err, none_err, again, generic, could_not_init, invalid, out_of_bounds, bad_url, sql, err_number,
}
use eq_data_patcher.HashTbl.{HashTbl}
use eq_data_patcher.HashTbl.Api.{set_str, get_str_raw}
use eq_data_patcher.Lex.{Lexer}
use eq_data_patcher.Parse.{Parser, ManifestEntry, parse_init, parse_get_manifests}
use eq_data_patcher.Parse.File.{parse_file}
use eq_data_patcher.Ringbuf.{RingBuf, ringbuf_push, ring_packet_init_value}
use eq_data_patcher.Sstr.{SimpleBuffer, sstr_length, sstr_data}
use eq_data_patcher.Str.{Str, str_init, str_append}

-- What libcurl does: whether `curl_easy_init` gives a handle, the codes of `curl_easy_setopt` for
-- the callback, its argument and a URL, and a transfer.
pub record Curl : Type 0 where
  pub has_handle : Bool
  pub set_function : ℕ
  pub set_data : ℕ
  pub set_url : List ℕ → ℕ
  pub perform : (List ℕ → ℕ → ℕ → Str → ℕ × Str) → List ℕ → Str → ℕ × Str

abbrev pub patch_failed : ℕ
patch_failed = 4

abbrev pub taken_bytes : ℕ → Err × Str → ℕ × Str
taken_bytes bytes (none_err, dst) = (bytes, dst)
taken_bytes bytes (rc, dst) = (0, dst)

-- "url"
abbrev pub url_key : List ℕ
url_key = 117 ∷ 114 ∷ 108 ∷ 0 ∷ []

-- How `patch_download_manifests` ends: with a code, or in `str_deinit` of a string that was never
-- set up, where the statement is not prepared.
pub data Ended : Type 0 where
  returns : Err → Array ManifestEntry → HashTbl ℕ → Ended
  frees_uninitialised : Ended

-- A row is asked for again.
abbrev pub row_is_busy : ℕ → Bool
row_is_busy code = code == sqlite_busy || code == sqlite_locked

-- `grant` says whether an allocation of that many bytes succeeds; the other parameters are what
-- fresh memory holds.
module _ (grant : ℕ → Bool) (junk : ℕ) (blank : Str) (fresh : ManifestEntry) where
  -- The byte count is a `size_t`, and the string takes its lower 32 bits.
  unfoldable pub patch_write_manifest : List ℕ → ℕ → ℕ → Str → ℕ × Str
  unfolding str_append
  patch_write_manifest text size count dst =
      let bytes = (size * count) % 2 ^ 64 in
      if bytes == 0
      then (0, dst)
      else taken_bytes bytes (str_append grant junk dst text (bytes % 2 ^ 32))

  abbrev pub after_set :
      (HashTbl ℕ → Option (Err × HashTbl ℕ)) → Option (Err × HashTbl ℕ) → Option (Err × HashTbl ℕ)
  after_set rest none = none
  after_set rest (some (none_err, tbl)) = rest tbl
  after_set rest (some (again, tbl)) = rest tbl
  after_set rest (some (rc, tbl)) = some (rc, tbl)

  -- The loop; `rounds` is more than there are entries from `i` on.
  unfoldable pub names_loop : ℕ → ℕ → Array ManifestEntry → HashTbl ℕ → Option (Err × HashTbl ℕ)
  names_loop zero i patches tbl = some (none_err, tbl)
  names_loop (suc rounds) i patches tbl = elim (Array.get_raw patches i) [
    | none ↦ some (none_err, tbl)
    | some me ↦
        after_set (names_loop rounds (i + 1) patches)
          (set_str grant 0 tbl (some (sstr_data me.name)) (sstr_length me.name) i)
  ]

  unfoldable pub patch_set_by_names : Array ManifestEntry → HashTbl ℕ → Option (Err × HashTbl ℕ)
  unfolding names_loop
  patch_set_by_names patches tbl = names_loop (suc patches.count) 0 patches tbl

  -- The manifests are taken over, or copied behind those that are there.
  abbrev pub add_manifests : Array ManifestEntry → Array ManifestEntry → Err × Array ManifestEntry
  add_manifests patches manifests =
      if patches.count == 0
      then (none_err, (Array.take_ownership manifests).0)
      else Array.append_array grant fresh patches manifests

  abbrev pub continue_with :
      (Str → Array ManifestEntry → Option (Err × Array ManifestEntry × Bool))
      → Str
      → Err × Array ManifestEntry
      → Option (Err × Array ManifestEntry × Bool)
  continue_with rest accum (none_err, patches) = rest accum patches
  continue_with rest accum (rc, patches) = some (rc, patches, false)

  abbrev pub after_parse :
      (Str → Array ManifestEntry → Option (Err × Array ManifestEntry × Bool))
      → Str
      → Array ManifestEntry
      → Option (Err × Parser)
      → Option (Err × Array ManifestEntry × Bool)
  after_parse rest accum patches none = none
  after_parse rest accum patches (some (none_err, p)) =
      continue_with rest (record accum { cells = p.lex.src })
        (add_manifests patches (parse_get_manifests p))
  after_parse rest accum patches (some (rc, p)) = some (rc, patches, false)

  -- One row: its text is fetched behind what is there, and all of it is parsed, in place.
  abbrev pub fetch :
      Curl
      → (Str → Array ManifestEntry → Option (Err × Array ManifestEntry × Bool))
      → List ℕ
      → Str
      → Array ManifestEntry
      → Option (Err × Array ManifestEntry × Bool)
  fetch curl rest url accum patches =
      if not (curl.set_url url == 0)
      then some (could_not_init, patches, false)
      else (let (rc, accum') = curl.perform patch_write_manifest url accum in
          if not (rc == 0)
          then some (generic, patches, false)
          else after_parse rest accum' patches
              (parse_file grant junk blank fresh parse_init accum'.cells accum'.str_length))

  -- A call that is not busy: the rows end, the call failed, or there is a row.
  abbrev pub row :
      Curl
      → (Str → Array ManifestEntry → Option (Err × Array ManifestEntry × Bool))
      → ℕ
      → Option (List ℕ)
      → Str
      → Array ManifestEntry
      → Option (Err × Array ManifestEntry × Bool)
  row curl rest code text accum patches =
      if code == sqlite_done
      then some (none_err, patches, true)
      else if not (code == sqlite_row)
      then some (none_err, patches, false)
      else elim text [ none ↦ rest accum patches | some url ↦ fetch curl rest url accum patches ]

  -- The loop over the rows. The list is what `sqlite3_step` returns and the text of the column,
  -- call after call; `none` where it does not end the loop, or a parse does not end. The Boolean
  -- says that the rows were all read: the names are set then.
  unfoldable pub row_loop :
      Curl
      → List (ℕ × Option (List ℕ))
      → Str
      → Array ManifestEntry
      → Option (Err × Array ManifestEntry × Bool)
  unfolding patch_write_manifest parse_file parse_init parse_get_manifests Array.append_array
      Array.take_ownership
  row_loop curl [] accum patches = none
  row_loop curl ((code, text) ∷ calls) accum patches =
      if row_is_busy code
      then row_loop curl calls accum patches
      else row curl (row_loop curl calls) code text accum patches

  abbrev pub set_names : HashTbl ℕ → Array ManifestEntry → Option (Err × HashTbl ℕ) → Option Ended
  set_names tbl patches none = none
  set_names tbl patches (some (rc, tbl')) = some (returns rc patches tbl')

  abbrev pub after_rows : HashTbl ℕ → Option (Err × Array ManifestEntry × Bool) → Option Ended
  after_rows tbl none = none
  after_rows tbl (some (rc, patches, true)) = set_names tbl patches (patch_set_by_names patches tbl)
  after_rows tbl (some (rc, patches, false)) = some (returns rc patches tbl)

  abbrev pub read_rows :
      Curl → List (ℕ × Option (List ℕ)) → Array ManifestEntry → HashTbl ℕ → Option Ended
  read_rows curl calls patches tbl =
      if not (curl.set_function == 0) || not (curl.set_data == 0)
      then some (returns could_not_init patches tbl)
      else after_rows tbl (row_loop curl calls str_init patches)

  -- `prepares` is what the preparing of the statement gives, call after call.
  unfoldable pub patch_download_manifests :
      Curl
      → List (ℕ × Option (Unit {0}))
      → List (ℕ × Option (List ℕ))
      → Array ManifestEntry
      → HashTbl ℕ
      → Option Ended
  unfolding row_loop patch_set_by_names db_prep str_init
  patch_download_manifests curl prepares calls patches tbl =
      if curl.has_handle
      then elim (db_prep prepares) [
        | none ↦ none
        | some none ↦ some frees_uninitialised
        | some (some _) ↦ read_rows curl calls patches tbl
      ]
      else some (returns could_not_init patches tbl)

  -- The chain of four calls, the last of which fetches.
  abbrev pub transfer : Curl → List ℕ → Str → Err × Str
  transfer curl url download =
      if not (curl.set_function == 0) || not (curl.set_data == 0) || not (curl.set_url url == 0)
      then (generic, download)
      else (let (rc, download') = curl.perform patch_write_manifest url download in
          (if rc == 0 then none_err else generic, download'))

  abbrev pub download_entry : Curl → ManifestEntry → Str → Option (Err × Str)
  download_entry curl me download = elim (get_str_raw blank me.content (some url_key) 3) [
    | none ↦ none
    | some none ↦ some (bad_url, download)
    | some (some url) ↦
        some (if curl.has_handle then transfer curl url.cells download else (generic, download))
  ]

  -- `none` where the lookup does not end.
  unfoldable pub patch_download :
      Curl → Array ManifestEntry → HashTbl ℕ → SimpleBuffer → Str → Option (Err × Str)
  unfolding patch_write_manifest
  patch_download curl patches tbl name download =
      elim (get_str_raw 0 tbl (some (sstr_data name)) (sstr_length name)) [
        | none ↦ none
        | some none ↦ some (invalid, download)
        | some (some index) ↦ elim (Array.get_raw patches index) [
          | none ↦ some (out_of_bounds, download)
          | some me ↦ download_entry curl me download
        ]
      ]

  abbrev pub report : (ℕ → Bool) → ℕ → RingBuf → Option (Err × Str) → Option RingBuf
  report weak tries output none = none
  report weak tries output (some (none_err, download)) = some output
  report weak tries output (some (rc, download)) =
      elim (ringbuf_push weak tries output (ring_packet_init_value patch_failed (err_number rc))) [
        | none ↦ none
        | some (_, output') ↦ some output'
      ]

  -- The steps behind the download are not written yet.
  unfoldable pub patch_download_and_apply :
      Curl
      → (ℕ → Bool)
      → ℕ
      → Array ManifestEntry
      → HashTbl ℕ
      → RingBuf
      → SimpleBuffer
      → Option RingBuf
  unfolding patch_download ringbuf_push ring_packet_init_value
  patch_download_and_apply curl weak tries patches tbl output name =
      report weak tries output (patch_download curl patches tbl name str_init)
