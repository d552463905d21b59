-- ===== src/Db.antt =====
-- src/db.c: opening the database, executing statements, and preparing them.
-- SQLite is a parameter: what each of its functions returns, call after call.
pub mod Opened
use eq_data_patcher.Base.{
  ℕ, Bool, true, false, ◌||◌, Option, none, some, List, [], ◌∷◌, ◌++◌, ◌==◌, if◌then◌else◌,
}
use eq_data_patcher.Err.{Err, none_err, could_not_init, could_not_open, could_not_create, invalid}
use eq_data_patcher.Sstr.{File, SimpleBuffer, loaded, not_read, overrun, sstr_from_file, sstr_data}

-- Result codes of src/sqlite3.h.
abbrev pub sqlite_ok : ℕ
sqlite_ok = 0

abbrev pub sqlite_busy : ℕ
sqlite_busy = 5

abbrev pub sqlite_locked : ℕ
sqlite_locked = 6

abbrev pub sqlite_cantopen : ℕ
sqlite_cantopen = 14

abbrev pub sqlite_row : ℕ
sqlite_row = 100

abbrev pub sqlite_done : ℕ
sqlite_done = 101

-- "ANALYZE;" and its null byte
abbrev pub analyze : List ℕ
analyze = 65 ∷ 78 ∷ 65 ∷ 76 ∷ 89 ∷ 90 ∷ 69 ∷ 59 ∷ 0 ∷ []

-- To be tried again.
abbrev pub is_busy : ℕ → Bool
is_busy rc = rc == sqlite_busy || rc == sqlite_locked

-- `open_existing` and `open_new` are what the two calls of `sqlite3_open_v2` return, and `exec`
-- what `sqlite3_exec` returns for a text.
pub record Sqlite : Type 0 where
  pub open_existing : ℕ
  pub open_new : ℕ
  pub exec : List ℕ → ℕ

-- The code, and the text behind those executed so far.
unfoldable pub db_exec : Sqlite → List (List ℕ) → List ℕ → Err × List (List ℕ)
db_exec lib executed text =
    (if lib.exec text == sqlite_ok then none_err else invalid, executed ++ text ∷ [])

module _ (grant : ℕ → Bool) (junk : ℕ) where
  -- A database that is new is filled by the schema; `none` where the schema's file is read behind its
  -- block.
  unfoldable pub db_create : Sqlite → Option File → Option (Err × List (List ℕ))
  unfolding db_exec
  db_create lib schema =
      if lib.open_new == sqlite_ok
      then elim (sstr_from_file grant junk schema) [
        | not_read ↦ some (could_not_open, [])
        | loaded text ↦ some (db_exec lib [] (sstr_data text))
        | overrun ↦ none
      ]
      else some (could_not_create, [])

  -- The code, and the texts that were executed.
  unfoldable pub db_init : Sqlite → Option File → Option (Err × List (List ℕ))
  unfolding db_create db_exec
  db_init lib schema =
      if lib.open_existing == sqlite_ok
      then some (none_err, (db_exec lib [] analyze).1)
      else if lib.open_existing == sqlite_cantopen
      then db_create lib schema
      else some (could_not_init, [])

-- The list is what `sqlite3_prepare_v2` returns and the statement it stores, call after call.
-- Outside: `none` where no call of the list ends the loop. Inside: `none` for a null pointer.
unfoldable pub db_prep : {S : Type 0} → List (ℕ × Option S) → Option (Option S)
db_prep [] = none
db_prep ((rc, stmt) ∷ calls) = let rest = db_prep calls in if is_busy rc then rest else some stmt
