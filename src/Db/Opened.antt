-- ===== src/Db/Opened.antt =====
-- `db_init` and `db_prep` of src/db.c: when the database is open, and that busy calls do not count.
use eq_data_patcher.Base.{
  ℕ, ◌≡◌, ◌↔◌, ◌⊎◌, inl, inr, refl, arith, Bool, Bool-cases, Option, none, some, ◌==◌, List, [],
  ◌∷◌, if◌then◌else◌,
}
use eq_data_patcher.Err.{Err, none_err}
use eq_data_patcher.Sstr.{File, SimpleBuffer, loaded, sstr_from_file, sstr_data}
use eq_data_patcher.Db.{sqlite_ok, sqlite_cantopen, Sqlite, db_exec, db_create, db_init, db_prep}

abbrev pub code_of : Option (Err × List (List ℕ)) → Option Err
code_of none = none
code_of (some (rc, texts)) = some rc

module _ (grant : ℕ → Bool) (junk : ℕ) where
  -- The schema was read, and its text executed.
  abbrev pub Filled : Sqlite → Option File → Type 0
  Filled lib schema =
      (lib.open_existing ≡ sqlite_cantopen)
      × (lib.open_new ≡ sqlite_ok)
      × ((text : SimpleBuffer) × (sstr_from_file grant junk schema ≡ loaded text)
          × (lib.exec (sstr_data text) ≡ sqlite_ok))

  -- `db_init` returns `ERR_None` exactly where the database opens, or where it cannot be opened,
  -- is created, and the schema is read and executed.
  pub db_init_lem :
      (lib : Sqlite) (schema : Option File)
      → (code_of (db_init grant junk lib schema) ≡ some none_err)
        ↔ ((lib.open_existing ≡ sqlite_ok) ⊎ Filled lib schema)
  unfolding db_init db_create db_exec
  db_init_lem lib schema = ground arith

-- The calls with a result that is neither `SQLITE_BUSY`, 5, nor `SQLITE_LOCKED`, 6.
unfoldable pub settled : {S : Type 0} → List (ℕ × S) → List (ℕ × S)
settled [] = []
settled ((rc, s) ∷ calls) =
    let rest = settled calls in if rc == 5 then rest else if rc == 6 then rest else (rc, s) ∷ rest

unfoldable pub first_result : {S : Type 0} → List (ℕ × Option S) → Option (Option S)
first_result [] = none
first_result ((rc, s) ∷ calls) = some s

pub db_prep-settled :
    {S : Type 0} (calls : List (ℕ × Option S)) → db_prep calls ≡ first_result (settled calls)
unfolding db_prep settled first_result
db_prep-settled [] = refl
db_prep-settled ((rc, stmt) ∷ calls) = elim (Bool-cases (rc == 5)) [
  | inl busy ↦ rw busy (db_prep-settled calls)
  | inr free ↦ elim (Bool-cases (rc == 6)) [
    | inl locked ↦ rw (free, locked) (db_prep-settled calls)
    | inr other ↦ rw (free, other) refl
  ]
]
