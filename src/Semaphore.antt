-- ===== src/Semaphore.antt =====
-- src/edp_semaphore_posix.c and src/edp_semaphore_win32.c: what the operations return for what the
-- system's calls return, which are parameters.
use eq_data_patcher.Base.{ℕ, Bool, Option, none, some, ◌==◌, if◌then◌else◌}
use eq_data_patcher.Err.{Err, none_err, done, could_not_init, semaphore}

-- `sem_destroy`, `sem_wait` and `sem_post` give 0 or fail.
abbrev pub semaphore_code : ℕ → Err
semaphore_code rc = if rc == 0 then none_err else semaphore

-- `sem_init`
abbrev pub init_code : ℕ → Err
init_code rc = if rc == 0 then none_err else could_not_init

-- `errno` is read where `sem_trywait` fails. `ERR_True` is 0, as is `ERR_None`, and `ERR_False` is
-- the number of `ERR_Done`.
unfoldable pub try_wait_code : ℕ → ℕ → ℕ → Err
try_wait_code eagain rc errno =
    if rc == 0 then none_err else if errno == eagain then done else semaphore

-- The handle, `none` for a null one.
unfoldable pub win32_init : Option ℕ → Err × Option ℕ
win32_init none = (could_not_init, none)
win32_init (some h) = (none_err, some h)

-- `close` is what `CloseHandle` gives.
unfoldable pub win32_deinit : (ℕ → Bool) → Option ℕ → Err × Option ℕ
win32_deinit close none = (none_err, none)
win32_deinit close (some h) = (if close h then none_err else semaphore, none)

-- `WaitForSingleObject` gives 0 or fails, also at a semaphore of 0 that is not waited for.
unfoldable pub win32_wait : ℕ → Err
win32_wait rc = if rc == 0 then none_err else semaphore

unfoldable pub win32_try_wait : ℕ → Err
win32_try_wait rc = if rc == 0 then none_err else semaphore

unfoldable pub win32_trigger : Bool → Err
win32_trigger released = if released then none_err else semaphore
