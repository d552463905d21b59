-- ===== src/Err.antt =====
-- src/enum_err.h and src/err_code.c: the result codes and their names.
use Prim.Native.Nat.{ℕ, ◌-◌, ◌^◌}
use Prim.Native.String.{String}

-- `ERR_True` is 0, as `ERR_None`, and `ERR_False` is 1, as `ERR_Done`.
pub data Err : Type 0 where
  none_err done generic could_not_init could_not_open invalid out_of_memory out_of_space : Err
  again not_initialized could_not_create semaphore file_operation compression : Err
  out_of_bounds sql bad_url : Err

unfoldable pub err_str : Err → String
err_str none_err = "ERR_None"
err_str done = "ERR_False"
err_str generic = "ERR_Generic"
err_str could_not_init = "ERR_CouldNotInit"
err_str could_not_open = "ERR_CouldNotOpen"
err_str invalid = "ERR_Invalid"
err_str out_of_memory = "ERR_OutOfMemory"
err_str out_of_space = "ERR_OutOfSpace"
err_str again = "ERR_Again"
err_str not_initialized = "ERR_NotInitialized"
err_str could_not_create = "ERR_CouldNotCreate"
err_str semaphore = "ERR_Semaphore"
err_str file_operation = "ERR_FileOperation"
err_str _ = "ERR_Unknown"

-- The number of a code as 64 bits: `ERR_Generic` is -1.
abbrev pub err_number : Err → ℕ
err_number none_err = 0
err_number done = 1
err_number generic = 2 ^ 64 - 1
err_number could_not_init = 2 ^ 64 - 2
err_number could_not_open = 2 ^ 64 - 3
err_number invalid = 2 ^ 64 - 4
err_number out_of_memory = 2 ^ 64 - 5
err_number out_of_space = 2 ^ 64 - 6
err_number again = 2 ^ 64 - 7
err_number not_initialized = 2 ^ 64 - 8
err_number could_not_create = 2 ^ 64 - 9
err_number semaphore = 2 ^ 64 - 10
err_number file_operation = 2 ^ 64 - 11
err_number compression = 2 ^ 64 - 12
err_number out_of_bounds = 2 ^ 64 - 13
err_number sql = 2 ^ 64 - 14
err_number bad_url = 2 ^ 64 - 15
