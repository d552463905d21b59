-- ===== src/Tests/Numbers.antt =====
-- The theorems on src/bit.c, src/hash.c and src/crc.c at numbers that meet their hypotheses.
use eq_data_patcher.Base.{ℕ, ◌*◌, ◌^◌, ◌<◌, ◌≤◌, ◌≡◌, arith, get_or, ◌<<<◌}
use eq_data_patcher.Bits.{next_pow2_u32, pow2_greater_than_u32}
use eq_data_patcher.Bits.Pow2.{IsNextPow2, next_pow2_u32_lem, pow2_greater_than_u32_lem}
use eq_data_patcher.Hash.{hash_int64}
use eq_data_patcher.Hash.Laws.{hash_int64-congr}
use eq_data_patcher.Crc.{crc_table}
use eq_data_patcher.Crc.Table.{shift_bits, crc_table_lem}

next_pow2_u32_lem_example : IsNextPow2 100 (next_pow2_u32 100)
next_pow2_u32_lem_example = next_pow2_u32_lem 100 (omega arith) (omega arith)

pow2_greater_than_u32_lem_example :
    let v = pow2_greater_than_u32 64 in (k : ℕ) × (v ≡ 2 ^ k) × (64 < v) × (v ≤ 2 * 64)
pow2_greater_than_u32_lem_example = pow2_greater_than_u32_lem 64 (omega arith) (omega arith)

hash_int64-congr_example : hash_int64 5 ≡ hash_int64 0x7_0100_0005
hash_int64-congr_example =
    hash_int64-congr 5 0x7_0100_0005 (omega arith) (omega arith) (omega arith)

crc_table_lem_example : get_or crc_table 200 0 ≡ shift_bits 8 (200 <<< 24)
crc_table_lem_example = crc_table_lem 200 (omega arith)
