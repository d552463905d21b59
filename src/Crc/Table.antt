-- ===== src/Crc/Table.antt =====
-- The table of src/crc.c against the polynomial that it is made from.
use eq_data_patcher.Base.{
  ℕ, zero, suc, ◌+◌, ◌^◌, ◌<◌, ◌≡◌, ◌∙◌, ap, refl, arith, List, [], ◌∷◌, leb, if◌then◌else◌, get_or,
  bit_xor, ◌<<<◌,
}
use eq_data_patcher.Crc.{crc_table}

-- One bit of the division by x^32 + x^26 + … + 1, whose low bits are 0x04c11db7.
pub shift_bit : ℕ → ℕ
shift_bit r = if leb (2 ^ 31) r then bit_xor (r <<< 1) 0x04c1_1db7 else r <<< 1

pub shift_bits : ℕ → ℕ → ℕ
shift_bits zero r = r
shift_bits (suc n) r = shift_bits n (shift_bit r)

-- `n` entries from the byte `first` on.
generated : ℕ → ℕ → List ℕ
generated zero first = []
generated (suc n) first = shift_bits 8 (first <<< 24) ∷ generated n (first + 1)

crc_table-generated : crc_table ≡ generated 256 0
unfolding crc_table generated shift_bits shift_bit
crc_table-generated = refl

get_or-generated :
    (n first k : ℕ) → k < n → get_or (generated n first) k 0 ≡ shift_bits 8 ((first + k) <<< 24)
unfolding generated
get_or-generated zero first k h = absurd (omega arith)
get_or-generated (suc n) first zero h = ap (λ i. shift_bits 8 (i <<< 24)) (omega arith)
get_or-generated (suc n) first (suc k) h =
    get_or-generated n (first + 1) k (omega arith) ∙ ap (λ i. shift_bits 8 (i <<< 24)) (omega arith)

-- The table's entry for a byte is the remainder of that byte, shifted up by 24 bits, after eight
-- steps of the division by the polynomial 0x04c11db7.
pub crc_table_lem : (b : ℕ) → b < 256 → get_or crc_table b 0 ≡ shift_bits 8 (b <<< 24)
crc_table_lem b h =
    ap (λ (t : List ℕ). get_or t b 0) crc_table-generated
    ∙ get_or-generated 256 0 b h
    ∙ ap (λ i. shift_bits 8 (i <<< 24)) (omega arith)
