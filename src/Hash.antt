-- ===== src/Hash.antt =====
-- src/hash.c: the hash functions of the table's keys.
pub mod Laws
use eq_data_patcher.Base.{
  ℕ, zero, suc, ◌+◌, ◌-◌, ◌%◌, ◌^◌, List, ltb, leb, if◌then◌else◌, get_or, bit_and, bit_xor, u32,
  add32, sub32, ◌<<<◌, ◌>>>◌,
}
use eq_data_patcher.Bits.{rotate}

unfoldable pub hash_int64_impl : ℕ → ℕ → ℕ
unfolding rotate
hash_int64_impl lo hi =
    let lo₁ = bit_xor lo hi in
    let hi₁ = rotate hi 14 in
    let lo₂ = sub32 lo₁ hi₁ in
    let hi₂ = rotate hi₁ 5 in let hi₃ = bit_xor hi₂ lo₂ in sub32 hi₃ (rotate lo₂ 13)

-- The key is its 64-bit pattern; both arguments are cut to `uint32_t`.
unfoldable pub hash_int64 : ℕ → ℕ
unfolding hash_int64_impl
hash_int64 key =
    let key₁ = (key + 1) % 2 ^ 64 in
    hash_int64_impl (u32 (bit_and key₁ 0x0000_0000_00ff_ffff))
      (u32 (bit_and key₁ 0xffff_ffff_0000_0000))

-- A `char`, which is signed, as a `uint32_t`.
abbrev pub char_word : ℕ → ℕ
char_word c = if ltb c 128 then c else 2 ^ 32 - 256 + c

abbrev pub mix : ℕ → ℕ → ℕ
mix h c = bit_xor h (add32 (add32 (h <<< 5) (h >>> 2)) (char_word c))

-- The loop at `i`; `i` falls in each round, so that `i` rounds are enough.
unfoldable pub hash_loop : List ℕ → ℕ → ℕ → ℕ → ℕ → ℕ
hash_loop key step zero i h = h
hash_loop key step (suc fuel) i h =
    let rest = hash_loop key step fuel (i - step) (mix h (get_or key (i - 1) 0)) in
    if leb step i then rest else h

unfoldable pub hash_cstr : List ℕ → ℕ → ℕ
unfolding hash_loop
hash_cstr key len = hash_loop key ((len >>> 5) + 1) len len len
