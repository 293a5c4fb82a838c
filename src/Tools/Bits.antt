-- ===== src/Tools/Bits.antt =====
-- src/tools/stringtools.hpp: counting zero bits of machine words.
pub mod Xor
pub mod Wide
use Prim.Native.Nat.{bit_xor}
use bingmann_sample_sort.Prelude.{
  ℕ, zero, suc, ◌+◌, ◌/◌, ◌%◌, ◌^◌, ◌<◌, ◌≤◌, ◌≡◌, refl, arith, ltb, ◌==◌, if◌then◌else◌, Option,
  none, some,
}

-- The leading zero bits of a word of `w` bits, which `__builtin_clz` and `__builtin_clzll` return
-- for a word other than 0.
unfoldable pub leading_zeros : ℕ → ℕ → ℕ
leading_zeros zero x = 0
leading_zeros (suc w) x = if ltb x (2 ^ w) then suc (leading_zeros w x) else 0

-- The trailing zero bits, as `__builtin_ctz` and `__builtin_ctzll` count them.
unfoldable pub trailing_zeros : ℕ → ℕ → ℕ
trailing_zeros zero x = 0
trailing_zeros (suc w) x = if x % 2 == 0 then suc (trailing_zeros w (x / 2)) else 0

-- `count_high_zero_bits` at `uint32_t` and `uint64_t`, of `w` bits
unfoldable pub count_high_zero_bits : ℕ → ℕ → ℕ
unfolding leading_zeros
count_high_zero_bits w t = if t == 0 then w else leading_zeros w t

-- `__builtin_clzll`, undefined for 0
unfoldable pub builtin_clzll : ℕ → Option ℕ
unfolding leading_zeros
builtin_clzll x = if x == 0 then none else some (leading_zeros 64 x)

-- the last return: 64 and the zero bits of the lower half
abbrev pub lower_zeros : Option ℕ → Option ℕ
lower_zeros none = none
lower_zeros (some c) = some (64 + c)

-- `count_high_zero_bits<uint128_t>`
unfoldable pub count_high_zero_bits128 : ℕ → Option ℕ
unfolding builtin_clzll
count_high_zero_bits128 t = if t == 0 then some 128 else elim (builtin_clzll (t / 2 ^ 64)) [
  | none ↦ none
  | some b ↦ if ltb 0 b then some b else lower_zeros (builtin_clzll (t % 2 ^ 64))
]

-- `count_low_zero_bits`
unfoldable pub count_low_zero_bits : ℕ → ℕ → ℕ
unfolding trailing_zeros
count_low_zero_bits w t = if t == 0 then w else trailing_zeros w t

pub leading_zeros-le : (w x : ℕ) → leading_zeros w x ≤ w
unfolding leading_zeros
leading_zeros-le zero x = omega arith
leading_zeros-le (suc w) x = ground (arith, leading_zeros-le w x)
