-- ===== src/Tools/KeyLcp.antt =====
-- src/parallel/bingmann-parallel_sample_sort.hpp: the common prefix of two keys, the length of a key
-- and its characters.
use Prim.Native.Nat.{bit_xor}
use native.Mathlib.Nat.{pow-suc, pow-le-pow_right}
use bingmann_sample_sort.Prelude.{
  ap, ℕ_discrete, ℕ, zero, suc, ◌-◌, ◌*◌, ◌/◌, ◌%◌, ◌^◌, ◌<◌, ◌≤◌, ◌≡◌, ◌≢◌, refl, arith,
}
use bingmann_sample_sort.Tools.Bits.{
  count_high_zero_bits, count_low_zero_bits, leading_zeros, leading_zeros-le,
}
use bingmann_sample_sort.Tools.Bits.Xor.{
  bit_xor_zero, bit_xor-lt_iff, bit_xor-lt, leading_zeros_lem, bit_xor_self,
}

-- `lcpKeyType`; the builders of the splitter trees use the same expression
unfoldable pub lcp_key_type : ℕ → ℕ → ℕ
unfolding count_high_zero_bits
lcp_key_type a b = count_high_zero_bits 64 (bit_xor a b) / 8

-- `lcpKeyDepth`
unfoldable pub lcp_key_depth : ℕ → ℕ
unfolding count_low_zero_bits
lcp_key_depth a = 8 - count_low_zero_bits 64 a / 8

-- `getCharAtDepth`
unfoldable pub get_char_at_depth : ℕ → ℕ → ℕ
get_char_at_depth a d = a / 256 ^ (7 - d) % 256

pow256 : (k : ℕ) → 256 ^ k ≡ 2 ^ (8 * k)
pow256 zero = refl
pow256 (suc k) =
    let e : 8 * suc k ≡ suc (suc (suc (suc (suc (suc (suc (suc (8 * k)))))))) = omega arith in
    rw (e, pow-suc 256 k, pow256 k) (simp pow-suc (omega arith))

pow_mono : {i j : ℕ} → i ≤ j → 2 ^ i ≤ 2 ^ j
pow_mono h = pow-le-pow_right (omega arith) h

module _ (a b z r : ℕ) (rz : r ≡ z / 8) (small : z < 64) where
  agree_above : bit_xor a b < 2 ^ (64 - z) → a / 256 ^ (8 - r) ≡ b / 256 ^ (8 - r)
  agree_above h =
      let le = pow_mono {i = 64 - z} {j = 8 * (8 - r)} (omega arith) in
      rw pow256 ((bit_xor-lt_iff (8 * (8 - r)) a b).0 (omega arith))

  differ_next : 2 ^ (64 - suc z) ≤ bit_xor a b → a / 256 ^ (7 - r) ≢ b / 256 ^ (7 - r)
  differ_next h e =
      let le = pow_mono {i = 8 * (7 - r)} {j = 64 - suc z} (omega arith) in
      let below = (bit_xor-lt_iff (8 * (7 - r)) a b).1 (rw pow256 at e) in omega arith

lcp_key_type_ne : (a b : ℕ) → a ≢ b → lcp_key_type a b ≡ leading_zeros 64 (bit_xor a b) / 8
unfolding lcp_key_type
lcp_key_type_ne a b ne = let nz : bit_xor a b ≢ 0 = λ e. ne (bit_xor_zero a b e) in ground arith

-- Two different keys of 64 bits agree on the characters above `lcp_key_type`, and differ on the next one.
pub lcp_key_type_lem :
    (a b : ℕ)
    → a < 256 ^ 8
    → b < 256 ^ 8
    → a ≢ b
    → (lcp_key_type a b < 8)
      × (a / 256 ^ (8 - lcp_key_type a b) ≡ b / 256 ^ (8 - lcp_key_type a b))
      × (a / 256 ^ (7 - lcp_key_type a b) ≢ b / 256 ^ (7 - lcp_key_type a b))
lcp_key_type_lem a b ha hb ne =
    let x = bit_xor a b in
    let nz : x ≢ 0 = λ e. ne (bit_xor_zero a b e) in
    let lz = leading_zeros_lem 64 x (bit_xor-lt 64 a b ha hb) nz in
    let eq = lcp_key_type_ne a b ne in
    (
      omega arith,
      agree_above a b (leading_zeros 64 x) (lcp_key_type a b) eq lz.0 lz.2,
      differ_next a b (leading_zeros 64 x) (lcp_key_type a b) eq lz.0 lz.1,
    )

lcp_key_type_self : (a : ℕ) → lcp_key_type a a ≡ 8
unfolding lcp_key_type
lcp_key_type_self a = rw (bit_xor_self a) refl

pub lcp_key_type-le : (a b : ℕ) → lcp_key_type a b ≤ 8
lcp_key_type-le a b = elim (ℕ_discrete a b) [
  | yes e ↦ omega (arith, ap (lcp_key_type a) e, lcp_key_type_self a)
  | no ne ↦ omega (arith, lcp_key_type_ne a b ne, leading_zeros-le 64 (bit_xor a b))
]
