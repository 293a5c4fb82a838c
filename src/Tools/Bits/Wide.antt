-- ===== src/Tools/Bits/Wide.antt =====
-- src/tools/stringtools.hpp: what the count of zero bits of a 128-bit word returns.
use bingmann_sample_sort.Prelude.{
  ℕ, zero, suc, ◌+◌, ◌-◌, ◌*◌, ◌/◌, ◌%◌, ◌^◌, ◌<◌, ◌≤◌, ◌≡◌, ◌≢◌, refl, ap, ◌∙◌, arith, ltb, ◌==◌,
  false, true, none, some,
}
use native.Mathlib.Nat.{pow-suc, pow-le-pow_right}
use bingmann_sample_sort.Tools.Bits.{
  leading_zeros, lower_zeros, builtin_clzll, count_high_zero_bits128,
}
use bingmann_sample_sort.Tools.Bits.Xor.{leading_zeros_lem}

-- `z` zero bits lead a word of `w` bits.
abbrev pub IsLeading : ℕ → ℕ → ℕ → Type 0
IsLeading w x z = (z < w) × (2 ^ (w - suc z) ≤ x) × (x < 2 ^ (w - z))

defined : (x : ℕ) → x ≢ 0 → builtin_clzll x ≡ some (leading_zeros 64 x)
unfolding builtin_clzll
defined x h = ground (arith, h)

undefined : (x : ℕ) → x ≡ 0 → builtin_clzll x ≡ none
unfolding builtin_clzll
undefined x h = ground (arith, h)

upper :
    (t : ℕ)
    → t ≢ 0
    → t / 2 ^ 64 ≢ 0
    → 0 < leading_zeros 64 (t / 2 ^ 64)
    → count_high_zero_bits128 t ≡ some (leading_zeros 64 (t / 2 ^ 64))
unfolding count_high_zero_bits128
upper t h n pos =
    let e : (t == 0) ≡ false = ground (arith, h) in
    let f : ltb 0 (leading_zeros 64 (t / 2 ^ 64)) ≡ true = ground arith in
    rw (e, defined (t / 2 ^ 64) n, f) refl

lower :
    (t : ℕ)
    → t ≢ 0
    → t / 2 ^ 64 ≢ 0
    → leading_zeros 64 (t / 2 ^ 64) ≡ 0
    → count_high_zero_bits128 t ≡ lower_zeros (builtin_clzll (t % 2 ^ 64))
unfolding count_high_zero_bits128
lower t h n z =
    let e : (t == 0) ≡ false = ground (arith, h) in
    let f : ltb 0 (leading_zeros 64 (t / 2 ^ 64)) ≡ false = ground (arith, z) in
    rw (e, defined (t / 2 ^ 64) n, f) refl

no_upper : (t : ℕ) → t ≢ 0 → t / 2 ^ 64 ≡ 0 → count_high_zero_bits128 t ≡ none
unfolding count_high_zero_bits128
no_upper t h z =
    let e : (t == 0) ≡ false = ground (arith, h) in rw (e, undefined (t / 2 ^ 64) z) refl

pow_split : (k : ℕ) → 2 ^ (k + 64) ≡ 2 ^ k * 2 ^ 64
pow_split zero = refl
pow_split (suc k) =
    let e : suc k + 64 ≡ suc (k + 64) = omega arith in
    rw (e, pow-suc 2 (k + 64), pow_split k, pow-suc 2 k) (omega arith)

-- The zero bits that lead the upper half lead the word, if the half is not 0.
wide-IsLeading : (t z : ℕ) → IsLeading 64 (t / 2 ^ 64) z → IsLeading 128 t z
wide-IsLeading t z (few, lo, hi) =
    let e1 : 128 - suc z ≡ (64 - suc z) + 64 = omega arith in
    let e2 : 128 - z ≡ (64 - z) + 64 = omega arith in
    (
      omega arith,
      rw (e1, pow_split (64 - suc z)) (omega arith),
      rw (e2, pow_split (64 - z)) (omega arith),
    )

top_set : (t z : ℕ) → IsLeading 64 (t / 2 ^ 64) z → 2 ^ 127 ≤ t → z ≡ 0
top_set t zero h top = refl
top_set t (suc k) h top =
    let le = pow-le-pow_right {n = 2} (omega arith) {i = 64 - suc k} {j = 63} (omega arith) in
    absurd (omega (arith, le, h.2))

top_clear : (t z : ℕ) → IsLeading 64 (t / 2 ^ 64) z → t < 2 ^ 127 → 0 < z
top_clear t zero h below = let lo : 2 ^ 63 ≤ t / 2 ^ 64 = h.1 in absurd (omega arith)
top_clear t (suc k) h below = omega arith

for_zero : (t : ℕ) → t ≡ 0 → count_high_zero_bits128 t ≡ some 128
unfolding count_high_zero_bits128
for_zero t h = let e : (t == 0) ≡ true = ground (arith, h) in rw e refl

-- `count_high_zero_bits` of a 128-bit word: it counts the leading zero bits where the highest bit is 0
-- but not the upper half, and 128 for 0. Where the upper half is 0 and the word is not, the result is
-- undefined. Where the highest bit is 1, it is not 0 but 64 and the leading zero bits of the lower
-- half, or undefined, if the lower half is 0.
pub count_high_zero_bits128_lem :
    (t : ℕ)
    → t < 2 ^ 128
    → (t ≡ 0 → count_high_zero_bits128 t ≡ some 128)
      × (0 < t → t < 2 ^ 64 → count_high_zero_bits128 t ≡ none)
      × (2 ^ 64 ≤ t
          → t < 2 ^ 127
          → (z : ℕ) × (count_high_zero_bits128 t ≡ some z) × IsLeading 128 t z)
      × (2 ^ 127 ≤ t
          → (t % 2 ^ 64 ≡ 0 → count_high_zero_bits128 t ≡ none)
            × (t % 2 ^ 64 ≢ 0
                → (z : ℕ) × (count_high_zero_bits128 t ≡ some (64 + z))
                  × IsLeading 64 (t % 2 ^ 64) z))
count_high_zero_bits128_lem t fits =
    let hi = t / 2 ^ 64 in
    let lo = t % 2 ^ 64 in
    let lead : hi ≢ 0 → IsLeading 64 hi (leading_zeros 64 hi) =
      λ n. leading_zeros_lem 64 hi (omega arith) n in
    (
      (λ z. for_zero t z),
      (λ pos small. no_upper t (λ z. omega arith) (omega arith)),
      (λ large below.
          let n : hi ≢ 0 = λ z. omega arith in
          let l = lead n in
          let pos = top_clear t (leading_zeros 64 hi) l below in
          (
            leading_zeros 64 hi,
            upper t (λ z. omega arith) n pos,
            wide-IsLeading t (leading_zeros 64 hi) l,
          )),
      (λ top.
          let n : hi ≢ 0 = λ z. omega arith in
          let e = lower t (λ z. omega arith) n (top_set t (leading_zeros 64 hi) (lead n) top) in
          (
            (λ z. e ∙ ap lower_zeros (undefined lo z)),
            (λ m. (
              leading_zeros 64 lo,
              e ∙ ap lower_zeros (defined lo m),
              leading_zeros_lem 64 lo (omega arith) m,
            )),
          )),
    )
