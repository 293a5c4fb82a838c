-- ===== src/Tools/Bits/Xor.antt =====
-- Exclusive or finds the highest place where two words differ.
use Prim.Native.Nat.{bit_xor, bit_xor-bitwise, digits, differ}
use native.Mathlib.Nat.{pow-suc, div-div-eq-div-mul, div-one}
use bingmann_sample_sort.Prelude.{
  ℕ, zero, suc, ◌+◌, ◌-◌, ◌*◌, ◌/◌, ◌%◌, ◌^◌, ◌<◌, ◌≤◌, ◌≡◌, ◌≢◌, ◌↔◌, ◌∙◌, sym, ap, refl, arith,
  Bool-cases, inl, inr, ltb, ltb→lt,
}
use bingmann_sample_sort.Tools.Bits.{leading_zeros}

abbrev xor_digits : ℕ → ℕ → ℕ → ℕ
xor_digits n a b = digits (λ b. b) differ n a b

xor_digits_fuel : (n m a b : ℕ) → a ≤ n → a ≤ m → xor_digits n a b ≡ xor_digits m a b
xor_digits_fuel zero zero a b p q = refl
xor_digits_fuel zero (suc m) zero b p q = refl
xor_digits_fuel zero (suc m) (suc a) b p q = absurd (omega arith)
xor_digits_fuel (suc n) zero zero b p q = refl
xor_digits_fuel (suc n) zero (suc a) b p q = absurd (omega arith)
xor_digits_fuel (suc n) (suc m) zero b p q = refl
xor_digits_fuel (suc n) (suc m) (suc a) b p q =
    omega (arith, xor_digits_fuel n m (suc a / 2) (b / 2) (omega arith) (omega arith))

zero-bit_xor : (b : ℕ) → bit_xor 0 b ≡ b
zero-bit_xor b = bit_xor-bitwise 0 b

bit_xor_step : (a b : ℕ) → bit_xor a b ≡ bit_xor (a / 2) (b / 2) * 2 + differ (a % 2) (b % 2)
bit_xor_step zero b = omega (arith, zero-bit_xor b, zero-bit_xor (b / 2))
bit_xor_step (suc a) b = omega (
  arith,
  bit_xor-bitwise (suc a) b,
  bit_xor-bitwise (suc a / 2) (b / 2),
  xor_digits_fuel a (suc a / 2) (suc a / 2) (b / 2) (omega arith) (omega arith),
)

differ_zero : (x y : ℕ) → differ x y ≡ 0 → x ≡ y
differ_zero zero y h = sym h
differ_zero (suc x) zero h = h
differ_zero (suc x) (suc y) h = ap suc (differ_zero x y h)

differ_self : (x : ℕ) → differ x x ≡ 0
differ_self zero = refl
differ_self (suc x) = differ_self x

differ-lt : (x y : ℕ) → x < 2 → y < 2 → differ x y < 2
differ-lt zero y p q = q
differ-lt (suc x) zero p q = p
differ-lt (suc x) (suc y) p q = differ-lt x y (omega arith) (omega arith)

xor_zero_fuel : (n a b : ℕ) → a ≤ n → bit_xor a b ≡ 0 → a ≡ b
xor_zero_fuel n zero b p h = omega (arith, zero-bit_xor b)
xor_zero_fuel zero (suc a) b p h = absurd (omega arith)
xor_zero_fuel (suc n) (suc a) b p h =
    let s = bit_xor_step (suc a) b in
    omega (
      arith,
      xor_zero_fuel n (suc a / 2) (b / 2) (omega arith) (omega arith),
      differ_zero (suc a % 2) (b % 2) (omega arith),
    )

pub bit_xor_zero : (a b : ℕ) → bit_xor a b ≡ 0 → a ≡ b
bit_xor_zero a b = xor_zero_fuel a a b (omega arith)

xor_self_fuel : (n a : ℕ) → a ≤ n → bit_xor a a ≡ 0
xor_self_fuel n zero p = zero-bit_xor 0
xor_self_fuel zero (suc a) p = absurd (omega arith)
xor_self_fuel (suc n) (suc a) p = omega (
  arith,
  bit_xor_step (suc a) (suc a),
  xor_self_fuel n (suc a / 2) (omega arith),
  differ_self (suc a % 2),
)

pub bit_xor_self : (a : ℕ) → bit_xor a a ≡ 0
bit_xor_self a = xor_self_fuel a a (omega arith)

div_pow_suc : (w x : ℕ) → x / 2 ^ suc w ≡ x / 2 ^ w / 2
div_pow_suc w x = rw (pow-suc 2 w) (sym (div-div-eq-div-mul x (2 ^ w) 2))

-- The digits of an exclusive or above a place are the exclusive or of the digits above it.
pub bit_xor_high : (w a b : ℕ) → bit_xor a b / 2 ^ w ≡ bit_xor (a / 2 ^ w) (b / 2 ^ w)
bit_xor_high zero a b = rw (div-one, div-one, div-one) refl
bit_xor_high (suc w) a b =
    rw (div_pow_suc w (bit_xor a b), div_pow_suc w a, div_pow_suc w b, bit_xor_high w a b)
      (omega (
        arith,
        bit_xor_step (a / 2 ^ w) (b / 2 ^ w),
        differ-lt (a / 2 ^ w % 2) (b / 2 ^ w % 2) (omega arith) (omega arith),
      ))

pub two_pow_pos : (w : ℕ) → 0 < 2 ^ w
two_pow_pos zero = omega arith
two_pow_pos (suc w) = omega (arith, pow-suc 2 w, two_pow_pos w)

div_zero_lt : (x p : ℕ) → 0 < p → x / p ≡ 0 → x < p
div_zero_lt x p h e = grind arith

lt_div_zero : (x p : ℕ) → x < p → x / p ≡ 0
lt_div_zero x p h = grind arith

-- Two words agree above a place exactly when their exclusive or lies below it.
pub bit_xor-lt_iff : (w a b : ℕ) → (bit_xor a b < 2 ^ w) ↔ (a / 2 ^ w ≡ b / 2 ^ w)
bit_xor-lt_iff w a b = (
  λ h.
      bit_xor_zero (a / 2 ^ w) (b / 2 ^ w)
        (sym (bit_xor_high w a b) ∙ lt_div_zero (bit_xor a b) (2 ^ w) h),
  λ e. div_zero_lt (bit_xor a b) (2 ^ w) (two_pow_pos w) (
      bit_xor_high w a b
      ∙ ap (λ (t : ℕ). bit_xor (a / 2 ^ w) t) (sym e)
      ∙ bit_xor_self (a / 2 ^ w)),
)

pub bit_xor-lt : (w a b : ℕ) → a < 2 ^ w → b < 2 ^ w → bit_xor a b < 2 ^ w
bit_xor-lt w a b ha hb =
    (bit_xor-lt_iff w a b).1 (lt_div_zero a (2 ^ w) ha ∙ sym (lt_div_zero b (2 ^ w) hb))

-- The leading zeros of a word other than 0 end just above its highest bit.
pub leading_zeros_lem :
    (w x : ℕ)
    → x < 2 ^ w
    → x ≢ 0
    → (leading_zeros w x < w)
      × (2 ^ (w - suc (leading_zeros w x)) ≤ x)
      × (x < 2 ^ (w - leading_zeros w x))
unfolding leading_zeros
leading_zeros_lem zero x h n = absurd (omega (arith, n))
leading_zeros_lem (suc w) x h n = elim (Bool-cases (ltb x (2 ^ w))) [
  | inl t ↦
      let ih = leading_zeros_lem w x (ltb→lt x (2 ^ w) t) n in
      let z = leading_zeros w x in
      let e1 : suc w - suc (suc z) ≡ w - suc z = omega arith in
      let e2 : suc w - suc z ≡ w - z = omega arith in rw t (omega arith, rw e1 ih.1, rw e2 ih.2)
  | inr f ↦
      let e1 : suc w - 1 ≡ w = omega arith in
      let e2 : suc w - 0 ≡ suc w = omega arith in rw f (omega arith, rw e1 (ground arith), rw e2 h)
]
