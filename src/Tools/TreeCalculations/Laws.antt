-- ===== src/Tools/TreeCalculations/Laws.antt =====
-- The two numberings of a perfect tree are inverse to each other.
use native.Mathlib.Nat.{
  mod-eq_of_lt, zero-add, mul-add-mod_self_left, div-eq_of_lt, pow-le-pow_right,
}
use bingmann_sample_sort.Prelude.{
  ℕ, zero, suc, ◌+◌, ◌-◌, ◌*◌, ◌/◌, ◌%◌, ◌^◌, ◌≤◌, ◌<◌, ◌≡◌, refl, sym, ap, ◌∙◌, subst, arith,
  pow-suc, dec_lt, ℕ_discrete,
}
use bingmann_sample_sort.Tools.Keys.Load.{div_of}
use bingmann_sample_sort.Tools.Bits.{
  leading_zeros, trailing_zeros, count_high_zero_bits, count_low_zero_bits,
}
use bingmann_sample_sort.Tools.TreeCalculations.{set_bit, level_to_preorder, pre_to_levelorder}

two_times : (h : ℕ) → 2 ^ suc h ≡ 2 * 2 ^ h
two_times h = omega (arith, pow-suc 2 h)

two_pos : (h : ℕ) → 0 < 2 ^ h
two_pos zero = omega arith
two_pos (suc h) = omega (arith, two_times h, two_pos h)

pub two_plus : (c d : ℕ) → 2 ^ (c + d) ≡ 2 ^ c * 2 ^ d
two_plus zero d = rw zero-add (omega arith)
two_plus (suc c) d =
    let e : suc c + d ≡ suc (c + d) = omega arith in
    rw (e, two_times (c + d), two_times c, two_plus c d) (grind arith)

leading_zeros_lem : (w k x : ℕ) → k < w → 2 ^ k ≤ x → x < 2 ^ suc k → leading_zeros w x ≡ w - suc k
unfolding leading_zeros
leading_zeros_lem zero k x h lo hi = absurd (omega arith)
leading_zeros_lem (suc w) k x h lo hi = elim (ℕ_discrete k w) [
  | yes top ↦ let le : 2 ^ w ≤ x = subst (λ j. 2 ^ j ≤ x) top lo in ground arith
  | no below ↦
      let le = pow-le-pow_right {n = 2} (omega arith) {i = suc k} {j = w} (omega arith) in
      ground (arith, leading_zeros_lem w k x (omega arith) lo hi)
]

trailing_zeros_lem : (w c r : ℕ) → c < w → trailing_zeros w ((2 * r + 1) * 2 ^ c) ≡ c
unfolding trailing_zeros
trailing_zeros_lem zero c r h = absurd (omega arith)
trailing_zeros_lem (suc w) zero r h = ground arith
trailing_zeros_lem (suc w) (suc c) r h =
    let e : (2 * r + 1) * 2 ^ suc c ≡ 2 * ((2 * r + 1) * 2 ^ c) = rw (two_times c) (grind arith) in
    rw e (ground (arith, half ((2 * r + 1) * 2 ^ c), trailing_zeros_lem w c r (omega arith)))
  where
    half : (x : ℕ) → 2 * x / 2 ≡ x
    half x = omega arith

set_bit_clear : (k x : ℕ) → x / 2 ^ k % 2 ≡ 0 → set_bit k x ≡ x + 2 ^ k
unfolding set_bit
set_bit_clear k x h = ground (arith, h)

count_low_lem : (w c r : ℕ) → c < w → count_low_zero_bits w ((2 * r + 1) * 2 ^ c) ≡ c
unfolding count_low_zero_bits
count_low_lem w c r h =
    let pos : 0 < (2 * r + 1) * 2 ^ c = let p = two_pos c in grind arith in
    ground (arith, trailing_zeros_lem w c r h)

count_high_lem :
    (w k x : ℕ) → k < w → 2 ^ k ≤ x → x < 2 ^ suc k → count_high_zero_bits w x ≡ w - suc k
unfolding count_high_zero_bits
count_high_lem w k x h lo hi = let p = two_pos k in ground (arith, leading_zeros_lem w k x h lo hi)

next_two : (c : ℕ) → 2 ^ (c + 1) ≡ 2 * 2 ^ c
next_two c = let e : c + 1 ≡ suc c = omega arith in rw e (two_times c)

odd_part : (p q r : ℕ) → 0 < p → q ≡ 2 * p → ((2 * r + 1) * p) / q ≡ r
odd_part p q r pos e = div_of q ((2 * r + 1) * p) r p (omega arith) (rw e (grind arith))

-- The two transformations at a known number of zero bits.
pre_at :
    (treebits id lo : ℕ)
    → count_low_zero_bits 32 id + 1 ≡ lo
    → pre_to_levelorder treebits id ≡ set_bit (treebits - lo) (id / 2 ^ lo % 2 ^ treebits)
unfolding pre_to_levelorder
pre_at treebits id lo e = ap (λ (lo : ℕ). set_bit (treebits - lo) (id / 2 ^ lo % 2 ^ treebits)) e

level_at :
    (treebits id hi : ℕ)
    → treebits + count_high_zero_bits 32 id - 32 ≡ hi
    → level_to_preorder treebits id ≡ set_bit hi (id * 2 ^ (hi + 1) % 2 ^ 32 % 2 ^ treebits)
unfolding level_to_preorder
level_at treebits id hi e =
    ap (λ (hi : ℕ). set_bit hi (id * 2 ^ (hi + 1) % 2 ^ 32 % 2 ^ treebits)) e

-- The node at place `r` of level `d`, of `c + d + 1` levels, is number `(2 * r + 1) * 2 ^ c` in order.
pub pre_to_levelorder_lem :
    (c d r : ℕ)
    → c + d < 32
    → r < 2 ^ d
    → pre_to_levelorder (c + d + 1) ((2 * r + 1) * 2 ^ c) ≡ 2 ^ d + r
pre_to_levelorder_lem c d r h inside =
    let e : count_low_zero_bits 32 ((2 * r + 1) * 2 ^ c) + 1 ≡ c + 1 =
      omega (arith, count_low_lem 32 c r (omega arith)) in
    let up = pow-le-pow_right {n = 2} (omega arith) {i = d} {j = c + d + 1} (omega arith) in
    let place : ((2 * r + 1) * 2 ^ c) / 2 ^ (c + 1) % 2 ^ (c + d + 1) ≡ r =
      ap (λ (x : ℕ). x % 2 ^ (c + d + 1))
        (odd_part (2 ^ c) (2 ^ (c + 1)) r (two_pos c) (next_two c))
      ∙ mod-eq_of_lt (omega arith) in
    let level : c + d + 1 - (c + 1) ≡ d = omega arith in
    pre_at (c + d + 1) ((2 * r + 1) * 2 ^ c) (c + 1) e
    ∙ rw (place, level) (set_bit_clear d r (rw (div-eq_of_lt inside) refl) ∙ omega arith)

pub level_to_preorder_lem :
    (c d r : ℕ)
    → c + d < 31
    → r < 2 ^ d
    → level_to_preorder (c + d + 1) (2 ^ d + r) ≡ (2 * r + 1) * 2 ^ c
level_to_preorder_lem c d r h inside =
    let p = two_pos c in
    let whole : 2 ^ (c + d + 1) ≡ 2 ^ d * 2 ^ (c + 1) =
      let e : c + d + 1 ≡ d + (c + 1) = omega arith in rw e (two_plus d (c + 1)) in
    let top = pow-le-pow_right {n = 2} (omega arith) {i = suc (c + d + 1)} {j = 32} (omega arith) in
    let hi : c + d + 1 + count_high_zero_bits 32 (2 ^ d + r) - 32 ≡ c = omega (
      arith,
      count_high_lem 32 d (2 ^ d + r) (omega arith) (omega arith) (omega (arith, two_times d)),
    ) in
    let next = next_two c in
    let fits : (2 ^ d + r) * 2 ^ (c + 1) % 2 ^ 32 ≡ 2 ^ (c + d + 1) + r * 2 ^ (c + 1) =
      shifted (2 ^ d) (2 ^ (c + 1)) (2 ^ (c + d + 1)) r (two_pos (c + 1)) whole inside
        (omega (arith, top, two_times (c + d + 1))) in
    let masked : (2 ^ (c + d + 1) + r * 2 ^ (c + 1)) % 2 ^ (c + d + 1) ≡ r * 2 ^ (c + 1) =
      masked_lem (2 ^ d) (2 ^ (c + 1)) (2 ^ (c + d + 1)) r (two_pos (c + 1)) whole inside in
    level_at (c + d + 1) (2 ^ d + r) c hi
    ∙ rw (fits, masked)
        (set_bit_clear c (r * 2 ^ (c + 1)) (even_part (2 ^ c) (2 ^ (c + 1)) r p next)
          ∙ rw next (grind arith))
  where
    shifted :
        (b q m r : ℕ)
        → 0 < q
        → m ≡ b * q
        → r < b
        → 2 * m ≤ 2 ^ 32
        → (b + r) * q % 2 ^ 32 ≡ m + r * q
    shifted b q m r pos e lt small =
        let sum : (b + r) * q ≡ m + r * q = rw e (grind arith) in
        let le : m + r * q < 2 ^ 32 =
          let less : r * q < m = rw e (grind arith) in omega (arith, less) in
        sum2 sum le
      where
        sum2 : {x y : ℕ} → x ≡ y → y < 2 ^ 32 → x % 2 ^ 32 ≡ y
        sum2 e lt = omega arith

    masked_lem : (b q m r : ℕ) → 0 < q → m ≡ b * q → r < b → (m + r * q) % m ≡ r * q
    masked_lem b q m r pos e lt =
        let less : r * q < m = rw e (grind arith) in
        let one : m ≡ m * 1 = omega arith in
        ap (λ (t : ℕ). (t + r * q) % m) one ∙ mul-add-mod_self_left m 1 (r * q) ∙ mod-eq_of_lt less

    even_part : (p q r : ℕ) → 0 < p → q ≡ 2 * p → r * q / p % 2 ≡ 0
    even_part p q r pos e =
        let d : r * q / p ≡ 2 * r = div_of p (r * q) (2 * r) 0 pos (rw e (grind arith)) in
        omega arith

-- Every number from 1 on below `2 ^ h` is a place on a level, and an odd multiple of a power of two.
pub odd_multiple :
    (h id : ℕ)
    → 0 < id
    → id < 2 ^ h
    → (c : ℕ) × (d : ℕ) × (r : ℕ) × (c + d + 1 ≡ h) × (r < 2 ^ d) × (id ≡ (2 * r + 1) * 2 ^ c)
odd_multiple zero id pos lt = absurd (omega arith)
odd_multiple (suc h) id pos lt = elim (dec_lt 0 (id % 2)) [
  | yes odd ↦ (0, h, id / 2, omega arith, omega (arith, two_times h), omega arith)
  | no even ↦
      let (c, d, r, e, small, is) =
        odd_multiple h (id / 2) (omega arith) (omega (arith, two_times h)) in
      (
        suc c,
        d,
        r,
        omega arith,
        small,
        rw (two_times c) (twice id (id / 2) (2 * r + 1) (2 ^ c) (omega arith) is),
      )
]
  where
    twice : (x y a p : ℕ) → x ≡ 2 * y → y ≡ a * p → x ≡ a * (2 * p)
    twice x y a p e f = grind arith

level_place :
    (h id : ℕ)
    → 0 < id
    → id < 2 ^ h
    → (c : ℕ) × (d : ℕ) × (r : ℕ) × (c + d + 1 ≡ h) × (r < 2 ^ d) × (id ≡ 2 ^ d + r)
level_place zero id pos lt = absurd (omega arith)
level_place (suc h) id pos lt = elim (dec_lt id (2 ^ h)) [
  | yes below ↦
      let (c, d, r, e, small, is) = level_place h id pos below in
      (suc c, d, r, omega arith, small, is)
  | no last ↦ (0, h, id - 2 ^ h, omega arith, omega (arith, two_times h), omega arith)
]

-- For a tree of at most 31 levels the two transformations are inverse to each other on the numbers
-- of its nodes, 1 to 2 ^ treebits - 1, and lead to such numbers.
pub level_to_preorder-pre_to_levelorder :
    (treebits id : ℕ)
    → treebits < 32
    → 0 < id
    → id < 2 ^ treebits
    → (level_to_preorder treebits (pre_to_levelorder treebits id) ≡ id)
      × (pre_to_levelorder treebits (level_to_preorder treebits id) ≡ id)
      × (0 < pre_to_levelorder treebits id)
      × (pre_to_levelorder treebits id < 2 ^ treebits)
level_to_preorder-pre_to_levelorder treebits id few pos lt =
    let (c, d, r, e, small, is) = odd_multiple treebits id pos lt in
    let (c', d', r', e', small', is') = level_place treebits id pos lt in
    let pre : pre_to_levelorder treebits id ≡ 2 ^ d + r =
      subst (λ t. pre_to_levelorder t id ≡ 2 ^ d + r) e
        (rw is (pre_to_levelorder_lem c d r (omega arith) small)) in
    let back : level_to_preorder treebits (2 ^ d + r) ≡ (2 * r + 1) * 2 ^ c =
      subst (λ t. level_to_preorder t (2 ^ d + r) ≡ (2 * r + 1) * 2 ^ c) e
        (level_to_preorder_lem c d r (omega arith) small) in
    let level : level_to_preorder treebits id ≡ (2 * r' + 1) * 2 ^ c' =
      subst (λ t. level_to_preorder t id ≡ (2 * r' + 1) * 2 ^ c') e'
        (rw is' (level_to_preorder_lem c' d' r' (omega arith) small')) in
    let forth : pre_to_levelorder treebits ((2 * r' + 1) * 2 ^ c') ≡ 2 ^ d' + r' =
      subst (λ t. pre_to_levelorder t ((2 * r' + 1) * 2 ^ c') ≡ 2 ^ d' + r') e'
        (pre_to_levelorder_lem c' d' r' (omega arith) small') in
    let top = pow-le-pow_right {n = 2} (omega arith) {i = suc d} {j = treebits} (omega arith) in
    (
      ap (level_to_preorder treebits) pre ∙ back ∙ sym is,
      ap (pre_to_levelorder treebits) level ∙ forth ∙ sym is',
      omega (arith, pre, two_pos d),
      omega (arith, pre, two_times d),
    )
