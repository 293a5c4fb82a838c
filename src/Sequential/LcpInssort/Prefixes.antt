-- ===== src/Sequential/LcpInssort/Prefixes.antt =====
-- Common prefixes of three strings, and the comparison that goes on from a known one.
use bingmann_sample_sort.Prelude.{
  ℕ, zero, suc, ◌+◌, ◌≤◌, ◌<◌, ◌≡◌, refl, ap, ◌∙◌, Bool, true, false, not, ◌&&◌, [], ◌∷◌, ◌==◌,
  drop, arith, Bool-cases, inl, inr,
}
use bingmann_sample_sort.Tools.Strings.{CString, is_equal, leq_scan}
use bingmann_sample_sort.Tools.Compare.{common_prefix}
use bingmann_sample_sort.Sequential.LcpInssort.{compare_more}

pub pair_lem : {a b : Bool} {m n : ℕ} → a ≡ b → m ≡ n → ◌≡◌ {A = Bool × ℕ} (a, m) (b, n)
pair_lem e f = λ i. (e i, f i)

pub compare_more_lem :
    (s t : CString) (k : ℕ) → compare_more s t k ≡ (not (leq_scan t s), k + common_prefix s t)
unfolding compare_more leq_scan common_prefix
compare_more_lem [] [] k = ap (λ (n : ℕ). (false, n)) (omega arith)
compare_more_lem [] (e ∷ t) k = pair_lem (ground arith) (omega arith)
compare_more_lem (c ∷ s) [] k = pair_lem (ground arith) (omega arith)
compare_more_lem (c ∷ s) (e ∷ t) k = elim (Bool-cases (is_equal (c ∷ s) (e ∷ t))) [
  | inl same ↦
      let back : is_equal (e ∷ t) (c ∷ s) ≡ true = ground arith in
      let count : (not (c == 0) && (c == e)) ≡ true = ground arith in
      rw (same, back, count) (compare_more_lem s t (suc k) ∙ pair_lem refl (omega arith))
  | inr differ ↦
      let back : is_equal (e ∷ t) (c ∷ s) ≡ false = ground arith in
      let count : (not (c == 0) && (c == e)) ≡ false = ground arith in
      rw (differ, back, count) (pair_lem (ground arith) (omega arith))
]

-- `x` parts from `u` before `y` does: it stands below `y`, and parts from it at the same place.
pub parts_below :
    (x y u : CString)
    → leq_scan x u ≡ true
    → common_prefix x u < common_prefix y u
    → (leq_scan x y ≡ true) × (leq_scan y x ≡ false) × (common_prefix x y ≡ common_prefix x u)
unfolding leq_scan common_prefix
parts_below x [] u le lt = absurd (omega arith)
parts_below x (e ∷ y) [] le lt = absurd (omega arith)
parts_below [] (e ∷ y) (f ∷ u) le lt = (ground arith, ground arith, refl)
parts_below (c ∷ x) (e ∷ y) (f ∷ u) le lt =
    let ih = parts_below x y u in (ground (arith, ih), ground (arith, ih), ground (arith, ih))

-- Two strings that part from a third at one place are equal up to there.
pub parts_same :
    (x y u : CString)
    → common_prefix x u ≡ common_prefix y u
    → common_prefix x u ≤ common_prefix x y
unfolding common_prefix
parts_same [] y u e = omega arith
parts_same (c ∷ x) y [] e = omega arith
parts_same (c ∷ x) [] (f ∷ u) e = omega arith
parts_same (c ∷ x) (e' ∷ y) (f ∷ u) e = ground (arith, parts_same x y u)

pub common_prefix_comm : (s t : CString) → common_prefix s t ≡ common_prefix t s
unfolding common_prefix
common_prefix_comm [] [] = refl
common_prefix_comm [] (e ∷ t) = refl
common_prefix_comm (c ∷ s) [] = refl
common_prefix_comm (c ∷ s) (e ∷ t) = ground (arith, common_prefix_comm s t)

-- Characters that are common to both change nothing in their order.
pub skip-leq_scan :
    (k : ℕ) (s t : CString) → k ≤ common_prefix s t → leq_scan (drop k s) (drop k t) ≡ leq_scan s t
unfolding leq_scan common_prefix
skip-leq_scan zero s t h = refl
skip-leq_scan (suc k) [] t h = absurd (omega arith)
skip-leq_scan (suc k) (c ∷ s) [] h = absurd (omega arith)
skip-leq_scan (suc k) (c ∷ s) (e ∷ t) h = ground (arith, skip-leq_scan k s t)

pub skip-common_prefix :
    (k : ℕ) (s t : CString)
    → k ≤ common_prefix s t
    → k + common_prefix (drop k s) (drop k t) ≡ common_prefix s t
unfolding common_prefix
skip-common_prefix zero s t h = omega arith
skip-common_prefix (suc k) [] t h = absurd (omega arith)
skip-common_prefix (suc k) (c ∷ s) [] h = absurd (omega arith)
skip-common_prefix (suc k) (c ∷ s) (e ∷ t) h = ground (arith, skip-common_prefix k s t)
