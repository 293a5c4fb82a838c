-- ===== src/Tools/Compare.antt =====
-- src/tools/stringtools.hpp: comparing two strings and measuring their common prefix;
-- src/tools/stringset.hpp: the order check over an array.
use bingmann_sample_sort.Prelude.{
  ℕ, suc, ◌-◌, ◌%◌, ◌^◌, ◌<◌, ◌≡◌, refl, Bool, true, false, not, Option, none, some, List, [], ◌∷◌,
  length, arith, ltb, leb, if◌then◌else◌, drop, ◌==◌, ap, ◌&&◌,
}
use bingmann_sample_sort.Tools.Strings.{CString, head_char, is_equal, is_leq, leq_scan}

-- The result of a comparison, an `int`.
pub data ℤ : Type 0 where
  pos : ℕ → ℤ
  negsuc : ℕ → ℤ

-- `*s1 - *s2`
unfoldable pub difference : ℕ → ℕ → ℤ
difference a b = if ltb a b then negsuc (b - a - 1) else pos (a - b)

unfoldable pub scmp : CString → CString → ℤ
unfolding difference
scmp [] t = difference 0 (head_char t)
scmp (c ∷ s) [] = difference c 0
scmp (c ∷ s) (e ∷ t) =
    let rest = scmp s t in if not (c == 0) && (c == e) then rest else difference c e

-- the scan of `scmp` that counts in `lcp`
unfoldable pub scmp_loop : CString → CString → ℕ → ℤ × ℕ
unfolding difference
scmp_loop [] t lcp = (difference 0 (head_char t), lcp)
scmp_loop (c ∷ s) [] lcp = (difference c 0, lcp)
scmp_loop (c ∷ s) (e ∷ t) lcp =
    let rest = scmp_loop s t (suc lcp) in
    if not (c == 0) && (c == e) then rest else (difference c e, lcp)

-- `scmp` with a start `lcp`, and the `lcp` that it leaves
unfoldable pub scmp_lcp : CString → CString → ℕ → ℤ × ℕ
unfolding scmp_loop
scmp_lcp s1 s2 lcp = scmp_loop (drop lcp s1) (drop lcp s2) lcp

-- the scan of `calc_lcp`, which counts in a `size_t`
unfoldable pub common_prefix : CString → CString → ℕ
common_prefix [] t = 0
common_prefix (c ∷ s) [] = 0
common_prefix (c ∷ s) (e ∷ t) =
    let rest = suc (common_prefix s t) in if not (c == 0) && (c == e) then rest else 0

-- `calc_lcp` returns its count as an `unsigned int`.
unfoldable pub calc_lcp : CString → CString → ℕ
unfolding common_prefix
calc_lcp s1 s2 = common_prefix s1 s2 % 2 ^ 32

abbrev pub is_nonpositive : ℤ → Bool
is_nonpositive (pos n) = n == 0
is_nonpositive (negsuc n) = true

difference-leb : (a b : ℕ) → is_nonpositive (difference a b) ≡ leb a b
unfolding difference
difference-leb a b = ground arith

-- `scmp` is not positive just where the sorters' scan finds its first string not to be the greater.
pub scmp-leq_scan : (s t : CString) → is_nonpositive (scmp s t) ≡ leq_scan s t
unfolding scmp leq_scan
scmp-leq_scan [] t = difference-leb 0 (head_char t)
scmp-leq_scan (c ∷ s) [] = difference-leb c 0
scmp-leq_scan (c ∷ s) (e ∷ t) = ground (arith, scmp-leq_scan s t, difference-leb c e)

-- the two iterators where the scan of `check_order` ends
unfoldable pub scan_ends : CString → CString → CString × CString
scan_ends [] t = ([], t)
scan_ends (c ∷ s) [] = (c ∷ s, [])
scan_ends (c ∷ s) (e ∷ t) =
    let rest = scan_ends s t in if is_equal (c ∷ s) (e ∷ t) then rest else (c ∷ s, e ∷ t)

-- `check_order(s1, s2)`: it hands `c2` on for both iterators.
unfoldable pub check_order_pair : CString → CString → Bool
unfolding scan_ends
check_order_pair s1 s2 = let (c1, c2) = scan_ends s1 s2 in is_leq c2 c2

unfoldable pub check_order_loop : CString → List CString → Bool
unfolding check_order_pair
check_order_loop prev [] = true
check_order_loop prev (s ∷ ss) =
    let rest = check_order_loop s ss in if check_order_pair prev s then rest else false

-- `check_order` of an array; its scan starts behind the first string, also where there is none:
-- `none` is that read behind the array.
unfoldable pub check_order : List CString → Option Bool
unfolding check_order_loop
check_order [] = none
check_order (s ∷ ss) = some (check_order_loop s ss)

check_order_pair-true : (s t : CString) → check_order_pair s t ≡ true
unfolding check_order_pair
check_order_pair-true s t = ground arith

check_order_loop-true : (prev : CString) (ss : List CString) → check_order_loop prev ss ≡ true
unfolding check_order_loop
check_order_loop-true prev [] = refl
check_order_loop-true prev (s ∷ ss) =
    ground (arith, check_order_pair-true prev s, check_order_loop-true s ss)

-- `check_order` accepts every array of character strings that is not empty, sorted or not; on the
-- empty array it reads behind the array.
pub check_order-true :
    (ss : List CString)
    → (0 < length ss → check_order ss ≡ some true) × (length ss ≡ 0 → check_order ss ≡ none)
unfolding check_order
check_order-true [] = ((λ pos. absurd (omega arith)), λ e. refl)
check_order-true (s ∷ ss) =
    ((λ pos. ap some (check_order_loop-true s ss)), λ e. absurd (omega arith))
