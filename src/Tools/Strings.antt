-- ===== src/Tools/Strings.antt =====
-- src/tools/stringtools.hpp and src/tools/stringset.hpp: zero-terminated strings and the scans
-- over two of them. A pointer is the list of the bytes from it on; what lies behind the list
-- reads 0.
use bingmann_sample_sort.Prelude.{
  ℕ, zero, suc, ◌<◌, ◌≡◌, refl, Bool, true, false, ◌&&◌, not, List, [], ◌∷◌, arith, ltb, leb, ◌==◌,
  if◌then◌else◌, drop,
}

abbrev pub CString : Type 0
CString = List ℕ

-- `*s`
abbrev pub head_char : CString → ℕ
head_char [] = 0
head_char (c ∷ s) = c

-- `s + d`
abbrev pub get_chars : CString → ℕ → CString
get_chars s d = drop d s

-- `is_equal` of the character string sets: `*ai == *bi && *ai != 0`
abbrev pub is_equal : CString → CString → Bool
is_equal s t = head_char s == head_char t && not (head_char s == 0)

abbrev pub is_less : CString → CString → Bool
is_less s t = ltb (head_char s) (head_char t)

abbrev pub is_leq : CString → CString → Bool
is_leq s t = leb (head_char s) (head_char t)

-- the scans `while (is_equal(s, t)) ++s, ++t;` and the comparison of the characters reached
unfoldable pub leq_scan : CString → CString → Bool
leq_scan [] t = is_leq [] t
leq_scan (c ∷ s) [] = is_leq (c ∷ s) []
leq_scan (c ∷ s) (e ∷ t) =
    let rest = leq_scan s t in if is_equal (c ∷ s) (e ∷ t) then rest else is_leq (c ∷ s) (e ∷ t)

-- the comparison of two strings from a depth on
unfoldable pub leq_from : ℕ → CString → CString → Bool
unfolding leq_scan
leq_from d s t = leq_scan (get_chars s d) (get_chars t d)

pub leq_scan_refl : (s : CString) → leq_scan s s ≡ true
unfolding leq_scan
leq_scan_refl [] = refl
leq_scan_refl (c ∷ s) = ground (arith, leq_scan_refl s)

pub leq_scan_total : (s t : CString) → leq_scan s t ≡ false → leq_scan t s ≡ true
unfolding leq_scan
leq_scan_total [] [] h = ground arith
leq_scan_total [] (e ∷ t) h = ground arith
leq_scan_total (c ∷ s) [] h = ground arith
leq_scan_total (c ∷ s) (e ∷ t) h = ground (arith, leq_scan_total s t)

pub leq_scan_trans :
    (s t u : CString) → leq_scan s t ≡ true → leq_scan t u ≡ true → leq_scan s u ≡ true
unfolding leq_scan
leq_scan_trans [] [] u h k = ground arith
leq_scan_trans [] (e ∷ t) [] h k = ground arith
leq_scan_trans [] (e ∷ t) (f ∷ u) h k = ground arith
leq_scan_trans (c ∷ s) [] [] h k = ground arith
leq_scan_trans (c ∷ s) [] (f ∷ u) h k = ground arith
leq_scan_trans (c ∷ s) (e ∷ t) [] h k = ground arith
leq_scan_trans (c ∷ s) (e ∷ t) (f ∷ u) h k = ground (arith, leq_scan_trans s t u)

-- Every byte fits the character type.
abbrev pub IsBytes : CString → Type 0
IsBytes [] = Unit {0}
IsBytes (c ∷ s) = (c < 256) × IsBytes s

pub IsBytes-drop : (d : ℕ) (s : CString) → IsBytes s → IsBytes (drop d s)
IsBytes-drop zero s h = h
IsBytes-drop (suc d) [] h = tt
IsBytes-drop (suc d) (c ∷ s) h = IsBytes-drop d s h.1
