-- ===== src/Sequential/Radix/Chars.antt =====
-- Strings that differ or agree in one character.
use mathlib.Core.HLevel.{×_prop}
use native.Mathlib.Bridge.{le_prop}
use bingmann_sample_sort.Prelude.{
  ℕ, zero, suc, ◌+◌, ◌≤◌, ◌<◌, ◌≡◌, ◌≢◌, refl, sym, ◌∙◌, true, [], ◌∷◌, length, drop, arith,
  drop-drop,
}
use bingmann_sample_sort.Tools.Strings.{CString, IsBytes, leq_from, leq_scan, head_char, get_chars}
use bingmann_sample_sort.Tools.Keys.{get_char_uint8}
use bingmann_sample_sort.Sequential.Radix.{char_at}

pub IsBytes-prop : (s : CString) → IsProp (IsBytes s)
IsBytes-prop [] = λ a b. refl
IsBytes-prop (c ∷ s) = ×_prop le_prop (IsBytes-prop s)

-- Bytes that reach no further than `limit`.
abbrev pub IsWithin : ℕ → CString → Type 0
IsWithin limit s = IsBytes s × (length s ≤ limit)

pub IsWithin-prop : (limit : ℕ) (s : CString) → IsProp (IsWithin limit s)
IsWithin-prop limit s = ×_prop (IsBytes-prop s) le_prop

scan_less : (s t : CString) → head_char s < head_char t → leq_scan s t ≡ true
unfolding leq_scan
scan_less [] [] h = ground arith
scan_less [] (e ∷ t) h = ground arith
scan_less (c ∷ s) [] h = ground arith
scan_less (c ∷ s) (e ∷ t) h = ground arith

scan_tail :
    (s t : CString)
    → head_char s ≡ head_char t
    → head_char s ≢ 0
    → leq_scan s t ≡ leq_scan (drop 1 s) (drop 1 t)
unfolding leq_scan
scan_tail [] t h n = absurd (n refl)
scan_tail (c ∷ s) [] h n = absurd (n h)
scan_tail (c ∷ s) (e ∷ t) h n = ground arith

pub char_at-less :
    (depth : ℕ) (x y : CString) → char_at depth x < char_at depth y → leq_from depth x y ≡ true
unfolding leq_from get_char_uint8
char_at-less depth x y h = scan_less (get_chars x depth) (get_chars y depth) h

-- Strings that share a character compare as from the next one.
pub char_at-same :
    (depth i : ℕ) (x y : CString)
    → char_at depth x ≡ suc i
    → char_at depth y ≡ suc i
    → leq_from depth x y ≡ leq_from (depth + 1) x y
unfolding leq_from get_char_uint8
char_at-same depth i x y h k =
    scan_tail (get_chars x depth) (get_chars y depth) (h ∙ sym k) (λ e. ground (arith, h))
    ∙ rw (drop-drop depth 1 x, drop-drop depth 1 y) refl

-- A string with a character at `depth` that is not 0 is longer than that.
pub char_at-length : (depth i : ℕ) (s : CString) → char_at depth s ≡ suc i → depth < length s
unfolding get_char_uint8
char_at-length zero i [] h = ground arith
char_at-length zero i (c ∷ s) h = omega arith
char_at-length (suc depth) i [] h = ground arith
char_at-length (suc depth) i (c ∷ s) h = omega (arith, char_at-length depth i s h)

pub one_plus : (k : ℕ) → 1 + k ≡ suc k
one_plus k = omega arith
