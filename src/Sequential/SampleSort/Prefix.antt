-- ===== src/Sequential/SampleSort/Prefix.antt =====
-- The key of a string, split after some of its characters.
use native.Mathlib.Nat.{pow-suc, zero-add, add-zero, add-suc, div-add-mod', mod-lt}
use bingmann_sample_sort.Prelude.{
  ℕ, zero, suc, ◌+◌, ◌-◌, ◌*◌, ◌/◌, ◌%◌, ◌^◌, ◌≤◌, ◌<◌, ◌≡◌, ◌≢◌, inl, inr, refl, sym, ap, ◌∙◌,
  true, false, [], ◌∷◌, ◌==◌, if◌then◌else◌, length, length-drop, drop, drop-drop, tail, arith,
  Bool-cases, subst,
}
use bingmann_sample_sort.Tools.Strings.{
  CString, IsBytes, IsBytes-drop, head_char, get_chars, leq_from, leq_scan,
}
use bingmann_sample_sort.Tools.Keys.{get_char_simple, get_uint64}
use bingmann_sample_sort.Tools.Keys.Load.{tail-IsBytes, head_char-lt, pow_pos, div_of}
use bingmann_sample_sort.Tools.Keys.Order.{get_char_simple-lt, key_scan, leq_from-get_uint64}
use bingmann_sample_sort.Tools.KeyLcp.{lcp_key_type, lcp_key_type_lem}

-- The characters behind the first `r` of `r + m`; none, if one of the first is the terminator.
abbrev IsRest : ℕ → ℕ → CString → ℕ → Type 0
IsRest r m s low =
    (get_char_simple (r + m) s ≡ get_char_simple r s * 256 ^ m + low)
    × (low < 256 ^ m)
    × (0 < r → get_char_simple r s % 256 ≡ 0 → low ≡ 0)

pow_add : (r m : ℕ) → 256 ^ (r + m) ≡ 256 ^ r * 256 ^ m
pow_add r zero = rw add-zero (omega arith)
pow_add r (suc m) = rw (add-suc, pow-suc 256 (r + m), pow-suc 256 m, pow_add r m) (grind arith)

split_step : (p q c u low : ℕ) → c * (p * q) + (u * q + low) ≡ (c * p + u) * q + low
split_step p q c u low = grind arith

pow_suc : (r : ℕ) → 256 ^ suc r ≡ 256 * 256 ^ r
pow_suc r = omega (arith, pow-suc 256 r)

low_byte : (p c u : ℕ) → (c * (256 * p) + u) % 256 ≡ u % 256
low_byte p c u = omega (arith, assoc c p)
  where
    assoc : (c p : ℕ) → c * (256 * p) ≡ 256 * (c * p)
    assoc c p = grind arith

key_split : (r m : ℕ) (s : CString) → IsBytes s → (low : ℕ) × IsRest r m s low
unfolding get_char_simple
key_split zero m s h = (
  get_char_simple m s,
  (rw zero-add (omega arith), get_char_simple-lt m s h, (λ pos. absurd (omega arith))),
)
key_split (suc r) m s h =
    let (low, (eq, small, rest)) = key_split r m (tail s) (tail-IsBytes s h) in
    elim (Bool-cases (head_char s == 0)) [
      | inl z ↦ (0, (rw (suc_add r m, z) (omega arith), omega (arith, pow_pos m), λ pos e. refl))
      | inr n ↦ (
        low,
        (
          rw (suc_add r m, n, pow_add r m) (step r m low n eq),
          small,
          (λ pos e. rest_zero r low n e rest),
        ),
      )
    ]
  where
    suc_add : (r m : ℕ) → suc r + m ≡ suc (r + m)
    suc_add r m = omega arith

    step :
        (r m low : ℕ)
        → (head_char s == 0) ≡ false
        → get_char_simple (r + m) (tail s) ≡ get_char_simple r (tail s) * 256 ^ m + low
        → head_char s * (256 ^ r * 256 ^ m) + get_char_simple (r + m) (tail s)
          ≡ (head_char s * 256 ^ r + get_char_simple r (tail s)) * 256 ^ m + low
    step r m low n eq = rw eq (split_step (256 ^ r) (256 ^ m) (head_char s) _ low)

    rest_zero :
        (r low : ℕ)
        → (head_char s == 0) ≡ false
        → (if head_char s == 0 then 0 else head_char s * 256 ^ r + get_char_simple r (tail s)) % 256
          ≡ 0
        → (0 < r → get_char_simple r (tail s) % 256 ≡ 0 → low ≡ 0)
        → low ≡ 0
    rest_zero zero low n e rest = absurd (ground (arith, head_char-lt s h))
    rest_zero (suc r) low n e rest =
        rest (omega arith) (sym (low_byte (256 ^ r) (head_char s) _) ∙ rw (n, pow_suc r) at e)

-- A number between two that share their upper digits shares them.
squeeze : (P a b k : ℕ) → 0 < P → a / P ≡ b / P → a ≤ k → k ≤ b → k / P ≡ a / P
squeeze P a b k pos e la lb =
    let da = div-add-mod' a P in
    let db = div-add-mod' b P in
    let m = mod-lt b pos in
    let same = ap (λ (t : ℕ). t * P) e in
    div_of P k (a / P) (k - a / P * P) (omega arith) (omega arith)

-- The key of a string, cut after `r` characters: the characters, and that the rest is 0 if the
-- string has ended.
key_upper :
    (r m : ℕ) (s : CString)
    → IsBytes s
    → r + m ≡ 8
    → (get_char_simple 8 s / 256 ^ m ≡ get_char_simple r s)
      × (0 < r
          → get_char_simple r s % 256 ≡ 0
          → get_char_simple 8 s ≡ get_char_simple r s * 256 ^ m)
key_upper r m s h e =
    let (low, (eq, small, rest)) = key_split r m s h in
    let eq8 : get_char_simple 8 s ≡ get_char_simple r s * 256 ^ m + low =
      subst (λ n. get_char_simple n s ≡ get_char_simple r s * 256 ^ m + low) e eq in
    (
      div_of (256 ^ m) (get_char_simple 8 s) (get_char_simple r s) low small eq8,
      (λ pos z. omega (arith, eq8, rest pos z)),
    )

-- Equal keys of `suc r` characters that are not the end leave the order to the later ones.
scan_behind :
    (r : ℕ) (s t : CString)
    → IsBytes s
    → IsBytes t
    → get_char_simple (suc r) s ≡ get_char_simple (suc r) t
    → get_char_simple (suc r) s % 256 ≢ 0
    → leq_scan s t ≡ leq_scan (drop (suc r) s) (drop (suc r) t)
scan_behind r s t hs ht e n = key_scan r s t hs ht ∙ ground (arith, e, n)

module _ (a b depth : ℕ) (a_small : a < 256 ^ 8) (b_small : b < 256 ^ 8) where
  abbrev IsInside : CString → Type 0
  IsInside s = IsBytes s × (a < get_uint64 s depth) × (get_uint64 s depth < b)

  inside_upper :
      (r m : ℕ) (s : CString)
      → IsInside s
      → r + m ≡ 8
      → a / 256 ^ m ≡ b / 256 ^ m
      → (get_char_simple r (get_chars s depth) ≡ a / 256 ^ m)
        × (0 < r → get_char_simple r (get_chars s depth) % 256 ≢ 0)
  unfolding get_uint64
  inside_upper r m s (h, lo, hi) e share =
      let u = key_upper r m (get_chars s depth) (IsBytes-drop depth s h) e in
      let k =
        squeeze (256 ^ m) a b (get_uint64 s depth) (pow_pos m) share (omega arith) (omega arith) in
      let eq = sym u.0 ∙ k in
      (
        eq,
        λ pos z. omega (arith, u.1 pos z, ap (λ (t : ℕ). t * 256 ^ m) eq, div-add-mod' a (256 ^ m)),
      )

  inside_scan :
      (r m : ℕ) (s t : CString)
      → IsInside s
      → IsInside t
      → r + m ≡ 8
      → a / 256 ^ m ≡ b / 256 ^ m
      → leq_from depth s t ≡ leq_from (depth + r) s t
  unfolding leq_from
  inside_scan zero m s t hs ht e share = rw add-zero refl
  inside_scan (suc r) m s t hs ht e share =
      let u = inside_upper (suc r) m s hs e share in
      let v = inside_upper (suc r) m t ht e share in
      scan_behind r (get_chars s depth) (get_chars t depth) (IsBytes-drop depth s hs.0)
        (IsBytes-drop depth t ht.0) (u.0 ∙ sym v.0) (u.1 (omega arith))
      ∙ rw (drop-drop depth (suc r) s, drop-drop depth (suc r) t) refl

  -- Strings of bytes with keys strictly between two splitters of 64 bits compare as from behind the splitters' common
  -- prefix.
  pub inside-leq_from :
      (s t : CString)
      → IsInside s
      → IsInside t
      → leq_from depth s t ≡ leq_from (depth + lcp_key_type a b) s t
  inside-leq_from s t hs ht =
      let l = lcp_key_type_lem a b a_small b_small (λ e. omega (arith, hs.1, hs.2)) in
      inside_scan (lcp_key_type a b) (8 - lcp_key_type a b) s t hs ht (omega (arith, l.0)) l.1

-- Equal keys: the strings are equal, or compare as from eight characters further.
pub equal-leq_from :
    (depth : ℕ) (s t : CString)
    → IsBytes s
    → IsBytes t
    → get_uint64 s depth ≡ get_uint64 t depth
    → (get_uint64 s depth % 256 ≡ 0 → leq_from depth s t ≡ true)
      × (get_uint64 s depth % 256 ≢ 0 → leq_from depth s t ≡ leq_from (depth + 8) s t)
equal-leq_from depth s t hs ht e =
    let k = leq_from-get_uint64 depth s t hs ht in
    ((λ z. k ∙ ground (arith, e, z)), (λ n. k ∙ ground (arith, e, n)))

-- A smaller key is a smaller string.
pub less-leq_from :
    (depth : ℕ) (s t : CString)
    → IsBytes s
    → IsBytes t
    → get_uint64 s depth < get_uint64 t depth
    → leq_from depth s t ≡ true
less-leq_from depth s t hs ht lt = leq_from-get_uint64 depth s t hs ht ∙ ground (arith, lt)

key_length : (k : ℕ) (s : CString) → get_char_simple (suc k) s % 256 ≢ 0 → k < length s
unfolding get_char_simple
key_length k [] n = absurd (n refl)
key_length zero (c ∷ s) n = omega arith
key_length (suc k) (c ∷ s) n =
    let ih = key_length k s in
    let below : get_char_simple (suc k) s % 256 ≢ 0 = λ z. n (elim (Bool-cases (c == 0)) [
      | inl e ↦ rw e refl
      | inr e ↦ rw (e, pow_suc k) (low_byte (256 ^ k) c _ ∙ z)
    ]) in
    omega (arith, ih below)

-- The common prefix of two splitters lies within every string with a key between them.
prefix_inside :
    (a b depth : ℕ) (small : a < 256 ^ 8) (small' : b < 256 ^ 8) (r m : ℕ) (s : CString)
    → IsInside a b depth small small' s
    → r + m ≡ 8
    → a / 256 ^ m ≡ b / 256 ^ m
    → 0 < r
    → depth + r ≤ length s
prefix_inside a b depth small small' zero m s h e share pos = absurd (omega arith)
prefix_inside a b depth small small' (suc k) m s h e share pos =
    let u = inside_upper a b depth small small' (suc k) m s h e share in
    omega (arith, key_length k (get_chars s depth) (u.1 pos), length-drop depth s)

pub lcp_key_type-length :
    (a b depth : ℕ) (small : a < 256 ^ 8) (small' : b < 256 ^ 8) (s : CString)
    → IsInside a b depth small small' s
    → 0 < lcp_key_type a b
    → depth + lcp_key_type a b ≤ length s
lcp_key_type-length a b depth small small' s h pos =
    let l = lcp_key_type_lem a b small small' (λ e. omega (arith, h.1, h.2)) in
    prefix_inside a b depth small small' (lcp_key_type a b) (8 - lcp_key_type a b) s h
      (omega (arith, l.0)) l.1 pos

-- Where the last character of a key is not 0, the string goes on behind the key.
pub key-length : (depth : ℕ) (s : CString) → get_uint64 s depth % 256 ≢ 0 → depth + 8 ≤ length s
unfolding get_uint64
key-length depth s n = omega (arith, key_length 7 (get_chars s depth) n, length-drop depth s)
