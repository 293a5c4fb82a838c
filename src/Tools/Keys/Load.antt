-- ===== src/Tools/Keys/Load.antt =====
-- The single load, cut at the first zero byte, reads the same word as the loop over the bytes.
use native.Mathlib.Nat.{div-add-mod'}
use bingmann_sample_sort.Prelude.{
  ℕ, zero, suc, ◌+◌, ◌*◌, ◌/◌, ◌^◌, ◌<◌, ◌≡◌, refl, [], ◌∷◌, arith, ◌==◌, ◌∙◌, sym, if◌then◌else◌,
  tail, ap, Bool-cases, inl, inr, pow-suc,
}
use bingmann_sample_sort.Tools.Strings.{CString, IsBytes, IsBytes-drop, head_char, get_chars}
use bingmann_sample_sort.Tools.Keys.{
  load_swapped, byte_at, keep_above, get_char_simple, cut_uint64, get_char_uint64, get_uint64,
}

pub head_char-lt : (s : CString) → IsBytes s → head_char s < 256
head_char-lt [] h = omega arith
head_char-lt (c ∷ s) h = h.0

pub tail-IsBytes : (s : CString) → IsBytes s → IsBytes (tail s)
tail-IsBytes [] h = tt
tail-IsBytes (c ∷ s) h = h.1

-- The tests below byte `k + 1`, as a recursion.
ladder : ℕ → ℕ → ℕ
ladder zero v = v
ladder (suc k) v =
    let rest = ladder k v in if byte_at (suc k) v == 0 then keep_above (suc k) v else rest

pub pow_pos : (k : ℕ) → 0 < 256 ^ k
pow_pos zero = omega arith
pow_pos (suc k) = omega (arith, pow-suc 256 k, pow_pos k)

pub div_of : (P v q r : ℕ) → r < P → v ≡ q * P + r → v / P ≡ q
div_of P v q r hr e = grind arith

load_swapped-lt : (k : ℕ) (s : CString) → IsBytes s → load_swapped k s < 256 ^ k
load_swapped-lt zero s h = omega arith
load_swapped-lt (suc k) s h =
    let ih = load_swapped-lt k (tail s) (tail-IsBytes s h) in
    let hc = head_char-lt s h in rw (pow-suc 256 k) (grind arith)

byte_of :
    (k v x y r : ℕ) → y < 256 → r < 256 ^ k → v ≡ (x * 256 + y) * 256 ^ k + r → byte_at k v ≡ y
unfolding byte_at
byte_of k v x y r hy hr e = omega (arith, div_of (256 ^ k) v (x * 256 + y) r hr e)

keep_of : (k v q r : ℕ) → r < 256 ^ k → v ≡ q * 256 ^ k + r → keep_above k v ≡ q * 256 ^ k
unfolding keep_above
keep_of k v q r hr e =
    let d = div_of (256 ^ k) v q r hr e in let m = div-add-mod' v (256 ^ k) in grind arith

ladder_step :
    (p bt kept q c rung rest whole : ℕ)
    → bt ≡ c
    → kept ≡ (q * 256 + c) * p
    → rung ≡ (q * 256 + c) * p + rest
    → whole ≡ p * 256
    → (if bt == 0 then kept else rung) ≡ q * whole + (if c == 0 then 0 else c * p + rest)
ladder_step p bt kept q c rung rest whole e1 e2 e3 e4 = elim (Bool-cases (c == 0)) [
  | inl z ↦
      let none : c ≡ 0 = ground arith in
      rw (e1, z) (omega (arith, ap (λ (t : ℕ). q * t) e4, ap (λ (t : ℕ). t * p) none))
  | inr n ↦ rw (e1, n) (omega (arith, ap (λ (t : ℕ). q * t) e4))
]

ladder_lem :
    (k v q : ℕ) (s : CString)
    → IsBytes s
    → v ≡ q * 256 ^ suc k + load_swapped (suc k) s
    → ladder k v ≡ q * 256 ^ suc k + get_char_simple (suc k) s
unfolding ladder get_char_simple
ladder_lem zero v q s h e = ground arith
ladder_lem (suc k) v q s h e =
    let c = head_char s in
    let low = load_swapped-lt (suc k) (tail s) (tail-IsBytes s h) in
    let split : v ≡ (q * 256 + c) * 256 ^ suc k + load_swapped (suc k) (tail s) =
      rw (pow-suc 256 (suc k)) at e ∙ omega arith in
    let b = byte_of (suc k) v q c _ (head_char-lt s h) low split in
    let kept = keep_of (suc k) v (q * 256 + c) _ low split in
    let ih = ladder_lem k v (q * 256 + c) (tail s) (tail-IsBytes s h) split in
    ladder_step (256 ^ suc k) (byte_at (suc k) v) (keep_above (suc k) v) q c _ _ _ b kept ih
      (pow-suc 256 (suc k))

keep_above_top : (v : ℕ) → v < 256 ^ 8 → byte_at 7 v ≡ 0 → keep_above 7 v ≡ 0
unfolding byte_at keep_above
keep_above_top v h z = omega arith

cut-ladder : (v : ℕ) → v < 256 ^ 8 → cut_uint64 v ≡ ladder 7 v
unfolding cut_uint64 ladder
cut-ladder v h = elim (Bool-cases (byte_at 7 v == 0)) [
  | inl z ↦ rw z (sym (keep_above_top v h (ground arith)))
  | inr n ↦ rw n refl
]

strip : (p x y : ℕ) → x ≡ 0 * p + y → x ≡ y
strip p x y e = omega arith

-- `get_char<uint64_t>`, one load cut at the first zero byte, returns the word that
-- `get_char_uint64_simple` collects byte by byte, on every memory of bytes and at every depth.
pub get_char_uint64-get_uint64 :
    (str : CString) (depth : ℕ) → IsBytes str → get_char_uint64 str depth ≡ get_uint64 str depth
unfolding get_char_uint64 get_uint64
get_char_uint64-get_uint64 str depth h =
    let s = get_chars str depth in
    let hs = IsBytes-drop depth str h in
    cut-ladder (load_swapped 8 s) (load_swapped-lt 8 s hs)
    ∙ strip (256 ^ 8) _ _ (ladder_lem 7 (load_swapped 8 s) 0 s hs (omega arith))
