-- ===== src/Tools/Keys/Order.antt =====
-- Comparing two keys of eight characters is comparing the strings that far.
use native.Mathlib.Nat.{pow-suc}
use bingmann_sample_sort.Prelude.{
  ℕ, zero, suc, ◌+◌, ◌*◌, ◌%◌, ◌^◌, ◌<◌, ◌≡◌, [], ◌∷◌, arith, ◌==◌, if◌then◌else◌, tail, drop,
  drop-drop, Bool, true, false, ltb, Bool-cases, inl, inr, ◌&&◌, not, leb,
}
use bingmann_sample_sort.Tools.Strings.{
  CString, IsBytes, IsBytes-drop, head_char, get_chars, leq_scan, leq_from,
}
use bingmann_sample_sort.Tools.Keys.{get_char_simple, get_uint64}
use bingmann_sample_sort.Tools.Keys.Load.{tail-IsBytes, head_char-lt, pow_pos}

pub get_char_simple-lt : (k : ℕ) (s : CString) → IsBytes s → get_char_simple k s < 256 ^ k
unfolding get_char_simple
get_char_simple-lt zero s h = omega arith
get_char_simple-lt (suc k) s h =
    let ih = get_char_simple-lt k (tail s) (tail-IsBytes s h) in
    let hc = head_char-lt s h in
    let p = pow-suc 256 k in
    elim (Bool-cases (head_char s == 0)) [
      | inl z ↦ rw z (omega (arith, p, pow_pos k))
      | inr n ↦ rw n (rw p (grind arith))
    ]

-- What a comparison of keys decides, and when it leaves the rest to the later characters.
abbrev pub by_key : ℕ → ℕ → Bool → Bool
by_key a b rest =
    if ltb a b then true else if ltb b a then false else if a % 256 == 0 then true else rest

-- Two words whose first characters are `c` and `e`, above lower parts below `p`.
lower_first : (p c e x y : ℕ) → x < p → c < e → c * p + x < e * p + y
lower_first p c e x y hx h = grind arith

word_mod : (p q c x : ℕ) → p ≡ q * 256 → (c * p + x) % 256 ≡ x % 256
word_mod p q c x e = rw e (omega arith)

by_key_step :
    (p q c e x y : ℕ) (rest : Bool)
    → p ≡ q * 256
    → 0 < p
    → x < p
    → y < p
    → (if (c == e) && not (c == 0) then by_key x y rest else leb c e)
      ≡ by_key (if c == 0 then 0 else c * p + x) (if e == 0 then 0 else e * p + y) rest
by_key_step p q c e x y rest pq pp hx hy =
    ground (arith, word_mod p q c x pq, lower_first p c e x y hx, lower_first p e c y x hy)

end_left :
    (p e y : ℕ) (rest : Bool) → 0 < p → leb 0 e ≡ by_key 0 (if e == 0 then 0 else e * p + y) rest
end_left p e y rest pp = elim (Bool-cases (e == 0)) [
  | inl z ↦ rw z (ground arith)
  | inr n ↦ rw n (ground (arith, lower_first p 0 e 0 y pp))
]

end_right :
    (p c x : ℕ) (rest : Bool) → 0 < p → leb c 0 ≡ by_key (if c == 0 then 0 else c * p + x) 0 rest
end_right p c x rest pp = elim (Bool-cases (c == 0)) [
  | inl z ↦ rw z (ground arith)
  | inr n ↦ rw n (ground (arith, lower_first p 0 c 0 x pp))
]

pub key_scan :
    (k : ℕ) (s t : CString)
    → IsBytes s
    → IsBytes t
    → leq_scan s t
      ≡ by_key
          (get_char_simple (suc k) s)
          (get_char_simple (suc k) t)
          (leq_scan (drop (suc k) s) (drop (suc k) t))
unfolding leq_scan get_char_simple
key_scan zero [] [] hs ht = ground arith
key_scan zero [] (e ∷ t) hs ht = ground arith
key_scan zero (c ∷ s) [] hs ht = ground arith
key_scan zero (c ∷ s) (e ∷ t) hs ht = ground arith
key_scan (suc k) [] [] hs ht = ground arith
key_scan (suc k) [] (e ∷ t) hs ht =
    end_left (256 ^ suc k) e _ (leq_scan [] (drop (suc k) t)) (pow_pos (suc k))
key_scan (suc k) (c ∷ s) [] hs ht =
    end_right (256 ^ suc k) c _ (leq_scan (drop (suc k) s) []) (pow_pos (suc k))
key_scan (suc k) (c ∷ s) (e ∷ t) hs ht = rw (key_scan k s t hs.1 ht.1) (
    by_key_step (256 ^ suc k) (256 ^ k) c e _ _ _ (pow-suc 256 k) (pow_pos (suc k))
      (get_char_simple-lt (suc k) s hs.1) (get_char_simple-lt (suc k) t ht.1))

-- Two strings of bytes compare from `depth` on as their keys at `depth` do; where the keys are equal, they
-- are equal up to the terminator if the lowest key byte is 0, and else compare as from eight
-- characters further.
pub leq_from-get_uint64 :
    (depth : ℕ) (s t : CString)
    → IsBytes s
    → IsBytes t
    → leq_from depth s t
      ≡ by_key (get_uint64 s depth) (get_uint64 t depth) (leq_from (depth + 8) s t)
unfolding leq_from get_uint64
leq_from-get_uint64 depth s t hs ht =
    let k =
      key_scan 7 (get_chars s depth) (get_chars t depth) (IsBytes-drop depth s hs)
        (IsBytes-drop depth t ht) in
    rw (drop-drop depth 8 s, drop-drop depth 8 t) at k
