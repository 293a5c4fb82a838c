-- ===== src/Sequential/Trees/Emitted.antt =====
-- What the recursive builder writes, told from the keys that it emits in order.
use native.Mathlib.Nat.{pow-le-pow_right}
use bingmann_sample_sort.Prelude.{
  ℕ, zero, suc, ◌+◌, ◌-◌, ◌*◌, ◌%◌, ◌^◌, ◌≤◌, ◌<◌, ◌≡◌, refl, ap, List, [], ◌∷◌, ◌++◌, ltb, ◌&&◌,
  ◌==◌, if◌then◌else◌, ◌!◌, arith, subst, dec_le, Bool-cases, inl, inr,
}
use bingmann_sample_sort.Tools.KeyLcp.{lcp_key_type}
use bingmann_sample_sort.Sequential.Trees.{run_start, run_end}
use bingmann_sample_sort.Sequential.Trees.InOrder.{InOrder, two_pow, pow_pos2}

-- The prefix with the key before, and the mark of a key that ends its strings.
abbrev pub entry : ℕ → ℕ → ℕ
entry prev k = lcp_key_type prev k + (if k % 256 == 0 then 128 else 0)

abbrev pub entries : ℕ → List ℕ → List ℕ
entries prev [] = []
entries prev (k ∷ ks) = entry prev k ∷ entries k ks

abbrev pub last_key : ℕ → List ℕ → ℕ
last_key prev [] = prev
last_key prev (k ∷ ks) = last_key k ks

pub entries-append :
    (prev k : ℕ) (l r : List ℕ)
    → entries prev (l ++ (k ∷ r)) ≡ entries prev l ++ (entry (last_key prev l) k ∷ entries k r)
entries-append prev k [] r = refl
entries-append prev k (x ∷ l) r = ap (◌∷◌ (entry prev x)) (entries-append x k l r)

pub last_key-append : (prev k : ℕ) (l r : List ℕ) → last_key prev (l ++ (k ∷ r)) ≡ last_key k r
last_key-append prev k [] r = refl
last_key-append prev k (x ∷ l) r = last_key-append x k l r

-- The entries of the subtree of `h` levels at node `i`.
abbrev pub IsUnder : ℕ → ℕ → ℕ → Type 0
IsUnder h i j = (d : ℕ) × (d < h) × (i * 2 ^ d ≤ j) × (j < (i + 1) * 2 ^ d)

pub IsUnder-root : (h i : ℕ) → IsUnder (suc h) i i
IsUnder-root h i = (0, omega arith, omega arith, omega arith)

under_child :
    (p i j c : ℕ)
    → c ≤ 1
    → (2 * i + c) * p ≤ j
    → j < (2 * i + c + 1) * p
    → (i * (2 * p) ≤ j) × (j < (i + 1) * (2 * p))
under_child p i j c small lo hi = (grind arith, grind arith)

pub IsUnder-child : (h i j c : ℕ) → c ≤ 1 → IsUnder h (2 * i + c) j → IsUnder (suc h) i j
IsUnder-child h i j c small (d, lt, lo, hi) =
    let u = under_child (2 ^ d) i j c small lo hi in
    (suc d, omega arith, rw two_pow u.0, rw two_pow u.1)

pub IsUnder-left : (h i j : ℕ) → IsUnder h (2 * i) j → IsUnder (suc h) i j
IsUnder-left h i j u =
    let e : 2 * i ≡ 2 * i + 0 = omega arith in
    IsUnder-child h i j 0 (omega arith) (subst (λ k. IsUnder h k j) e u)

pub IsUnder-right : (h i j : ℕ) → IsUnder h (2 * i + 1) j → IsUnder (suc h) i j
IsUnder-right h i j u = IsUnder-child h i j 1 (omega arith) u

-- A tree that agrees on a subtree has the same subtree.
pub InOrder-agree :
    (tree tree' : List ℕ) (h i : ℕ) (l : List ℕ)
    → ((j : ℕ) → IsUnder h i j → tree' ! j ≡ tree ! j)
    → InOrder tree h i l
    → InOrder tree' h i l
InOrder-agree tree tree' h i l agree (InOrder.leaf _) = InOrder.leaf i
InOrder-agree tree tree' h i l agree (InOrder.node k _ x y tx ty) =
    subst (λ v. InOrder tree' (suc k) i (x ++ (v ∷ y))) (agree i (IsUnder-root k i))
      (InOrder.node k i x y
        (InOrder-agree tree tree' k (2 * i) x (λ j u. agree j (IsUnder-left k i j u)) tx)
        (InOrder-agree tree tree' k (2 * i + 1) y (λ j u. agree j (IsUnder-right k i j u)) ty))

-- The subtrees of two brothers are apart, and apart from their parent.
second_lem : (k q r j : ℕ) → 2 * suc k * (2 * q + r) ≤ j → ¬ (j < (2 * suc k + 1 + 1) * q)
second_lem k q r j a b =
    let x : 2 * suc k * (2 * q + r) ≡ (2 * suc k + 1 + 1) * q + (2 * (k * q) + 2 * suc k * r) =
      grind arith in
    omega arith

pub IsUnder-apart : (h i j : ℕ) → 0 < i → IsUnder h (2 * i) j → ¬ (IsUnder h (2 * i + 1) j)
IsUnder-apart h i j pos (d, lt, lo, hi) (e, lt', lo', hi') = elim (dec_le d e) [
  | yes le ↦
      let m = pow-le-pow_right {n = 2} (omega arith) {i = d} {j = e} le in
      first (2 ^ d) (2 ^ e) m hi lo'
  | no gt ↦
      let m = pow-le-pow_right {n = 2} (omega arith) {i = suc e} {j = d} (omega arith) in
      second (2 ^ d) (2 ^ e) (rw two_pow at m) (pow_pos2 e) lo hi'
]
  where
    first : (p q : ℕ) → p ≤ q → j < (2 * i + 1) * p → ¬ ((2 * i + 1) * q ≤ j)
    first p q le a b = grind arith

    second : (p q : ℕ) → 2 * q ≤ p → 0 < q → 2 * i * p ≤ j → ¬ (j < (2 * i + 1 + 1) * q)
    second p q le pq a b =
        let e : p ≡ 2 * q + (p - 2 * q) = omega arith in
        let e' : i ≡ suc (i - 1) = omega arith in
        second_lem (i - 1) q (p - 2 * q) j
          (subst (λ (t : ℕ). 2 * suc (i - 1) * t ≤ j) e (subst (λ (t : ℕ). 2 * t * p ≤ j) e' a))
          (subst (λ (t : ℕ). j < (2 * t + 1 + 1) * q) e' b)

pub IsUnder-below : (h i c : ℕ) → 0 < i → ¬ (IsUnder h (2 * i + c) i)
IsUnder-below h i c pos (d, lt, lo, hi) = below (2 ^ d) (pow_pos2 d) lo
  where
    below : (p : ℕ) → 0 < p → ¬ ((2 * i + c) * p ≤ i)
    below p pp le = grind arith

-- The run of equal samples around the middle one.
pub run_start_bounds :
    (lo m mykey : ℕ) (samples : List ℕ)
    → lo ≤ m
    → (lo ≤ run_start lo m mykey samples) × (run_start lo m mykey samples ≤ m)
unfolding run_start
run_start_bounds lo zero mykey samples h = (omega arith, omega arith)
run_start_bounds lo (suc m) mykey samples h =
    elim (Bool-cases (ltb lo (suc m) && (samples ! m == mykey))) [
      | inl go ↦
          let ih = run_start_bounds lo m mykey samples (ground arith) in
          rw go (ih.0, omega (arith, ih.1))
      | inr stop ↦ rw stop (h, omega arith)
    ]

pub run_end_bounds :
    (fuel m hi mykey : ℕ) (samples : List ℕ)
    → (m ≤ run_end fuel m hi mykey samples)
      × (m < hi → run_end fuel m hi mykey samples < hi)
      × (hi ≤ m → run_end fuel m hi mykey samples ≡ m)
unfolding run_end
run_end_bounds zero m hi mykey samples = (omega arith, (λ h. h), (λ h. refl))
run_end_bounds (suc fuel) m hi mykey samples =
    elim (Bool-cases (ltb (m + 1) hi && (samples ! m == mykey))) [
      | inl go ↦
          let ih = run_end_bounds fuel (m + 1) hi mykey samples in
          let inside : m + 1 < hi = ground arith in
          rw go (omega (arith, ih.0), (λ h. ih.1 inside), λ h. absurd (omega arith))
      | inr stop ↦ rw stop (omega arith, (λ h. h), (λ h. refl))
    ]
