-- ===== src/Sequential/Trees/InOrder.antt =====
-- Trees read in order, and the unrolled descent through them.
use native.Mathlib.Nat.{mod-eq_of_lt}
use bingmann_sample_sort.Prelude.{
  ℕ, zero, suc, ◌+◌, ◌*◌, ◌%◌, ◌^◌, ◌≤◌, ◌<◌, ◌≡◌, refl, ◌∙◌, true, false, List, [], ◌∷◌, ◌++◌, leb,
  length, length-append, ◌!◌, arith, Bool-cases, inl, inr, pow-suc,
}
use bingmann_sample_sort.Sequential.Sorted.{Below}
use bingmann_sample_sort.Sequential.Classify.Rank.{IsAscending, rank}
use bingmann_sample_sort.Sequential.Trees.{step_down, descend_unrolled}

-- The nodes of the `h` levels below and with node `i`, read from left to right.
pub data InOrder (tree : List ℕ) : ℕ → ℕ → List ℕ → Type 0 where
  leaf : (i : ℕ) → InOrder tree 0 i []
  node :
      (h i : ℕ) (l r : List ℕ)
      → InOrder tree h (2 * i) l
      → InOrder tree h (2 * i + 1) r
      → InOrder tree (suc h) i (l ++ (tree ! i ∷ r))

pub two_pow : (h : ℕ) → 2 ^ suc h ≡ 2 * 2 ^ h
two_pow h = omega (arith, pow-suc 2 h)

pub pow_pos2 : (h : ℕ) → 0 < 2 ^ h
pow_pos2 zero = omega arith
pow_pos2 (suc h) = omega (arith, two_pow h, pow_pos2 h)

pub length-InOrder :
    (tree : List ℕ) (h i : ℕ) (l : List ℕ) → InOrder tree h i l → suc (length l) ≡ 2 ^ h
length-InOrder tree h i l (InOrder.leaf _) = refl
length-InOrder tree h i l (InOrder.node k _ a b ta tb) = omega (
  arith,
  length-append a (tree ! i ∷ b),
  length-InOrder tree k _ a ta,
  length-InOrder tree k _ b tb,
  two_pow k,
)

rank-left : (key x : ℕ) (l r : List ℕ) → leb key x ≡ true → rank key (l ++ (x ∷ r)) ≡ rank key l
rank-left key x [] r h = rw h refl
rank-left key x (y ∷ l) r h = rw (rank-left key x l r h) refl

Below-middle : (y x : ℕ) (l r : List ℕ) → Below leb y (l ++ (x ∷ r)) → leb y x ≡ true
Below-middle y x [] r h = h.0
Below-middle y x (z ∷ l) r h = Below-middle y x l r h.1

rank-right :
    (key x : ℕ) (l r : List ℕ)
    → IsAscending (l ++ (x ∷ r))
    → leb key x ≡ false
    → rank key (l ++ (x ∷ r)) ≡ suc (length l) + rank key r
rank-right key x [] r a h = rw h (omega arith)
rank-right key x (y ∷ l) r a h =
    let below = Below-middle y x l r a.0 in
    let e : leb key y ≡ false = ground (arith, below, h) in
    rw (e, rank-right key x l r a.1 h) (omega arith)

IsAscending-left : (l r : List ℕ) → IsAscending (l ++ r) → IsAscending l
IsAscending-left [] r a = tt
IsAscending-left (x ∷ l) r a = (below l a.0, IsAscending-left l r a.1)
  where
    below : (l : List ℕ) → Below leb x (l ++ r) → Below leb x l
    below [] h = tt
    below (y ∷ l) h = (h.0, below l h.1)

IsAscending-right : (l r : List ℕ) → IsAscending (l ++ r) → IsAscending r
IsAscending-right [] r a = a
IsAscending-right (x ∷ l) r a = IsAscending-right l r a.1

left_place : (p i r : ℕ) → 2 * i * p + r ≡ i * (2 * p) + r
left_place p i r = grind arith

right_place : (p i m r : ℕ) → suc m ≡ p → (2 * i + 1) * p + r ≡ i * (2 * p) + (suc m + r)
right_place p i m r e = grind arith

child_fits : (p i : ℕ) → 0 < p → (i + 1) * (2 * p) ≤ 2 ^ 32 → 2 * i + 1 < 2 ^ 32
child_fits p i pos h = grind arith

child_bounds :
    (p i top : ℕ) → (i + 1) * (2 * p) ≤ top → ((2 * i + 1) * p ≤ top) × ((2 * i + 1 + 1) * p ≤ top)
child_bounds p i top h = (grind arith, grind arith)

-- The unrolled descent by `h` levels ends at the leaf whose number is the rank of the key.
pub descend_unrolled-rank :
    (tree : List ℕ) (key h i : ℕ) (l : List ℕ)
    → InOrder tree h i l
    → IsAscending l
    → (i + 1) * 2 ^ h ≤ 2 ^ 32
    → descend_unrolled h tree key i ≡ i * 2 ^ h + rank key l
unfolding descend_unrolled step_down
descend_unrolled-rank tree key h i l (InOrder.leaf _) a fits = omega arith
descend_unrolled-rank tree key h i l (InOrder.node k _ x y tx ty) a fits =
    let p = 2 ^ k in
    let fits' : (i + 1) * (2 * p) ≤ 2 ^ 32 = rw two_pow at fits in
    let small = child_fits p i (pow_pos2 k) fits' in
    let c = child_bounds p i (2 ^ 32) fits' in
    elim (Bool-cases (leb key (tree ! i))) [
      | inl le ↦
          rw (le, two_pow k, rank-left key (tree ! i) x y le, left_step i small)
            (descend_unrolled-rank tree key k (2 * i) x tx (IsAscending-left x _ a) c.0
              ∙ left_place p i _)
      | inr gt ↦
          rw (gt, two_pow k, rank-right key (tree ! i) x y a gt, right_step i small)
            (descend_unrolled-rank tree key k (2 * i + 1) y ty (IsAscending-right x _ a).1 c.1
              ∙ right_place p i (length x) _ (length-InOrder tree k _ x tx))
    ]
  where
    left_step : (i : ℕ) → 2 * i + 1 < 2 ^ 32 → (2 * i + 0) % 2 ^ 32 ≡ 2 * i
    left_step i h = omega arith

    right_step : (i : ℕ) → 2 * i + 1 < 2 ^ 32 → (2 * i + 1) % 2 ^ 32 ≡ 2 * i + 1
    right_step i h = mod-eq_of_lt h
