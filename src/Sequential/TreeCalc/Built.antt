-- ===== src/Sequential/TreeCalc/Built.antt =====
-- TreeBuilderLevelOrder builds the tree and the prefixes that TreeBuilderPreAndLevelOrder builds, and
-- the splitters of a tree in level order are read by their numbers in order.
use bingmann_sample_sort.Prelude.{
  Bool, ℕ, zero, suc, ◌+◌, ◌-◌, ◌*◌, ◌/◌, ◌^◌, ◌≤◌, ◌<◌, ◌≡◌, refl, sym, ap, ◌∙◌, true, false, List,
  [], ◌∷◌, ◌++◌, ltb, length, ◌!◌, arith, dec_lt, replicate, set,
}
use bingmann_sample_sort.Tools.TreeCalculations.Laws.{two_plus}
use bingmann_sample_sort.Sequential.Trees.{
  Built, close_lcp, emit, recurse, run_start, run_end, tree_builder_pre_and_level_order,
}
use bingmann_sample_sort.Sequential.Trees.InOrder.{InOrder, two_pow, pow_pos2, length-InOrder}
use bingmann_sample_sort.Sequential.TreeCalc.{
  LevelBuilt, emit_lcp, recurse_level, tree_builder_level_order,
}

-- What TreeBuilderLevelOrder keeps of the other builder's result.
abbrev forget : Built → LevelBuilt
forget b = record { m_tree = b.m_tree; m_lcp = b.m_lcp }

abbrev forget_both : ℕ × Built → ℕ × LevelBuilt
forget_both r = (r.0, forget r.1)

emit_lcp-forget :
    (prev key : ℕ) (b : Built) → emit_lcp prev key (forget b) ≡ forget (emit prev key b)
unfolding emit_lcp emit
emit_lcp-forget prev key b = refl

both_branches :
    (t : Bool) {x y : ℕ × LevelBuilt} (x' y' : ℕ × Built)
    → x ≡ forget_both x'
    → y ≡ forget_both y'
    → elim t [ true ↦ x | false ↦ y ] ≡ forget_both (elim t [ true ↦ x' | false ↦ y' ])
both_branches true x' y' e f = e
both_branches false x' y' e f = f

recurse_level-recurse :
    (levels n : ℕ) (samples : List ℕ) (lo hi i prev : ℕ) (b : Built)
    → recurse_level levels n samples lo hi i prev (forget b)
      ≡ forget_both (recurse levels n samples lo hi i prev b)
unfolding recurse_level recurse
recurse_level-recurse zero n samples lo hi i prev b = refl
recurse_level-recurse (suc levels) n samples lo hi i prev b =
    let mid = lo + (hi - lo) / 2 in
    let key = samples ! mid in
    let b' : Built = record {
      m_tree = set b.m_tree i key;
      m_splitter = b.m_splitter;
      m_lcp = b.m_lcp;
    } in
    let midlo = run_start lo mid key samples in
    let midhi = run_end (hi - mid) mid hi key samples in
    let left = recurse levels n samples lo midlo (2 * i) prev b' in
    both_branches (ltb (2 * i) n) _ _
      (ap (λ r. recurse_level levels n samples midhi hi (2 * i + 1) key (emit_lcp r.0 key r.1))
          (recurse_level-recurse levels n samples lo midlo (2 * i) prev b')
        ∙ recurse_level-recurse levels n samples midhi hi (2 * i + 1) key (emit left.0 key left.1))
      refl

-- The builder of a tree in level order alone leaves the tree and the `splitter_lcp` of the other one.
pub tree_builder_level_order-forget :
    (treebits : ℕ) (samples : List ℕ)
    → let (t, splitter_lcp) = tree_builder_pre_and_level_order treebits samples in
      tree_builder_level_order treebits samples ≡ (t.splitter_tree, splitter_lcp)
unfolding tree_builder_level_order tree_builder_pre_and_level_order
tree_builder_level_order-forget treebits samples =
    let n = 2 ^ treebits - 1 in
    ap (λ (r : ℕ × LevelBuilt). (r.1.m_tree, close_lcp r.1.m_lcp))
      (recurse_level-recurse treebits n samples 0 (length samples) 1 0
        (record { m_tree = replicate (n + 1) 0; m_splitter = []; m_lcp = [] }))

get-left : (a b : List ℕ) (j : ℕ) → j < length a → (a ++ b) ! j ≡ a ! j
get-left [] b j h = absurd (omega arith)
get-left (x ∷ a) b zero h = refl
get-left (x ∷ a) b (suc j) h = get-left a b j (omega arith)

get-right : (a b : List ℕ) (j : ℕ) → (a ++ b) ! (length a + j) ≡ b ! j
get-right [] b j = ap (◌!◌ b) (omega arith)
get-right (x ∷ a) b j =
    let e : length (x ∷ a) + j ≡ suc (length a + j) = omega arith in rw e (get-right a b j)

-- Both numbers of a place, from those within a child.
module _ (p q r : ℕ) (pos : 0 < p) where
  left_inside : r < q → (2 * r + 1) * p - 1 < 2 * (p * q) - 1
  left_inside h = let less : (2 * r + 1) * p < 2 * (p * q) = grind arith in omega (arith, less)

  right_from : q ≤ r → (2 * r + 1) * p - 1 ≡ 2 * (p * q) + ((2 * (r - q) + 1) * p - 1)
  right_from h = from (r - q) (omega arith)
    where
      from : (s : ℕ) → r ≡ q + s → (2 * r + 1) * p - 1 ≡ 2 * (p * q) + ((2 * s + 1) * p - 1)
      from s e =
          let one : 0 < (2 * s + 1) * p = grind arith in
          let whole : (2 * r + 1) * p ≡ 2 * (p * q) + (2 * s + 1) * p = rw e (grind arith) in
          omega (arith, whole, one)

-- The splitter at place `r` of the level `d` levels below the root of a subtree.
pub get-InOrder :
    (tree : List ℕ) (h c d i r : ℕ) (l : List ℕ)
    → c + d + 1 ≡ h
    → r < 2 ^ d
    → InOrder tree h i l
    → l ! ((2 * r + 1) * 2 ^ c - 1) ≡ tree ! (i * 2 ^ d + r)
get-InOrder tree h c d i r l e inside (InOrder.leaf i') = absurd (omega arith)
get-InOrder tree h c zero i r l e inside (InOrder.node k i' a b ta tb) =
    let size : length a + 0 ≡ (2 * r + 1) * 2 ^ c - 1 =
      let same : k ≡ c = omega arith in
      let none : r ≡ 0 = omega arith in
      let one : (2 * r + 1) * 2 ^ c ≡ 2 ^ c = rw none (one_times (2 ^ c)) in
      omega (arith, length-InOrder tree k (2 * i) a ta, ap (λ (j : ℕ). 2 ^ j) same) in
    ap (◌!◌ (a ++ (tree ! i ∷ b))) (sym size)
    ∙ get-right a (tree ! i ∷ b) 0
    ∙ ap (◌!◌ tree) (omega arith)
  where
    one_times : (p : ℕ) → (2 * 0 + 1) * p ≡ p
    one_times p = omega arith
get-InOrder tree h c (suc d) i r l e inside (InOrder.node k i' a b ta tb) =
    let two = two_pow d in
    let p = pow_pos2 c in
    let size : suc (length a) ≡ 2 * (2 ^ c * 2 ^ d) =
      length-InOrder tree k (2 * i) a ta ∙ whole c d k (omega arith) in
    elim (dec_lt r (2 ^ d)) [
      | yes left ↦
          let inner = left_inside (2 ^ c) (2 ^ d) r p left in
          get-left a (tree ! i ∷ b) ((2 * r + 1) * 2 ^ c - 1) (omega (arith, inner))
          ∙ get-InOrder tree k c d (2 * i) r a (omega arith) left ta
          ∙ ap (◌!◌ tree) (rw two (child i (2 ^ d) r))
      | no right ↦
          let from = right_from (2 ^ c) (2 ^ d) r p (omega arith) in
          ap (◌!◌ (a ++ (tree ! i ∷ b))) (omega (arith, from, size))
          ∙ get-right a (tree ! i ∷ b) (suc ((2 * (r - 2 ^ d) + 1) * 2 ^ c - 1))
          ∙ get-InOrder tree k c d (2 * i + 1) (r - 2 ^ d) b (omega arith) (omega arith) tb
          ∙ ap (◌!◌ tree) (rw two (child_right i (2 ^ d) r (omega arith)))
    ]
  where
    whole : (c d k : ℕ) → suc k ≡ c + suc d + 1 → 2 ^ k ≡ 2 * (2 ^ c * 2 ^ d)
    whole c d k e =
        let same : k ≡ suc (c + d) = omega arith in
        ap (λ (j : ℕ). 2 ^ j) same ∙ two_pow (c + d) ∙ ap (λ (x : ℕ). 2 * x) (two_plus c d)

    child : (i q r : ℕ) → 2 * i * q + r ≡ i * (2 * q) + r
    child i q r = grind arith

    child_right : (i q r : ℕ) → q ≤ r → (2 * i + 1) * q + (r - q) ≡ i * (2 * q) + r
    child_right i q r h = grind arith
