-- ===== src/Sequential/Trees/Descent.antt =====
-- The three descents through a splitter tree count the splitters below the key.
use native.Mathlib.Nat.{mod-eq_of_lt, pow-le-pow_right}
use bingmann_sample_sort.Prelude.{
  ℕ, zero, suc, ◌+◌, ◌-◌, ◌*◌, ◌%◌, ◌^◌, ◌≤◌, ◌<◌, ◌≡◌, refl, sym, ◌∙◌, true, false, List, ltb, leb,
  length, ◌!◌, arith, Bool-cases, inl, inr, subst,
}
use bingmann_sample_sort.Sequential.Classify.Rank.{IsAscending, rank, bucket_of, bucket_of-rank}
use bingmann_sample_sort.Sequential.Trees.{
  SplitterTree, step_down, descend, descend_assembler, descend_unrolled, find_bkt_simple,
  find_bkt_tree_assembler, find_bkt_unroll,
}
use bingmann_sample_sort.Sequential.Trees.InOrder.{
  InOrder, two_pow, pow_pos2, length-InOrder, descend_unrolled-rank,
}

-- A child lies between the same levels.
step_bounds :
    (p top i n c : ℕ)
    → 0 < p
    → c ≤ 1
    → n + 1 ≤ i * (2 * p)
    → (i + 1) * (2 * p) ≤ 2 * (n + 1)
    → 2 * (n + 1) ≤ 2 ^ 32
    → ((2 * i + c) % 2 ^ 32 ≡ 2 * i + c)
      × (n + 1 ≤ (2 * i + c) * p)
      × ((2 * i + c + 1) * p ≤ 2 * (n + 1))
      × (i ≤ n)
step_bounds p top i n c pos small lo hi fits =
    let inside : i ≤ n = grind arith in
    (mod-eq_of_lt (omega arith), grind arith, grind arith, inside)

module _ (tree : List ℕ) (key n : ℕ) (fits : 2 * (n + 1) ≤ 2 ^ 32) where
  step_is : (i : ℕ) → (c : ℕ) × (c ≤ 1) × (step_down tree key i ≡ (2 * i + c) % 2 ^ 32)
  unfolding step_down
  step_is i = elim (Bool-cases (leb key (tree ! i))) [
    | inl le ↦ (0, omega arith, rw le refl)
    | inr gt ↦ (1, omega arith, rw gt refl)
  ]

  -- `i` stands `h` levels above the leaves.
  abbrev IsAbove : ℕ → ℕ → Type 0
  IsAbove h i = (n + 1 ≤ i * 2 ^ h) × ((i + 1) * 2 ^ h ≤ 2 * (n + 1))

  step-IsAbove : (h i : ℕ) → IsAbove (suc h) i → IsAbove h (step_down tree key i) × (i ≤ n)
  step-IsAbove h i (lo, hi) =
      let (c, small, e) = step_is i in
      let b =
        step_bounds (2 ^ h) 0 i n c (pow_pos2 h) small (rw two_pow at lo) (rw two_pow at hi) fits in
      let eq = e ∙ b.0 in (subst (IsAbove h) (sym eq) (b.1, b.2), b.3)

  -- The loop that tests takes as many steps as there are levels.
  descend-unrolled :
      (h fuel i : ℕ)
      → h ≤ fuel
      → IsAbove h i
      → descend fuel n tree key i ≡ descend_unrolled h tree key i
  unfolding descend descend_unrolled
  descend-unrolled zero zero i le b = refl
  descend-unrolled zero (suc fuel) i le b =
      let e : leb i n ≡ false = ground (arith, b.0) in rw e refl
  descend-unrolled (suc h) zero i le b = absurd (omega arith)
  descend-unrolled (suc h) (suc fuel) i le b =
      let next = step-IsAbove h i b in
      let e : leb i n ≡ true = ground (arith, next.1) in
      rw e (descend-unrolled h fuel (step_down tree key i) (omega arith) next.0)

  descend_assembler-unrolled :
      (h fuel i : ℕ)
      → suc h ≤ fuel
      → IsAbove (suc h) i
      → descend_assembler fuel n tree key i ≡ descend_unrolled (suc h) tree key i
  unfolding descend_assembler descend_unrolled
  descend_assembler-unrolled h zero i le b = absurd (omega arith)
  descend_assembler-unrolled zero (suc fuel) i le b =
      let next = step-IsAbove zero i b in
      let e : ltb (step_down tree key i) (n + 1) ≡ false = ground (arith, next.0.0) in rw e refl
  descend_assembler-unrolled (suc h) (suc fuel) i le b =
      let next = step-IsAbove (suc h) i b in
      let below = step-IsAbove h (step_down tree key i) next.0 in
      let e : ltb (step_down tree key i) (n + 1) ≡ true = ground (arith, below.1) in
      rw e (descend_assembler-unrolled h fuel (step_down tree key i) (omega arith) next.0)

-- A perfect tree over ascending splitters.
pub record IsTree (treebits : ℕ) (t : SplitterTree) : Type 0 where
  pub in_order : InOrder t.splitter_tree treebits 1 t.splitter
  pub asc : IsAscending t.splitter
  pub some_bits : 0 < treebits
  pub few_bits : treebits < 32

module _ (treebits : ℕ) (t : SplitterTree) (tree : IsTree treebits t) (key : ℕ) where
  count_lem : length t.splitter + 1 ≡ 2 ^ treebits
  count_lem = omega (arith, length-InOrder t.splitter_tree treebits 1 t.splitter tree.in_order)

  power_lem : 2 * 2 ^ treebits ≤ 2 ^ 32
  power_lem = omega (
    arith,
    pow-le-pow_right {n = 2} (omega arith) {i = suc treebits} {j = 32}
        (omega (arith, tree.few_bits)),
    two_pow treebits,
  )

  fits_lem : 2 * (length t.splitter + 1) ≤ 2 ^ 32
  fits_lem = omega (arith, count_lem, power_lem)

  root-IsAbove : IsAbove t.splitter_tree key (length t.splitter) fits_lem treebits 1
  root-IsAbove = (omega (arith, count_lem), omega (arith, count_lem))

  unrolled_lem :
      descend_unrolled treebits t.splitter_tree key 1 - (length t.splitter + 1)
      ≡ rank key t.splitter
  unrolled_lem = omega (
    arith,
    descend_unrolled-rank t.splitter_tree key treebits 1 t.splitter tree.in_order tree.asc
        (omega (arith, power_lem)),
    count_lem,
  )

  simple_lem : find_bkt_simple t key ≡ bucket_of key t.splitter
  unfolding find_bkt_simple
  simple_lem =
      rw
        (
          descend-unrolled t.splitter_tree key (length t.splitter) fits_lem treebits 32 1
              (omega (arith, tree.few_bits)) root-IsAbove,
          unrolled_lem,
        )
        (bucket_of-rank key t.splitter)

  unroll_lem : find_bkt_unroll treebits t key ≡ bucket_of key t.splitter
  unfolding find_bkt_unroll
  unroll_lem = rw unrolled_lem (bucket_of-rank key t.splitter)

assembler_lem :
    (levels : ℕ) (t : SplitterTree)
    → IsTree (suc levels) t
    → (key : ℕ) → find_bkt_tree_assembler t key ≡ bucket_of key t.splitter
unfolding find_bkt_tree_assembler
assembler_lem levels t tree key =
    rw
      (
        descend_assembler-unrolled t.splitter_tree key (length t.splitter)
            (fits_lem (suc levels) t tree key) levels 32 1 (omega (arith, tree.few_bits))
            (root-IsAbove (suc levels) t tree key),
        unrolled_lem (suc levels) t tree key,
      )
      (bucket_of-rank key t.splitter)

-- The three descents through a perfect tree of 1 to 31 levels in level order, by the test, in assembler and unrolled,
-- find the bucket that a scan over the ascending splitters from the front finds.
pub find_bkt_simple-bucket_of :
    (treebits : ℕ) (t : SplitterTree)
    → IsTree treebits t
    → (key : ℕ)
    → (find_bkt_simple t key ≡ bucket_of key t.splitter)
      × (find_bkt_tree_assembler t key ≡ bucket_of key t.splitter)
      × (find_bkt_unroll treebits t key ≡ bucket_of key t.splitter)
find_bkt_simple-bucket_of zero t tree key = absurd (omega (arith, tree.some_bits))
find_bkt_simple-bucket_of (suc levels) t tree key = (
  simple_lem (suc levels) t tree key,
  assembler_lem levels t tree key,
  unroll_lem (suc levels) t tree key,
)
