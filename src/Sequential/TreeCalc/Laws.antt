-- ===== src/Sequential/TreeCalc/Laws.antt =====
-- The classifiers that compute the number of a splitter find the buckets that those find that keep the
-- splitters in order as well, and the sorters made of them sort.
use bingmann_sample_sort.Prelude.{
  ◌≤◌, ℕ, ◌+◌, ◌-◌, ◌*◌, ◌^◌, ◌<◌, ◌≡◌, refl, sym, ap, ◌∙◌, true, false, List, ltb, ltb→lt, length,
  ◌!◌, All, arith, subst, Bool-cases, none, some, leb, ◌&&◌, inl, inr,
}
use bingmann_sample_sort.Tools.Strings.{CString, leq_from}
use bingmann_sample_sort.Tools.TreeCalculations.{pre_to_levelorder}
use bingmann_sample_sort.Tools.TreeCalculations.Laws.{odd_multiple, pre_to_levelorder_lem}
use bingmann_sample_sort.Sequential.Sorted.{Sorts}
use bingmann_sample_sort.Sequential.Radix.Chars.{IsWithin}
use bingmann_sample_sort.Sequential.Classify.{with_equal}
use bingmann_sample_sort.Sequential.Classify.Rank.{bucket_of}
use bingmann_sample_sort.Sequential.Trees.{
  SplitterTree, descend, descend_unrolled, find_bkt_simple, find_bkt_unroll,
  tree_builder_pre_and_level_order,
}
use bingmann_sample_sort.Sequential.Trees.InOrder.{length-InOrder}
use bingmann_sample_sort.Sequential.Trees.Descent.{IsTree, find_bkt_simple-bucket_of}
use bingmann_sample_sort.Sequential.Generic.Laws.{IsClassify, sample_sort_generic-Sorts}
use bingmann_sample_sort.Sequential.Generic.Trees.{tree-IsClassify}
use bingmann_sample_sort.Sequential.TreeCalc.{
  tree_builder_level_order, get_splitter, with_equal_calc, find_bkt_calc_simple,
  find_bkt_calc_unroll, not_aborted, classify_tree_calc_simple, classify_tree_calc_unroll,
  bingmann_sample_sort_btct, bingmann_sample_sort_btctu,
}
use bingmann_sample_sort.Sequential.TreeCalc.Built.{get-InOrder, tree_builder_level_order-forget}

module _ (treebits : ℕ) (t : SplitterTree) (tree : IsTree treebits t) where
  size_lem : length t.splitter ≡ 2 ^ treebits - 1
  size_lem = omega (arith, length-InOrder t.splitter_tree treebits 1 t.splitter tree.in_order)

  -- In a perfect tree of 1 to 31 levels, `get_splitter` reads the splitters in ascending order from
  -- the tree in level order.
  pub get_splitter_lem :
      (i : ℕ) → i < length t.splitter → get_splitter treebits t.splitter_tree i ≡ t.splitter ! i
  unfolding get_splitter
  get_splitter_lem i h =
      let (c, d, r, e, small, is) =
        odd_multiple treebits (i + 1) (omega arith) (omega (arith, size_lem)) in
      let few = tree.few_bits in
      let place : pre_to_levelorder treebits (i + 1) ≡ 1 * 2 ^ d + r =
        subst (λ h. pre_to_levelorder h (i + 1) ≡ 1 * 2 ^ d + r) e
          (ap (pre_to_levelorder (c + d + 1)) is
            ∙ pre_to_levelorder_lem c d r (omega arith) small
            ∙ omega arith) in
      let same : i ≡ (2 * r + 1) * 2 ^ c - 1 = omega arith in
      ap (◌!◌ t.splitter_tree) place
      ∙ sym (get-InOrder t.splitter_tree treebits c d 1 r t.splitter e small tree.in_order)
      ∙ ap (◌!◌ t.splitter) (sym same)

  with_equal_lem :
      (key i : ℕ) → with_equal_calc treebits key t.splitter_tree i ≡ with_equal key t.splitter i
  unfolding with_equal_calc with_equal
  with_equal_lem key i = elim (Bool-cases (ltb i (length t.splitter))) [
    | inl inside ↦
        let e : ltb i (2 ^ treebits - 1) ≡ true = rw (← size_lem) inside in
        rw (e, inside, get_splitter_lem i (ltb→lt i (length t.splitter) inside)) refl
    | inr outside ↦
        let e : ltb i (2 ^ treebits - 1) ≡ false = rw (← size_lem) outside in rw (e, outside) refl
  ]

  has_case : treebits ≤ 15 → (ltb 0 treebits && leb treebits 15) ≡ true
  has_case h = ground (arith, tree.some_bits, h)

  -- The classifiers that compute where a splitter stands in the tree agree with those that keep the
  -- splitters in order as well, on every perfect tree over ascending splitters and every key: the one
  -- with the loop for 1 to 31 levels, the unrolled one up to 15 levels, above which it aborts.
  pub find_bkt_calc-find_bkt :
      (key : ℕ)
      → (find_bkt_calc_simple treebits t.splitter_tree key ≡ find_bkt_simple t key)
        × (treebits ≤ 15
            → find_bkt_calc_unroll treebits t.splitter_tree key
              ≡ some (find_bkt_unroll treebits t key))
        × (15 < treebits → find_bkt_calc_unroll treebits t.splitter_tree key ≡ none)
  unfolding find_bkt_calc_simple find_bkt_calc_unroll find_bkt_simple find_bkt_unroll
  find_bkt_calc-find_bkt key =
      let n = 2 ^ treebits - 1 in
      let tree = t.splitter_tree in
      (
        with_equal_lem key (descend 32 n tree key 1 - (n + 1))
            ∙ ap (λ (n : ℕ). with_equal key t.splitter (descend 32 n tree key 1 - (n + 1)))
                (sym size_lem),
        (λ h. rw (has_case h) (
            ap some (
              with_equal_lem key (descend_unrolled treebits tree key 1 - (n + 1))
              ∙ ap
                  (λ (n : ℕ).
                    with_equal key t.splitter (descend_unrolled treebits tree key 1 - (n + 1)))
                  (sym size_lem)))),
        (λ h.
            let e : leb treebits 15 ≡ false = ground arith in
            let f : (ltb 0 treebits && leb treebits 15) ≡ false = ground (arith, e) in rw f refl),
      )

module _ (samples : List ℕ) where
  abbrev built : SplitterTree
  built = (tree_builder_pre_and_level_order 10 samples).0

  abbrev level_tree : List ℕ
  level_tree = (tree_builder_level_order 10 samples).0

  tree_same : level_tree ≡ built.splitter_tree
  tree_same = ap (λ (r : List ℕ × List ℕ). r.0) (tree_builder_level_order-forget 10 samples)

  lcp_same :
      (tree_builder_level_order 10 samples).1 ≡ (tree_builder_pre_and_level_order 10 samples).1
  lcp_same = ap (λ (r : List ℕ × List ℕ). r.1) (tree_builder_level_order-forget 10 samples)

  module _ (tree : IsTree 10 built) (key : ℕ) where
    calc_finds :
        (find_bkt_calc_simple 10 level_tree key ≡ bucket_of key built.splitter)
        × (find_bkt_calc_unroll 10 level_tree key ≡ some (bucket_of key built.splitter))
    calc_finds =
        let same = find_bkt_calc-find_bkt 10 built tree key in
        let found = find_bkt_simple-bucket_of 10 built tree key in
        (
          ap (λ (l : List ℕ). find_bkt_calc_simple 10 l key) tree_same ∙ same.0 ∙ found.0,
          ap (λ (l : List ℕ). find_bkt_calc_unroll 10 l key) tree_same
              ∙ same.1 (omega arith)
              ∙ ap some found.2,
        )

calc_simple-IsClassify : IsClassify (classify_tree_calc_simple 10)
unfolding classify_tree_calc_simple
calc_simple-IsClassify =
    tree-IsClassify (classify_tree_calc_simple 10) 10 refl (λ s d h. refl) lcp_same
      (λ samples tree key. (calc_finds samples tree key).0) (omega arith) (omega arith)

pub calc_unroll-IsClassify : IsClassify (classify_tree_calc_unroll 10)
unfolding classify_tree_calc_unroll
calc_unroll-IsClassify =
    tree-IsClassify (classify_tree_calc_unroll 10) 10 refl (λ s d h. refl) lcp_same
      (λ samples tree key. ap not_aborted (calc_finds samples tree key).1) (omega arith)
      (omega arith)

-- The two sample sorts over trees in level order alone, with the descent by a test and unrolled, given
-- fewer than 2 ^ 64 strings of bytes within a limit below 2 ^ 31, return their strings, none lost, in the order of
-- their characters, whatever the random numbers start from, once their calls may nest deeper than the
-- number of strings and the limit together.
pub bingmann_sample_sort_btct-Sorts :
    (address : List CString → ℕ → ℕ) (limit fuel : ℕ) (strings : List CString)
    → All (IsWithin limit) strings
    → length strings < 2 ^ 64
    → limit < 2 ^ 31
    → length strings + limit < fuel
    → Sorts (leq_from 0) strings (bingmann_sample_sort_btct address fuel strings)
      × Sorts (leq_from 0) strings (bingmann_sample_sort_btctu address fuel strings)
unfolding bingmann_sample_sort_btct bingmann_sample_sort_btctu
bingmann_sample_sort_btct-Sorts address limit fuel strings within fits bound enough = (
  sample_sort_generic-Sorts (classify_tree_calc_simple 10) calc_simple-IsClassify address limit fuel
      strings 0 within fits bound (omega arith) (omega arith),
  sample_sort_generic-Sorts (classify_tree_calc_unroll 10) calc_unroll-IsClassify address limit fuel
      strings 0 within fits bound (omega arith) (omega arith),
)
