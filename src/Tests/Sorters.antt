-- ===== src/Tests/Sorters.antt =====
-- The theorems on LCP insertion sort and on splitter trees in level order at concrete inputs.
use bingmann_sample_sort.Prelude.{
  ℕ, suc, ◌^◌, ◌<◌, ◌≤◌, ◌≡◌, refl, true, some, none, List, [], ◌∷◌, length, get_or, ◌!◌, All, Perm,
  arith,
}
use bingmann_sample_sort.Tools.Strings.{CString, leq_from}
use bingmann_sample_sort.Tools.TreeCalculations.{level_to_preorder, pre_to_levelorder}
use bingmann_sample_sort.Tools.TreeCalculations.Laws.{level_to_preorder-pre_to_levelorder}
use bingmann_sample_sort.Sequential.Sorted.{IsSortedBy, Sorts}
use bingmann_sample_sort.Sequential.Radix.Chars.{IsWithin}
use bingmann_sample_sort.Sequential.LcpInssort.{LcpArrays, lcp_insertion_sort}
use bingmann_sample_sort.Sequential.LcpInssort.Insertion.{lcp_from}
use bingmann_sample_sort.Sequential.LcpInssort.Laws.{lcp_insertion_sort-lcp_from}
use bingmann_sample_sort.Sequential.Trees.{SplitterTree, find_bkt_simple, find_bkt_unroll}
use bingmann_sample_sort.Sequential.Trees.InOrder.{InOrder}
use bingmann_sample_sort.Sequential.Trees.Descent.{IsTree}
use bingmann_sample_sort.Sequential.TreeCalc.{
  find_bkt_calc_simple, find_bkt_calc_unroll, bingmann_sample_sort_btct, bingmann_sample_sort_btctu,
}
use bingmann_sample_sort.Sequential.TreeCalc.Laws.{
  find_bkt_calc-find_bkt, bingmann_sample_sort_btct-Sorts,
}

abbrev words : List CString
words = (98 ∷ 97 ∷ []) ∷ (97 ∷ 98 ∷ []) ∷ (97 ∷ 97 ∷ []) ∷ []

abbrev arrays : LcpArrays
arrays = record { str = words; lcp = 7 ∷ 7 ∷ 7 ∷ []; cache = 0 ∷ 0 ∷ 0 ∷ [] }

abbrev sorted_words : List CString
sorted_words = (97 ∷ 97 ∷ []) ∷ (97 ∷ 98 ∷ []) ∷ (98 ∷ 97 ∷ []) ∷ []

-- The arrays after the sort, with the cache of the characters behind the prefixes.
sorted_arrays :
    lcp_insertion_sort true arrays 0
    ≡ record { str = sorted_words; lcp = 7 ∷ 1 ∷ 0 ∷ []; cache = 0 ∷ 98 ∷ 98 ∷ [] }
unfolding lcp_insertion_sort
sorted_arrays = refl

lcp_insertion_sort-lcp_from_example :
    let b = lcp_insertion_sort true arrays 0 in
    IsSortedBy (leq_from 0) b.str
    × Perm b.str words
    × ((i : ℕ)
        → suc i < length b.str
        → b.lcp ! suc i ≡ lcp_from 0 (get_or b.str i []) (get_or b.str (suc i) []))
lcp_insertion_sort-lcp_from_example = lcp_insertion_sort-lcp_from true arrays 0 refl

level_to_preorder-pre_to_levelorder_example :
    (level_to_preorder 3 (pre_to_levelorder 3 5) ≡ 5)
    × (pre_to_levelorder 3 (level_to_preorder 3 5) ≡ 5)
    × (0 < pre_to_levelorder 3 5)
    × (pre_to_levelorder 3 5 < 2 ^ 3)
level_to_preorder-pre_to_levelorder_example =
    level_to_preorder-pre_to_levelorder 3 5 (omega arith) (omega arith) (omega arith)

abbrev two_levels : SplitterTree
two_levels = record { splitter = 3 ∷ 5 ∷ 9 ∷ []; splitter_tree = 0 ∷ 5 ∷ 3 ∷ 9 ∷ [] }

two_levels-IsTree : IsTree 2 two_levels
two_levels-IsTree = record {
  in_order =
      InOrder.node 1 1 (3 ∷ []) (9 ∷ []) (InOrder.node 0 2 [] [] (InOrder.leaf 4) (InOrder.leaf 5))
        (InOrder.node 0 3 [] [] (InOrder.leaf 6) (InOrder.leaf 7));
  asc = ((refl, (refl, tt)), ((refl, tt), (tt, tt)));
  some_bits = omega arith;
  few_bits = omega arith;
}

find_bkt_calc-find_bkt_example :
    (find_bkt_calc_simple 2 (0 ∷ 5 ∷ 3 ∷ 9 ∷ []) 5 ≡ find_bkt_simple two_levels 5)
    × (2 ≤ 15
        → find_bkt_calc_unroll 2 (0 ∷ 5 ∷ 3 ∷ 9 ∷ []) 5 ≡ some (find_bkt_unroll 2 two_levels 5))
    × (15 < 2 → find_bkt_calc_unroll 2 (0 ∷ 5 ∷ 3 ∷ 9 ∷ []) 5 ≡ none)
find_bkt_calc-find_bkt_example = find_bkt_calc-find_bkt 2 two_levels two_levels-IsTree 5

abbrev address_zero : List CString → ℕ → ℕ
address_zero strings depth = 0

words-IsWithin : All (IsWithin 2) words
words-IsWithin = (
  ((omega arith, (omega arith, tt)), omega arith),
  (
    ((omega arith, (omega arith, tt)), omega arith),
    (((omega arith, (omega arith, tt)), omega arith), tt),
  ),
)

bingmann_sample_sort_btct-Sorts_example :
    Sorts (leq_from 0) words (bingmann_sample_sort_btct address_zero 6 words)
    × Sorts (leq_from 0) words (bingmann_sample_sort_btctu address_zero 6 words)
bingmann_sample_sort_btct-Sorts_example =
    bingmann_sample_sort_btct-Sorts address_zero 2 6 words words-IsWithin (omega arith)
      (omega arith) (omega arith)
