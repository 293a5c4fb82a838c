-- ===== src/Sequential/Generic.antt =====
-- src/sequential/bingmann-sample_sort.cpp: sample sort as a template over a classifier, and its
-- instances by splitter trees (bingmann-sample_sortBTC.hpp).
pub mod Laws
pub mod Trees
use bingmann_sample_sort.Prelude.{
  ℕ, zero, suc, ◌+◌, ◌-◌, ◌*◌, ◌/◌, ◌%◌, ◌^◌, true, false, Option, none, List, map, ltb, ◌==◌, not,
  length, ◌!◌,
}
use bingmann_sample_sort.Tools.Strings.{CString}
use bingmann_sample_sort.Tools.Keys.{get_char_uint64, get_uint64}
use bingmann_sample_sort.Sequential.Classify.{find_bkt_tree}
use bingmann_sample_sort.Sequential.Trees.{
  SplitterTree, find_bkt_simple, find_bkt_tree_assembler, find_bkt_unroll,
  tree_builder_pre_and_level_order,
}
use bingmann_sample_sort.Sequential.Buckets.{count_buckets, permute}
use bingmann_sample_sort.Sequential.Buckets.Recurse.{recurse_loop}
use bingmann_sample_sort.Sequential.SampleSort.{
  draw_samples, sort_keys, tree_builder_preorder, sort_bucket, sample_sort_small_sort,
}

-- A classifier: `numsplitters`, `build` with the `splitter_lcp` that it fills, `find_bkt`, and the key
-- that its `classify` over string pointers takes of a string.
pub record Classify (T : Type 0) : Type 0 where
  pub numsplitters : ℕ
  pub build : List ℕ → T × List ℕ
  pub find_bkt : T → ℕ → ℕ
  pub get_key : CString → ℕ → ℕ

-- `classify`: the bucket of each string, cut to 16 bits
unfoldable pub classify : {T : Type 0} → Classify T → T → List CString → ℕ → List ℕ
classify c t strings depth = map (λ s. c.find_bkt t (c.get_key s depth) % 2 ^ 16) strings

-- `sample_sort_generic<Classify>`
unfoldable pub sample_sort_generic :
    {T : Type 0}
    → Classify T
    → (List CString → ℕ → ℕ)
    → ℕ
    → List CString
    → ℕ
    → Option (List CString)
unfolding draw_samples sort_keys classify count_buckets permute recurse_loop sort_bucket
    sample_sort_small_sort
sample_sort_generic c address zero strings depth = none
sample_sort_generic c address (suc fuel) strings depth = elim (ltb (length strings) (32 * 1024)) [
  | true ↦ sample_sort_small_sort (suc fuel) strings depth
  | false ↦
      let n = c.numsplitters in
      let samples = sort_keys (draw_samples (2 * n) (address strings depth) strings depth) in
      let (classifier, splitter_lcp) = c.build samples in
      let bktcache = classify c classifier strings depth in
      let bktsize = count_buckets (2 * n + 1) bktcache in
      recurse_loop
        (sort_bucket (sample_sort_generic c address fuel) (λ i. splitter_lcp ! i % 128)
          (λ i. not (splitter_lcp ! i / 128 % 2 == 0)) n depth)
        0 bktsize (permute bktsize strings bktcache)
]

-- `ClassifyBinarySearch<treebits>`
unfoldable pub classify_binary_search : ℕ → Classify (List ℕ)
unfolding tree_builder_preorder find_bkt_tree get_char_uint64
classify_binary_search treebits = record {
  numsplitters = 2 ^ treebits - 1;
  build = λ samples. tree_builder_preorder (2 ^ treebits - 1) samples;
  find_bkt = λ splitter key. find_bkt_tree splitter key;
  get_key = λ s depth. get_char_uint64 s depth;
}

-- `ClassifyTreeSimple`, `ClassifyTreeAssembler` and `ClassifyTreeUnroll`
unfoldable pub classify_tree_simple : ℕ → Classify SplitterTree
unfolding tree_builder_pre_and_level_order find_bkt_simple get_uint64
classify_tree_simple treebits = record {
  numsplitters = 2 ^ treebits - 1;
  build = λ samples. tree_builder_pre_and_level_order treebits samples;
  find_bkt = λ t key. find_bkt_simple t key;
  get_key = λ s depth. get_uint64 s depth;
}

unfoldable pub classify_tree_assembler : ℕ → Classify SplitterTree
unfolding tree_builder_pre_and_level_order find_bkt_tree_assembler get_uint64
classify_tree_assembler treebits = record {
  numsplitters = 2 ^ treebits - 1;
  build = λ samples. tree_builder_pre_and_level_order treebits samples;
  find_bkt = λ t key. find_bkt_tree_assembler t key;
  get_key = λ s depth. get_uint64 s depth;
}

unfoldable pub classify_tree_unroll : ℕ → Classify SplitterTree
unfolding tree_builder_pre_and_level_order find_bkt_unroll get_uint64
classify_tree_unroll treebits = record {
  numsplitters = 2 ^ treebits - 1;
  build = λ samples. tree_builder_pre_and_level_order treebits samples;
  find_bkt = λ t key. find_bkt_unroll treebits t key;
  get_key = λ s depth. get_uint64 s depth;
}

-- The instances, with `DefaultTreebits = 10`
unfoldable pub bingmann_sample_sort_bsc :
    (List CString → ℕ → ℕ) → ℕ → List CString → Option (List CString)
unfolding sample_sort_generic classify_binary_search
bingmann_sample_sort_bsc address fuel strings =
    sample_sort_generic (classify_binary_search 10) address fuel strings 0

unfoldable pub bingmann_sample_sort_btc :
    (List CString → ℕ → ℕ) → ℕ → List CString → Option (List CString)
unfolding sample_sort_generic classify_tree_simple
bingmann_sample_sort_btc address fuel strings =
    sample_sort_generic (classify_tree_simple 10) address fuel strings 0

unfoldable pub bingmann_sample_sort_btca :
    (List CString → ℕ → ℕ) → ℕ → List CString → Option (List CString)
unfolding sample_sort_generic classify_tree_assembler
bingmann_sample_sort_btca address fuel strings =
    sample_sort_generic (classify_tree_assembler 10) address fuel strings 0

unfoldable pub bingmann_sample_sort_btcu :
    (List CString → ℕ → ℕ) → ℕ → List CString → Option (List CString)
unfolding sample_sort_generic classify_tree_unroll
bingmann_sample_sort_btcu address fuel strings =
    sample_sort_generic (classify_tree_unroll 10) address fuel strings 0
