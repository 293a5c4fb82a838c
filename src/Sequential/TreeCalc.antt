-- ===== src/Sequential/TreeCalc.antt =====
-- src/sequential/bingmann-sample_sortBTCT.hpp: classifiers that keep their splitters in level order
-- alone, and TreeBuilderLevelOrder of bingmann-sample_sort_tree_builder.hpp.
pub mod Built
pub mod Laws
use bingmann_sample_sort.Prelude.{
  ℕ, zero, suc, ◌+◌, ◌-◌, ◌*◌, ◌/◌, ◌%◌, ◌^◌, true, false, Option, none, some, ◌&&◌, leb, List, [],
  ◌∷◌, ◌++◌, ltb, ◌==◌, if◌then◌else◌, length, ◌!◌, set, replicate,
}
use bingmann_sample_sort.Tools.Strings.{CString}
use bingmann_sample_sort.Tools.Keys.{get_uint64}
use bingmann_sample_sort.Tools.KeyLcp.{lcp_key_type}
use bingmann_sample_sort.Tools.TreeCalculations.{pre_to_levelorder}
use bingmann_sample_sort.Sequential.Trees.{descend, descend_unrolled, run_start, run_end, close_lcp}
use bingmann_sample_sort.Sequential.Generic.{Classify, sample_sort_generic}

-- What TreeBuilderLevelOrder has written: the tree, and what went behind `m_lcp_iter`.
pub record LevelBuilt : Type 0 where
  pub m_tree : List ℕ
  pub m_lcp : List ℕ

-- `*m_lcp_iter++ = ...`, with the mark of a finished splitter
unfoldable pub emit_lcp : ℕ → ℕ → LevelBuilt → LevelBuilt
unfolding lcp_key_type
emit_lcp prevkey mykey b = record {
  m_tree = b.m_tree;
  m_lcp = b.m_lcp ++ ((lcp_key_type prevkey mykey + (if mykey % 256 == 0 then 128 else 0)) ∷ []);
}

-- `recurse` of TreeBuilderLevelOrder, with the number of levels left
unfoldable pub recurse_level : ℕ → ℕ → List ℕ → ℕ → ℕ → ℕ → ℕ → LevelBuilt → ℕ × LevelBuilt
unfolding emit_lcp run_start run_end
recurse_level zero numsplitters samples lo hi treeidx rec_prevkey b = (rec_prevkey, b)
recurse_level (suc levels) numsplitters samples lo hi treeidx rec_prevkey b =
    let mid = lo + (hi - lo) / 2 in
    let mykey = samples ! mid in
    let b' : LevelBuilt = record { m_tree = set b.m_tree treeidx mykey; m_lcp = b.m_lcp } in
    let midlo = run_start lo mid mykey samples in
    let midhi = run_end (hi - mid) mid hi mykey samples in
    elim (ltb (2 * treeidx) numsplitters) [
      | true ↦
          let (prevkey, left) =
            recurse_level levels numsplitters samples lo midlo (2 * treeidx) rec_prevkey b' in
          recurse_level levels numsplitters samples midhi hi (2 * treeidx + 1) mykey
            (emit_lcp prevkey mykey left)
      | false ↦ (mykey, emit_lcp rec_prevkey mykey b')
    ]

-- `TreeBuilderLevelOrder`, for `2 ^ treebits - 1` splitters: the tree and `splitter_lcp`
unfoldable pub tree_builder_level_order : ℕ → List ℕ → List ℕ × List ℕ
unfolding recurse_level close_lcp
tree_builder_level_order treebits samples =
    let numsplitters = 2 ^ treebits - 1 in
    let (last, b) =
      recurse_level treebits numsplitters samples 0 (length samples) 1 0
        (record { m_tree = replicate (numsplitters + 1) 0; m_lcp = [] }) in
    (b.m_tree, close_lcp b.m_lcp)

-- `get_splitter`
unfoldable pub get_splitter : ℕ → List ℕ → ℕ → ℕ
unfolding pre_to_levelorder
get_splitter treebits splitter_tree i = splitter_tree ! pre_to_levelorder treebits (i + 1)

-- the bucket of a key, from the place `i` that a descent has found
unfoldable pub with_equal_calc : ℕ → ℕ → List ℕ → ℕ → ℕ
unfolding get_splitter
with_equal_calc treebits key splitter_tree i =
    if ltb i (2 ^ treebits - 1) && (get_splitter treebits splitter_tree i == key)
    then i * 2 + 1
    else i * 2

-- `ClassifyTreeCalcSimple::find_bkt`
unfoldable pub find_bkt_calc_simple : ℕ → List ℕ → ℕ → ℕ
unfolding descend with_equal_calc
find_bkt_calc_simple treebits splitter_tree key =
    let n = 2 ^ treebits - 1 in
    with_equal_calc treebits key splitter_tree (descend 32 n splitter_tree key 1 - (n + 1))

-- `ClassifyTreeCalcUnroll::find_bkt`, whose `switch` falls through from case `treebits` to case 1;
-- it has cases 1 to 15 and aborts elsewhere, which is `none`.
unfoldable pub find_bkt_calc_unroll : ℕ → List ℕ → ℕ → Option ℕ
unfolding descend_unrolled with_equal_calc
find_bkt_calc_unroll treebits splitter_tree key =
    let n = 2 ^ treebits - 1 in
    if ltb 0 treebits && leb treebits 15
    then some (
        with_equal_calc treebits key splitter_tree
          (descend_unrolled treebits splitter_tree key 1 - (n + 1)))
    else none

-- The bucket, where there was no abort.
abbrev pub not_aborted : Option ℕ → ℕ
not_aborted none = 0
not_aborted (some b) = b

-- `ClassifyTreeCalcSimple` and `ClassifyTreeCalcUnroll`; the instances have 10 levels, where the
-- unrolled descent does not abort.
unfoldable pub classify_tree_calc_simple : ℕ → Classify (List ℕ)
unfolding tree_builder_level_order find_bkt_calc_simple get_uint64
classify_tree_calc_simple treebits = record {
  numsplitters = 2 ^ treebits - 1;
  build = λ samples. tree_builder_level_order treebits samples;
  find_bkt = λ t key. find_bkt_calc_simple treebits t key;
  get_key = λ s depth. get_uint64 s depth;
}

unfoldable pub classify_tree_calc_unroll : ℕ → Classify (List ℕ)
unfolding tree_builder_level_order find_bkt_calc_unroll get_uint64
classify_tree_calc_unroll treebits = record {
  numsplitters = 2 ^ treebits - 1;
  build = λ samples. tree_builder_level_order treebits samples;
  find_bkt = λ t key. not_aborted (find_bkt_calc_unroll treebits t key);
  get_key = λ s depth. get_uint64 s depth;
}

-- The instances of bingmann-sample_sort.cpp, with `DefaultTreebits = 10`
unfoldable pub bingmann_sample_sort_btct :
    (List CString → ℕ → ℕ) → ℕ → List CString → Option (List CString)
unfolding sample_sort_generic classify_tree_calc_simple
bingmann_sample_sort_btct address fuel strings =
    sample_sort_generic (classify_tree_calc_simple 10) address fuel strings 0

unfoldable pub bingmann_sample_sort_btctu :
    (List CString → ℕ → ℕ) → ℕ → List CString → Option (List CString)
unfolding sample_sort_generic classify_tree_calc_unroll
bingmann_sample_sort_btctu address fuel strings =
    sample_sort_generic (classify_tree_calc_unroll 10) address fuel strings 0
