-- ===== src/Sequential/Trees.antt =====
-- Splitter trees in level order: src/sequential/bingmann-sample_sortBTC.hpp (the classifiers),
-- bingmann-sample_sort_tree_builder.hpp (the recursive builders) and bingmann-sample_sortBT.cpp. An
-- `unsigned int` has 32 bits; the root is entry 1.
pub mod InOrder
pub mod Descent
pub mod Emitted
pub mod Grown
pub mod Builder
pub mod Closed
use bingmann_sample_sort.Prelude.{
  ℕ, zero, suc, ◌+◌, ◌-◌, ◌*◌, ◌/◌, ◌%◌, ◌^◌, Bool, true, false, ◌&&◌, List, [], ◌∷◌, ◌++◌, map,
  ltb, leb, ◌==◌, if◌then◌else◌, length, ◌!◌, set, replicate, take, drop,
}
use bingmann_sample_sort.Tools.KeyLcp.{lcp_key_type}
use bingmann_sample_sort.Sequential.Classify.{with_equal}

-- One step down: `i = 2 * i + (key <= splitter_tree[i] ? 0 : 1)`
unfoldable pub step_down : List ℕ → ℕ → ℕ → ℕ
step_down tree key i = (2 * i + (if leb key (tree ! i) then 0 else 1)) % 2 ^ 32

-- `while (i <= numsplitters)`
unfoldable pub descend : ℕ → ℕ → List ℕ → ℕ → ℕ → ℕ
unfolding step_down
descend zero numsplitters tree key i = i
descend (suc fuel) numsplitters tree key i =
    let rest = descend fuel numsplitters tree key (step_down tree key i) in
    if leb i numsplitters then rest else i

-- the loop in assembler, which tests at its end
unfoldable pub descend_assembler : ℕ → ℕ → List ℕ → ℕ → ℕ → ℕ
unfolding step_down
descend_assembler zero numsplitters tree key i = i
descend_assembler (suc fuel) numsplitters tree key i =
    let next = step_down tree key i in
    let rest = descend_assembler fuel numsplitters tree key next in
    if ltb next (numsplitters + 1) then rest else next

-- the unrolled loop: one step for each of `treebits` levels
unfoldable pub descend_unrolled : ℕ → List ℕ → ℕ → ℕ → ℕ
unfolding step_down
descend_unrolled zero tree key i = i
descend_unrolled (suc l) tree key i = descend_unrolled l tree key (step_down tree key i)

-- `splitter` and `splitter_tree` of a classifier
pub record SplitterTree : Type 0 where
  pub splitter : List ℕ
  pub splitter_tree : List ℕ

-- `ClassifyTreeSimple::find_bkt`
unfoldable pub find_bkt_simple : SplitterTree → ℕ → ℕ
unfolding descend with_equal
find_bkt_simple t key =
    let n = length t.splitter in
    with_equal key t.splitter (descend 32 n t.splitter_tree key 1 - (n + 1))

-- `ClassifyTreeAssembler::find_bkt`
unfoldable pub find_bkt_tree_assembler : SplitterTree → ℕ → ℕ
unfolding descend_assembler with_equal
find_bkt_tree_assembler t key =
    let n = length t.splitter in
    with_equal key t.splitter (descend_assembler 32 n t.splitter_tree key 1 - (n + 1))

-- `ClassifyTreeUnroll::find_bkt`
unfoldable pub find_bkt_unroll : ℕ → SplitterTree → ℕ → ℕ
unfolding descend_unrolled with_equal
find_bkt_unroll treebits t key =
    let n = length t.splitter in
    with_equal key t.splitter (descend_unrolled treebits t.splitter_tree key 1 - (n + 1))

-- `find_bkt_tree` of sample_sortBT, whose tree has no entry 0: `splitter_tree = splitter_tree0 - 1`
unfoldable pub find_bkt_tree0 : List ℕ → List ℕ → ℕ → ℕ
unfolding descend with_equal
find_bkt_tree0 splitter splitter_tree0 key =
    let n = length splitter in
    with_equal key splitter (descend 32 n (0 ∷ splitter_tree0) key 1 - (n + 1))

-- the inner loop over one level of the tree: every `inc`th splitter from `p` on
unfoldable pub level_loop : ℕ → ℕ → ℕ → List ℕ → List ℕ
level_loop zero p inc splitter = []
level_loop (suc fuel) p inc splitter =
    let rest = level_loop fuel (p + inc) inc splitter in
    if leb p (length splitter) then splitter ! p ∷ rest else []

-- step 2.1 of sample_sortBT: the levels from the root down
unfoldable pub tree_loop : ℕ → ℕ → List ℕ → List ℕ
unfolding level_loop
tree_loop zero highbit splitter = []
tree_loop (suc fuel) highbit splitter =
    let rest = tree_loop fuel (highbit / 2) splitter in
    if ltb 0 highbit
    then level_loop (suc (length splitter)) (highbit - 1) (highbit * 2) splitter ++ rest
    else []

-- The run of samples equal to the middle one: its start, and its last but for the end of the range.
unfoldable pub run_start : ℕ → ℕ → ℕ → List ℕ → ℕ
run_start lo zero mykey samples = zero
run_start lo (suc m) mykey samples =
    let rest = run_start lo m mykey samples in
    if ltb lo (suc m) && (samples ! m == mykey) then rest else suc m

unfoldable pub run_end : ℕ → ℕ → ℕ → ℕ → List ℕ → ℕ
run_end zero m hi mykey samples = m
run_end (suc fuel) m hi mykey samples =
    let rest = run_end fuel (m + 1) hi mykey samples in
    if ltb (m + 1) hi && (samples ! m == mykey) then rest else m

-- What the recursive builder has written: the tree, and what went behind `m_splitter` and
-- `m_lcp_iter`.
pub record Built : Type 0 where
  pub m_tree : List ℕ
  pub m_splitter : List ℕ
  pub m_lcp : List ℕ

-- `*m_splitter++ = mykey` and `*m_lcp_iter++ = ...`, with the mark of a finished splitter
unfoldable pub emit : ℕ → ℕ → Built → Built
unfolding lcp_key_type
emit prevkey mykey b = record {
  m_tree = b.m_tree;
  m_splitter = b.m_splitter ++ (mykey ∷ []);
  m_lcp = b.m_lcp ++ ((lcp_key_type prevkey mykey + (if mykey % 256 == 0 then 128 else 0)) ∷ []);
}

-- `recurse` of TreeBuilderPreAndLevelOrder, with the number of levels left
unfoldable pub recurse : ℕ → ℕ → List ℕ → ℕ → ℕ → ℕ → ℕ → Built → ℕ × Built
unfolding emit run_start run_end
recurse zero numsplitters samples lo hi treeidx rec_prevkey b = (rec_prevkey, b)
recurse (suc levels) numsplitters samples lo hi treeidx rec_prevkey b =
    let mid = lo + (hi - lo) / 2 in
    let mykey = samples ! mid in
    let b' : Built = record {
      m_tree = set b.m_tree treeidx mykey;
      m_splitter = b.m_splitter;
      m_lcp = b.m_lcp;
    } in
    let midlo = run_start lo mid mykey samples in
    let midhi = run_end (hi - mid) mid hi mykey samples in
    elim (ltb (2 * treeidx) numsplitters) [
      | true ↦
          let (prevkey, left) =
            recurse levels numsplitters samples lo midlo (2 * treeidx) rec_prevkey b' in
          recurse levels numsplitters samples midhi hi (2 * treeidx + 1) mykey
            (emit prevkey mykey left)
      | false ↦ (mykey, emit rec_prevkey mykey b')
    ]

-- `splitter_lcp[0] &= 0x80` and the sentinel at the end
unfoldable pub close_lcp : List ℕ → List ℕ
close_lcp [] = 0 ∷ []
close_lcp (l ∷ lcp) = (l - l % 128) ∷ (lcp ++ (0 ∷ []))

-- `TreeBuilderPreAndLevelOrder`, for `2 ^ treebits - 1` splitters
unfoldable pub tree_builder_pre_and_level_order : ℕ → List ℕ → SplitterTree × List ℕ
unfolding recurse close_lcp
tree_builder_pre_and_level_order treebits samples =
    let numsplitters = 2 ^ treebits - 1 in
    let (last, b) =
      recurse treebits numsplitters samples 0 (length samples) 1 0
        (record { m_tree = replicate (numsplitters + 1) 0; m_splitter = []; m_lcp = [] }) in
    (record { splitter = b.m_splitter; splitter_tree = b.m_tree }, close_lcp b.m_lcp)
