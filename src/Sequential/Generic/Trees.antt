-- ===== src/Sequential/Generic/Trees.antt =====
-- src/sequential/bingmann-sample_sortBTC.hpp: the classifiers by splitter trees keep the promises that
-- the template asks for, and the sorters made of them sort.
use native.Mathlib.Nat.{pow-le-pow_right}
use bingmann_sample_sort.Prelude.{
  refl, ◌∙◌, ℕ, zero, suc, ◌+◌, ◌-◌, ◌/◌, ◌%◌, ◌^◌, ◌≤◌, ◌<◌, ◌≡◌, sym, Bool, not, List, length,
  ◌!◌, All, arith, subst, ◌==◌, if◌then◌else◌,
}
use bingmann_sample_sort.Tools.Strings.{CString, IsBytes, leq_from}
use bingmann_sample_sort.Tools.Keys.{get_uint64}
use bingmann_sample_sort.Tools.KeyLcp.{lcp_key_type, lcp_key_type-le}
use bingmann_sample_sort.Sequential.Sorted.{Sorts}
use bingmann_sample_sort.Sequential.Radix.Chars.{IsWithin}
use bingmann_sample_sort.Sequential.Classify.Rank.{Falls, bucket_of}
use bingmann_sample_sort.Sequential.Classify.Search.{bucket_of-Falls}
use bingmann_sample_sort.Sequential.SampleSort.Samples.{All-get}
use bingmann_sample_sort.Sequential.Trees.{SplitterTree, tree_builder_pre_and_level_order}
use bingmann_sample_sort.Sequential.Trees.InOrder.{length-InOrder}
use bingmann_sample_sort.Sequential.Trees.Descent.{IsTree, find_bkt_simple-bucket_of}
use bingmann_sample_sort.Sequential.Trees.Grown.{Among}
use bingmann_sample_sort.Sequential.Trees.Closed.{
  IsClosed, tree_builder_pre_and_level_order-IsClosed, close_first, close_mark, close_next,
}
use bingmann_sample_sort.Sequential.Generic.{
  Classify, classify_tree_simple, classify_tree_assembler, classify_tree_unroll,
  bingmann_sample_sort_btc, bingmann_sample_sort_btca, bingmann_sample_sort_btcu,
}
use bingmann_sample_sort.Sequential.Generic.Laws.{IsClassify, sample_sort_generic-Sorts}

-- What an entry keeps in its low seven bits and in its highest one.
entry_parts :
    (l : ℕ) (b : Bool)
    → l ≤ 8
    → ((l + (if b then 128 else 0)) % 128 ≡ l)
      × (not ((l + (if b then 128 else 0)) / 128 % 2 == 0) ≡ b)
entry_parts l b small = ground arith

mark_only : (b : Bool) → not ((if b then 128 else 0) / 128 % 2 == 0) ≡ b
mark_only b = ground arith

-- A classifier whose `build` fills `splitter_lcp` as the builder of a tree does, and whose descent
-- finds the bucket that a scan over the splitters of that tree finds.
module _ {T : Type 0} (c : Classify T) (treebits : ℕ) (size : c.numsplitters ≡ 2 ^ treebits - 1)
    (keys : (s : CString) (d : ℕ) → IsBytes s → c.get_key s d ≡ get_uint64 s d)
    (fills : (samples : List ℕ)
      → (c.build samples).1 ≡ (tree_builder_pre_and_level_order treebits samples).1)
    (finds : (samples : List ℕ)
      → let t = (tree_builder_pre_and_level_order treebits samples).0 in
        IsTree treebits t
        → (key : ℕ) → c.find_bkt (c.build samples).0 key ≡ bucket_of key t.splitter) where
  module _ (samples : List ℕ) (t : SplitterTree) (lcp : List ℕ)
      (closed : IsClosed samples treebits t lcp) (small : All (λ k. k < 256 ^ 8) samples) where
    key-lt : (i : ℕ) → i < length t.splitter → t.splitter ! i < 256 ^ 8
    key-lt i h =
        let (j, lt, e) = All-get (Among samples) t.splitter i closed.among h in
        subst (λ k. k < 256 ^ 8) (sym e) (All-get (λ k. k < 256 ^ 8) samples j small lt)

    next_entry :
        (i : ℕ)
        → suc i < length t.splitter
        → lcp ! suc i
          ≡ lcp_key_type (t.splitter ! i) (t.splitter ! suc i)
            + (if t.splitter ! suc i % 256 == 0 then 128 else 0)
    next_entry i h = rw closed.entries_are (close_next 0 t.splitter i h)

    mark_lem :
        (i : ℕ) → i < length t.splitter → not (lcp ! i / 128 % 2 == 0) ≡ (t.splitter ! i % 256 == 0)
    mark_lem zero h =
        let le = lcp_key_type-le 0 (t.splitter ! 0) in
        rw (closed.entries_are, close_mark 0 t.splitter h (omega arith))
          (mark_only (t.splitter ! 0 % 256 == 0))
    mark_lem (suc i) h =
        rw (next_entry i h)
          (entry_parts (lcp_key_type (t.splitter ! i) (t.splitter ! suc i))
            (t.splitter ! suc i % 256 == 0)
            (lcp_key_type-le (t.splitter ! i) (t.splitter ! suc i))).1

  pub tree-IsClassify : 0 < treebits → treebits < 16 → IsClassify c
  tree-IsClassify some_bits few_bits = record {
    some_splitter =
        omega
          (arith, size, pow-le-pow_right {n = 2} (omega arith) {i = 1} {j = treebits} some_bits);
    few_splitters =
        omega (arith, pow-le-pow_right {n = 2} (omega arith) {i = treebits} {j = 15} (omega arith));
    key_is = keys;
    builds = λ samples asc long small.
        let (t, lcp) = tree_builder_pre_and_level_order treebits samples in
        let top = pow-le-pow_right {n = 2} (omega arith) {i = treebits} {j = 15} (omega arith) in
        let two = pow-le-pow_right {n = 2} (omega arith) {i = 1} {j = treebits} some_bits in
        let closed =
          tree_builder_pre_and_level_order-IsClosed treebits samples asc (omega (arith, long, size))
            some_bits (omega arith) in
        let count : length t.splitter ≡ 2 ^ treebits - 1 =
          omega
            (arith, length-InOrder t.splitter_tree treebits 1 t.splitter closed.perfect.in_order) in
        record {
          splitter = t.splitter;
          count = count ∙ sym size;
          asc = closed.perfect.asc;
          among = closed.among;
          lcp_first = rw (fills samples) (rw closed.entries_are (close_first 0 t.splitter));
          lcp_next = λ i h.
              rw (fills samples, next_entry samples t lcp closed small i h)
                (entry_parts (lcp_key_type (t.splitter ! i) (t.splitter ! suc i))
                  (t.splitter ! suc i % 256 == 0)
                  (lcp_key_type-le (t.splitter ! i) (t.splitter ! suc i))).0;
          done_iff = λ i h. rw (fills samples) (mark_lem samples t lcp closed small i h);
          finds = λ key.
              subst (Falls t.splitter key) (sym (finds samples closed.perfect key))
                (bucket_of-Falls key t.splitter closed.perfect.asc (omega arith));
        };
  }

tree_simple-IsClassify : IsClassify (classify_tree_simple 10)
unfolding classify_tree_simple
tree_simple-IsClassify =
    tree-IsClassify (classify_tree_simple 10) 10 refl (λ s d h. refl) (λ samples. refl)
      (λ samples tree key. (find_bkt_simple-bucket_of 10 _ tree key).0) (omega arith) (omega arith)

tree_assembler-IsClassify : IsClassify (classify_tree_assembler 10)
unfolding classify_tree_assembler
tree_assembler-IsClassify =
    tree-IsClassify (classify_tree_assembler 10) 10 refl (λ s d h. refl) (λ samples. refl)
      (λ samples tree key. (find_bkt_simple-bucket_of 10 _ tree key).1) (omega arith) (omega arith)

tree_unroll-IsClassify : IsClassify (classify_tree_unroll 10)
unfolding classify_tree_unroll
tree_unroll-IsClassify =
    tree-IsClassify (classify_tree_unroll 10) 10 refl (λ s d h. refl) (λ samples. refl)
      (λ samples tree key. (find_bkt_simple-bucket_of 10 _ tree key).2) (omega arith) (omega arith)

-- Each of the three sample sorts over splitter trees, with the descent by a test, in assembler and
-- unrolled, given fewer than 2 ^ 64 strings of bytes within a limit below 2 ^ 31, returns its strings, none lost,
-- in the order of their characters, whatever its random numbers start from, once its calls may nest
-- deeper than the number of strings and the limit together.
pub bingmann_sample_sort_btc-Sorts :
    (address : List CString → ℕ → ℕ) (limit fuel : ℕ) (strings : List CString)
    → All (IsWithin limit) strings
    → length strings < 2 ^ 64
    → limit < 2 ^ 31
    → length strings + limit < fuel
    → Sorts (leq_from 0) strings (bingmann_sample_sort_btc address fuel strings)
      × Sorts (leq_from 0) strings (bingmann_sample_sort_btca address fuel strings)
      × Sorts (leq_from 0) strings (bingmann_sample_sort_btcu address fuel strings)
unfolding bingmann_sample_sort_btc bingmann_sample_sort_btca bingmann_sample_sort_btcu
bingmann_sample_sort_btc-Sorts address limit fuel strings within fits bound enough = (
  sample_sort_generic-Sorts (classify_tree_simple 10) tree_simple-IsClassify address limit fuel
      strings 0 within fits bound (omega arith) (omega arith),
  sample_sort_generic-Sorts (classify_tree_assembler 10) tree_assembler-IsClassify address limit
      fuel strings 0 within fits bound (omega arith) (omega arith),
  sample_sort_generic-Sorts (classify_tree_unroll 10) tree_unroll-IsClassify address limit fuel
      strings 0 within fits bound (omega arith) (omega arith),
)
