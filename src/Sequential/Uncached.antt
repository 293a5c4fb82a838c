-- ===== src/Sequential/Uncached.antt =====
-- src/sequential/bingmann-sample_sortBS.cpp and bingmann-sample_sortBT.cpp: sample sort that keeps no
-- bucket numbers and classifies the string it holds again in every step of the permutation.
pub mod Permute
pub mod Laws
use bingmann_sample_sort.Prelude.{
  ℕ, zero, suc, ◌+◌, ◌-◌, ◌*◌, ◌/◌, ◌%◌, ◌^◌, true, false, Option, none, List, [], ◌∷◌, map, ltb,
  ◌==◌, if◌then◌else◌, length, ◌!◌, get_or, set, sum, dec64,
}
use bingmann_sample_sort.Tools.Strings.{CString}
use bingmann_sample_sort.Tools.Keys.{get_char_uint64}
use bingmann_sample_sort.Sequential.Classify.{find_bkt_binsearch}
use bingmann_sample_sort.Sequential.Trees.{tree_loop, find_bkt_tree0}
use bingmann_sample_sort.Sequential.Buckets.{count_buckets, prefix_sum}
use bingmann_sample_sort.Sequential.Buckets.Recurse.{recurse_loop}
use bingmann_sample_sort.Sequential.SampleSort.{
  draw_samples, sort_keys, preorder_loop, sort_bucket, sample_sort_small_sort, numsplitters_bsc,
}

pub record KeyWalk {ℓ} (A : Type ℓ) : Type ℓ where
  pub strings : List A
  pub bktindex : List ℕ
  -- the bucket of the string that was put at the start of the cycle
  pub b : ℕ

module _ {ℓ} {A : Type ℓ} (classify : A → ℕ) where
  -- `while (1)`: classify `perm`, take the next place of its bucket, swap
  unfoldable pub walk_keys : ℕ → ℕ → A → List A → List ℕ → KeyWalk A
  walk_keys zero i perm strings bktindex = record {
    strings = strings;
    bktindex = bktindex;
    b = classify perm;
  }
  walk_keys (suc fuel) i perm strings bktindex =
      let b = classify perm in
      let j = dec64 (bktindex ! b) in
      let next = walk_keys fuel i (get_or strings j perm) (set strings j perm) (set bktindex b j) in
      if ltb i j
      then next
      else record { strings = set strings i perm; bktindex = set bktindex b j; b = b }

  unfoldable pub permute_keys_loop : ℕ → ℕ → List ℕ → ℕ → List A → List ℕ → List A
  unfolding walk_keys
  permute_keys_loop zero stop bktsize i strings bktindex = strings
  permute_keys_loop (suc fuel) stop bktsize i [] bktindex = []
  permute_keys_loop (suc fuel) stop bktsize i (s ∷ ss) bktindex =
      let w = walk_keys (suc (sum bktindex)) i (get_or (s ∷ ss) i s) (s ∷ ss) bktindex in
      let rest = permute_keys_loop fuel stop bktsize (i + bktsize ! w.b) w.strings w.bktindex in
      if ltb i stop then rest else s ∷ ss

  unfoldable pub permute_keys : List ℕ → List A → List A
  unfolding prefix_sum permute_keys_loop
  permute_keys bktsize strings =
      let (bktindex, last_bkt_size) = prefix_sum bktsize in
      permute_keys_loop (suc (length strings)) (length strings - last_bkt_size) bktsize 0 strings
        bktindex

-- step 2 to 5, with the splitters and their prefixes
unfoldable pub sort_by_keys :
    (List CString → ℕ → Option (List CString))
    → (ℕ → ℕ)
    → List ℕ
    → List ℕ
    → List CString
    → ℕ
    → Option (List CString)
unfolding count_buckets permute_keys recurse_loop sort_bucket
sort_by_keys sort find_bkt splitter splitter_lcp strings depth =
    let classify : CString → ℕ = λ s. find_bkt (get_char_uint64 s depth) in
    let numsplitters = length splitter in
    let bktsize = count_buckets (2 * numsplitters + 1) (map classify strings) in
    recurse_loop
      (sort_bucket sort (λ i. splitter_lcp ! i) (λ i. splitter ! i % 256 == 0) numsplitters depth) 0
      bktsize (permute_keys classify bktsize strings)

-- `sample_sortBS`, which takes every second sample for a splitter itself
unfoldable pub sample_sort_bs :
    (List CString → ℕ → ℕ) → ℕ → List CString → ℕ → Option (List CString)
unfolding draw_samples sort_keys preorder_loop sort_by_keys sample_sort_small_sort
    find_bkt_binsearch
sample_sort_bs address zero strings depth = none
sample_sort_bs address (suc fuel) strings depth = elim (ltb (length strings) (32 * 1024)) [
  | true ↦ sample_sort_small_sort (suc fuel) strings depth
  | false ↦
      let samples =
        sort_keys (draw_samples (2 * numsplitters_bsc) (address strings depth) strings depth) in
      let (splitter, splitter_lcp) = preorder_loop numsplitters_bsc none (2 / 2) 2 samples in
      sort_by_keys (sample_sort_bs address fuel) (λ key. find_bkt_binsearch key splitter) splitter
        splitter_lcp strings depth
]

-- `sample_sortBT`: the largest perfect tree below that many splitters, `2 ^ 13 - 1`
abbrev pub numsplitters_bt : ℕ
numsplitters_bt = 2 ^ 13 - 1

unfoldable pub sample_sort_bt :
    (List CString → ℕ → ℕ) → ℕ → List CString → ℕ → Option (List CString)
unfolding draw_samples sort_keys preorder_loop sort_by_keys sample_sort_small_sort tree_loop
    find_bkt_tree0
sample_sort_bt address zero strings depth = none
sample_sort_bt address (suc fuel) strings depth = elim (ltb (length strings) (32 * 1024)) [
  | true ↦ sample_sort_small_sort (suc fuel) strings depth
  | false ↦
      let samples =
        sort_keys (draw_samples (2 * numsplitters_bt) (address strings depth) strings depth) in
      let (splitter, splitter_lcp) = preorder_loop numsplitters_bt none (2 / 2) 2 samples in
      let splitter_tree = tree_loop 32 ((numsplitters_bt + 1) / 2) splitter in
      sort_by_keys (sample_sort_bt address fuel) (find_bkt_tree0 splitter splitter_tree) splitter
        splitter_lcp strings depth
]
