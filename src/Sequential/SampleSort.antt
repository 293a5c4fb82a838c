-- ===== src/Sequential/SampleSort.antt =====
-- src/sequential/bingmann-sample_sort.cpp, bingmann-sample_sort.hpp, bingmann-sample_sortBSC.cpp,
-- bingmann-sample_sort_tree_builder.hpp and src/tools/lcgrandom.hpp: super scalar string sample sort.
pub mod Prefix
pub mod Plan
pub mod Level
pub mod Samples
pub mod Laws
pub mod Original
use bingmann_sample_sort.Prelude.{
  ℕ, zero, suc, ◌+◌, ◌-◌, ◌*◌, ◌/◌, ◌%◌, ◌^◌, Bool, true, false, Option, none, some, List, [], ◌∷◌,
  map, ltb, leb, ◌==◌, if◌then◌else◌, length, ◌!◌, get_or,
}
use bingmann_sample_sort.Tools.Strings.{CString}
use bingmann_sample_sort.Tools.Keys.{get_char_uint64}
use bingmann_sample_sort.Tools.KeyLcp.{lcp_key_type}
use bingmann_sample_sort.Sequential.Radix.{msd_ci2}
use bingmann_sample_sort.Sequential.Classify.{
  find_bkt_binsearch, find_bkt_assembler, find_bkt_equal, find_bkt_asmequal,
}
use bingmann_sample_sort.Sequential.Buckets.{count_buckets, permute}
use bingmann_sample_sort.Sequential.Buckets.Recurse.{recurse_loop}

-- `LCGRandom::operator()`, with the constants 0x27BB2EE687B0B0FD and 0xB504F32D
unfoldable pub next_random : ℕ → ℕ
next_random xn = (2862933555777941757 * xn + 3037000493) % 2 ^ 64

-- the loop that fills `samples`
unfoldable pub draw_samples : ℕ → ℕ → List CString → ℕ → List ℕ
unfolding next_random
draw_samples zero xn strings depth = []
draw_samples (suc k) xn strings depth =
    let x = next_random xn in
    get_char_uint64 (get_or strings (x % length strings) []) depth ∷ draw_samples k x strings depth

-- `std::sort` of keys
unfoldable pub insert_key : ℕ → List ℕ → List ℕ
insert_key k [] = k ∷ []
insert_key k (x ∷ xs) = if leb k x then k ∷ x ∷ xs else x ∷ insert_key k xs

unfoldable pub sort_keys : List ℕ → List ℕ
unfolding insert_key
sort_keys [] = []
sort_keys (x ∷ xs) = insert_key x (sort_keys xs)

-- the loop of `TreeBuilderPreorder`, with the number of rounds left and the previous splitter; the
-- sentinel ends `splitter_lcp`
unfoldable pub preorder_loop : ℕ → Option ℕ → ℕ → ℕ → List ℕ → List ℕ × List ℕ
preorder_loop zero prev j oversample_factor samples = ([], 0 ∷ [])
preorder_loop (suc k) prev j oversample_factor samples =
    let splitter = samples ! j in
    let lcp : ℕ = elim prev [ none ↦ 0 | some p ↦ lcp_key_type p splitter ] in
    let (splitters, splitter_lcp) =
      preorder_loop k (some splitter) (j + oversample_factor) oversample_factor samples in
    (splitter ∷ splitters, lcp ∷ splitter_lcp)

unfoldable pub tree_builder_preorder : ℕ → List ℕ → List ℕ × List ℕ
unfolding preorder_loop
tree_builder_preorder numsplitters samples =
    let oversample_factor = length samples / numsplitters in
    preorder_loop numsplitters none (oversample_factor / 2) oversample_factor samples

-- Step 5, the body of the loop and what follows it: bucket `i` with the strings from `bsum` on.
unfoldable pub sort_bucket :
    (List CString → ℕ → Option (List CString))
    → (ℕ → ℕ)
    → (ℕ → Bool)
    → ℕ
    → ℕ
    → ℕ
    → ℕ
    → List CString
    → Option (List CString)
sort_bucket sort lcp is_done numsplitters depth i size bsum =
    if i == 2 * numsplitters
    then if ltb 0 size then sort bsum depth else some bsum
    else if i % 2 == 0
    then if ltb 1 size then sort bsum (depth + lcp (i / 2)) else some bsum
    else if ltb 1 size
    then if is_done (i / 2) then some bsum else sort bsum (depth + 8)
    else some bsum

-- `sample_sort_small_sort`: `msd_CI`
unfoldable pub sample_sort_small_sort : ℕ → List CString → ℕ → Option (List CString)
unfolding msd_ci2
sample_sort_small_sort fuel strings depth = msd_ci2 fuel strings depth

-- The cache keeps 16 bits of a bucket number.
abbrev pub bkt_of : (ℕ → ℕ) → ℕ → CString → ℕ
bkt_of find_bkt depth s = find_bkt (get_char_uint64 s depth) % 2 ^ 16

-- step 2 to 5, once the splitters are there
unfoldable pub sort_by_splitters :
    (List CString → ℕ → Option (List CString))
    → (ℕ → ℕ)
    → (ℕ → ℕ)
    → (ℕ → Bool)
    → ℕ
    → List CString
    → ℕ
    → Option (List CString)
unfolding count_buckets permute recurse_loop sort_bucket
sort_by_splitters sort find_bkt lcp is_done numsplitters strings depth =
    let bktcache = map (bkt_of find_bkt depth) strings in
    let bktsize = count_buckets (2 * numsplitters + 1) bktcache in
    recurse_loop (sort_bucket sort lcp is_done numsplitters depth) 0 bktsize
      (permute bktsize strings bktcache)

-- `sample_sortBSC<find_bkt>`: `(l2cache - 8) / (8 + 16)` splitters; `address` is where a call keeps
-- its samples, from which the random numbers start. Fuel bounds the nesting of the calls.
abbrev pub numsplitters_bsc : ℕ
numsplitters_bsc = (256 * 1024 - 8) / (8 + 2 * 8)

unfoldable pub sample_sort_bsc :
    (ℕ → List ℕ → ℕ) → (List CString → ℕ → ℕ) → ℕ → List CString → ℕ → Option (List CString)
unfolding draw_samples sort_keys tree_builder_preorder sort_by_splitters sample_sort_small_sort
sample_sort_bsc find_bkt address zero strings depth = none
sample_sort_bsc find_bkt address (suc fuel) strings depth =
    elim (ltb (length strings) (32 * 1024)) [
      | true ↦ sample_sort_small_sort (suc fuel) strings depth
      | false ↦
          let samples =
            sort_keys (draw_samples (2 * numsplitters_bsc) (address strings depth) strings depth) in
          let (splitter, splitter_lcp) = tree_builder_preorder numsplitters_bsc samples in
          sort_by_splitters (sample_sort_bsc find_bkt address fuel) (λ key. find_bkt key splitter)
            (λ i. splitter_lcp ! i) (λ i. splitter ! i % 256 == 0) numsplitters_bsc strings depth
    ]

-- The entry points of bingmann-sample_sortBSC.cpp: the template at each of its four searches.
unfoldable pub bingmann_sample_sort_bsc_original :
    (List CString → ℕ → ℕ) → ℕ → List CString → Option (List CString)
unfolding sample_sort_bsc find_bkt_binsearch
bingmann_sample_sort_bsc_original address fuel strings =
    sample_sort_bsc find_bkt_binsearch address fuel strings 0

unfoldable pub bingmann_sample_sort_bsca_original :
    (List CString → ℕ → ℕ) → ℕ → List CString → Option (List CString)
unfolding sample_sort_bsc find_bkt_assembler
bingmann_sample_sort_bsca_original address fuel strings =
    sample_sort_bsc find_bkt_assembler address fuel strings 0

unfoldable pub bingmann_sample_sort_bsce_original :
    (List CString → ℕ → ℕ) → ℕ → List CString → Option (List CString)
unfolding sample_sort_bsc find_bkt_equal
bingmann_sample_sort_bsce_original address fuel strings =
    sample_sort_bsc find_bkt_equal address fuel strings 0

unfoldable pub bingmann_sample_sort_bscea_original :
    (List CString → ℕ → ℕ) → ℕ → List CString → Option (List CString)
unfolding sample_sort_bsc find_bkt_asmequal
bingmann_sample_sort_bscea_original address fuel strings =
    sample_sort_bsc find_bkt_asmequal address fuel strings 0
