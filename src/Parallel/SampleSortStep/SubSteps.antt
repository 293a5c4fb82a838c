-- ===== src/Parallel/SampleSortStep/SubSteps.antt =====
-- src/parallel/bingmann-parallel_sample_sort.hpp, `distribute_finished`: the substeps of a step, one for
-- each bucket of more than one string that is not finished. What a substep leaves in its part of the
-- array is a parameter, `sort`; the substeps work on different parts, so their order does not matter.
pub mod Laws
use bingmann_sample_sort.Prelude.{
  ℕ, suc, ◌+◌, ◌-◌, ◌*◌, ◌/◌, ◌%◌, ◌^◌, Bool, Option, some, List, [], ◌∷◌, ◌++◌, leb, ◌==◌,
  if◌then◌else◌, length, take, drop,
}
use bingmann_sample_sort.Tools.Strings.{CString}
use bingmann_sample_sort.Tools.Keys.{get_uint64}
use bingmann_sample_sort.Sequential.Buckets.Recurse.{join}
use bingmann_sample_sort.Parallel.SampleSortStep.{Jobs}

-- What `classify` of a classifier caches for a string: 16 bits of its bucket.
unfoldable pub key_bkt : (ℕ → ℕ) → ℕ → CString → ℕ
unfolding get_uint64
key_bkt find_bkt depth s = find_bkt (get_uint64 s depth) % 2 ^ 16

-- Bucket `i`: at most one string is copied back, as is a bucket whose splitter ends in a zero byte;
-- for any other, `Enqueue` makes a step or a job.
unfoldable pub finish_bucket :
    (List CString → ℕ → Option (List CString))
    → (ℕ → ℕ)
    → (ℕ → Bool)
    → ℕ
    → ℕ
    → ℕ
    → ℕ
    → List CString
    → Option (List CString)
finish_bucket sort lcp is_done numsplitters depth i bktsize strptr =
    if leb bktsize 1
    then some strptr
    else if i == 2 * numsplitters
    then sort strptr depth
    else if i % 2 == 0
    then sort strptr (depth + lcp (i / 2))
    else if is_done (i / 2)
    then some strptr
    else sort strptr (depth + 8)

-- The loop over the buckets, from bucket `i` with the boundaries `bkt[i]`, `bkt[i + 1]`, ...; the parts
-- of the array are put behind each other.
unfoldable pub finish_loop :
    (ℕ → ℕ → List CString → Option (List CString))
    → ℕ
    → List ℕ
    → List CString
    → Option (List CString)
unfolding join
finish_loop finish i [] sorted = some []
finish_loop finish i (b ∷ []) sorted = some []
finish_loop finish i (b ∷ b' ∷ bkt) sorted =
    join (finish i (b' - b) (take (b' - b) (drop b sorted)))
      (finish_loop finish (suc i) (b' ∷ bkt) sorted)

-- `distribute_finished`, with the substeps that it makes; the sentinel goes behind `bkt[0]`
unfoldable pub distribute_finished :
    (List CString → ℕ → Option (List CString))
    → (ℕ → ℕ)
    → (ℕ → Bool)
    → ℕ
    → ℕ
    → Jobs CString
    → Option (List CString)
unfolding finish_bucket finish_loop
distribute_finished sort lcp is_done numsplitters depth s =
    finish_loop (finish_bucket sort lcp is_done numsplitters depth) 0
      (s.mem.bkt 0 ++ (length s.mem.sorted ∷ [])) s.mem.sorted
