-- ===== src/Parallel/SampleSort.antt =====
-- src/parallel/bingmann-parallel_sample_sort.hpp: Enqueue, the sample step and parallel_sample_sort. The
-- jobs of each step end in some state that they can reach; which one is a parameter, `ended`, and so
-- are the small sorts (SmallsortJob), the shadow arrays, and the addresses that the random numbers start from.
pub mod Laws
pub mod Runs
use bingmann_sample_sort.Prelude.{
  ℕ, zero, suc, ◌+◌, ◌*◌, ◌/◌, ◌%◌, true, false, not, max, Option, none, List, [], ◌∷◌, ltb, ◌==◌,
  length, get_or, ◌!◌,
}
use bingmann_sample_sort.Tools.Strings.{CString}
use bingmann_sample_sort.Tools.Keys.{get_uint64}
use bingmann_sample_sort.Sequential.SampleSort.{next_random, sort_keys}
use bingmann_sample_sort.Sequential.Generic.{Classify}
use bingmann_sample_sort.Parallel.SampleSortStep.{Jobs, start_step}
use bingmann_sample_sort.Parallel.SampleSortStep.SubSteps.{key_bkt, distribute_finished}

-- `Context::sequential_threshold`, with `g_smallsort_threshold` and without PS5_ENABLE_RESTSIZE
unfoldable pub sequential_threshold : ℕ → ℕ → ℕ
sequential_threshold totalsize threadnum = max (1024 * 1024) (totalsize / threadnum)

-- The loop of `sample` that fills `samples`.
unfoldable pub draw_keys : ℕ → ℕ → List CString → ℕ → List ℕ
unfolding next_random get_uint64
draw_keys zero rng strings depth = []
draw_keys (suc k) rng strings depth =
    let x = next_random rng in
    get_uint64 (get_or strings (x % length strings) []) depth ∷ draw_keys k x strings depth

module _ {T : Type 0} (c : Classify T) (address : List CString → ℕ → ℕ) where
  -- `SampleSortStep::sample`: the sorted samples, and the classifier and `splitter_lcp` made of them
  unfoldable pub sample : List CString → ℕ → List ℕ
  unfolding draw_keys sort_keys
  sample strings depth =
      sort_keys (draw_keys (2 * c.numsplitters) (address strings depth) strings depth)

  -- A step on `strings` as its DistributeJobs begin.
  unfoldable pub start_sample : ℕ → List CString → List CString → ℕ → Jobs CString
  unfolding sample key_bkt start_step
  start_sample threshold shadow strings depth =
      start_step (key_bkt (c.find_bkt (c.build (sample strings depth)).0) depth)
        (2 * c.numsplitters + 1) threshold strings shadow

  -- `Enqueue` and what it leaves in the array; fuel bounds the nesting of the steps
  unfoldable pub enqueue_sort :
      (List CString → ℕ → Option (List CString))
      → (List CString → ℕ → Jobs CString)
      → ℕ
      → ℕ
      → List CString
      → ℕ
      → Option (List CString)
  unfolding sample distribute_finished
  enqueue_sort small_sort ended threshold zero strings depth = none
  enqueue_sort small_sort ended threshold (suc fuel) strings depth =
      elim (ltb threshold (length strings)) [
        | false ↦ small_sort strings depth
        | true ↦
            let splitter_lcp = (c.build (sample strings depth)).1 in
            distribute_finished (enqueue_sort small_sort ended threshold fuel)
              (λ i. splitter_lcp ! i % 128) (λ i. not (splitter_lcp ! i / 128 % 2 == 0))
              c.numsplitters depth (ended strings depth)
      ]

  -- `parallel_sample_sort` for a number of threads
  unfoldable pub parallel_sample_sort :
      (List CString → ℕ → Option (List CString))
      → (List CString → ℕ → Jobs CString)
      → ℕ
      → ℕ
      → List CString
      → ℕ
      → Option (List CString)
  unfolding sequential_threshold enqueue_sort
  parallel_sample_sort small_sort ended threadnum fuel strings depth =
      enqueue_sort small_sort ended (sequential_threshold (length strings) threadnum) fuel strings
        depth
