-- ===== src/Parallel/SampleSort/Laws.antt =====
-- src/parallel/bingmann-parallel_sample_sort.hpp: the parallel sample sort sorts, in whatever order the
-- jobs of its steps run.
use bingmann_sample_sort.Prelude.{
  ℕ, zero, suc, ◌+◌, ◌-◌, ◌*◌, ◌/◌, ◌%◌, ◌^◌, ◌≤◌, ◌<◌, ◌≡◌, refl, sym, ap, ◌∙◌, subst, true, false,
  not, Option, List, [], ltb, ltb→lt, ◌==◌, length, get_or, ◌!◌, All, arith, Bool-cases, inl, inr,
}
use bingmann_sample_sort.Tools.Strings.{CString, leq_from}
use bingmann_sample_sort.Tools.Keys.Load.{get_char_uint64-get_uint64}
use bingmann_sample_sort.Sequential.Sorted.{Sorts}
use bingmann_sample_sort.Sequential.Radix.Chars.{IsWithin}
use bingmann_sample_sort.Sequential.SampleSort.{next_random, sort_keys, draw_samples}
use bingmann_sample_sort.Sequential.SampleSort.Laws.{All-get_or}
use bingmann_sample_sort.Sequential.Generic.{Classify}
use bingmann_sample_sort.Sequential.Generic.Laws.{
  IsClassify, samples_for, built, generic-IsPlan, some_odd,
}
use bingmann_sample_sort.Parallel.SampleSortStep.{Jobs, Reach, start_step}
use bingmann_sample_sort.Parallel.SampleSortStep.Laws.{parts_in}
use bingmann_sample_sort.Parallel.SampleSortStep.SubSteps.{key_bkt, distribute_finished}
use bingmann_sample_sort.Parallel.SampleSortStep.SubSteps.Laws.{key_bkt-bkt_of}
use bingmann_sample_sort.Parallel.SampleSortStep.Sorting.{parallel_step-Sorts}
use bingmann_sample_sort.Parallel.SampleSort.{
  sequential_threshold, draw_keys, sample, start_sample, enqueue_sort, parallel_sample_sort,
}

draw_keys-draw_samples :
    (k rng limit : ℕ) (strings : List CString) (depth : ℕ)
    → 0 < length strings
    → All (IsWithin limit) strings
    → draw_keys k rng strings depth ≡ draw_samples k rng strings depth
unfolding draw_keys draw_samples
draw_keys-draw_samples zero rng limit strings depth pos within = refl
draw_keys-draw_samples (suc k) rng limit strings depth pos within =
    let x = next_random rng in
    let w = All-get_or (IsWithin limit) strings (x % length strings) [] within (omega arith) in
    rw
      (
        draw_keys-draw_samples k x limit strings depth pos within,
        get_char_uint64-get_uint64 (get_or strings (x % length strings) []) depth w.0,
      )
      refl

module _ {T : Type 0} (c : Classify T) (address : List CString → ℕ → ℕ) where
  -- The jobs of every step have ended in a state that they reach from where they began.
  unfoldable pub IsEnded :
      ℕ → ℕ → (List CString → ℕ → List CString) → (List CString → ℕ → Jobs CString) → Type 0
  IsEnded limit threshold shadow ended =
      (strings : List CString) (depth : ℕ)
      → 0 < length strings
      → All (IsWithin limit) strings
      → length strings < 2 ^ 64
      → Reach (parts_in threshold strings)
          (start_sample c address threshold (shadow strings depth) strings depth)
          (ended strings depth)
        × ((ended strings depth).mem.pwork ≡ 0)

  -- The keys are loaded character by character, those of the sequential sorters in one access.
  pub sample-samples_for :
      (good : IsClassify c) (limit : ℕ) (strings : List CString) (depth : ℕ)
      → 0 < length strings
      → All (IsWithin limit) strings
      → sample c address strings depth ≡ samples_for c good address limit strings depth
  unfolding sample
  sample-samples_for good limit strings depth pos within = ap sort_keys (
      draw_keys-draw_samples (2 * c.numsplitters) (address strings depth) limit strings depth pos
        within)

  module _ (good : IsClassify c) (limit threshold : ℕ)
      (small_sort : List CString → ℕ → Option (List CString))
      (shadow : List CString → ℕ → List CString) (ended : List CString → ℕ → Jobs CString)
      (room : (strings : List CString) (depth : ℕ) → length (shadow strings depth) ≡ length strings)
      (smalls : (xs : List CString) (d : ℕ)
        → All (IsWithin limit) xs
        → length xs < 2 ^ 64
        → Sorts (leq_from d) xs (small_sort xs d))
      (ends : IsEnded limit threshold shadow ended) where
    module _ (sort : List CString → ℕ → Option (List CString)) (strings : List CString)
        (depth : ℕ) where
      -- What the jobs have reached, and what the substeps leave, if a step has these samples and splitters.
      abbrev Reached : List ℕ → ℕ → Type 0
      Reached samples n =
          Reach (parts_in threshold strings)
            (start_step (key_bkt (c.find_bkt (c.build samples).0) depth) (2 * n + 1) threshold
              strings (shadow strings depth))
            (ended strings depth)

      abbrev left_by : List ℕ → ℕ → Option (List CString)
      left_by samples n =
          distribute_finished sort (λ i. (c.build samples).1 ! i % 128)
            (λ i. not ((c.build samples).1 ! i / 128 % 2 == 0)) n depth (ended strings depth)

      step-Sorts :
          0 < length strings
          → All (IsWithin limit) strings
          → length strings < 2 ^ 64
          → ((xs : List CString) (d : ℕ)
              → All (IsWithin limit) xs
              → length xs ≤ length strings
              → length xs + (limit - d) < length strings + (limit - depth)
              → Sorts (leq_from d) xs (sort xs d))
          → Sorts (leq_from depth) strings (left_by (sample c address strings depth) c.numsplitters)
      unfolding start_sample IsEnded
      step-Sorts pos within fits sorts =
          let plan = generic-IsPlan c good address limit strings depth pos within in
          let splitter = (built c good address limit strings depth pos within).splitter in
          let n = (built c good address limit strings depth pos within).count in
          let (q, inside, odd) = some_odd c good address limit strings depth pos within in
          let (reach, z) = ends strings depth pos within fits in
          let e = sample-samples_for good limit strings depth pos within in
          let w = All-get_or (IsWithin limit) strings q [] within inside in
          let reach' : Reached (samples_for c good address limit strings depth) (length splitter) =
            subst (λ xs. Reached xs (length splitter)) e
              (subst (Reached (sample c address strings depth)) (sym n) reach) in
          let find = c.find_bkt (c.build (samples_for c good address limit strings depth)).0 in
          let odd' = ap (λ b. b % 2) (key_bkt-bkt_of find depth (get_or strings q []) w.0) ∙ odd in
          subst (λ xs. Sorts (leq_from depth) strings (left_by xs c.numsplitters)) (sym e)
            (subst
              (λ k.
                Sorts (leq_from depth) strings
                  (left_by (samples_for c good address limit strings depth) k))
              n
              (parallel_step-Sorts plan limit depth threshold strings (shadow strings depth)
                (ended strings depth) sort q [] within (room strings depth) fits inside odd' sorts
                reach' z))

    enqueue_few :
        (fuel : ℕ) (strings : List CString) (depth : ℕ)
        → ltb threshold (length strings) ≡ false
        → enqueue_sort c address small_sort ended threshold (suc fuel) strings depth
          ≡ small_sort strings depth
    unfolding enqueue_sort
    enqueue_few fuel strings depth e = ground (arith, e)

    enqueue_many :
        (fuel : ℕ) (strings : List CString) (depth : ℕ)
        → ltb threshold (length strings) ≡ true
        → enqueue_sort c address small_sort ended threshold (suc fuel) strings depth
          ≡ left_by
              (enqueue_sort c address small_sort ended threshold fuel)
              strings
              depth
              (sample c address strings depth)
              c.numsplitters
    unfolding enqueue_sort
    enqueue_many fuel strings depth e = ground (arith, e)

    enqueue_sort-Sorts :
        (fuel : ℕ) (strings : List CString) (depth : ℕ)
        → All (IsWithin limit) strings
        → length strings < 2 ^ 64
        → length strings + (limit - depth) < fuel
        → Sorts
            (leq_from depth)
            strings
            (enqueue_sort c address small_sort ended threshold fuel strings depth)
    enqueue_sort-Sorts zero strings depth within fits enough = absurd (omega arith)
    enqueue_sort-Sorts (suc fuel) strings depth within fits enough =
        elim (Bool-cases (ltb threshold (length strings))) [
          | inr small ↦ rw (enqueue_few fuel strings depth small) (smalls strings depth within fits)
          | inl large ↦
              let pos : 0 < length strings =
                omega (arith, ltb→lt threshold (length strings) large) in
              rw (enqueue_many fuel strings depth large) (
                step-Sorts (enqueue_sort c address small_sort ended threshold fuel) strings depth
                  pos within fits
                  (λ xs d w le less. enqueue_sort-Sorts fuel xs d w (omega arith) (omega arith)))
        ]

-- The parallel sample sort over any classifier that keeps its promises returns its strings, none lost, in
-- the order of the characters from `depth` on, for every number of threads and whatever its random numbers start
-- from: if the jobs of each of its steps have ended, in any order, if every shadow array has room for the
-- strings, if the small sorts sort, and if the strings are fewer than 2 ^ 64 and within a limit and the calls may nest
-- deeper than the number of strings and the characters left of the limit together.
pub parallel_sample_sort-Sorts :
    {T : Type 0} (c : Classify T) (address : List CString → ℕ → ℕ) (limit threadnum : ℕ)
    (small_sort : List CString → ℕ → Option (List CString))
    (shadow : List CString → ℕ → List CString) (ended : List CString → ℕ → Jobs CString) (fuel : ℕ)
    (strings : List CString) (depth : ℕ)
    → IsClassify c
    → ((xs : List CString) (d : ℕ) → length (shadow xs d) ≡ length xs)
    → ((xs : List CString) (d : ℕ)
        → All (IsWithin limit) xs
        → length xs < 2 ^ 64
        → Sorts (leq_from d) xs (small_sort xs d))
    → IsEnded c address limit (sequential_threshold (length strings) threadnum) shadow ended
    → All (IsWithin limit) strings
    → length strings < 2 ^ 64
    → length strings + (limit - depth) < fuel
    → Sorts
        (leq_from depth)
        strings
        (parallel_sample_sort c address small_sort ended threadnum fuel strings depth)
unfolding parallel_sample_sort
parallel_sample_sort-Sorts c address limit threadnum small_sort shadow ended fuel strings depth good
      room smalls ends within fits enough =
    enqueue_sort-Sorts c address good limit (sequential_threshold (length strings) threadnum)
      small_sort shadow ended room smalls ends fuel strings depth within fits enough
