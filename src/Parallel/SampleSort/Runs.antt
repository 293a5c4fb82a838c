-- ===== src/Parallel/SampleSort/Runs.antt =====
-- src/parallel/bingmann-parallel_sample_sort.hpp: the jobs of every step can run to their end, so what
-- Laws assumes of the runs holds of some.
use bingmann_sample_sort.Prelude.{ℕ, ◌+◌, ◌*◌, ◌≡◌, ◌<◌, ◌∙◌, sym, subst, List, length}
use bingmann_sample_sort.Tools.Strings.{CString}
use bingmann_sample_sort.Parallel.SampleSortStep.SubSteps.{key_bkt}
use bingmann_sample_sort.Sequential.Generic.{Classify}
use bingmann_sample_sort.Sequential.Generic.Laws.{IsClassify, built, generic-IsPlan}
use bingmann_sample_sort.Parallel.SampleSortStep.{Jobs}
use bingmann_sample_sort.Parallel.SampleSortStep.Laws.{parts_in, step_Inv}
use bingmann_sample_sort.Parallel.SampleSortStep.Finish.{run_out, no_busy}
use bingmann_sample_sort.Parallel.SampleSortStep.SubSteps.Laws.{in_range}
use bingmann_sample_sort.Parallel.SampleSort.{sample, start_sample}
use bingmann_sample_sort.Parallel.SampleSort.Laws.{IsEnded, sample-samples_for}

module _ {T : Type 0} (c : Classify T) (address : List CString → ℕ → ℕ) (threshold : ℕ)
    (shadow : List CString → ℕ → List CString) where
  -- One job after the other.
  pub run_step : List CString → ℕ → Jobs CString
  run_step strings depth =
      (run_out (parts_in threshold strings)
        (start_sample c address threshold (shadow strings depth) strings depth)).0

  pub run_step-IsEnded :
      IsClassify c
      → (limit : ℕ) → ((xs : List CString) (d : ℕ) → length (shadow xs d) ≡ length xs)
      → IsEnded c address limit threshold shadow run_step
  unfolding IsEnded run_step start_sample sample
  run_step-IsEnded good limit room strings depth pos within fits =
      let (u, r, z) =
        run_out (parts_in threshold strings)
          (start_sample c address threshold (shadow strings depth) strings depth) in
      let plan = generic-IsPlan c good address limit strings depth pos within in
      let splitter = (built c good address limit strings depth pos within).splitter in
      let n = (built c good address limit strings depth pos within).count in
      let e = sample-samples_for c address good limit strings depth pos within in
      let small =
        subst
          (λ k.
            (x : CString)
            → key_bkt (c.find_bkt (c.build (sample c address strings depth)).0) depth x < 2 * k + 1)
          n
          (subst
            (λ xs.
              (x : CString) → key_bkt (c.find_bkt (c.build xs).0) depth x < 2 * length splitter + 1)
            (sym e) (in_range plan limit depth)) in
      let inv =
        step_Inv _ (2 * c.numsplitters + 1) threshold strings (shadow strings depth) small
          (room strings depth) fits r in
      (r, inv.counted ∙ no_busy (parts_in threshold strings) u.phase z)
