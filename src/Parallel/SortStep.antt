-- ===== src/Parallel/SortStep.antt =====
-- src/parallel/bingmann-parallel_sample_sort.hpp, SortStep: the counter of the substeps of a step. The
-- step that makes substeps holds a handle of its own until it has made them all; the substeps may end
-- at any time from then on when they are made.
pub mod Laws
use bingmann_sample_sort.Prelude.{ℕ, zero, suc, ◌≡◌, ◌+◌, ◌%◌, ◌^◌, ◌==◌, if◌then◌else◌, dec64}

-- What the step that makes substeps has still to do.
pub data Creator : Type 0 where
  making : (left : ℕ) → Creator  -- holds the anonymous handle
  released : Creator

-- The counter, the substeps that have not ended, and how often `substep_all_done` was called.
pub record SubstepCount : Type 0 where
  pub m_substep_working : ℕ
  pub running : ℕ
  pub all_done : ℕ

-- `substep_add`, for a substep that is then enqueued
unfoldable pub substep_add : SubstepCount → SubstepCount
substep_add m = record m {
  m_substep_working = (m.m_substep_working + 1) % 2 ^ 64;
  running = suc m.running;
}

-- `substep_notify_done`
unfoldable pub substep_notify_done : SubstepCount → SubstepCount
substep_notify_done m =
    let working = dec64 m.m_substep_working in
    record m {
      m_substep_working = working;
      all_done = if working == 0 then suc m.all_done else m.all_done;
    }

-- One access to the counter.
pub data CountMove (m : SubstepCount) : Creator → SubstepCount → Creator → Type 0 where
  make : {k : ℕ} → CountMove m (making (suc k)) (substep_add m) (making k)
  release : CountMove m (making zero) (substep_notify_done m) released
  end_substep :
      {c : Creator} {r : ℕ}
      → m.running ≡ suc r
      → CountMove m c (substep_notify_done (record m { running = r })) c

pub data Counted (substeps : ℕ) : SubstepCount → Creator → Type 0 where
  start :
      Counted substeps
        (record { m_substep_working = 1; running = 0; all_done = 0 })
        (making substeps)
  next :
      {m m' : SubstepCount} {c c' : Creator}
      → Counted substeps m c
      → CountMove m c m' c'
      → Counted substeps m' c'
