-- ===== src/Parallel/SortStep/Laws.antt =====
-- src/parallel/bingmann-parallel_sample_sort.hpp, SortStep: `substep_all_done` is called once, by
-- whoever ends last.
use bingmann_sample_sort.Prelude.{ℕ, suc, ◌+◌, ◌^◌, ◌≡◌, ◌<◌, ◌≤◌, refl, ◌==◌, if◌then◌else◌, arith}
use bingmann_sample_sort.Parallel.SortStep.{
  Creator, making, released, SubstepCount, substep_add, substep_notify_done, CountMove, make,
  release, end_substep, Counted, start, next,
}

abbrev pub handle : Creator → ℕ
handle (making left) = 1
handle released = 0

abbrev still_left : Creator → ℕ
still_left (making left) = left
still_left released = 0

record CountInv (substeps : ℕ) (m : SubstepCount) (c : Creator) : Type 0 where
  counted : m.m_substep_working ≡ handle c + m.running
  few : still_left c + m.running ≤ substeps
  called : m.all_done ≡ (if m.m_substep_working == 0 then 1 else 0)

CountMove-CountInv :
    {substeps : ℕ} {m m' : SubstepCount} {c c' : Creator}
    → suc substeps < 2 ^ 64
    → CountMove m c m' c'
    → CountInv substeps m c
    → CountInv substeps m' c'
unfolding substep_add substep_notify_done
CountMove-CountInv bound make inv = record {
  counted = ground (arith, inv.counted, inv.few);
  few = ground (arith, inv.few);
  called = ground (arith, inv.counted, inv.few, inv.called);
}
CountMove-CountInv bound release inv = record {
  counted = ground (arith, inv.counted, inv.few);
  few = ground (arith, inv.few);
  called = ground (arith, inv.counted, inv.few, inv.called);
}
CountMove-CountInv {c} bound (end_substep e) inv = record {
  counted = ground (arith, inv.counted, inv.few, e);
  few = ground (arith, inv.few, e);
  called = ground (arith, inv.counted, inv.few, inv.called, e);
}

Counted-CountInv :
    {substeps : ℕ} {m : SubstepCount} {c : Creator}
    → suc substeps < 2 ^ 64
    → Counted substeps m c
    → CountInv substeps m c
Counted-CountInv bound start = record { counted = refl; few = omega arith; called = refl }
Counted-CountInv bound (next r mv) = CountMove-CountInv bound mv (Counted-CountInv bound r)

-- For a step with fewer than 2 ^ 64 - 1 substeps, in whatever order they end and the step makes them: the counter is the number of
-- handles, so it is positive at every `substep_notify_done`, and
-- `substep_all_done` has been called once if the step has released its handle and no substep runs, and not at all before.
pub substep_all_done_once :
    (substeps : ℕ) (m : SubstepCount) (c : Creator)
    → suc substeps < 2 ^ 64
    → Counted substeps m c
    → (m.m_substep_working ≡ handle c + m.running)
      × (m.all_done ≡ (if handle c + m.running == 0 then 1 else 0))
substep_all_done_once substeps m c bound r =
    let inv = Counted-CountInv bound r in
    let e = inv.counted in let d = inv.called in (e, ground (arith, e, d))
