-- ===== src/Parallel/SampleSortStep/Finish.antt =====
-- src/parallel/bingmann-parallel_sample_sort.hpp, SampleSortStep: the DistributeJobs come to their end.
use bingmann_sample_sort.Prelude.{
  ℕ, zero, suc, ◌+◌, ◌^◌, ◌≡◌, ◌<◌, ◌≤◌, refl, ◌∙◌, List, [], ◌∷◌, length, length-map, arith,
}
use bingmann_sample_sort.Prelude.Family.{
  update, total, total-update, total-member, total-pos, total-zero,
}
use bingmann_sample_sort.Prelude.Flat.{tally}
use bingmann_sample_sort.Parallel.SampleSortStep.{
  StepState, Distributing, moving, finished, DistributeMove, move_string, finish, Jobs, JobsStep,
  pick, Reach, here, next, start_step, start_distribute, classify_part,
}
use bingmann_sample_sort.Parallel.SampleSortStep.Moves.{busy}
use bingmann_sample_sort.Parallel.SampleSortStep.Laws.{parts_in, cut, part_lengths, step_Inv}

-- The steps that a job has still to go.
abbrev pub to_go {ℓ} : {A : Type ℓ} → Distributing A → ℕ
to_go (moving todo) = suc (length todo)
to_go finished = 0

module _ {ℓ} {A : Type ℓ} where
  -- The number of steps of a run.
  unfoldable pub steps : {parts : ℕ} {s t : Jobs A} → Reach parts s t → ℕ
  steps here = 0
  steps (next r st) = suc (steps r)

  Move-cost :
      {p : ℕ} {m m' : StepState A} {ph ph' : Distributing A}
      → DistributeMove p m ph m' ph'
      → to_go ph ≡ suc (to_go ph')
  Move-cost move_string = refl
  Move-cost finish = refl

  Step-cost :
      {parts : ℕ} {s t : Jobs A}
      → JobsStep parts s t
      → total to_go parts s.phase ≡ suc (total to_go parts t.phase)
  Step-cost {parts} {s} (pick p {m} {ph} lt mv) =
      let change = total-update to_go parts s.phase p ph lt in
      let cost = Move-cost mv in omega (arith, change, cost)

  Reach-cost :
      {parts : ℕ} {s t : Jobs A} (r : Reach parts s t)
      → steps r + total to_go parts t.phase ≡ total to_go parts s.phase
  unfolding steps
  Reach-cost here = omega arith
  Reach-cost (next r st) = let last = Step-cost st in omega (arith, last, Reach-cost r)

  -- A job that is not done has a step.
  move_on :
      (p : ℕ) (m : StepState A) (ph : Distributing A)
      → 0 < to_go ph
      → (m' : StepState A) × (ph' : Distributing A) × DistributeMove p m ph m' ph'
  move_on p m (moving []) pos = (_, _, finish)
  move_on p m (moving ((b, s) ∷ todo)) pos = (_, _, move_string)
  move_on p m finished pos = absurd (omega arith)

  run_on :
      (fuel parts : ℕ) {s t : Jobs A}
      → Reach parts s t
      → total to_go parts t.phase ≡ fuel
      → (u : Jobs A) × Reach parts s u × (total to_go parts u.phase ≡ 0)
  run_on zero parts {s} {t} r e = (t, r, e)
  run_on (suc fuel) parts {s} {t} r e =
      let (p, lt, pos) = total-pos to_go parts t.phase (omega (arith, e)) in
      let (m, ph, mv) = move_on p t.mem (t.phase p) pos in
      let st : JobsStep parts t (record { mem = m; phase = update t.phase p ph }) = pick p lt mv in
      let cost = Step-cost st in run_on fuel parts (next r st) (omega (arith, cost, e))

  -- The jobs run on, one of them after the other, until none has a step.
  pub run_out :
      (parts : ℕ) (s : Jobs A) → (u : Jobs A) × Reach parts s u × (total to_go parts u.phase ≡ 0)
  run_out parts s = run_on (total to_go parts s.phase) parts here refl

  no_cost : (ph : Distributing A) → to_go ph ≡ 0 → busy ph ≡ 0
  no_cost (moving todo) e = absurd (omega arith)
  no_cost finished e = refl

  pub no_busy :
      (parts : ℕ) (phase : ℕ → Distributing A)
      → total to_go parts phase ≡ 0
      → total busy parts phase ≡ 0
  no_busy parts phase z = total-zero busy parts phase (λ p lt.
      let member = total-member to_go parts phase p lt in
      no_cost (phase p) (omega (arith, z, member)))

  follow : {parts : ℕ} {s t u : Jobs A} → Reach parts s t → Reach parts t u → Reach parts s u
  follow r here = r
  follow r (next q st) = next (follow r q) st

  total-start :
      (n : ℕ) (find_bkt : A → ℕ) (strs : ℕ → List A)
      → total to_go n (λ p. moving (classify_part find_bkt (strs p)))
        ≡ tally n (λ p. length (strs p)) + n
  unfolding total tally classify_part
  total-start zero find_bkt strs = refl
  total-start (suc n) find_bkt strs =
      omega
        (arith, total-start n find_bkt strs, length-map {B = ℕ × A} (strs n) (λ s. (find_bkt s, s)))

  start-cost :
      (find_bkt : A → ℕ) (bktnum threshold : ℕ) (strings shadow : List A)
      → total to_go
          (parts_in threshold strings)
          (start_step find_bkt bktnum threshold strings shadow).phase
        ≡ length strings + parts_in threshold strings
  unfolding start_step start_distribute
  start-cost find_bkt bktnum threshold strings shadow =
      let cost = total-start (parts_in threshold strings) find_bkt (cut threshold strings) in
      let lens = part_lengths threshold strings in omega (arith, cost, lens)

-- From every state that the DistributeJobs of a step can reach, the jobs can go on until `pwork` is zero, and
-- no run of them is longer than one step for each string and one for each job, however they are interleaved.
-- The conditions are those on the classifier, the shadow array and the number of strings in `distribute_lem`.
pub distribute_can_finish {ℓ} :
    {A : Type ℓ} (find_bkt : A → ℕ) (bktnum threshold : ℕ) (strings shadow : List A) (s : Jobs A)
    → ((x : A) → find_bkt x < bktnum)
    → length shadow ≡ length strings
    → length strings < 2 ^ 64
    → (r : Reach
        (parts_in threshold strings)
        (start_step find_bkt bktnum threshold strings shadow)
        s)
    → (steps r ≤ length strings + parts_in threshold strings)
      × ((u : Jobs A) × Reach (parts_in threshold strings) s u × (u.mem.pwork ≡ 0))
distribute_can_finish find_bkt bktnum threshold strings shadow s in_range same few r =
    let parts = parts_in threshold strings in
    let cost = Reach-cost r in
    let begin = start-cost find_bkt bktnum threshold strings shadow in
    let (u, q, z) = run_out parts s in
    let inv = step_Inv find_bkt bktnum threshold strings shadow in_range same few (follow r q) in
    (omega (arith, cost, begin), (u, q, inv.counted ∙ no_busy parts u.phase z))
