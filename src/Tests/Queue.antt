-- ===== src/Tests/Queue.antt =====
-- The theorems on the job queue at concrete inputs: one worker, with a job that enqueues another.
use bingmann_sample_sort.Prelude.{
  ℕ, zero, suc, ◌<◌, ◌≤◌, ◌≡◌, refl, ◌⊎◌, inl, inr, Option, none, some, List, [], ◌∷◌, ◌++◌, sum,
  count, All, arith,
}
use bingmann_sample_sort.Parallel.JobQueue.{
  ConcurrentQueue, waking, returned, pop_job, pop_fails, enqueue_job, end_run, switch, idle_pop,
  idle_fails, all_idle, no_assist, System, pick, loop, Reach, here, next,
}
use bingmann_sample_sort.Parallel.JobQueue.Safety.{no_job_lost}
use bingmann_sample_sort.Parallel.JobQueue.Threads.{
  calc_thread_num, per_queue, numa_launch, calc_thread_num-sum, numa_launch-threads,
}

abbrev pop_front : List ℕ → Option (ℕ × List ℕ)
pop_front [] = none
pop_front (j ∷ q) = some (j, q)

abbrev list_queue : ConcurrentQueue (List ℕ)
list_queue = record {
  push = λ j q. q ++ j ∷ [];
  try_pop = pop_front;
  items = λ q. q;
  items-push = λ j q. refl;
  pop_none = front_none;
  pop_some = front_some;
}
  where
    front_none : (q : List ℕ) → pop_front q ≡ none → q ≡ []
    front_none [] e = refl
    front_none (j ∷ q) e = ground arith

    front_some : (q q' : List ℕ) (j : ℕ) → pop_front q ≡ some (j, q') → q ≡ j ∷ q'
    front_some [] q' j e = ground arith
    front_some (i ∷ q) q' j e = ground arith

-- Job 7 enqueues job 8 or nothing, as its run may decide; other jobs enqueue nothing.
abbrev Spawns : ℕ → List ℕ → Type 0
Spawns j todo = (todo ≡ []) ⊎ ((j ≡ 7) × (todo ≡ 8 ∷ []))

abbrev one_job : System list_queue Spawns 1
one_job = loop list_queue Spawns 1 (7 ∷ [])

-- Job 7 has enqueued job 8, and the worker is about to look into the queue.
abbrev one_left : (s : System list_queue Spawns 1) × Reach list_queue Spawns 1 one_job s
one_left = (
  _,
  next
      (next (next here (pick 0 (omega arith) (pop_job refl (inr (refl, refl)))))
        (pick 0 (omega arith) enqueue_job))
      (pick 0 (omega arith) end_run),
)

-- Both jobs have run, and the worker has returned.
abbrev over : (s : System list_queue Spawns 1) × Reach list_queue Spawns 1 one_job s
over =
    let idle =
      next
        (next
          (next (next one_left.1 (pick 0 (omega arith) (pop_job refl (inl refl))))
            (pick 0 (omega arith) end_run))
          (pick 0 (omega arith) (pop_fails refl)))
        (pick 0 (omega arith) switch) in
    (
      _,
      next
          (next (next idle (pick 0 (omega arith) (idle_fails refl)))
            (pick 0 (omega arith) (all_idle refl)))
          (pick 0 (omega arith) no_assist),
    )

all_over : (i : ℕ) → i < 1 → over.0.phase i ≡ returned
all_over zero lt = refl
all_over (suc i) lt = absurd (omega arith)

no_job_lost_example :
    (over.0.mem.m_queue ≡ [])
    × ((job : ℕ) → count job over.0.mem.finished ≡ count job over.0.mem.enqueued)
no_job_lost_example =
    no_job_lost list_queue Spawns 1 (7 ∷ []) over.0 (omega arith) (omega arith) over.1 all_over

calc_thread_num-sum_example : sum (per_queue (λ k. calc_thread_num 7 k 3) 3) ≡ 7
calc_thread_num-sum_example = calc_thread_num-sum 7 3 (omega arith)

numa_launch-threads_example :
    let (run_threads, shares) = numa_launch 2 3 in
    All (λ n. 1 ≤ n) shares
    × (3 ≤ 2 → (run_threads ≡ 3) × (sum shares ≡ 2))
    × (2 < 3 → (run_threads ≡ 2) × All (λ n. n ≡ 1) shares)
numa_launch-threads_example = numa_launch-threads 2 3 (omega arith)

-- A worker that has taken a job but still counts as idle lets another one return.
early_return :
    (s : System list_queue Spawns 2) × Reach list_queue Spawns 2
      (loop list_queue Spawns 2 (7 ∷ []))
      s
    × (s.phase 0 ≡ returned)
    × (s.phase 1 ≡ waking 8)
early_return = (
  _,
  (next
      (next
        (next
          (next
            (next
              (next
                (next
                  (next
                    (next
                      (next (next here (pick 0 (omega arith) (pop_job refl (inr (refl, refl)))))
                        (pick 1 (omega arith) (pop_fails refl)))
                      (pick 1 (omega arith) switch))
                    (pick 0 (omega arith) enqueue_job))
                  (pick 1 (omega arith) (idle_pop refl)))
                (pick 0 (omega arith) end_run))
              (pick 0 (omega arith) (pop_fails refl)))
            (pick 0 (omega arith) switch))
          (pick 0 (omega arith) (idle_fails refl)))
        (pick 0 (omega arith) (all_idle refl)))
      (pick 0 (omega arith) no_assist)),
  refl,
  refl,
)
