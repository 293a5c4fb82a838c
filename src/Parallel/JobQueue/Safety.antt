-- ===== src/Parallel/JobQueue/Safety.antt =====
-- src/tools/jobqueue.hpp: what is true once the workers have returned.
use bingmann_sample_sort.Prelude.{ℕ, ◌^◌, ◌<◌, ◌≡◌, refl, List, [], count, arith}
use bingmann_sample_sort.Prelude.Family.{total, total-zero}
use bingmann_sample_sort.Parallel.JobQueue.{ConcurrentQueue, returned, System, loop, Reach}
use bingmann_sample_sort.Parallel.JobQueue.Invariant.{holds, active, Inv, Reach-Inv}

-- However the workers of a team of 1 to 2 ^ 32 - 1 threads are interleaved, and whatever jobs each run
-- of a job enqueues, once all of them have
-- returned from `executeThreadWork` the queue is empty, and each job has ended as often as it was
-- enqueued, those that were in the queue at the start included: none is lost, and none runs twice.
pub no_job_lost :
    {Q : Type 0} (c : ConcurrentQueue Q) (Runs : ℕ → List ℕ → Type 0) (n : ℕ) (q : Q)
    (s : System c Runs n)
    → 0 < n
    → n < 2 ^ 32
    → Reach c Runs n (loop c Runs n q) s
    → ((i : ℕ) → i < n → s.phase i ≡ returned)
    → (c.items s.mem.m_queue ≡ [])
      × ((job : ℕ) → count job s.mem.finished ≡ count job s.mem.enqueued)
no_job_lost c Runs n q s some few r over = (
  empty,
  λ job.
      let held : total (holds job) n s.phase ≡ 0 =
        total-zero (holds job) n s.phase (λ i lt. rw (over i lt) refl) in
      let kept = inv.kept job in ground (arith, empty),
)
  where
    inv : Inv c Runs n s.mem s.phase
    inv = Reach-Inv c Runs n some few r

    empty : c.items s.mem.m_queue ≡ []
    empty = inv.cared (total-zero active n s.phase (λ i lt. rw (over i lt) refl))
