-- ===== src/Parallel/JobQueue/Threads.antt =====
-- src/tools/jobqueue.hpp, NumaJobQueueGroup: how the threads are shared out among the queues.
use native.Mathlib.Nat.{div-eq_of_lt, mod-eq_of_lt}
use bingmann_sample_sort.Prelude.{
  ℕ, zero, suc, ◌+◌, ◌-◌, ◌*◌, ◌/◌, ◌%◌, ◌≤◌, ◌<◌, ◌≡◌, refl, ◌∙◌, ◌==◌, if◌then◌else◌, Bool, false,
  List, [], ◌∷◌, ltb, leb, min, sum, All, arith,
}

-- `calcThreadNum(k, numJobQueues)`, with `omp_get_max_threads()` as the first argument
unfoldable pub calc_thread_num : ℕ → ℕ → ℕ → ℕ
calc_thread_num max_threads k num_job_queues =
    let node_threads = max_threads / num_job_queues in
    let remain_threads = max_threads % num_job_queues in
    if ltb k remain_threads then node_threads + 1 else node_threads

-- The threads that `numaLaunch` gives to the `k`-th queue: at least one.
unfoldable pub node_threads : ℕ → ℕ → ℕ → ℕ
unfolding calc_thread_num
node_threads max_threads k num_job_queues =
    let n = calc_thread_num max_threads k num_job_queues in if n == 0 then 1 else n

-- The loop of `numaLaunch` over the first queues, the last first.
abbrev pub per_queue : (ℕ → ℕ) → ℕ → List ℕ
per_queue f zero = []
per_queue f (suc k) = f k ∷ per_queue f k

-- `numaLaunch`: `runThreads`, the threads that run its loop over the queues, and how many threads the
-- loop hands to `numaLoop` for each queue.
unfoldable pub numa_launch : ℕ → ℕ → ℕ × List ℕ
unfolding node_threads
numa_launch max_threads num_job_queues = (
  min max_threads num_job_queues,
  per_queue (λ k. node_threads max_threads k num_job_queues) num_job_queues,
)

-- `assist(qid)` of the group: the walk over the other queues, and its result
abbrev walk_round : ℕ → ℕ → ℕ → ℕ
walk_round size zero id = id
walk_round size (suc i) id = walk_round size i (if leb size (id + 1) then 0 else id + 1)

abbrev pub assist : ℕ → ℕ → ℕ × Bool
assist size qid = (walk_round size (size - 1) qid, false)

sum_shared : (a r k : ℕ) → sum (per_queue (λ i. if ltb i r then a + 1 else a) k) ≡ a * k + min k r
sum_shared a r zero = omega arith
sum_shared a r (suc k) = ground (arith, sum_shared a r k)

-- With at least one queue, the shares that calcThreadNum computes for the queues add up to the
-- number of threads.
pub calc_thread_num-sum :
    (max_threads q : ℕ)
    → 0 < q
    → sum (per_queue (λ k. calc_thread_num max_threads k q) q) ≡ max_threads
unfolding calc_thread_num
calc_thread_num-sum max_threads q some_queue =
    ground (arith, sum_shared (max_threads / q) (max_threads % q) q)

sum-same :
    (f g : ℕ → ℕ) (k : ℕ)
    → ((i : ℕ) → i < k → f i ≡ g i)
    → sum (per_queue f k) ≡ sum (per_queue g k)
sum-same f g zero h = refl
sum-same f g (suc k) h =
    let top = h k (omega arith) in omega (arith, sum-same f g k (λ i lt. h i (omega arith)))

node_threads-pos : (t k q : ℕ) → 1 ≤ node_threads t k q
unfolding node_threads
node_threads-pos t k q = ground arith

per_queue-pos : (f : ℕ → ℕ) (k : ℕ) → ((i : ℕ) → 1 ≤ f i) → All (λ n. 1 ≤ n) (per_queue f k)
per_queue-pos f zero h = tt
per_queue-pos f (suc k) h = (h k, per_queue-pos f k h)

small_share : (t k q : ℕ) → t < q → node_threads t k q ≡ 1
unfolding node_threads calc_thread_num
small_share t k q few = ground (arith, div-eq_of_lt few, mod-eq_of_lt few)

large_share : (t k q : ℕ) → 0 < q → q ≤ t → node_threads t k q ≡ calc_thread_num t k q
unfolding node_threads calc_thread_num
large_share t k q pos enough = ground arith

per_queue-ones :
    (f : ℕ → ℕ) (k : ℕ) → ((i : ℕ) → i < k → f i ≡ 1) → All (λ n. n ≡ 1) (per_queue f k)
per_queue-ones f zero h = tt
per_queue-ones f (suc k) h = (h k (omega arith), per_queue-ones f k (λ i lt. h i (omega arith)))

-- `numaLaunch` on at least one queue gives every queue a thread. With at least as many threads as
-- queues it serves all queues at once, with all threads together; with fewer it serves as many queues
-- at once as there are threads, each with one thread.
pub numa_launch-threads :
    (max_threads q : ℕ)
    → 0 < q
    → let (run_threads, shares) = numa_launch max_threads q in
      All (λ n. 1 ≤ n) shares
      × (q ≤ max_threads → (run_threads ≡ q) × (sum shares ≡ max_threads))
      × (max_threads < q → (run_threads ≡ max_threads) × All (λ n. n ≡ 1) shares)
unfolding numa_launch
numa_launch-threads t q some_queue = (
  per_queue-pos (λ k. node_threads t k q) q (λ k. node_threads-pos t k q),
  (λ enough. (
    omega arith,
    sum-same (λ k. node_threads t k q) (λ k. calc_thread_num t k q) q
          (λ i lt. large_share t i q some_queue enough)
        ∙ calc_thread_num-sum t q some_queue,
  )),
  (λ few.
      (omega arith, per_queue-ones (λ k. node_threads t k q) q (λ i lt. small_share t i q few))),
)
