-- ===== src/Parallel/JobQueue.antt =====
-- src/tools/jobqueue.hpp: worker threads over one queue of jobs, an access to shared data at a time.
-- The queue itself, tbb::concurrent_queue, and the body of a job are parameters.
use bingmann_sample_sort.Prelude.{
  ℕ, ◌+◌, ◌-◌, ◌%◌, ◌^◌, ◌<◌, ◌≡◌, ◌≢◌, ◌==◌, not, Bool, true, Option, none, some, List, [], ◌∷◌,
  ◌++◌,
}
use bingmann_sample_sort.Prelude.Family.{update}
pub mod Invariant
pub mod Safety
pub mod Threads

-- What the workers rely on of `tbb::concurrent_queue`: first in, first out, each call at once.
pub record ConcurrentQueue (Q : Type 0) : Type 0 where
  pub push : ℕ → Q → Q
  pub try_pop : Q → Option (ℕ × Q)
  pub items : Q → List ℕ
  pub items-push : (j : ℕ) (q : Q) → items (push j q) ≡ items q ++ j ∷ []
  pub pop_none : (q : Q) → try_pop q ≡ none → items q ≡ []
  pub pop_some : (q q' : Q) (j : ℕ) → try_pop q ≡ some (j, q') → items q ≡ j ∷ items q'

-- `++m_idle_count` and `--m_idle_count` on an `unsigned int`
abbrev pub inc32 : ℕ → ℕ
inc32 n = (n + 1) % 2 ^ 32

abbrev pub dec32 : ℕ → ℕ
dec32 n = (n + (2 ^ 32 - 1)) % 2 ^ 32

-- Where a worker stands in `executeThreadWork`, with its job and what the job still enqueues.
pub data Phase : Type 0 where
  popping : Phase  -- head of the first `while (m_queue.try_pop(job))`
  running : (job : ℕ) (todo : List ℕ) → Phase  -- inside `job->run(m_cookie)`
  switching : Phase  -- before `++m_idle_count`
  idling : Phase  -- head of `while (!m_queue.try_pop(job))`
  checking : Phase  -- before `m_idle_count == m_numthrs`
  waking : (job : ℕ) → Phase  -- before `--m_idle_count`
  assisting : Phase  -- head of `while (m_group->assist(m_id))`
  returned : Phase

-- The members that the workers share, and the history of jobs that came in and that ended.
pub record Shared (Q : Type 0) : Type 0 where
  pub m_queue : Q
  pub m_idle_count : ℕ
  pub enqueued : List ℕ
  pub finished : List ℕ

module _ {Q : Type 0} (c : ConcurrentQueue Q) where
  -- `enqueue(job)`
  abbrev pub enqueue : ℕ → Shared Q → Shared Q
  enqueue job m = record m { m_queue = c.push job m.m_queue; enqueued = job ∷ m.enqueued }

  -- `try_run()`, up to the run of the job that it takes
  abbrev pub try_run : ℕ → Shared Q → Bool × Option ℕ × Shared Q
  try_run m_numthrs m = elim (c.try_pop m.m_queue) [
    | none ↦ (not (m.m_idle_count == m_numthrs), none, m)
    | some (job, q) ↦ (true, some job, record m { m_queue = q })
  ]

  module _ (Runs : ℕ → List ℕ → Type 0) (m_numthrs : ℕ) where
    -- One step of one worker in `executeThreadWork`. A run of a job may enqueue any jobs that stand
    -- to it in `Runs`, others at each run; the group of the queue has nothing to assist with.
    pub data Move (m : Shared Q) : Phase → Shared Q → Phase → Type 0 where
      pop_job :
          {j : ℕ} {q : Q} {todo : List ℕ}
          → c.try_pop m.m_queue ≡ some (j, q)
          → Runs j todo
          → Move m popping (record m { m_queue = q }) (running j todo)
      pop_fails : c.try_pop m.m_queue ≡ none → Move m popping m switching
      enqueue_job :
          {j k : ℕ} {todo : List ℕ} → Move m (running j (k ∷ todo)) (enqueue k m) (running j todo)
      end_run : {j : ℕ} → Move m (running j []) (record m { finished = j ∷ m.finished }) popping
      switch : Move m switching (record m { m_idle_count = inc32 m.m_idle_count }) idling
      idle_pop :
          {j : ℕ} {q : Q}
          → c.try_pop m.m_queue ≡ some (j, q)
          → Move m idling (record m { m_queue = q }) (waking j)
      idle_fails : c.try_pop m.m_queue ≡ none → Move m idling m checking
      all_idle : m.m_idle_count ≡ m_numthrs → Move m checking m assisting
      some_busy : m.m_idle_count ≢ m_numthrs → Move m checking m idling
      wake :
          {j : ℕ} {todo : List ℕ}
          → Runs j todo
          → Move m (waking j) (record m { m_idle_count = dec32 m.m_idle_count }) (running j todo)
      no_assist : Move m assisting m returned

    pub record System : Type 0 where
      pub mem : Shared Q
      pub phase : ℕ → Phase

    -- Any thread of the parallel region may go next.
    pub data Step (s : System) : System → Type 0 where
      pick :
          (i : ℕ) {m : Shared Q} {p : Phase}
          → i < m_numthrs
          → Move s.mem (s.phase i) m p
          → Step s (record { mem = m; phase = update s.phase i p })

    -- `loop()`: the count is reset, and all threads start on what the queue holds.
    abbrev pub loop : Q → System
    loop q = record {
      mem = record { m_queue = q; m_idle_count = 0; enqueued = c.items q; finished = [] };
      phase = λ _. popping;
    }

    pub data Reach (s : System) : System → Type 0 where
      here : Reach s s
      next : {t u : System} → Reach s t → Step t u → Reach s u
