-- ===== src/Parallel/JobQueue/Invariant.antt =====
-- src/tools/jobqueue.hpp: what holds of the shared members between any two steps of the workers.
use bingmann_sample_sort.Prelude.{
  ℕ, ◌+◌, ◌^◌, ◌≤◌, ◌<◌, ◌≡◌, refl, List, [], ◌∷◌, ◌++◌, count, hit, arith,
}
use bingmann_sample_sort.Prelude.Family.{
  update, total, total-update, total-full, total-zero, total-member,
}
use bingmann_sample_sort.Parallel.JobQueue.{
  ConcurrentQueue, Phase, popping, running, idling, checking, waking, assisting, returned, Shared,
  Move, pop_job, pop_fails, enqueue_job, switch, idle_pop, wake, System, Step, pick, loop, Reach,
  here, next,
}

-- Between the two changes of `m_idle_count`.
abbrev pub idles : Phase → ℕ
idles idling = 1
idles checking = 1
idles (waking _) = 1
idles assisting = 1
idles returned = 1
idles _ = 0

-- How often a worker has job `c` in its hands.
abbrev pub holds : ℕ → Phase → ℕ
holds c (running j _) = hit j c
holds c (waking j) = hit j c
holds c _ = 0

-- The phases that go on to look into the queue before they give up.
abbrev pub active : Phase → ℕ
active popping = 1
active (running _ _) = 1
active (waking _) = 1
active _ = 0

idles-le : (p : Phase) → idles p ≤ 1
idles-le p = ground arith

pub count-snoc : (c : ℕ) (xs : List ℕ) (j : ℕ) → count c (xs ++ j ∷ []) ≡ count c xs + hit j c
count-snoc c [] j = omega arith
count-snoc c (x ∷ xs) j = omega (arith, count-snoc c xs j)

module _ {Q : Type 0} (c : ConcurrentQueue Q) (Runs : ℕ → List ℕ → Type 0) (n : ℕ) where
  -- The idle count is right, no job is lost or doubled, and somebody cares while there are jobs.
  pub record Inv (m : Shared Q) (phase : ℕ → Phase) : Type 0 where
    pub counted : m.m_idle_count ≡ total idles n phase
    pub kept :
        (j : ℕ)
        → count j (c.items m.m_queue) + total (holds j) n phase + count j m.finished
          ≡ count j m.enqueued
    pub cared : total active n phase ≡ 0 → c.items m.m_queue ≡ []

  -- What worker `i` adds to each sum before and after it goes from `p` to `p'`.
  record Mover (phase : ℕ → Phase) (i : ℕ) (p p' : Phase) : Type 0 where
    idlers : total idles n (update phase i p') + idles p ≡ total idles n phase + idles p'
    holders :
        (j : ℕ)
        → total (holds j) n (update phase i p') + holds j p ≡ total (holds j) n phase + holds j p'
    actives : total active n (update phase i p') + active p ≡ total active n phase + active p'
    room : (total idles n phase ≤ n) × (total idles n (update phase i p') ≤ n)
    own : (idles p ≤ total idles n phase) × (active p ≤ total active n phase)

  mover : (phase : ℕ → Phase) (i : ℕ) → i < n → (p' : Phase) → Mover phase i (phase i) p'
  mover phase i lt p' = record {
    idlers = total-update idles n phase i p' lt;
    holders = λ j. total-update (holds j) n phase i p' lt;
    actives = total-update active n phase i p' lt;
    room = (
      (total-full idles idles-le n phase).0,
      (total-full idles idles-le n (update phase i p')).0,
    );
    own = (total-member idles n phase i lt, total-member active n phase i lt);
  }

  module _ {m : Shared Q} {phase : ℕ → Phase} (few : n < 2 ^ 32) (inv : Inv m phase) (i : ℕ) where
    Move-counted :
        {p p' : Phase} {m' : Shared Q}
        → Move c Runs n m p m' p'
        → Mover phase i p p'
        → m'.m_idle_count ≡ total idles n (update phase i p')
    Move-counted switch f = ground (arith, inv.counted)
    Move-counted (wake r) f = ground (arith, inv.counted)
    Move-counted mv f = ground (arith, inv.counted)

    Move-kept :
        {p p' : Phase} {m' : Shared Q}
        → Move c Runs n m p m' p'
        → Mover phase i p p'
        → (j : ℕ)
        → count j (c.items m'.m_queue) + total (holds j) n (update phase i p') + count j m'.finished
          ≡ count j m'.enqueued
    Move-kept (pop_job e r) f j =
        let old = inv.kept j in let front = c.pop_some _ _ _ e in ground (arith, f.holders j)
    Move-kept (idle_pop e) f j =
        let old = inv.kept j in let front = c.pop_some _ _ _ e in ground (arith, f.holders j)
    Move-kept (enqueue_job {j = k'} {k} {todo}) f j =
        let old = inv.kept j in
        let back : count j (c.items (c.push k m.m_queue)) ≡ count j (c.items m.m_queue) + hit k j =
          rw (c.items-push k m.m_queue) (count-snoc j (c.items m.m_queue) k) in
        ground (arith, f.holders j, back)
    Move-kept mv f j = ground (arith, inv.kept j, f.holders j)

    Move-cared :
        {p p' : Phase} {m' : Shared Q}
        → Move c Runs n m p m' p'
        → Mover phase i p p'
        → total active n (update phase i p') ≡ 0
        → c.items m'.m_queue ≡ []
    Move-cared (pop_fails e) f z = c.pop_none _ e
    Move-cared (pop_job e r) f z = absurd (omega (arith, f.own))
    Move-cared (idle_pop e) f z = absurd (omega (arith, f.own))
    Move-cared mv f z = ground (arith, inv.cared)

  Inv-loop : (q : Q) → 0 < n → Inv (loop c Runs n q).mem (loop c Runs n q).phase
  Inv-loop q some = record {
    counted = omega (arith, total-zero idles n (λ _. popping) (λ i lt. refl));
    kept = λ j. omega (arith, total-zero (holds j) n (λ _. popping) (λ i lt. refl));
    cared = λ z. absurd (omega (arith, total-member active n (λ _. popping) 0 some));
  }

  pub Step-Inv :
      {s t : System c Runs n}
      → n < 2 ^ 32
      → Step c Runs n s t
      → Inv s.mem s.phase
      → Inv t.mem t.phase
  Step-Inv {s} few (pick i {p} lt mv) inv =
      let f = mover s.phase i lt p in
      record {
        counted = Move-counted few inv i mv f;
        kept = Move-kept few inv i mv f;
        cared = Move-cared few inv i mv f;
      }

  pub Reach-Inv :
      {q : Q} {s : System c Runs n}
      → 0 < n
      → n < 2 ^ 32
      → Reach c Runs n (loop c Runs n q) s
      → Inv s.mem s.phase
  Reach-Inv {q} some few here = Inv-loop q some
  Reach-Inv some few (next r st) = Step-Inv few st (Reach-Inv some few r)
