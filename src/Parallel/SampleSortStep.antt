-- ===== src/Parallel/SampleSortStep.antt =====
-- src/parallel/bingmann-parallel_sample_sort.hpp, SampleSortStep: the strings are split into parts,
-- each job counts the buckets of one part, the counts are summed up, and each job then moves the
-- strings of one part to the shadow array, where the jobs write at the same time.
pub mod Parts
pub mod Sums
pub mod Regions
pub mod Moves
pub mod Start
pub mod Laws
pub mod Finish
pub mod Permuted
pub mod SubSteps
pub mod Places
pub mod Sorting
use bingmann_sample_sort.Prelude.{
  ℕ, zero, suc, ◌+◌, ◌-◌, ◌*◌, ◌/◌, ◌≡◌, ◌<◌, List, [], ◌∷◌, ltb, ◌==◌, if◌then◌else◌, length, set,
  take, drop, map, ◌!◌, min, dec64,
}
use bingmann_sample_sort.Prelude.Family.{update}
use bingmann_sample_sort.Sequential.Buckets.{count_buckets}

-- `MAXPROCS`
abbrev pub maxprocs : ℕ
maxprocs = 129

-- `parts` and `psize`, as the constructor sets them
unfoldable pub parts_of : ℕ → ℕ → ℕ
parts_of size sequential_threshold =
    let parts = size / sequential_threshold * 2 in
    let some_parts = if parts == 0 then 1 else parts in
    if ltb maxprocs some_parts then maxprocs else some_parts

unfoldable pub psize_of : ℕ → ℕ → ℕ
psize_of size parts = (size + parts - 1) / parts

module _ {ℓ} {A : Type ℓ} where
  -- the strings from `strB` to `strE` of part `p`
  unfoldable pub part : ℕ → List A → ℕ → List A
  part psize strings p =
      let strB = p * psize in
      let strE = min ((p + 1) * psize) (length strings) in
      let strE' = if ltb strE strB then strB else strE in take (strE' - strB) (drop strB strings)

  -- `bktcache[p]`, each bucket with its string
  unfoldable pub classify_part : (A → ℕ) → List A → List (ℕ × A)
  classify_part find_bkt strings = map (λ s. (find_bkt s, s)) strings

  -- `count`, which fills `bkt[p]`; the place for the sentinel in `bkt[0]` is not initialized
  unfoldable pub count_part : ℕ → List (ℕ × A) → List ℕ
  unfolding count_buckets
  count_part bktnum bktcache = count_buckets bktnum (map (λ c. c.0) bktcache)

-- The two loops of `count_finished`, each with the rounds that are left.
unfoldable pub sum_parts : ℕ → ℕ → ℕ → ℕ → (ℕ → List ℕ) → ℕ × (ℕ → List ℕ)
sum_parts zero p i sum bkt = (sum, bkt)
sum_parts (suc k) p i sum bkt =
    let sum' = sum + bkt p ! i in sum_parts k (suc p) i sum' (update bkt p (set (bkt p) i sum'))

unfoldable pub sum_buckets : ℕ → ℕ → ℕ → ℕ → (ℕ → List ℕ) → ℕ → List ℕ
unfolding sum_parts
sum_buckets zero parts i sum bkt = bkt
sum_buckets (suc k) parts i sum bkt =
    let (sum', bkt') = sum_parts parts 0 i sum bkt in sum_buckets k parts (suc i) sum' bkt'

unfoldable pub count_finished : ℕ → ℕ → (ℕ → List ℕ) → ℕ → List ℕ
unfolding sum_buckets
count_finished bktnum parts bkt = sum_buckets bktnum parts 0 0 bkt

-- What the DistributeJobs share: the shadow array, the index arrays and the number of jobs at work.
pub record StepState {ℓ} (A : Type ℓ) : Type ℓ where
  pub sorted : List A
  pub bkt : ℕ → List ℕ
  pub pwork : ℕ

-- Where a job stands in `distribute`, with the strings that it has still to move.
pub data Distributing {ℓ} (A : Type ℓ) : Type ℓ where
  moving : (todo : List (ℕ × A)) → Distributing A
  finished : Distributing A

pub record Jobs {ℓ} (A : Type ℓ) : Type ℓ where
  pub mem : StepState A
  pub phase : ℕ → Distributing A

module _ {ℓ} {A : Type ℓ} where
  -- `*(sbegin + --mybkt[*mybktcache]) = std::move(*str)`
  unfoldable pub put : ℕ → ℕ → A → StepState A → StepState A
  put p b str m =
      let j = dec64 (m.bkt p ! b) in
      record {
        sorted = set m.sorted j str;
        bkt = update m.bkt p (set (m.bkt p) b j);
        pwork = m.pwork;
      }

  -- One step of the job for part `p`.
  pub data DistributeMove (p : ℕ) (m : StepState A)
      : Distributing A → StepState A → Distributing A → Type ℓ where
    move_string :
        {b : ℕ} {str : A} {todo : List (ℕ × A)}
        → DistributeMove p m (moving ((b, str) ∷ todo)) (put p b str m) (moving todo)
    finish : DistributeMove p m (moving []) (record m { pwork = dec64 m.pwork }) finished

  -- Any job may go next.
  pub data JobsStep (parts : ℕ) (s : Jobs A) : Jobs A → Type ℓ where
    pick :
        (p : ℕ) {m : StepState A} {ph : Distributing A}
        → p < parts
        → DistributeMove p s.mem (s.phase p) m ph
        → JobsStep parts s (record { mem = m; phase = update s.phase p ph })

  pub data Reach (parts : ℕ) (s : Jobs A) : Jobs A → Type ℓ where
    here : Reach parts s s
    next : {t u : Jobs A} → Reach parts s t → JobsStep parts t u → Reach parts s u

  -- The jobs as `count_finished` enqueues them, for the parts `strs` and a shadow array that holds anything.
  unfoldable pub start_distribute : (A → ℕ) → ℕ → ℕ → (ℕ → List A) → List A → Jobs A
  unfolding classify_part count_part count_finished
  start_distribute find_bkt bktnum parts strs shadow =
      let cache = λ (p : ℕ). classify_part find_bkt (strs p) in
      record {
        mem = record {
          sorted = shadow;
          bkt = count_finished bktnum parts (λ p. count_part bktnum (cache p));
          pwork = parts;
        };
        phase = λ p. moving (cache p);
      }

  -- The jobs for an array of strings, cut into the parts that the constructor chooses.
  unfoldable pub start_step : (A → ℕ) → ℕ → ℕ → List A → List A → Jobs A
  unfolding parts_of psize_of part start_distribute
  start_step find_bkt bktnum sequential_threshold strings shadow =
      let parts = parts_of (length strings) sequential_threshold in
      let psize = psize_of (length strings) parts in
      start_distribute find_bkt bktnum parts (part psize strings) shadow
