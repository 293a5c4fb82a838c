-- ===== src/Tests/Distribute.antt =====
-- The theorems on the parallel step at concrete inputs: three numbers in two parts, by last bit.
use bingmann_sample_sort.Prelude.{
  ℕ, zero, suc, ◌+◌, ◌-◌, ◌*◌, ◌^◌, ◌==◌, true, Option, All, ◌%◌, ◌≤◌, ◌<◌, ◌≡◌, refl, List, [],
  ◌∷◌, length, ◌!◌, arith,
}
use bingmann_sample_sort.Prelude.Flat.{tally, flat}
use bingmann_sample_sort.Parallel.SortStep.{
  released, SubstepCount, substep_add, substep_notify_done, make, release, end_substep, Counted,
}
use bingmann_sample_sort.Parallel.SortStep.Laws.{substep_all_done_once}
use bingmann_sample_sort.Parallel.SampleSortStep.{
  maxprocs, Jobs, put, move_string, finish, pick, Reach, here, next, psize_of, part, start_step,
}
use bingmann_sample_sort.Tools.Strings.{CString, leq_from}
use bingmann_sample_sort.Tools.Keys.{get_uint64}
use bingmann_sample_sort.Sequential.Sorted.{Sorts}
use bingmann_sample_sort.Sequential.Inssort.{insert_rounds}
use bingmann_sample_sort.Sequential.Inssort.Laws.{insert_all-Sorts}
use bingmann_sample_sort.Sequential.Radix.Chars.{IsWithin}
use bingmann_sample_sort.Sequential.Classify.{find_bkt_tree}
use bingmann_sample_sort.Sequential.Classify.Laws.{find_bkt-Falls}
use bingmann_sample_sort.Sequential.SampleSort.Plan.{IsPlan}
use bingmann_sample_sort.Sequential.Generic.{Classify}
use bingmann_sample_sort.Sequential.TreeCalc.{classify_tree_calc_unroll}
use bingmann_sample_sort.Sequential.TreeCalc.Laws.{calc_unroll-IsClassify}
use bingmann_sample_sort.Parallel.SampleSort.{sequential_threshold, parallel_sample_sort}
use bingmann_sample_sort.Parallel.SampleSort.Laws.{parallel_sample_sort-Sorts}
use bingmann_sample_sort.Parallel.SampleSort.Runs.{run_step, run_step-IsEnded}
use bingmann_sample_sort.Parallel.SampleSortStep.SubSteps.{key_bkt, distribute_finished}
use bingmann_sample_sort.Parallel.SampleSortStep.Sorting.{parallel_step-Sorts}
use bingmann_sample_sort.Parallel.SampleSortStep.Parts.{parts-flat}
use bingmann_sample_sort.Parallel.SampleSortStep.Laws.{
  bucket_strings, distributed, parts_in, cut, distribute_lem,
}
use bingmann_sample_sort.Parallel.SampleSortStep.Finish.{steps, distribute_can_finish}

abbrev numbers : List ℕ
numbers = 4 ∷ 7 ∷ 6 ∷ []

abbrev room : List ℕ
room = 0 ∷ 0 ∷ 0 ∷ []

abbrev parity : ℕ → ℕ
parity n = n % 2

parity-lt : (n : ℕ) → parity n < 2
parity-lt n = omega arith

abbrev at_start : Jobs ℕ
at_start = start_step parity 2 3 numbers room

abbrev mid : (s : Jobs ℕ) × Reach (parts_in 3 numbers) at_start s
unfolding start_step
mid = (_, next (next here (pick 1 (omega arith) move_string)) (pick 0 (omega arith) move_string))

abbrev over : (s : Jobs ℕ) × Reach (parts_in 3 numbers) at_start s
unfolding start_step mid
over = (
  _,
  next (next (next mid.1 (pick 0 (omega arith) move_string)) (pick 1 (omega arith) finish))
      (pick 0 (omega arith) finish),
)

distribute_lem_example :
    (over.0.mem.sorted ≡ distributed parity 2 (parts_in 3 numbers) (cut 3 numbers))
    × ((b : ℕ)
        → b < 2
        → over.0.mem.bkt 0 ! b ≡ tally b (λ c. length (bucket_strings parity c numbers)))
unfolding start_step put over mid
distribute_lem_example =
    distribute_lem parity 2 3 numbers room over.0 parity-lt refl (omega arith) over.1 refl

distribute_can_finish_example :
    (steps mid.1 ≤ 3 + parts_in 3 numbers)
    × ((u : Jobs ℕ) × Reach (parts_in 3 numbers) mid.0 u × (u.mem.pwork ≡ 0))
unfolding start_step mid
distribute_can_finish_example =
    distribute_can_finish parity 2 3 numbers room mid.0 parity-lt refl (omega arith) mid.1

parts-flat_example :
    (0 < parts_in 3 numbers)
    × (parts_in 3 numbers ≤ maxprocs)
    × (flat (parts_in 3 numbers) (part (psize_of 3 (parts_in 3 numbers)) numbers) ≡ numbers)
parts-flat_example = parts-flat 3 numbers

distributed_array : over.0.mem.sorted ≡ 4 ∷ 6 ∷ 7 ∷ []
unfolding start_step put over mid
distributed_array = refl

-- The strings "b" and "a", each a part of its own, with "b" as the only splitter.
abbrev b_string : CString
b_string = 98 ∷ []

abbrev a_string : CString
a_string = 97 ∷ []

abbrev two_words : List CString
two_words = b_string ∷ a_string ∷ []

abbrev one_splitter : List ℕ
one_splitter = (98 * 256 ^ 7) ∷ []

abbrev find_one : ℕ → ℕ
find_one key = find_bkt_tree one_splitter key

one_splitter-IsPlan : IsPlan one_splitter find_one (λ i. 0) (λ i. true)
one_splitter-IsPlan = record {
  asc = (tt, tt);
  some_splitter = omega arith;
  few_splitters = omega arith;
  keys = λ i lt. one_key i lt;
  falls = λ key. (find_bkt-Falls key one_splitter (tt, tt) (omega arith) (omega arith)).1;
  lcp_first = refl;
  lcp_next = λ i lt. absurd (omega arith);
  done_iff = λ i lt. ended i lt;
}
  where
    one_key : (i : ℕ) → i < 1 → one_splitter ! i < 256 ^ 8
    one_key zero lt = omega arith
    one_key (suc i) lt = absurd (omega arith)

    ended : (i : ℕ) → i < 1 → true ≡ (one_splitter ! i % 256 == 0)
    ended zero lt = refl
    ended (suc i) lt = absurd (omega arith)

words-IsWithin : All (IsWithin 1) two_words
words-IsWithin = (((omega arith, tt), omega arith), (((omega arith, tt), omega arith), tt))

abbrev words_start : Jobs CString
words_start = start_step (key_bkt find_one 0) 3 2 two_words two_words

abbrev words_over : (s : Jobs CString) × Reach (parts_in 2 two_words) words_start s
unfolding start_step
words_over = (
  _,
  next
      (next (next (next here (pick 1 (omega arith) move_string)) (pick 0 (omega arith) move_string))
        (pick 1 (omega arith) finish))
      (pick 0 (omega arith) finish),
)

-- Insertion sort of all strings, whatever their number.
by_insertion : List CString → ℕ → Option (List CString)
by_insertion xs depth = insert_rounds (leq_from depth) (length xs - 1) 1 xs

parallel_step-Sorts_example :
    Sorts
      (leq_from 0)
      two_words
      (distribute_finished by_insertion (λ i. 0) (λ i. true) 1 0 words_over.0)
unfolding words_over put start_step key_bkt by_insertion find_bkt_tree get_uint64
parallel_step-Sorts_example =
    parallel_step-Sorts one_splitter-IsPlan 1 0 2 two_words two_words words_over.0 by_insertion 0 []
      words-IsWithin refl (omega arith) (omega arith) refl
      (λ xs d within le lt. insert_all-Sorts xs d) words_over.1 refl

abbrev same_room : List CString → ℕ → List CString
same_room xs d = xs

abbrev classifier : Classify (List ℕ)
classifier = classify_tree_calc_unroll 10

abbrev from_zero : List CString → ℕ → ℕ
from_zero strings depth = 0

-- What remains of the jobs of each step, one after the other.
abbrev ended_runs : List CString → ℕ → Jobs CString
ended_runs = run_step classifier from_zero (sequential_threshold 2 4) same_room

parallel_sample_sort-Sorts_example :
    Sorts
      (leq_from 0)
      two_words
      (parallel_sample_sort classifier from_zero by_insertion ended_runs 4 4 two_words 0)
unfolding by_insertion
parallel_sample_sort-Sorts_example =
    parallel_sample_sort-Sorts classifier from_zero 1 4 by_insertion same_room ended_runs 4
      two_words 0 calc_unroll-IsClassify (λ xs d. refl) (λ xs d within fits. insert_all-Sorts xs d)
      (run_step-IsEnded classifier from_zero (sequential_threshold 2 4) same_room
        calc_unroll-IsClassify 1 (λ xs d. refl))
      words-IsWithin (omega arith) (omega arith)

-- A step that has made its only substep, which has ended, and that has then released its handle.
abbrev counted_out : (m : SubstepCount) × Counted 1 m released
unfolding substep_add
counted_out =
    (_, Counted.next (Counted.next (Counted.next Counted.start make) (end_substep refl)) release)

substep_all_done_once_example : (counted_out.0.m_substep_working ≡ 0) × (counted_out.0.all_done ≡ 1)
unfolding counted_out substep_add substep_notify_done
substep_all_done_once_example =
    substep_all_done_once 1 counted_out.0 released (omega arith) counted_out.1
