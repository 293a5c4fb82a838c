-- ===== src/Sequential/SampleSort/Original.antt =====
-- The sorters that src/sequential/bingmann-sample_sortBSC.cpp exports.
use bingmann_sample_sort.Prelude.{ℕ, ◌+◌, ◌^◌, ◌<◌, List, length, All, arith}
use bingmann_sample_sort.Tools.Strings.{CString, leq_from}
use bingmann_sample_sort.Sequential.Sorted.{Sorts}
use bingmann_sample_sort.Sequential.Radix.Chars.{IsWithin}
use bingmann_sample_sort.Sequential.Classify.{
  find_bkt_binsearch, find_bkt_assembler, find_bkt_equal, find_bkt_asmequal,
}
use bingmann_sample_sort.Sequential.Classify.Laws.{find_bkt-Falls}
use bingmann_sample_sort.Sequential.SampleSort.{
  bingmann_sample_sort_bsc_original, bingmann_sample_sort_bsca_original,
  bingmann_sample_sort_bsce_original, bingmann_sample_sort_bscea_original,
}
use bingmann_sample_sort.Sequential.SampleSort.Laws.{IsClassifier, sample_sort_bsc-Sorts}

pub binsearch-IsClassifier : IsClassifier find_bkt_binsearch
binsearch-IsClassifier = record { finds = λ key sp a p l. (find_bkt-Falls key sp a p l).0 }

assembler-IsClassifier : IsClassifier find_bkt_assembler
assembler-IsClassifier = record { finds = λ key sp a p l. (find_bkt-Falls key sp a p l).2 }

equal-IsClassifier : IsClassifier find_bkt_equal
equal-IsClassifier = record { finds = λ key sp a p l. (find_bkt-Falls key sp a p l).3 }

asmequal-IsClassifier : IsClassifier find_bkt_asmequal
asmequal-IsClassifier = record { finds = λ key sp a p l. (find_bkt-Falls key sp a p l).4 }

-- Each of the four exported sample sorts by binary search, given fewer than 2 ^ 64 strings of bytes
-- within a limit below 2 ^ 31, returns its strings, none lost, in the
-- order of their characters, whatever its random numbers start from, once its calls may nest deeper
-- than the number of strings and the limit together.
pub bingmann_sample_sort_bsc_original-Sorts :
    (address : List CString → ℕ → ℕ) (limit fuel : ℕ) (strings : List CString)
    → All (IsWithin limit) strings
    → length strings < 2 ^ 64
    → limit < 2 ^ 31
    → length strings + limit < fuel
    → Sorts (leq_from 0) strings (bingmann_sample_sort_bsc_original address fuel strings)
      × Sorts (leq_from 0) strings (bingmann_sample_sort_bsca_original address fuel strings)
      × Sorts (leq_from 0) strings (bingmann_sample_sort_bsce_original address fuel strings)
      × Sorts (leq_from 0) strings (bingmann_sample_sort_bscea_original address fuel strings)
unfolding bingmann_sample_sort_bsc_original bingmann_sample_sort_bsca_original
    bingmann_sample_sort_bsce_original bingmann_sample_sort_bscea_original
bingmann_sample_sort_bsc_original-Sorts address limit fuel strings within fits bound enough = (
  sample_sort_bsc-Sorts find_bkt_binsearch binsearch-IsClassifier address limit fuel strings 0
      within fits bound (omega arith) (omega arith),
  sample_sort_bsc-Sorts find_bkt_assembler assembler-IsClassifier address limit fuel strings 0
      within fits bound (omega arith) (omega arith),
  sample_sort_bsc-Sorts find_bkt_equal equal-IsClassifier address limit fuel strings 0 within fits
      bound (omega arith) (omega arith),
  sample_sort_bsc-Sorts find_bkt_asmequal asmequal-IsClassifier address limit fuel strings 0 within
      fits bound (omega arith) (omega arith),
)
