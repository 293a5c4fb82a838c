-- ===== src/Tests.antt =====
-- The theorems at concrete inputs.
mod Distribute
mod Queue
mod Sorters
use bingmann_sample_sort.Prelude.{
  some, ℕ, suc, ◌%◌, ◌+◌, ◌-◌, ◌*◌, ◌/◌, ◌^◌, ◌≤◌, ◌<◌, ◌≡◌, ◌≢◌, refl, true, none, List, [], ◌∷◌,
  map, length, All, Perm, ◌!◌, arith,
}
use bingmann_sample_sort.Tools.Strings.{CString, IsBytes, leq_from, leq_scan}
use bingmann_sample_sort.Tools.Compare.{
  scmp, is_nonpositive, scmp-leq_scan, check_order, check_order-true,
}
use bingmann_sample_sort.Tools.Bits.{count_high_zero_bits128}
use bingmann_sample_sort.Tools.Bits.Wide.{IsLeading, count_high_zero_bits128_lem}
use bingmann_sample_sort.Tools.Keys.{get_char_uint64, get_uint64, get_char_simple}
use bingmann_sample_sort.Tools.Keys.Load.{get_char_uint64-get_uint64}
use bingmann_sample_sort.Tools.Keys.Order.{by_key, leq_from-get_uint64}
use bingmann_sample_sort.Tools.KeyLcp.{lcp_key_type, lcp_key_type_lem}
use bingmann_sample_sort.Sequential.Sorted.{Sorts}
use bingmann_sample_sort.Sequential.Inssort.{inssort, inssort_generic}
use bingmann_sample_sort.Sequential.Inssort.Laws.{inssort-Sorts, inssort_generic-Sorts}
use bingmann_sample_sort.Sequential.Buckets.{permute, count_buckets}
use bingmann_sample_sort.Sequential.Buckets.Sizes.{start}
use bingmann_sample_sort.Sequential.Buckets.Permute.{permute_lem}
use bingmann_sample_sort.Sequential.Radix.{msd_ci2}
use bingmann_sample_sort.Sequential.Radix.Chars.{IsWithin}
use bingmann_sample_sort.Sequential.Radix.Laws.{msd_ci2-Sorts}
use bingmann_sample_sort.Sequential.Classify.{
  find_bkt_binsearch, find_bkt_tree, find_bkt_assembler, find_bkt_equal, find_bkt_asmequal,
}
use bingmann_sample_sort.Sequential.Classify.Rank.{Falls, IsAscending, bucket_of}
use bingmann_sample_sort.Sequential.Classify.Laws.{find_bkt-Falls, find_bkt-bucket_of}
use bingmann_sample_sort.Sequential.Trees.{
  SplitterTree, find_bkt_simple, find_bkt_tree_assembler, find_bkt_unroll,
}
use bingmann_sample_sort.Sequential.Trees.InOrder.{InOrder}
use bingmann_sample_sort.Sequential.Trees.Descent.{IsTree, find_bkt_simple-bucket_of}
use bingmann_sample_sort.Sequential.Generic.{
  bingmann_sample_sort_btc, bingmann_sample_sort_btca, bingmann_sample_sort_btcu,
}
use bingmann_sample_sort.Sequential.Generic.Trees.{bingmann_sample_sort_btc-Sorts}
use bingmann_sample_sort.Sequential.SampleSort.{
  sample_sort_bsc, bingmann_sample_sort_bsc_original, bingmann_sample_sort_bsca_original,
  bingmann_sample_sort_bsce_original, bingmann_sample_sort_bscea_original,
}
use bingmann_sample_sort.Sequential.Uncached.{permute_keys, sample_sort_bs}
use bingmann_sample_sort.Sequential.Uncached.Permute.{permute_keys-permute}
use bingmann_sample_sort.Sequential.Uncached.Laws.{sample_sort_bs-Sorts}
use bingmann_sample_sort.Sequential.SampleSort.Prefix.{inside-leq_from}
use bingmann_sample_sort.Sequential.SampleSort.Laws.{sample_sort_bsc-Sorts}
use bingmann_sample_sort.Sequential.SampleSort.Original.{
  binsearch-IsClassifier, bingmann_sample_sort_bsc_original-Sorts,
}

-- "b", "ac" and "ab", in this order
abbrev b_string : CString
b_string = 98 ∷ []

abbrev ac_string : CString
ac_string = 97 ∷ 99 ∷ []

abbrev ab_string : CString
ab_string = 97 ∷ 98 ∷ []

abbrev three_strings : List CString
three_strings = b_string ∷ ac_string ∷ ab_string ∷ []

b-IsBytes : IsBytes b_string
b-IsBytes = (omega arith, tt)

ac-IsBytes : IsBytes ac_string
ac-IsBytes = (omega arith, (omega arith, tt))

ab-IsBytes : IsBytes ab_string
ab-IsBytes = (omega arith, (omega arith, tt))

three-IsWithin : All (IsWithin 2) three_strings
three-IsWithin =
    ((b-IsBytes, omega arith), ((ac-IsBytes, omega arith), ((ab-IsBytes, omega arith), tt)))

abbrev no_address : List CString → ℕ → ℕ
no_address strings depth = 4096

bingmann_sample_sort_bsc_original-Sorts_example :
    Sorts (leq_from 0) three_strings (bingmann_sample_sort_bsc_original no_address 6 three_strings)
    × Sorts
        (leq_from 0)
        three_strings
        (bingmann_sample_sort_bsca_original no_address 6 three_strings)
    × Sorts
        (leq_from 0)
        three_strings
        (bingmann_sample_sort_bsce_original no_address 6 three_strings)
    × Sorts
        (leq_from 0)
        three_strings
        (bingmann_sample_sort_bscea_original no_address 6 three_strings)
bingmann_sample_sort_bsc_original-Sorts_example =
    bingmann_sample_sort_bsc_original-Sorts no_address 2 6 three_strings three-IsWithin
      (omega arith) (omega arith) (omega arith)

sample_sort_bsc-Sorts_example :
    Sorts
      (leq_from 1)
      three_strings
      (sample_sort_bsc find_bkt_binsearch no_address 5 three_strings 1)
sample_sort_bsc-Sorts_example =
    sample_sort_bsc-Sorts find_bkt_binsearch binsearch-IsClassifier no_address 2 5 three_strings 1
      three-IsWithin (omega arith) (omega arith) (omega arith) (omega arith)

msd_ci2-Sorts_example : Sorts (leq_from 0) three_strings (msd_ci2 3 three_strings 0)
msd_ci2-Sorts_example =
    msd_ci2-Sorts 2 3 three_strings 0 three-IsWithin (omega arith) (omega arith) (omega arith)
      (omega arith) (omega arith)

abbrev own_bucket : ℕ → ℕ
own_bucket b = b

abbrev four_numbers : List ℕ
four_numbers = 2 ∷ 0 ∷ 2 ∷ 1 ∷ []

four_small : All (λ b. b < 3) (map own_bucket four_numbers)
four_small = (omega arith, (omega arith, (omega arith, (omega arith, tt))))

permute_lem_example :
    Perm
      (permute
        (count_buckets 3 (map own_bucket four_numbers))
        four_numbers
        (map own_bucket four_numbers))
      four_numbers
    × ((c p : ℕ)
        → start (count_buckets 3 (map own_bucket four_numbers)) c ≤ p
        → p < start (count_buckets 3 (map own_bucket four_numbers)) (suc c)
        → map own_bucket (
              permute
                (count_buckets 3 (map own_bucket four_numbers))
                four_numbers
                (map own_bucket four_numbers))
            ! p
          ≡ c)
permute_lem_example = permute_lem own_bucket 3 four_numbers four_small (omega arith)

abbrev three_splitters : List ℕ
three_splitters = 3 ∷ 5 ∷ 9 ∷ []

three-IsAscending : IsAscending three_splitters
three-IsAscending = ((refl, (refl, tt)), ((refl, tt), (tt, tt)))

find_bkt-Falls_example :
    Falls three_splitters 6 (find_bkt_binsearch 6 three_splitters)
    × Falls three_splitters 6 (find_bkt_tree three_splitters 6)
    × Falls three_splitters 6 (find_bkt_assembler 6 three_splitters)
    × Falls three_splitters 6 (find_bkt_equal 6 three_splitters)
    × Falls three_splitters 6 (find_bkt_asmequal 6 three_splitters)
find_bkt-Falls_example =
    find_bkt-Falls 6 three_splitters three-IsAscending (omega arith) (omega arith)

find_bkt-bucket_of_example :
    (find_bkt_binsearch 9 three_splitters ≡ bucket_of 9 three_splitters)
    × (find_bkt_tree three_splitters 9 ≡ bucket_of 9 three_splitters)
    × (find_bkt_assembler 9 three_splitters ≡ bucket_of 9 three_splitters)
find_bkt-bucket_of_example =
    find_bkt-bucket_of 9 three_splitters three-IsAscending (omega arith) (omega arith)

abbrev four_samples : List ℕ
four_samples = 3 ∷ 3 ∷ 4 ∷ 8 ∷ []

inssort-Sorts_example : Sorts (leq_from 0) three_strings (inssort three_strings 3 0)
inssort-Sorts_example = inssort-Sorts three_strings 0 (omega arith) (omega arith)

inssort_generic-Sorts_example :
    (0 < length three_strings → Sorts (leq_from 0) three_strings (inssort_generic three_strings 0))
    × (length three_strings ≡ 0 → inssort_generic three_strings 0 ≡ none)
inssort_generic-Sorts_example = inssort_generic-Sorts three_strings 0 (omega arith)

get_char_uint64-get_uint64_example : get_char_uint64 ac_string 1 ≡ get_uint64 ac_string 1
get_char_uint64-get_uint64_example = get_char_uint64-get_uint64 ac_string 1 ac-IsBytes

leq_from-get_uint64_example :
    leq_from 0 ac_string ab_string
    ≡ by_key
        (get_uint64 ac_string 0)
        (get_uint64 ab_string 0)
        (leq_from (0 + 8) ac_string ab_string)
leq_from-get_uint64_example = leq_from-get_uint64 0 ac_string ab_string ac-IsBytes ab-IsBytes

lcp_key_type_lem_example :
    (lcp_key_type 70000 70001 < 8)
    × (70000 / 256 ^ (8 - lcp_key_type 70000 70001) ≡ 70001 / 256 ^ (8 - lcp_key_type 70000 70001))
    × (70000 / 256 ^ (7 - lcp_key_type 70000 70001) ≢ 70001 / 256 ^ (7 - lcp_key_type 70000 70001))
lcp_key_type_lem_example =
    lcp_key_type_lem 70000 70001 (omega arith) (omega arith) (λ e. omega (arith, e))

ab_key : get_uint64 ab_string 0 ≡ 97 * 256 ^ 7 + 98 * 256 ^ 6
unfolding get_uint64 get_char_simple
ab_key = refl

ac_key : get_uint64 ac_string 0 ≡ 97 * 256 ^ 7 + 99 * 256 ^ 6
unfolding get_uint64 get_char_simple
ac_key = refl

inside-leq_from_example :
    leq_from 0 ab_string ac_string
    ≡ leq_from (0 + lcp_key_type (97 * 256 ^ 7) (97 * 256 ^ 7 + 100 * 256 ^ 6)) ab_string ac_string
inside-leq_from_example =
    inside-leq_from (97 * 256 ^ 7) (97 * 256 ^ 7 + 100 * 256 ^ 6) 0 (omega arith) (omega arith)
      ab_string ac_string (ab-IsBytes, omega (arith, ab_key), omega (arith, ab_key))
      (ac-IsBytes, omega (arith, ac_key), omega (arith, ac_key))

scmp-leq_scan_example : is_nonpositive (scmp ac_string ab_string) ≡ leq_scan ac_string ab_string
scmp-leq_scan_example = scmp-leq_scan ac_string ab_string

check_order-true_example :
    (0 < length three_strings → check_order three_strings ≡ some true)
    × (length three_strings ≡ 0 → check_order three_strings ≡ none)
check_order-true_example = check_order-true three_strings

-- A word whose highest bit is set, with 61 zero bits before the next one of its lower half.
abbrev wide_word : ℕ
wide_word = 2 ^ 127 + 5

count_high_zero_bits128_lem_example :
    (wide_word ≡ 0 → count_high_zero_bits128 wide_word ≡ some 128)
    × (0 < wide_word → wide_word < 2 ^ 64 → count_high_zero_bits128 wide_word ≡ none)
    × (2 ^ 64 ≤ wide_word
        → wide_word < 2 ^ 127
        → (z : ℕ) × (count_high_zero_bits128 wide_word ≡ some z) × IsLeading 128 wide_word z)
    × (2 ^ 127 ≤ wide_word
        → (wide_word % 2 ^ 64 ≡ 0 → count_high_zero_bits128 wide_word ≡ none)
          × (wide_word % 2 ^ 64 ≢ 0
              → (z : ℕ) × (count_high_zero_bits128 wide_word ≡ some (64 + z))
                × IsLeading 64 (wide_word % 2 ^ 64) z))
count_high_zero_bits128_lem_example = count_high_zero_bits128_lem wide_word (omega arith)

abbrev small_tree : SplitterTree
small_tree = record { splitter = three_splitters; splitter_tree = 0 ∷ 5 ∷ 3 ∷ 9 ∷ [] }

small-InOrder : InOrder (0 ∷ 5 ∷ 3 ∷ 9 ∷ []) 2 1 three_splitters
small-InOrder =
    InOrder.node 1 1 (3 ∷ []) (9 ∷ []) (InOrder.node 0 2 [] [] (InOrder.leaf 4) (InOrder.leaf 5))
      (InOrder.node 0 3 [] [] (InOrder.leaf 6) (InOrder.leaf 7))

small-IsTree : IsTree 2 small_tree
small-IsTree = record {
  in_order = small-InOrder;
  asc = three-IsAscending;
  some_bits = omega arith;
  few_bits = omega arith;
}

find_bkt_simple-bucket_of_example :
    (find_bkt_simple small_tree 6 ≡ bucket_of 6 three_splitters)
    × (find_bkt_tree_assembler small_tree 6 ≡ bucket_of 6 three_splitters)
    × (find_bkt_unroll 2 small_tree 6 ≡ bucket_of 6 three_splitters)
find_bkt_simple-bucket_of_example = find_bkt_simple-bucket_of 2 small_tree small-IsTree 6

sample_sort_bs-Sorts_example :
    Sorts (leq_from 0) three_strings (sample_sort_bs no_address 6 three_strings 0)
sample_sort_bs-Sorts_example =
    sample_sort_bs-Sorts no_address 2 6 three_strings 0 three-IsWithin (omega arith) (omega arith)
      (omega arith) (omega arith)

permute_keys-permute_example :
    permute_keys own_bucket (count_buckets 3 (map own_bucket four_numbers)) four_numbers
    ≡ permute
        (count_buckets 3 (map own_bucket four_numbers))
        four_numbers
        (map own_bucket four_numbers)
permute_keys-permute_example =
    permute_keys-permute own_bucket 3 four_numbers four_small (omega arith)

bingmann_sample_sort_btc-Sorts_example :
    Sorts (leq_from 0) three_strings (bingmann_sample_sort_btc no_address 6 three_strings)
    × Sorts (leq_from 0) three_strings (bingmann_sample_sort_btca no_address 6 three_strings)
    × Sorts (leq_from 0) three_strings (bingmann_sample_sort_btcu no_address 6 three_strings)
bingmann_sample_sort_btc-Sorts_example =
    bingmann_sample_sort_btc-Sorts no_address 2 6 three_strings three-IsWithin (omega arith)
      (omega arith) (omega arith)
