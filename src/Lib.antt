-- ===== src/Lib.antt =====
-- Super scalar string sample sort: the sequential sorters and the tools that they stand on.
--
-- The program sorts arrays of pointers to zero-terminated strings. Sample sort packs the next eight
-- characters of every string into a 64-bit key, draws a random sample of the keys, takes splitters
-- from the sorted sample, classifies every string by its key, permutes the strings in place into
-- their buckets and sorts each bucket further: a bucket between two splitters from behind the
-- splitters' common prefix, the bucket of a splitter eight characters further, unless the key ends
-- the string. Fewer than 32768 strings go to an in-place radix sort over single characters, which
-- hands fewer than 32 strings to insertion sort.
--
-- Parts and files:
-- - Prelude and its children: shared names, Boolean tests, lists measured by native numbers, counts.
-- - Tools/Strings: pointers to strings and the comparison of two of them from a depth on
--   (src/tools/stringset.hpp: is_equal, is_less, is_leq of GenericCharStringSet; the scans in
--   src/sequential/inssort.hpp). A pointer is the list of the bytes from it on; behind the list
--   every byte reads 0.
-- - Tools/Compare: scmp, calc_lcp (src/tools/stringtools.hpp) and check_order
--   (src/tools/stringset.hpp).
-- - Tools/Keys: get_char at 8, 16, 32 and 64 bits and get_uint64 (src/tools/stringtools.hpp,
--   src/tools/stringset.hpp). Keys/Load is about the single load cut at the first zero byte,
--   Keys/Order about the order of keys and of strings.
-- - Tools/Bits: count_high_zero_bits, count_low_zero_bits (src/tools/stringtools.hpp).
--   __builtin_clzll is undefined for 0; Bits/Wide is about words of 128 bits.
-- - Tools/KeyLcp: lcpKeyType, lcpKeyDepth, getCharAtDepth
--   (src/parallel/bingmann-parallel_sample_sort.hpp).
-- - Tools/TreeCalculations: TreeCalculations (src/tools/stringtools.hpp).
-- - Sequential/Sorted: the contract of a sorter, Sorts: it returns, and what it returns is an
--   ascending permutation of its input.
-- - Sequential/Inssort: inssort, insertion_sort, inssort_generic (src/sequential/inssort.hpp).
-- - Sequential/Buckets: counting, prefix sums and the in-place permutation of
--   src/sequential/bingmann-sample_sort.cpp, bingmann-sample_sortBSC.cpp and
--   bingmann-radix_sort.hpp. Buckets/Recurse is the loop that sorts the buckets one by one.
-- - Sequential/LcpInssort: lcp_insertion_sort and lcp_insertion_sort_nolcp
--   (src/sequential/bingmann-lcp_inssort.hpp). Insertion tells what one insertion does to a list of
--   strings with their prefixes, Arrays that the loop does this to its arrays.
-- - Sequential/Radix: msd_CI2_run, msd_CI2 (src/sequential/bingmann-radix_sort.hpp).
-- - Sequential/Classify: find_bkt_binsearch, find_bkt_tree, find_bkt_assembler, find_bkt_equal,
--   find_bkt_asmequal (src/sequential/bingmann-sample_sortBSC.cpp, bingmann-sample_sortBSC.hpp).
-- - Sequential/SampleSort: LCGRandom (src/tools/lcgrandom.hpp), TreeBuilderPreorder
--   (src/sequential/bingmann-sample_sort_tree_builder.hpp), sample_sort_small_sort
--   (src/sequential/bingmann-sample_sort.hpp), sample_sortBSC and its instances
--   (src/sequential/bingmann-sample_sortBSC.cpp). SampleSort/Plan is the interface between a level
--   of sample sort and what gives it splitters and a classifier.
-- - Sequential/Trees: the descents of ClassifyTreeSimple, ClassifyTreeAssembler and
--   ClassifyTreeUnroll (src/sequential/bingmann-sample_sortBTC.hpp), TreeBuilderPreAndLevelOrder
--   (src/sequential/bingmann-sample_sort_tree_builder.hpp) and the tree of
--   src/sequential/bingmann-sample_sortBT.cpp.
-- - Sequential/Generic: sample_sort_generic and its instances
--   (src/sequential/bingmann-sample_sort.cpp).
-- - Sequential/TreeCalc: TreeBuilderLevelOrder and the classifiers of
--   src/sequential/bingmann-sample_sortBTCT.hpp with their instances.
-- - Sequential/Uncached: sample_sortBS and sample_sortBT
--   (src/sequential/bingmann-sample_sortBS.cpp, bingmann-sample_sortBT.cpp).
-- - Parallel/JobQueue: the workers of src/tools/jobqueue.hpp as a step relation, each step one access
--   of one worker to what they share; Invariant and Safety are about reachable states,
--   Threads about calcThreadNum and numaLaunch. The queue of TBB is a parameter, and so is the
--   relation between a job and what a run of it may enqueue; a job is the number of its address.
-- - Parallel/SampleSortStep: the steps of src/parallel/bingmann-parallel_sample_sort.hpp: how the
--   strings are cut into parts, the counts of count, the sums of count_finished, and the jobs of
--   distribute as a step relation, a move of one string at a time. Sums, Regions and Moves carry the
--   invariant, Laws and Finish the theorems on the jobs; SubSteps is distribute_finished, with what a
--   substep leaves as a parameter, and Sorting puts the step together.
-- - Parallel/SampleSort: Enqueue, the sample of a step and parallel_sample_sort of the same file. The
--   small sorts, the shadow arrays and the states in which the jobs of the steps end are parameters;
--   Runs gives such states.
-- - Parallel/SortStep: the counter of the substeps of a step, SortStep of the same file.
-- - Tests: every theorem at a concrete input.
--
-- Numbers are natural numbers; `size_t` and `unsigned int` wrap around where the code may wrap
-- (the decrement of a bucket index, `--n`, the sum of two search bounds, the random numbers), and
-- bucket numbers are cut to 16 bits where they are cached. inssort takes its count and depth as
-- `int`: the conversion from `size_t` is written out, and with it the bound of 2 ^ 31 on the lengths
-- and depths of the sorters that end in it. An array is a list; a slice from a
-- running pointer on is the rest of the list. A call that may read out of bounds, be
-- undefined or abort, and a recursion on fuel that runs out, return none.
--
-- Fuel: the walk over a cycle has the sum of the bucket indexes, which every step lowers; the loop
-- over the cycles has the number of strings, of which each round places one; a binary search has 32
-- rounds, which halve any `unsigned int` to nothing; radix sort has one level per character, and
-- sample sort a level per string and character, since a bucket beside a splitter loses the splitter's
-- string and the bucket of a splitter loses eight characters.
--
-- The address from which LCGRandom takes its seed is a parameter, a function of the call. Not
-- modelled: the tree classifiers by equality, the interleaved descent, the small
-- sorts of the parallel sorter with their LCP arrays, the string containers besides character pointers, and
-- the vendored TBB; allocation, debug output and statistics are left out.

pub mod Prelude
pub mod Tools
pub mod Sequential
pub mod Parallel
pub mod Tests
