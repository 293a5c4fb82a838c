-- ===== src/Sequential/Classify.antt =====
-- Which bucket a key falls into: the binary searches of src/sequential/bingmann-sample_sortBS.cpp,
-- bingmann-sample_sortBSC.cpp and bingmann-sample_sortBSC.hpp. `unsigned int` has 32 bits.
pub mod Rank
pub mod Search
pub mod Laws
use bingmann_sample_sort.Prelude.{
  ℕ, zero, suc, ◌+◌, ◌*◌, ◌/◌, ◌%◌, ◌^◌, Bool, true, false, ◌&&◌, List, ltb, leb, ◌==◌,
  if◌then◌else◌, length, ◌!◌,
}

-- `(lo + hi) >> 1`
unfoldable pub middle : ℕ → ℕ → ℕ
middle lo hi = (lo + hi) % 2 ^ 32 / 2

-- the search `while (lo < hi)`
unfoldable pub search : ℕ → ℕ → List ℕ → ℕ → ℕ → ℕ
unfolding middle
search zero key splitter lo hi = lo
search (suc fuel) key splitter lo hi =
    let mid = middle lo hi in
    let le = leb key (splitter ! mid) in
    let rest = search fuel key splitter (if le then lo else mid + 1) (if le then mid else hi) in
    if ltb lo hi then rest else lo

-- `b = lo * 2; if (lo < numsplitters && splitter[lo] == key) b += 1;`
unfoldable pub with_equal : ℕ → List ℕ → ℕ → ℕ
with_equal key splitter lo =
    if ltb lo (length splitter) && (splitter ! lo == key) then lo * 2 + 1 else lo * 2

-- `find_bkt_binsearch`, which `find_bkt_tree` repeats; 32 rounds halve any `unsigned int` to nothing.
unfoldable pub find_bkt_binsearch : ℕ → List ℕ → ℕ
unfolding search with_equal
find_bkt_binsearch key splitter =
    with_equal key splitter (search 32 key splitter 0 (length splitter))

unfoldable pub find_bkt_tree : List ℕ → ℕ → ℕ
unfolding search with_equal
find_bkt_tree splitter key = with_equal key splitter (search 32 key splitter 0 (length splitter))

-- The loop in assembler tests at its end.
unfoldable pub search_assembler : ℕ → ℕ → List ℕ → ℕ → ℕ → ℕ
unfolding middle
search_assembler zero key splitter lo hi = lo
search_assembler (suc fuel) key splitter lo hi =
    let mid = middle lo hi in
    let be = leb key (splitter ! mid) in
    let edx = if be then mid else hi in
    let ecx = if be then lo else mid + 1 in
    let rest = search_assembler fuel key splitter ecx edx in if ltb ecx edx then rest else ecx

unfoldable pub find_bkt_assembler : ℕ → List ℕ → ℕ
unfolding search_assembler with_equal
find_bkt_assembler key splitter =
    with_equal key splitter (search_assembler 32 key splitter 0 (length splitter))

-- the search of `find_bkt_equal`, which returns on the first equal splitter
unfoldable pub search_equal : ℕ → ℕ → List ℕ → ℕ → ℕ → ℕ
unfolding middle
search_equal zero key splitter lo hi = 2 * lo
search_equal (suc fuel) key splitter lo hi =
    let mid = middle lo hi in
    let lt = ltb key (splitter ! mid) in
    let rest =
      search_equal fuel key splitter (if lt then lo else mid + 1) (if lt then mid else hi) in
    if ltb lo hi then if key == splitter ! mid then 2 * mid + 1 else rest else 2 * lo

unfoldable pub find_bkt_equal : ℕ → List ℕ → ℕ
unfolding search_equal
find_bkt_equal key splitter = search_equal 32 key splitter 0 (length splitter)

-- the loop of `find_bkt_asmequal`
unfoldable pub search_asmequal : ℕ → ℕ → List ℕ → ℕ → ℕ → ℕ
unfolding middle
search_asmequal zero key splitter lo hi = 2 * lo
search_asmequal (suc fuel) key splitter lo hi =
    let mid = middle lo hi in
    let below = ltb key (splitter ! mid) in
    let edx = if below then mid else hi in
    let ecx = if below then lo else mid + 1 in
    let rest = search_asmequal fuel key splitter ecx edx in
    if key == splitter ! mid then 2 * mid + 1 else if ltb ecx edx then rest else 2 * ecx

unfoldable pub find_bkt_asmequal : ℕ → List ℕ → ℕ
unfolding search_asmequal
find_bkt_asmequal key splitter = search_asmequal 32 key splitter 0 (length splitter)
