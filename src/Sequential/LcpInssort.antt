-- ===== src/Sequential/LcpInssort.antt =====
-- src/sequential/bingmann-lcp_inssort.hpp: insertion sort that keeps the common prefix of every string
-- with the one before it.
pub mod Prefixes
pub mod Insertion
pub mod Steps
pub mod Arrays
pub mod Rounds
pub mod Laws
use Prim.Native.Nat.{compare, Ordering}
use bingmann_sample_sort.Prelude.{
  ℕ, zero, suc, ◌+◌, ◌-◌, Bool, true, false, not, ◌&&◌, List, [], ◌∷◌, ltb, leb, if◌then◌else◌,
  length, get_or, set, ◌!◌,
}
use bingmann_sample_sort.Tools.Strings.{CString, head_char, get_chars, is_equal, is_less}

-- The arrays that the sorter works on: `lcp[i]` and `cache[i]` are about string `i` and the one before.
pub record LcpArrays : Type 0 where
  pub str : List CString
  pub lcp : List ℕ
  pub cache : List ℕ

-- `while (is_equal(s, t)) ++s, ++t, ++lcp;`: whether `is_less(s, t)` at the end, and `lcp`
unfoldable pub compare_more : CString → CString → ℕ → Bool × ℕ
compare_more [] t lcp = (is_less [] t, lcp)
compare_more (c ∷ s) [] lcp = (is_less (c ∷ s) [], lcp)
compare_more (c ∷ s) (e ∷ t) lcp =
    let rest = compare_more s t (suc lcp) in
    if is_equal (c ∷ s) (e ∷ t) then rest else (is_less (c ∷ s) (e ∷ t), lcp)

-- A write of the last round, which tests that it is inside an array of `n`; the other rounds do not.
unfoldable pub store : Bool → ℕ → List ℕ → ℕ → ℕ → List ℕ
store last n xs i v = if last && not (ltb i n) then xs else set xs i v

-- What follows the inner loop: `str[i] = new_str; lcp[i + 1] = new_lcp; cache[i + 1] = ...`
unfoldable pub place : Bool → Bool → ℕ → CString → ℕ → ℕ → LcpArrays → LcpArrays
unfolding store
place save_cache last n new_str new_lcp i a =
    let str = set a.str i new_str in
    record {
      str = str;
      lcp = store last n a.lcp (i + 1) new_lcp;
      cache =
          if save_cache
          then store last n a.cache (i + 1) (head_char (get_chars (get_or str (i + 1) []) new_lcp))
          else a.cache;
    }

-- The inner loop `while (i > 0)` with what follows it.
unfoldable pub insert_lcp : Bool → Bool → ℕ → CString → ℕ → ℕ → LcpArrays → LcpArrays
unfolding compare_more store place
insert_lcp save_cache last n new_str new_lcp zero a = place save_cache last n new_str new_lcp zero a
insert_lcp save_cache last n new_str new_lcp (suc i) a =
    let cur_str = get_or a.str i [] in
    let cur_lcp = a.lcp ! suc i in
    let (less, more_lcp) =
      compare_more (get_chars new_str new_lcp) (get_chars cur_str new_lcp) new_lcp in
    let moved : LcpArrays = record {
      str = set a.str (suc i) cur_str;
      lcp = store last n a.lcp (suc i + 1) cur_lcp;
      cache = if save_cache then set a.cache (suc i) (a.cache ! i) else a.cache;
    } in
    let found : LcpArrays = record {
      str = a.str;
      lcp = set a.lcp (suc i) more_lcp;
      cache =
          if save_cache
          then set a.cache (suc i) (head_char (get_chars new_str more_lcp))
          else a.cache;
    } in
    elim (compare cur_lcp new_lcp) [
      | Ordering.lt ↦ place save_cache last n new_str new_lcp (suc i) a
      | Ordering.eq ↦ elim less [
        | false ↦ place save_cache last n new_str new_lcp (suc i) found
        | true ↦ insert_lcp save_cache last n new_str more_lcp i moved
      ]
      | Ordering.gt ↦ insert_lcp save_cache last n new_str new_lcp i moved
    ]

-- The loop over `j`, with the number of rounds left.
unfoldable pub insert_lcp_rounds : Bool → ℕ → ℕ → ℕ → ℕ → LcpArrays → LcpArrays
unfolding insert_lcp
insert_lcp_rounds save_cache n depth zero j a = a
insert_lcp_rounds save_cache n depth (suc k) j a =
    insert_lcp_rounds save_cache n depth k (suc j)
      (insert_lcp save_cache false n (get_or a.str j []) depth j a)

-- `lcp_insertion_sort<SaveCache>`; the last round stands behind the loop
unfoldable pub lcp_insertion_sort : Bool → LcpArrays → ℕ → LcpArrays
unfolding insert_lcp insert_lcp_rounds
lcp_insertion_sort save_cache a depth =
    let n = length a.str in
    let b = insert_lcp_rounds save_cache n depth (n - 1) 0 a in
    if leb n 1 then a else insert_lcp save_cache true n (get_or b.str (n - 1) []) depth (n - 1) b

-- `lcp_insertion_sort_nolcp`, whose array of prefixes is not initialized
unfoldable pub lcp_insertion_sort_nolcp : List ℕ → List CString → ℕ → List CString
unfolding lcp_insertion_sort
lcp_insertion_sort_nolcp tmp_lcp ss depth =
    (lcp_insertion_sort false (record { str = ss; lcp = tmp_lcp; cache = [] }) depth).str
