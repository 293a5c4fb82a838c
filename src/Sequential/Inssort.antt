-- ===== src/Sequential/Inssort.antt =====
-- src/sequential/inssort.hpp: insertion sort of an array of strings.
pub mod Laws
use bingmann_sample_sort.Prelude.{
  ℕ, zero, suc, ◌+◌, ◌-◌, ◌%◌, ◌^◌, Bool, true, false, Option, none, some, List, [], ◌∷◌,
  if◌then◌else◌, ltb, ◌==◌, length, get_or, get_elem?, set, dec64,
}
use bingmann_sample_sort.Tools.Strings.{CString, leq_from}

module _ {ℓ} {A : Type ℓ} (leq : A → A → Bool) where
  -- The inner loop from position `j` down: strings above the new one move up by one place.
  unfoldable pub insert_down : A → ℕ → List A → List A
  insert_down tmp zero xs = set xs 0 tmp
  insert_down tmp (suc j) xs =
      let rest = insert_down tmp j (set xs (suc j) (get_or xs j tmp)) in
      if leq (get_or xs j tmp) tmp then set xs (suc j) tmp else rest

  -- The outer loop, with the number of rounds left; `none` is a read behind the array.
  unfoldable pub insert_rounds : ℕ → ℕ → List A → Option (List A)
  unfolding insert_down
  insert_rounds zero i xs = some xs
  insert_rounds (suc k) i xs = elim (get_elem? xs i) [
    | none ↦ none
    | some tmp ↦ insert_rounds k (suc i) (insert_down tmp i xs)
  ]

-- `inssort(str, n, d)` for the `size_t` values `n` and `depth` that its callers convert to `int`.
-- `none` is undefined: `--n` overflows for the smallest `int`, and a negative `d` compares characters
-- in front of the strings. For the other negative `n`, as for 0 and 1, `--n > 0` fails at once.
unfoldable pub inssort : List CString → ℕ → ℕ → Option (List CString)
unfolding insert_rounds
inssort str n depth =
    let n' = n % 2 ^ 32 in
    let d = depth % 2 ^ 32 in
    if n' == 2 ^ 31
    then none
    else if ltb (2 ^ 31) n'
    then some str
    else if ltb d (2 ^ 31)
    then insert_rounds (leq_from d) (n' - 1) 1 str
    else if ltb 1 n'
    then none
    else some str

-- `insertion_sort(a, n)`
unfoldable pub insertion_sort : List CString → ℕ → Option (List CString)
unfolding inssort
insertion_sort a n = inssort a n 0

-- `inssort_generic(ss, depth)`; `n` is a `size_t`, so `--n != 0` wraps around for 0
unfoldable pub inssort_generic : List CString → ℕ → Option (List CString)
unfolding insert_rounds
inssort_generic ss depth = insert_rounds (leq_from depth) (dec64 (length ss)) 1 ss
