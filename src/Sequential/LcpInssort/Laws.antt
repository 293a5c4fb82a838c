-- ===== src/Sequential/LcpInssort/Laws.antt =====
-- LCP insertion sort sorts, and its array of prefixes is right.
use mathlib.Core.List.Perm
use bingmann_sample_sort.Prelude.{
  ℕ, zero, suc, ◌-◌, ◌≤◌, ◌<◌, ◌≡◌, refl, sym, ap, ◌∙◌, Bool, true, false, List, [], ◌∷◌, ◌++◌,
  take, length, get_or, ◌!◌, leb, Perm, arith, subst, dec_lt, if◌then◌else◌,
}
use bingmann_sample_sort.Prelude.Reversed.{rev_onto, rev_onto-perm}
use bingmann_sample_sort.Tools.Strings.{CString, leq_from}
use bingmann_sample_sort.Sequential.Sorted.{IsSortedBy, length-perm}
use bingmann_sample_sort.Sequential.Inssort.Laws.{
  leq_from-IsTotalOrder, rev_onto-IsSortedBy, none-Below,
}
use bingmann_sample_sort.Sequential.LcpInssort.{
  LcpArrays, insert_lcp, insert_lcp_rounds, lcp_insertion_sort,
}
use bingmann_sample_sort.Sequential.LcpInssort.Insertion.{strings_of, lcps_of, lcp_from}
use bingmann_sample_sort.Sequential.LcpInssort.Steps.{get-take}
use bingmann_sample_sort.Sequential.LcpInssort.Rounds.{
  Along, rev_onto-Along, Along-get, Progress, length-perms, round-Progress, rounds-Progress,
  as_last, as_last-length,
}

module _ (d : ℕ) (save_cache : Bool) (m l0 : ℕ) where
  -- What the sorter promises of the arrays that it leaves.
  abbrev Sorted : LcpArrays → List CString → Type 0
  Sorted b all =
      IsSortedBy (leq_from d) b.str
      × Perm b.str all
      × ((i : ℕ)
          → suc i < length b.str
          → b.lcp ! suc i ≡ lcp_from d (get_or b.str i []) (get_or b.str (suc i) []))

  Progress-Sorted :
      {b : LcpArrays} {all : List CString}
      → length all ≡ suc m
      → Progress d save_cache m l0 true b [] [] all
      → Sorted b all
  Progress-Sorted {b} {all} size p =
      let strs = rev_onto (strings_of p.rp) [] in
      let o = leq_from-IsTotalOrder d in
      let same = rev_onto-perm (strings_of p.rp) [] in
      let perm = Perm.trans same p.perm in
      (
        subst (IsSortedBy (leq_from d)) (sym p.leaves.str_is) (
            rev_onto-IsSortedBy (leq_from d) o (strings_of p.rp) [] p.ins.1 tt
              (none-Below (leq_from d) o (strings_of p.rp))),
        subst (λ l. Perm l all) (sym p.leaves.str_is) perm,
        λ i h.
            let long = length-perm perm in
            let strs_is = p.leaves.str_is in
            let inside : suc i < length strs =
              subst (λ (l : List CString). suc i < length l) strs_is h in
            ap (λ (l : List ℕ). l ! suc i) p.leaves.lcp_is
            ∙ get-take m (rev_onto (lcps_of p.rp) []) i (omega arith)
            ∙ Along-get d strs (rev_onto (lcps_of p.rp) []) i
                (rev_onto-Along d (λ x. d) p.rp [] [] p.ins.0 (unfold Along in tt)
                  (λ s. unfold Along in tt))
                inside
            ∙ sym (
                ap (λ (l : List CString). lcp_from d (get_or l i []) (get_or l (suc i) []))
                  strs_is),
      )

last_string :
    (m : ℕ) (xs : List CString)
    → length xs ≡ suc m
    → (x : List CString) × (t : CString) × (xs ≡ x ++ t ∷ []) × (length x ≡ m)
last_string m [] e = absurd (omega arith)
last_string zero (t ∷ []) e = ([], t, refl, refl)
last_string zero (t ∷ u ∷ xs) e = absurd (omega arith)
last_string (suc m) (t ∷ []) e = absurd (omega arith)
last_string (suc m) (t ∷ u ∷ xs) e =
    let (x, v, is, len) = last_string m (u ∷ xs) (omega arith) in
    (t ∷ x, v, ap (◌∷◌ t) is, omega arith)

take-append_one : (ys : List ℕ) (g : ℕ) → take (length ys) (ys ++ g ∷ []) ≡ ys
take-append_one [] g = refl
take-append_one (y ∷ ys) g = ap (◌∷◌ y) (take-append_one ys g)

-- The body of the sorter at a known number of strings.
module _ (save_cache : Bool) (a : LcpArrays) (d : ℕ) where
  abbrev body : ℕ → ℕ → LcpArrays
  body n k =
      let b = insert_lcp_rounds save_cache n d k 0 a in
      if leb n 1 then a else insert_lcp save_cache true n (get_or b.str k []) d k b

  few_is : leb (length a.str) 1 ≡ true → lcp_insertion_sort save_cache a d ≡ a
  unfolding lcp_insertion_sort
  few_is e = rw e refl

  sort_is :
      (m : ℕ)
      → length a.str ≡ suc m
      → 0 < m
      → lcp_insertion_sort save_cache a d
        ≡ insert_lcp save_cache true
            (suc m)
            (get_or (insert_lcp_rounds save_cache (suc m) d m 0 a).str m [])
            d
            m
            (insert_lcp_rounds save_cache (suc m) d m 0 a)
  unfolding lcp_insertion_sort
  sort_is m size two =
      let one : length a.str - 1 ≡ m = omega arith in
      let e : leb (suc m) 1 ≡ false = ground arith in
      ap (λ (n : ℕ). body n (length a.str - 1)) size ∙ ap (body (suc m)) one ∙ rw e refl

Sorted-from :
    (save_cache : Bool) (a : LcpArrays) (d m l0 : ℕ) (ys : List ℕ)
    → length a.str ≡ suc m
    → 0 < m
    → a.lcp ≡ l0 ∷ ys
    → length ys ≡ m
    → Sorted d save_cache m l0 (lcp_insertion_sort save_cache a d) a.str
Sorted-from save_cache a d m l0 ys size two is len =
    let (x, t, all_is, len_x) = last_string m a.str size in
    let start : Progress d save_cache m l0 false a (x ++ t ∷ []) (ys ++ 0 ∷ []) a.str = record {
      rp = [];
      leaves = record {
        str_is = unfold rev_onto in all_is;
        lcp_is =
            unfold rev_onto in
            is
            ∙ ap (◌∷◌ l0)
                (sym (ap (λ (k : ℕ). take k (ys ++ 0 ∷ [])) (sym len) ∙ take-append_one ys 0));
      };
      ins = (tt, tt);
      perm = subst (λ l. Perm l a.str) all_is Perm.rfl;
    } in
    let b = insert_lcp_rounds save_cache (suc m) d m 0 a in
    let rounds = rounds-Progress d save_cache m l0 m a x ys t 0 a.str 0 size len_x len start refl in
    let done = round-Progress d save_cache m l0 m size (as_last d save_cache m l0 rounds) (
      omega
        (arith, length-perms d save_cache m l0 rounds, as_last-length d save_cache m l0 rounds)) in
    subst (λ b. Sorted d save_cache m l0 b a.str) (sym (sort_is save_cache a d m size two))
      (Progress-Sorted d save_cache m l0 size done)

one_Sorted : (xs : List CString) (d : ℕ) → length xs ≤ 1 → IsSortedBy (leq_from d) xs
one_Sorted [] d h = tt
one_Sorted (x ∷ []) d h = (tt, tt)
one_Sorted (x ∷ y ∷ xs) d h = absurd (omega arith)

-- `lcp_insertion_sort`, with the cache of characters or without, on arrays of as many prefixes as
-- strings: it leaves the strings, none lost, in the order of their characters from `depth` on, and
-- behind the first entry of `lcp` the number of characters that each string shares with the one
-- before it, those in front of `depth` counted in.
pub lcp_insertion_sort-lcp_from :
    (save_cache : Bool) (a : LcpArrays) (depth : ℕ)
    → length a.lcp ≡ length a.str
    → let b = lcp_insertion_sort save_cache a depth in
      IsSortedBy (leq_from depth) b.str
      × Perm b.str a.str
      × ((i : ℕ)
          → suc i < length b.str
          → b.lcp ! suc i ≡ lcp_from depth (get_or b.str i []) (get_or b.str (suc i) []))
lcp_insertion_sort-lcp_from save_cache a depth same = elim (dec_lt 1 (length a.str)) [
  | no few ↦
      let e : leb (length a.str) 1 ≡ true = ground arith in
      rw (few_is save_cache a depth e)
        (one_Sorted a.str depth (omega arith), Perm.rfl, λ i h. absurd (omega arith))
  | yes many ↦ split a.lcp refl many
]
  where
    split :
        (l : List ℕ)
        → a.lcp ≡ l
        → 1 < length a.str
        → Sorted depth save_cache 0 0 (lcp_insertion_sort save_cache a depth) a.str
    split [] e many = absurd (omega (arith, ap (λ (l : List ℕ). length l) e))
    split (l0 ∷ ys) e many =
        let len = ap (λ (l : List ℕ). length l) e in
        Sorted-from save_cache a depth (length ys) l0 ys (omega arith) (omega arith) e refl
