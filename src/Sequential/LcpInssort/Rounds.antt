-- ===== src/Sequential/LcpInssort/Rounds.antt =====
-- The outer loop of LCP insertion sort, and what follows from the entries for the arrays.
use mathlib.Core.List.Perm
use mathlib.Core.List.{perm_middle}
use bingmann_sample_sort.Prelude.{
  ℕ, zero, suc, ◌+◌, ◌≤◌, ◌<◌, ◌≡◌, refl, sym, ap, ◌∙◌, Bool, true, false, List, [], ◌∷◌, ◌++◌,
  length, length-append, get_or, ◌!◌, All, Perm, arith, subst,
}
use bingmann_sample_sort.Prelude.Reversed.{rev_onto, top}
use bingmann_sample_sort.Tools.Strings.{CString}
use bingmann_sample_sort.Sequential.Sorted.{length-perm}
use bingmann_sample_sort.Sequential.LcpInssort.{LcpArrays, insert_lcp, insert_lcp_rounds}
use bingmann_sample_sort.Sequential.LcpInssort.Insertion.{
  Entry, strings_of, lcps_of, lcp_from, Links, Fits, top-Fits, insert_entry, insert-perm, Ready,
  Inserted, insert-Inserted,
}
use bingmann_sample_sort.Sequential.LcpInssort.Arrays.{length-strings_of, Leaves, insert_lcp-Leaves}

-- Every number of the second list is the common prefix of two neighbours in the first.
unfoldable pub Along : ℕ → List CString → List ℕ → Type 0
Along d [] ys = Unit
Along d (x ∷ []) ys = Unit
Along d (x ∷ x' ∷ xs) [] = ⊥
Along d (x ∷ x' ∷ xs) (y ∷ ys) = (y ≡ lcp_from d x x') × Along d (x' ∷ xs) ys

module _ (d : ℕ) where
  pub rev_onto-Along :
      (f : CString → ℕ) (rp : List Entry) (xs : List CString) (ys : List ℕ)
      → Links d f rp
      → Along d xs ys
      → ((s : CString) → Along d (s ∷ xs) (f s ∷ ys))
      → Along d (rev_onto (strings_of rp) xs) (rev_onto (lcps_of rp) ys)
  unfolding rev_onto Along
  rev_onto-Along f [] xs ys links a next = a
  rev_onto-Along f ((s, l) ∷ rp) xs ys (e, links) a next =
      let here : Along d (s ∷ xs) (l ∷ ys) =
        subst (λ k. Along d (s ∷ xs) (k ∷ ys)) (sym e) (next s) in
      rev_onto-Along (λ x. lcp_from d x s) rp (s ∷ xs) (l ∷ ys) links here (λ x. (refl, here))

  pub Along-get :
      (xs : List CString) (ys : List ℕ) (i : ℕ)
      → Along d xs ys
      → suc i < length xs
      → ys ! i ≡ lcp_from d (get_or xs i []) (get_or xs (suc i) [])
  unfolding Along
  Along-get [] ys i a h = absurd (omega arith)
  Along-get (x ∷ []) ys i a h = absurd (omega arith)
  Along-get (x ∷ x' ∷ xs) [] i a h = absurd a
  Along-get (x ∷ x' ∷ xs) (y ∷ ys) zero a h = a.0
  Along-get (x ∷ x' ∷ xs) (y ∷ ys) (suc i) a h = Along-get (x' ∷ xs) ys i a.1 (omega arith)

  Fits-top : (t : CString) (xs : List CString) → All (Fits d (λ x. d) t) xs
  Fits-top t [] = tt
  Fits-top t (x ∷ xs) = (top-Fits d t x, Fits-top t xs)

  start_Ready : (t : CString) (rp : List Entry) → Inserted d (λ x. d) rp → Ready d (λ x. d) t d rp
  start_Ready t rp (links, sorted) = record {
    same = refl;
    deep = omega arith;
    fits = Fits-top t (strings_of rp);
    links = links;
    sorted = sorted;
  }

  module _ (save_cache : Bool) (m l0 : ℕ) where
    next_string :
        (last : Bool) (a : LcpArrays) (rp : List Entry) (t : CString) (x : List CString)
        (y : List ℕ)
        → Leaves d save_cache last m l0 a rp (t ∷ x) y
        → get_or a.str (length rp) [] ≡ t
    unfolding rev_onto
    next_string last a rp t x y l =
        ap (λ (v : List CString). get_or v (length rp) []) l.str_is
        ∙ ap (λ (j : ℕ). get_or (rev_onto (strings_of rp) (t ∷ x)) j [])
            (sym (length-strings_of d save_cache last m l0 rp))
        ∙ top t (strings_of rp) x []

    -- One round of the outer loop.
    round-Leaves :
        (last : Bool) (a : LcpArrays) (rp : List Entry) (t : CString) (g : ℕ) (x : List CString)
        (y : List ℕ)
        → length rp ≤ m
        → Inserted d (λ x. d) rp
        → Leaves d save_cache last m l0 a rp (t ∷ x) (g ∷ y)
        → Leaves d save_cache last m l0
            (insert_lcp save_cache last (suc m) (get_or a.str (length rp) []) d (length rp) a)
            (insert_entry d t d rp)
            x
            y
    round-Leaves last a rp t g x y small ins l =
        subst
          (λ s.
            Leaves d save_cache last m l0 (insert_lcp save_cache last (suc m) s d (length rp) a)
              (insert_entry d t d rp) x y)
          (sym (next_string last a rp t x (g ∷ y) l))
          (insert_lcp-Leaves d save_cache last m l0 (λ x. d) t d rp a t g x y small
            (start_Ready t rp ins) l)

    -- What has been sorted so far, with the strings that are left.
    pub record Progress (last : Bool) (a : LcpArrays) (x : List CString) (y : List ℕ)
        (all : List CString) : Type 0 where
      pub rp : List Entry
      pub leaves : Leaves d save_cache last m l0 a rp x y
      pub ins : Inserted d (λ x. d) rp
      pub perm : Perm (strings_of rp ++ x) all

    pub length-perms :
        {last : Bool} {a : LcpArrays} {x : List CString} {y : List ℕ} {all : List CString}
        → (p : Progress last a x y all) → length p.rp + length x ≡ length all
    length-perms {last} {x} p = omega (
      arith,
      length-perm p.perm,
      length-append (strings_of p.rp) x,
      length-strings_of d save_cache last m l0 p.rp,
    )

    pub round-Progress :
        {last : Bool} {a : LcpArrays} {t : CString} {g : ℕ} {x : List CString} {y : List ℕ}
        {all : List CString} (j : ℕ)
        → length all ≡ suc m
        → (p : Progress last a (t ∷ x) (g ∷ y) all) → length p.rp ≡ j
        → Progress last (insert_lcp save_cache last (suc m) (get_or a.str j []) d j a) x y all
    round-Progress {last} {a} {t} {g} {x} {y} {all} j size p e =
        subst
          (λ i.
            Progress last (insert_lcp save_cache last (suc m) (get_or a.str i []) d i a) x y all)
          e
          (record {
            rp = insert_entry d t d p.rp;
            leaves =
                round-Leaves last a p.rp t g x y (omega (arith, length-perms p)) p.ins p.leaves;
            ins = insert-Inserted d (λ x. d) t d p.rp (start_Ready t p.rp p.ins);
            perm =
                Perm.trans (Perm.append_right x (insert-perm d t d p.rp))
                  (Perm.trans (Perm.symm (perm_middle (strings_of p.rp) x)) p.perm);
          })

    pub rounds-Progress :
        (k : ℕ) (a : LcpArrays) (x : List CString) (y : List ℕ) (t : CString) (g : ℕ)
        (all : List CString) (j : ℕ)
        → length all ≡ suc m
        → length x ≡ k
        → length y ≡ k
        → (p : Progress false a (x ++ t ∷ []) (y ++ g ∷ []) all) → length p.rp ≡ j
        → Progress false (insert_lcp_rounds save_cache (suc m) d k j a) (t ∷ []) (g ∷ []) all
    unfolding insert_lcp_rounds
    rounds-Progress zero a [] [] t g all j size ex ey p e = p
    rounds-Progress zero a (u ∷ x) y t g all j size ex ey p e = absurd (omega arith)
    rounds-Progress zero a [] (u ∷ y) t g all j size ex ey p e = absurd (omega arith)
    rounds-Progress (suc k) a [] y t g all j size ex ey p e = absurd (omega arith)
    rounds-Progress (suc k) a (u ∷ x) [] t g all j size ex ey p e = absurd (omega arith)
    rounds-Progress (suc k) a (u ∷ x) (v ∷ y) t g all j size ex ey p e =
        let q = round-Progress j size p e in
        rounds-Progress k (insert_lcp save_cache false (suc m) (get_or a.str j []) d j a) x y t g
          all (suc j) size (omega arith) (omega arith) q
          (omega (arith, length-perms p, length-perms q, length-append x (t ∷ [])))

    pub as_last :
        {a : LcpArrays} {x : List CString} {y : List ℕ} {all : List CString}
        → Progress false a x y all
        → Progress true a x y all
    as_last p = record {
      rp = p.rp;
      leaves = record { str_is = p.leaves.str_is; lcp_is = p.leaves.lcp_is };
      ins = p.ins;
      perm = p.perm;
    }

    pub as_last-length :
        {a : LcpArrays} {x : List CString} {y : List ℕ} {all : List CString}
        → (p : Progress false a x y all) → length (as_last p).rp ≡ length p.rp
    unfolding as_last
    as_last-length p = refl
