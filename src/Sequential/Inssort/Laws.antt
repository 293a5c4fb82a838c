-- ===== src/Sequential/Inssort/Laws.antt =====
-- Insertion sort sorts: the prefix of the array, read backwards, is the list of what is sorted.
use mathlib.Core.List.Perm
use mathlib.Core.List.{perm_middle}
use bingmann_sample_sort.Prelude.{
  ℕ, suc, ◌-◌, ◌≡◌, ◌^◌, ◌<◌, ◌%◌, ◌==◌, ltb, refl, ap, ◌∙◌, Bool, true, false, none, some, List,
  [], ◌∷◌, ◌++◌, if◌then◌else◌, length, get_elem?, dec64, All, Perm, if_intro, arith, Bool-cases,
  inl, inr,
}
use bingmann_sample_sort.Tools.Strings.{
  CString, leq_from, leq_scan_trans, leq_scan_total, get_chars,
}
use bingmann_sample_sort.Prelude.Reversed.{rev_onto, top, set_top, next_elem, rev_onto-perm}
use bingmann_sample_sort.Sequential.Sorted.{IsTotalOrder, Below, IsSortedBy, All-map, Sorts}
use bingmann_sample_sort.Sequential.Inssort.{insert_down, insert_rounds, inssort, inssort_generic}

module _ {ℓ} {A : Type ℓ} where
  module _ (leq : A → A → Bool) where
    -- The insertion, seen from the end of the sorted part.
    insert_back : A → List A → List A
    insert_back t [] = t ∷ []
    insert_back t (p ∷ rp) = if leq p t then t ∷ p ∷ rp else p ∷ insert_back t rp

    insert_down-rev_onto :
        (t : A) (rp : List A) (h : A) (rest : List A)
        → insert_down leq t (length rp) (rev_onto rp (h ∷ rest)) ≡ rev_onto (insert_back t rp) rest
    unfolding insert_down insert_back rev_onto
    insert_down-rev_onto t [] h rest = refl
    insert_down-rev_onto t (p ∷ rp) h rest = elim (Bool-cases (leq p t)) [
      | inl le ↦ rw (top p rp (h ∷ rest) t, le) (set_top (p ∷ rp) h rest t)
      | inr gt ↦
          rw (top p rp (h ∷ rest) t, gt, set_top (p ∷ rp) h rest p)
            (insert_down-rev_onto t rp p (p ∷ rest))
    ]

    insert_back-perm : (t : A) (rp : List A) → Perm (insert_back t rp) (t ∷ rp)
    unfolding insert_back
    insert_back-perm t [] = Perm.rfl
    insert_back-perm t (p ∷ rp) =
        if_intro (λ l. Perm l (t ∷ p ∷ rp)) (leq p t) (t ∷ p ∷ rp) _ (λ le. Perm.rfl)
          (λ gt. Perm.trans (Perm.cons p (insert_back-perm t rp)) (Perm.swap _ _ _))

    length-insert_back : (t : A) (rp : List A) → length (insert_back t rp) ≡ suc (length rp)
    unfolding insert_back
    length-insert_back t [] = refl
    length-insert_back t (p ∷ rp) =
        if_intro (λ l. length l ≡ suc (suc (length rp))) (leq p t) (t ∷ p ∷ rp) _ (λ le. refl)
          (λ gt. ap suc (length-insert_back t rp))

    insert_rounds_step :
        (k i : ℕ) (tmp : A) (xs : List A)
        → get_elem? xs i ≡ some tmp
        → insert_rounds leq (suc k) i xs ≡ insert_rounds leq k (suc i) (insert_down leq tmp i xs)
    unfolding insert_rounds
    insert_rounds_step k i tmp xs e = ground (arith, e)

    module _ (o : IsTotalOrder leq) where
      abbrev geq : A → A → Bool
      geq x y = leq y x

      insert_back-Below :
          (q t : A) (rp : List A) → leq t q ≡ true → Below geq q rp → Below geq q (insert_back t rp)
      unfolding insert_back
      insert_back-Below q t [] h b = (h, tt)
      insert_back-Below q t (p ∷ rp) h b =
          if_intro (Below geq q) (leq p t) (t ∷ p ∷ rp) _ (λ le. (h, b))
            (λ gt. (b.0, insert_back-Below q t rp h b.1))

      insert_back-IsSortedBy :
          (t : A) (rp : List A) → IsSortedBy geq rp → IsSortedBy geq (insert_back t rp)
      unfolding insert_back
      insert_back-IsSortedBy t [] s = (tt, tt)
      insert_back-IsSortedBy t (p ∷ rp) s =
          if_intro (IsSortedBy geq) (leq p t) (t ∷ p ∷ rp) _
            (λ le. (
              (
                le,
                All-map (λ y. leq y p ≡ true) (λ y. leq y t ≡ true) (λ y h. o.trans_law y p t h le)
                    rp s.0,
              ),
              s,
            ))
            (λ gt.
              (insert_back-Below p t rp (o.total_law p t gt) s.0, insert_back-IsSortedBy t rp s.1))

      pub rev_onto-IsSortedBy :
          (rp rest : List A)
          → IsSortedBy geq rp
          → IsSortedBy leq rest
          → All (λ x. Below leq x rest) rp
          → IsSortedBy leq (rev_onto rp rest)
      unfolding rev_onto
      rev_onto-IsSortedBy [] rest s r c = r
      rev_onto-IsSortedBy (p ∷ rp) rest s r c =
          rev_onto-IsSortedBy rp (p ∷ rest) s.1 (c.0, r) (both rp s.0 c.1)
        where
          both :
              (l : List A)
              → Below geq p l
              → All (λ x. Below leq x rest) l
              → All (λ x. Below leq x (p ∷ rest)) l
          both [] h k = tt
          both (x ∷ l) h k = ((h.0, k.0), both l h.1 k.1)

      pub none-Below : (rp : List A) → All (λ x. Below leq x []) rp
      none-Below [] = tt
      none-Below (p ∷ rp) = (tt, none-Below rp)

      insert_rounds-Sorts :
          (rest rp : List A)
          → IsSortedBy geq rp
          → Sorts leq (rp ++ rest) (insert_rounds leq (length rest) (length rp) (rev_onto rp rest))
      unfolding insert_rounds
      insert_rounds-Sorts [] rp s = (
        rev_onto rp [],
        refl,
        rev_onto-IsSortedBy rp [] s tt (none-Below rp),
        rev_onto-perm rp [],
      )
      insert_rounds-Sorts (h ∷ rest) rp s =
          let (done, e, sorted, p) =
            insert_rounds-Sorts rest (insert_back h rp) (insert_back-IsSortedBy h rp s) in
          (
            done,
            insert_rounds_step (length rest) (length rp) h (rev_onto rp (h ∷ rest))
                  (next_elem rp h rest)
                ∙ rw (insert_down-rev_onto h rp h rest, ← length-insert_back h rp) e,
            sorted,
            Perm.trans p (
                Perm.trans (Perm.append_right rest (insert_back-perm h rp))
                  (Perm.symm (perm_middle rp rest))),
          )

pub leq_from-IsTotalOrder : (d : ℕ) → IsTotalOrder (leq_from d)
unfolding leq_from
leq_from-IsTotalOrder d = record {
  trans_law = λ x y z. leq_scan_trans (get_chars x d) (get_chars y d) (get_chars z d);
  total_law = λ x y. leq_scan_total (get_chars x d) (get_chars y d);
}

from_second :
    (s : CString) (ss : List CString) (d : ℕ)
    → Sorts (leq_from d) (s ∷ ss) (insert_rounds (leq_from d) (length ss) 1 (s ∷ ss))
from_second s ss d =
    unfold rev_onto in
    insert_rounds-Sorts (leq_from d) (leq_from-IsTotalOrder d) ss (s ∷ []) (tt, tt)

sub_one : (n : ℕ) → suc n - 1 ≡ n
sub_one n = omega arith

-- As many rounds as there are strings behind the first sort them.
pub insert_all-Sorts :
    (str : List CString) (d : ℕ)
    → Sorts (leq_from d) str (insert_rounds (leq_from d) (length str - 1) 1 str)
insert_all-Sorts [] d = ([], unfold insert_rounds in refl, tt, Perm.rfl)
insert_all-Sorts (s ∷ ss) d = rw (sub_one (length ss)) (from_second s ss d)

inssort_small :
    (str : List CString) (n d : ℕ)
    → n < 2 ^ 31
    → d < 2 ^ 31
    → inssort str n d ≡ insert_rounds (leq_from d) (n - 1) 1 str
unfolding inssort
inssort_small str n d h k =
    let e1 : n % 2 ^ 32 ≡ n = omega arith in
    let e2 : d % 2 ^ 32 ≡ d = omega arith in
    let c1 : (n == 2 ^ 31) ≡ false = ground arith in
    let c2 : ltb (2 ^ 31) n ≡ false = ground arith in
    let c3 : ltb d (2 ^ 31) ≡ true = ground arith in rw (e1, e2, c1, c2, c3) refl

-- `inssort` of all strings of an array, fewer than 2 ^ 31, from a depth below 2 ^ 31 on, so that the
-- conversions to `int` keep both, returns the strings, none lost, in the order of the characters from
-- `d` on, also where there are none.
pub inssort-Sorts :
    (str : List CString) (d : ℕ)
    → length str < 2 ^ 31
    → d < 2 ^ 31
    → Sorts (leq_from d) str (inssort str (length str) d)
inssort-Sorts str d h k = rw (inssort_small str (length str) d h k) (insert_all-Sorts str d)

dec64-suc : (n : ℕ) → suc n < 2 ^ 64 → dec64 (suc n) ≡ n
dec64-suc n h = omega arith

-- `inssort_generic` sorts every array that is not empty and fits a `size_t`; on the empty array it
-- reads behind the array.
pub inssort_generic-Sorts :
    (ss : List CString) (depth : ℕ)
    → length ss < 2 ^ 64
    → (0 < length ss → Sorts (leq_from depth) ss (inssort_generic ss depth))
      × (length ss ≡ 0 → inssort_generic ss depth ≡ none)
unfolding inssort_generic
inssort_generic-Sorts [] depth h =
    ((λ pos. absurd (omega arith)), λ e. unfold insert_rounds in refl)
inssort_generic-Sorts (s ∷ ss) depth h =
    ((λ pos. rw (dec64-suc (length ss) h) (from_second s ss depth)), λ e. absurd (omega arith))
