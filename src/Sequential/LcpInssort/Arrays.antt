-- ===== src/Sequential/LcpInssort/Arrays.antt =====
-- The inner loop on the arrays does the insertion on the list of entries.
use bingmann_sample_sort.Prelude.{
  ℕ, suc, ◌+◌, ◌-◌, ◌≤◌, ◌≡◌, refl, sym, ap, ◌∙◌, Bool, not, List, [], ◌∷◌, drop, drop-drop, take,
  length, get_or, set, ◌!◌, arith, Bool-cases, inl, inr, subst, dec_lt,
}
use bingmann_sample_sort.Prelude.Reversed.{rev_onto, top, set_top}
use bingmann_sample_sort.Tools.Strings.{CString, leq_scan, leq_from, get_chars}
use bingmann_sample_sort.Tools.Compare.{common_prefix}
use bingmann_sample_sort.Sequential.LcpInssort.{LcpArrays, compare_more, store, place, insert_lcp}
use bingmann_sample_sort.Sequential.LcpInssort.Prefixes.{
  pair_lem, compare_more_lem, skip-leq_scan, skip-common_prefix, common_prefix_comm,
}
use bingmann_sample_sort.Sequential.LcpInssort.Insertion.{
  Entry, strings_of, lcps_of, lcp_from, order, insert_entry, Ready, shift-Ready,
}
use bingmann_sample_sort.Sequential.LcpInssort.Steps.{
  take-set, get-take, lcp_array, store_lem, loop, compared, moved, found, round_lower, round_higher,
  round_found, round_above, entry_lower, entry_higher, entry_found, entry_above,
}

module _ (d : ℕ) (save_cache last : Bool) (m l0 : ℕ) where
  -- What the loop leaves: the entries `rp` in front of the rest of the arrays.
  pub record Leaves (a : LcpArrays) (rp : List Entry) (x : List CString) (y : List ℕ) : Type 0 where
    pub str_is : a.str ≡ rev_onto (strings_of rp) x
    pub lcp_is : a.lcp ≡ lcp_array l0 m (rev_onto (lcps_of rp) y)

  pub length-strings_of : (rp : List Entry) → length (strings_of rp) ≡ length rp
  length-strings_of [] = refl
  length-strings_of (e ∷ rp) = ap suc (length-strings_of rp)

  pub length-lcps_of : (rp : List Entry) → length (lcps_of rp) ≡ length rp
  length-lcps_of [] = refl
  length-lcps_of (e ∷ rp) = ap suc (length-lcps_of rp)

  set_string :
      (rp : List Entry) (h v : CString) (x : List CString)
      → set (rev_onto (strings_of rp) (h ∷ x)) (length rp) v ≡ rev_onto (strings_of rp) (v ∷ x)
  set_string rp h v x =
      ap (λ (i : ℕ). set (rev_onto (strings_of rp) (h ∷ x)) i v) (sym (length-strings_of rp))
      ∙ set_top (strings_of rp) h x v

  set_lcp :
      (rp : List Entry) (g v : ℕ) (y : List ℕ) (i : ℕ)
      → i ≡ suc (length rp)
      → store last (suc m) (lcp_array l0 m (rev_onto (lcps_of rp) (g ∷ y))) i v
        ≡ lcp_array l0 m (rev_onto (lcps_of rp) (v ∷ y))
  set_lcp rp g v y i e =
      let xs = rev_onto (lcps_of rp) (g ∷ y) in
      ap (λ (j : ℕ). store last (suc m) (lcp_array l0 m xs) j v) e
      ∙ store_lem last l0 m xs (length rp) v
      ∙ ap (lcp_array l0 m)
          (ap (λ (j : ℕ). set xs j v) (sym (length-lcps_of rp)) ∙ set_top (lcps_of rp) g y v)

  -- The writes behind the loop.
  place-Leaves :
      (t : CString) (nl : ℕ) (rp : List Entry) (a : LcpArrays) (h : CString) (g : ℕ)
      (x : List CString) (y : List ℕ)
      → Leaves a rp (h ∷ x) (g ∷ y)
      → Leaves (place save_cache last (suc m) t nl (length rp) a) ((t, nl) ∷ rp) x y
  unfolding place rev_onto
  place-Leaves t nl rp a h g x y l = record {
    str_is = ap (λ (v : List CString). set v (length rp) t) l.str_is ∙ set_string rp h t x;
    lcp_is =
        ap (λ (v : List ℕ). store last (suc m) v (length rp + 1) nl) l.lcp_is
        ∙ set_lcp rp g nl y (length rp + 1) (omega arith);
  }

  agree :
      {a b : LcpArrays} {rp rq : List Entry} {x : List CString} {y : List ℕ}
      → a ≡ b
      → rp ≡ rq
      → Leaves b rq x y
      → Leaves a rp x y
  agree {b} {rp} {x} {y} e f l =
      subst (λ v. Leaves v rp x y) (sym e) (subst (λ r. Leaves b r x y) (sym f) l)

  push_entry :
      {a : LcpArrays} (s : CString) (k : ℕ) (rp : List Entry) (x : List CString) (y : List ℕ)
      → Leaves a rp (s ∷ x) (k ∷ y)
      → Leaves a ((s, k) ∷ rp) x y
  unfolding rev_onto
  push_entry s k rp x y l = record { str_is = l.str_is; lcp_is = l.lcp_is }

  -- The comparison that goes on from `nl` finds the order of the two strings and their prefix.
  compared_lem :
      (t s : CString) (nl : ℕ)
      → d ≤ nl
      → nl ≤ lcp_from d t s
      → compare_more (get_chars t nl) (get_chars s nl) nl ≡ (not (order d s t), lcp_from d t s)
  unfolding leq_from
  compared_lem t s nl deep common =
      let k = nl - d in
      let at_t : get_chars (get_chars t d) k ≡ get_chars t nl =
        drop-drop d k t ∙ ap (λ (n : ℕ). drop n t) (omega arith) in
      let at_s : get_chars (get_chars s d) k ≡ get_chars s nl =
        drop-drop d k s ∙ ap (λ (n : ℕ). drop n s) (omega arith) in
      let sym_lcp = common_prefix_comm (get_chars s d) (get_chars t d) in
      let scan : leq_scan (get_chars s nl) (get_chars t nl)
          ≡ leq_scan (get_chars s d) (get_chars t d) =
        rw (← at_t, ← at_s) (skip-leq_scan k (get_chars s d) (get_chars t d) (omega arith)) in
      let len : nl + common_prefix (get_chars t nl) (get_chars s nl) ≡ lcp_from d t s =
        let e : k + common_prefix (get_chars t nl) (get_chars s nl)
            ≡ common_prefix (get_chars t d) (get_chars s d) =
          rw (← at_t, ← at_s)
            (skip-common_prefix k (get_chars t d) (get_chars s d) (omega arith)) in
        omega arith in
      compare_more_lem (get_chars t nl) (get_chars s nl) nl ∙ pair_lem (ap not scan) len

  -- The loop on the arrays leaves what the insertion makes of the entries.
  pub insert_lcp-Leaves :
      (f : CString → ℕ) (t : CString) (nl : ℕ) (rp : List Entry) (a : LcpArrays) (h : CString)
      (g : ℕ) (x : List CString) (y : List ℕ)
      → length rp ≤ m
      → Ready d f t nl rp
      → Leaves a rp (h ∷ x) (g ∷ y)
      → Leaves (insert_lcp save_cache last (suc m) t nl (length rp) a) (insert_entry d t nl rp) x y
  unfolding rev_onto
  insert_lcp-Leaves f t nl [] a h g x y small r l =
      unfold insert_entry in unfold insert_lcp in place-Leaves t nl [] a h g x y l
  insert_lcp-Leaves f t nl ((s, k) ∷ rp) a h g x y small r l = elim (dec_lt k nl) [
    | yes lt ↦
        agree (round_lower save_cache last m t nl i a (rw cur_lcp lt))
          (entry_lower d t nl s k rp lt) (place-Leaves t nl ((s, k) ∷ rp) a h g x y l)
    | no ge ↦ elim (dec_lt nl k) [
      | yes gt ↦
          let high = r.fits.0.higher (omega (arith, r.same, r.links.0)) in
          let same : lcp_from d t s ≡ nl = omega (arith, high.1, r.same) in
          agree (round_higher save_cache last m t nl i a (rw cur_lcp gt))
            (entry_higher d t nl s k rp gt)
            (push_entry s k _ x y (
              insert_lcp-Leaves (λ x. lcp_from d x s) t nl rp (moved save_cache last m t nl i a) s k
                (s ∷ x) (k ∷ y) (omega arith)
                (subst (λ n. Ready d (λ x. lcp_from d x s) t n rp) same (shift-Ready d r high.0))
                moved-Leaves))
      | no le ↦
          let level : k ≡ nl = omega arith in
          let more = compared_is (r.fits.0.equal (omega (arith, r.same, r.links.0))) in
          elim (Bool-cases (order d s t)) [
            | inl before ↦
                agree
                  (round_found save_cache last m t nl i a (cur_lcp ∙ level)
                    (ap (λ (p : Bool × ℕ). p.0) more ∙ ap not before))
                  (entry_found d t nl s k rp level before)
                  (place-Leaves t nl ((s, lcp_from d t s) ∷ rp) _ h g x y (
                    subst
                      (λ n.
                        Leaves (found save_cache last m t nl i a n) ((s, lcp_from d t s) ∷ rp)
                          (h ∷ x) (g ∷ y))
                      (sym (ap (λ (p : Bool × ℕ). p.1) more)) (found-Leaves (lcp_from d t s))))
            | inr after ↦
                agree
                  (round_above save_cache last m t nl i a (cur_lcp ∙ level)
                      (ap (λ (p : Bool × ℕ). p.0) more ∙ ap not after)
                    ∙ ap
                        (λ (n : ℕ).
                          loop save_cache last m t nl i a n i (moved save_cache last m t nl i a))
                        (ap (λ (p : Bool × ℕ). p.1) more))
                  (entry_above d t nl s k rp level after)
                  (push_entry s k _ x y (
                    insert_lcp-Leaves (λ x. lcp_from d x s) t (lcp_from d t s) rp
                      (moved save_cache last m t nl i a) s k (s ∷ x) (k ∷ y) (omega arith)
                      (shift-Ready d r after) moved-Leaves))
          ]
    ]
  ]
    where
      i : ℕ
      i = length rp

      cur_str : get_or a.str i [] ≡ s
      cur_str =
          ap (λ (v : List CString). get_or v i []) l.str_is
          ∙ ap (λ (j : ℕ). get_or (rev_onto (s ∷ strings_of rp) (h ∷ x)) j [])
              (sym (length-strings_of rp))
          ∙ top s (strings_of rp) (h ∷ x) []

      cur_lcp : a.lcp ! suc i ≡ k
      cur_lcp =
          ap (λ (v : List ℕ). v ! suc i) l.lcp_is
          ∙ get-take m (rev_onto (k ∷ lcps_of rp) (g ∷ y)) i (omega arith)
          ∙ ap (λ (j : ℕ). rev_onto (k ∷ lcps_of rp) (g ∷ y) ! j) (sym (length-lcps_of rp))
          ∙ top k (lcps_of rp) (g ∷ y) 0

      compared_is :
          f t ≤ lcp_from d t s
          → compared save_cache last m t nl i a ≡ (not (order d s t), lcp_from d t s)
      compared_is common =
          ap (λ (c : CString). compare_more (get_chars t nl) (get_chars c nl) nl) cur_str
          ∙ compared_lem t s nl r.deep (omega (arith, r.same))

      moved-Leaves : Leaves (moved save_cache last m t nl i a) rp (s ∷ s ∷ x) (k ∷ k ∷ y)
      moved-Leaves = record {
        str_is =
            ap (λ (v : CString). set a.str (suc i) v) cur_str
            ∙ ap (λ (v : List CString). set v (suc i) s) l.str_is
            ∙ set_string ((s, k) ∷ rp) h s x;
        lcp_is =
            ap (λ (v : ℕ). store last (suc m) a.lcp (suc i + 1) v) cur_lcp
            ∙ ap (λ (v : List ℕ). store last (suc m) v (suc i + 1) k) l.lcp_is
            ∙ set_lcp ((s, k) ∷ rp) g k y (suc i + 1) (omega arith);
      }

      found-Leaves :
          (v : ℕ) → Leaves (found save_cache last m t nl i a v) ((s, v) ∷ rp) (h ∷ x) (g ∷ y)
      found-Leaves v = record {
        str_is = l.str_is;
        lcp_is =
            ap (λ (w : List ℕ). set w (suc i) v) l.lcp_is
            ∙ ap (◌∷◌ l0) (
                sym (take-set m (rev_onto (lcps_of rp) (k ∷ g ∷ y)) i v)
                ∙ ap (take m) (
                    ap (λ (j : ℕ). set (rev_onto (lcps_of rp) (k ∷ g ∷ y)) j v)
                      (sym (length-lcps_of rp))
                    ∙ set_top (lcps_of rp) k (g ∷ y) v));
      }
