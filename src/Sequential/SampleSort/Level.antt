-- ===== src/Sequential/SampleSort/Level.antt =====
-- One level of sample sort: classified, permuted and sorted bucket by bucket, the strings are sorted.
use mathlib.Core.HLevel.{×_prop}
use mathlib.Core.List.Perm
use native.Mathlib.Nat.{ℕ_set, mod-eq_of_lt, add-zero, zero-add}
use bingmann_sample_sort.Prelude.{
  ℕ, zero, suc, ◌+◌, ◌-◌, ◌*◌, ◌/◌, ◌%◌, ◌^◌, ◌≤◌, ◌<◌, ◌≡◌, ◌≢◌, refl, sym, ap, ◌∙◌, Bool, true,
  Option, some, List, [], ◌∷◌, map, ltb, ◌==◌, length, get_or, ◌!◌, All, arith, if_intro, ltb→ge,
  subst, dec_lt,
}
use bingmann_sample_sort.Tools.Strings.{CString, IsBytes, leq_from}
use bingmann_sample_sort.Tools.Keys.{get_char_uint64, get_uint64}
use bingmann_sample_sort.Tools.KeyLcp.{lcp_key_type}
use bingmann_sample_sort.Tools.Keys.Load.{get_char_uint64-get_uint64}
use bingmann_sample_sort.Sequential.Sorted.{Sorts, Sorts-perm, length-perm, All-perm}
use bingmann_sample_sort.Sequential.Radix.Chars.{IsWithin, IsWithin-prop}
use bingmann_sample_sort.Sequential.Classify.Rank.{Falls}
use bingmann_sample_sort.Sequential.Buckets.Recurse.Laws.{
  Sorts-agree, recurse_loop-Sorts, get-le-sum,
}
use bingmann_sample_sort.Sequential.Buckets.Partition.{
  bktsize_of, permuted, permuted-Sliced, bktsize_of-lt,
}
use bingmann_sample_sort.Sequential.SampleSort.{bkt_of, sort_bucket, sort_by_splitters}
use bingmann_sample_sort.Sequential.SampleSort.Prefix.{
  inside-leq_from, equal-leq_from, less-leq_from, key-length, lcp_key_type-length,
}
use bingmann_sample_sort.Sequential.SampleSort.Plan.{
  IsPlan, Falls-le, Falls-even, Falls-odd, Falls-cross, few, All-leq,
}

module _ {sp : List ℕ} {find_bkt lcp : ℕ → ℕ} {is_done : ℕ → Bool}
    (plan : IsPlan sp find_bkt lcp is_done) (limit depth : ℕ) where
  pub bkt_of-Falls :
      (s : CString) → IsBytes s → Falls sp (get_uint64 s depth) (bkt_of find_bkt depth s)
  bkt_of-Falls s h =
      let f = plan.falls (get_char_uint64 s depth) in
      let e = get_char_uint64-get_uint64 s depth h in
      let small = Falls-le sp (get_char_uint64 s depth) (find_bkt (get_char_uint64 s depth)) f in
      subst (λ b. Falls sp (get_uint64 s depth) b)
        (sym (mod-eq_of_lt (omega (arith, plan.few_splitters))))
        (subst (λ k. Falls sp k (find_bkt (get_char_uint64 s depth))) e f)

  classes_small :
      (strings : List CString)
      → All (IsWithin limit) strings
      → All (λ b. b < 2 * length sp + 1) (map (bkt_of find_bkt depth) strings)
  classes_small [] h = tt
  classes_small (s ∷ strings) h =
      (Falls-le sp _ _ (bkt_of-Falls s h.0.0), classes_small strings h.1)

  -- Strings in a bucket of smaller number are at most those in a later one.
  pub bkt_of-cross :
      (x y : CString)
      → IsWithin limit x
      → IsWithin limit y
      → bkt_of find_bkt depth x < bkt_of find_bkt depth y
      → leq_from depth x y ≡ true
  bkt_of-cross x y hx hy lt =
      let kx = get_uint64 x depth in
      let ky = get_uint64 y depth in
      let le = Falls-cross sp kx ky _ _ plan.asc (bkt_of-Falls x hx.0) (bkt_of-Falls y hy.0) lt in
      elim (dec_lt kx ky) [
        | yes less ↦ less-leq_from depth x y hx.0 hy.0 less
        | no same ↦ absurd (
            let e1 = get_char_uint64-get_uint64 x depth hx.0 in
            let e2 = get_char_uint64-get_uint64 y depth hy.0 in
            let keys : get_char_uint64 x depth ≡ get_char_uint64 y depth = omega arith in
            let e = ap (λ k. find_bkt k % 2 ^ 16) keys in omega arith)
      ]

  module _ (n : ℕ) (sort : List CString → ℕ → Option (List CString))
      (sorts : (xs : List CString) (d : ℕ)
        → All (IsWithin limit) xs
        → length xs ≤ n
        → length xs + (limit - d) < n + (limit - depth)
        → d ≤ depth + (limit - depth)
        → Sorts (leq_from d) xs (sort xs d)) where
    -- A bucket strictly between two splitters.
    abbrev InBucket : ℕ → CString → Type 0
    InBucket b x = IsWithin limit x × (bkt_of find_bkt depth x ≡ b)

    InBucket-prop : (b : ℕ) (x : CString) → IsProp (InBucket b x)
    InBucket-prop b x = ×_prop (IsWithin-prop limit x) (ℕ_set _ _)

    both :
        (b : ℕ) (xs : List CString)
        → All (IsWithin limit) xs
        → All (λ x. bkt_of find_bkt depth x ≡ b) xs
        → All (InBucket b) xs
    both b [] h k = tt
    both b (x ∷ xs) h k = ((h.0, k.0), both b xs h.1 k.1)

    less_agree :
        (k : ℕ) (x y : CString)
        → k < length sp
        → InBucket (2 * k) x
        → InBucket (2 * k) y
        → leq_from depth x y ≡ leq_from (depth + lcp k) x y
    less_agree zero x y h hx hy = rw (plan.lcp_first, add-zero) refl
    less_agree (suc k) x y h hx hy =
        let fx = Falls-even sp _ _ (suc k) (bkt_of-Falls x hx.0.0) hx.1 in
        let fy = Falls-even sp _ _ (suc k) (bkt_of-Falls y hy.0.0) hy.1 in
        rw (plan.lcp_next k h) (
          inside-leq_from (sp ! k) (sp ! suc k) depth (plan.keys k (omega arith))
            (plan.keys (suc k) h) x y (hx.0.0, fx.0 k (omega arith), fx.1 h)
            (hy.0.0, fy.0 k (omega arith), fy.1 h))

    -- The depth of such a bucket is at most the limit, unless it is the one before.
    less_depth :
        (k : ℕ) (x : CString)
        → k < length sp
        → InBucket (2 * k) x
        → depth + lcp k ≤ depth + (limit - depth)
    less_depth zero x h hx = omega (arith, plan.lcp_first)
    less_depth (suc k) x h hx =
        let fx = Falls-even sp _ _ (suc k) (bkt_of-Falls x hx.0.0) hx.1 in
        let l = lcp_key_type (sp ! k) (sp ! suc k) in
        let inside =
          lcp_key_type-length (sp ! k) (sp ! suc k) depth (plan.keys k (omega arith))
            (plan.keys (suc k) h) x (hx.0.0, fx.0 k (omega arith), fx.1 h) in
        elim (dec_lt 0 l) [
          | yes pos ↦ omega (arith, plan.lcp_next k h, inside pos, hx.0.1)
          | no at_once ↦ omega (arith, plan.lcp_next k h)
        ]

    less-Sorts :
        (k : ℕ) (xs : List CString)
        → 0 < length xs
        → k < length sp
        → length xs < n
        → All (IsWithin limit) xs
        → All (λ x. bkt_of find_bkt depth x ≡ 2 * k) xs
        → Sorts (leq_from depth) xs (sort xs (depth + lcp k))
    less-Sorts k [] pos h small w c = absurd (omega arith)
    less-Sorts k (x ∷ xs) pos h small w c =
        Sorts-agree (leq_from (depth + lcp k)) (leq_from depth) (InBucket (2 * k))
          (InBucket-prop (2 * k)) (λ x y hx hy e. less_agree k x y h hx hy ∙ e) (x ∷ xs)
          (sort (x ∷ xs) (depth + lcp k)) (both (2 * k) (x ∷ xs) w c)
          (sorts (x ∷ xs) (depth + lcp k) w (omega arith) (omega arith)
            (less_depth k x h (w.0, c.0)))

    equal_keys :
        (k : ℕ) (x y : CString)
        → InBucket (2 * k + 1) x
        → InBucket (2 * k + 1) y
        → (get_uint64 x depth ≡ sp ! k) × (get_uint64 x depth ≡ get_uint64 y depth)
    equal_keys k x y hx hy =
        let fx = Falls-odd sp _ _ k (bkt_of-Falls x hx.0.0) hx.1 in
        let fy = Falls-odd sp _ _ k (bkt_of-Falls y hy.0.0) hy.1 in (sym fx.1, sym fx.1 ∙ fy.1)

    done-Sorts :
        (k : ℕ) (xs : List CString)
        → sp ! k % 256 ≡ 0
        → All (InBucket (2 * k + 1)) xs
        → Sorts (leq_from depth) xs (some xs)
    done-Sorts k xs z h =
        All-leq (leq_from depth) (InBucket (2 * k + 1))
          (λ x y hx hy.
            let e = equal_keys k x y hx hy in
            (equal-leq_from depth x y hx.0.0 hy.0.0 e.1).0 (ap (λ (t : ℕ). t % 256) e.0 ∙ z))
          xs h

    equal-Sorts :
        (k : ℕ) (xs : List CString)
        → sp ! k % 256 ≢ 0
        → 0 < length xs
        → length xs ≤ n
        → All (IsWithin limit) xs
        → All (InBucket (2 * k + 1)) xs
        → Sorts (leq_from depth) xs (sort xs (depth + 8))
    equal-Sorts k [] z pos le w h = absurd (omega arith)
    equal-Sorts k (s ∷ xs) z pos le w h =
        let e = equal_keys k s s h.0 h.0 in
        let long = key-length depth s (λ zero. z (sym (ap (λ (t : ℕ). t % 256) e.0) ∙ zero)) in
        Sorts-agree (leq_from (depth + 8)) (leq_from depth) (InBucket (2 * k + 1))
          (InBucket-prop (2 * k + 1))
          (λ x y hx hy e.
            let q = equal_keys k x y hx hy in
            (equal-leq_from depth x y hx.0.0 hy.0.0 q.1).1
              (λ zero. z (sym (ap (λ (t : ℕ). t % 256) q.0) ∙ zero))
            ∙ e)
          (s ∷ xs) (sort (s ∷ xs) (depth + 8)) h
          (sorts (s ∷ xs) (depth + 8) w le (omega (arith, w.0.1)) (omega (arith, w.0.1)))

    -- The body of the recursion sorts each bucket.
    pub sort_bucket-Sorts :
        (i : ℕ) (xs : List CString)
        → length xs ≤ n
        → (i % 2 ≡ 0 → length xs < n)
        → All (IsWithin limit) xs
        → All (λ x. bkt_of find_bkt depth x ≡ i) xs
        → Sorts
            (leq_from depth)
            xs
            (sort_bucket sort lcp is_done (length sp) depth i (length xs) xs)
    unfolding sort_bucket
    sort_bucket-Sorts i [] le even w c = ([], ground arith, tt, Perm.rfl)
    sort_bucket-Sorts i (x ∷ xs) le even w c =
        let k = i / 2 in
        let bound : i < 2 * length sp + 1 =
          subst (λ b. b < 2 * length sp + 1) c.0 (Falls-le sp _ _ (bkt_of-Falls x w.0.0)) in
        if_intro (Sorts (leq_from depth) (x ∷ xs)) (i == 2 * length sp) _ _
          (λ last.
            if_intro (Sorts (leq_from depth) (x ∷ xs)) (ltb 0 (length (x ∷ xs))) _ _
              (λ some_left.
                sorts (x ∷ xs) depth w le (omega (arith, even (ground arith))) (omega arith))
              (λ none_left. absurd (ground arith)))
          (λ inner.
            if_intro (Sorts (leq_from depth) (x ∷ xs)) (i % 2 == 0) _ _
              (λ is_even.
                if_intro (Sorts (leq_from depth) (x ∷ xs)) (ltb 1 (length (x ∷ xs))) _ _
                  (λ many.
                    let e : i ≡ 2 * k = ground arith in
                    less-Sorts k (x ∷ xs) (omega arith) (ground arith) (even (ground arith)) w
                      (subst (λ b. All (λ y. bkt_of find_bkt depth y ≡ b) (x ∷ xs)) e c))
                  (λ single. few (leq_from depth) (x ∷ xs) (ltb→ge 1 _ single)))
              (λ is_odd.
                if_intro (Sorts (leq_from depth) (x ∷ xs)) (ltb 1 (length (x ∷ xs))) _ _
                  (λ many.
                    let e : i ≡ 2 * k + 1 = ground arith in
                    let inside : k < length sp = omega arith in
                    let in_bucket =
                      both (2 * k + 1) (x ∷ xs) w
                        (subst (λ b. All (λ y. bkt_of find_bkt depth y ≡ b) (x ∷ xs)) e c) in
                    if_intro (Sorts (leq_from depth) (x ∷ xs)) (is_done k) _ _
                      (λ yes.
                        let z = sym (plan.done_iff k inside) ∙ yes in
                        done-Sorts k (x ∷ xs) (ground (arith, z)) in_bucket)
                      (λ no.
                        let z = sym (plan.done_iff k inside) ∙ no in
                        equal-Sorts k (x ∷ xs) (λ zero. ground (arith, z, zero)) (omega arith) le w
                          in_bucket))
                  (λ single. few (leq_from depth) (x ∷ xs) (ltb→ge 1 _ single))))

    -- What is left once the splitters are chosen, if one of them is the key of a string.
    pub sort_by_splitters-Sorts :
        (strings : List CString) (q : ℕ)
        → length strings ≡ n
        → n < 2 ^ 64
        → All (IsWithin limit) strings
        → q < n
        → (d : CString) → bkt_of find_bkt depth (get_or strings q d) % 2 ≡ 1
        → Sorts
            (leq_from depth)
            strings
            (sort_by_splitters sort find_bkt lcp is_done (length sp) strings depth)
    unfolding sort_by_splitters
    sort_by_splitters-Sorts strings q len fits w inside d odd =
        let cls = bkt_of find_bkt depth in
        let bktnum = 2 * length sp + 1 in
        let small = classes_small strings w in
        let (p, len_p, slices) = permuted-Sliced cls bktnum strings small (omega arith) in
        Sorts-perm p (
          recurse_loop-Sorts (leq_from depth) cls (IsWithin limit) bkt_of-cross
            (IsWithin-prop limit) 0 (bktsize_of cls bktnum strings)
            (sort_bucket sort lcp is_done (length sp) depth)
            (λ i xs from is wx cx.
              sort_bucket-Sorts i xs
                (omega (arith, get-le-sum (bktsize_of cls bktnum strings) i, len_p, length-perm p))
                (λ even.
                  let lt =
                    bktsize_of-lt cls bktnum strings i q d (omega arith) (λ e. omega arith) in
                  omega arith)
                wx cx)
            0 (bktsize_of cls bktnum strings) (permuted cls bktnum strings) (omega arith)
            (λ k. ap (◌!◌ (bktsize_of cls bktnum strings)) (zero-add k)) len_p
            (All-perm (IsWithin limit) (IsWithin-prop limit) (Perm.symm p) w) slices)
