-- ===== src/Sequential/Buckets/Walking.antt =====
-- The walk over one cycle, and the loop over the starts of the cycles, on the strings.
use mathlib.Core.List.Perm
use bingmann_sample_sort.Prelude.{
  ℕ, zero, suc, ◌+◌, ◌^◌, ◌≤◌, ◌<◌, ◌≡◌, sym, ap, ◌∙◌, List, [], ◌∷◌, arith, ltb, ltb→lt, ltb→ge,
  if_intro, get_or-set_ne, length, get_or, set, ◌!◌, sum, dec64, Perm, set-perm, map, map-set,
  get-map, length-map,
}
use bingmann_sample_sort.Sequential.Buckets.{walk, Walk, permute_loop}
use bingmann_sample_sort.Sequential.Buckets.Sizes.{start, start-le-sum}
use bingmann_sample_sort.Sequential.Buckets.Cycle
use bingmann_sample_sort.Sequential.Buckets.Cycle.{IsCycle, IsBorder}
use bingmann_sample_sort.Sequential.Buckets.Partial.{IsPartial, begin-IsCycle, end_cycle, size_pos}

module _ {ℓ} {A : Type ℓ} (cls : A → ℕ) (sizes : List ℕ) (n : ℕ) (total : sum sizes ≡ n)
    (small : n < 2 ^ 64) where
  -- The state behind a cycle that begins with `x` held is partial, at a later position.
  abbrev Walked : ℕ → A → A → List A → Walk A → Type ℓ
  Walked i x perm strings w =
      IsPartial sizes n (i + sizes ! w.permbkt) (map cls w.strings) w.bktcache w.bktindex
      × (0 < sizes ! w.permbkt)
      × Perm (x ∷ w.strings) (perm ∷ strings)

  module _ (i : ℕ) (inside : i < n) (border : IsBorder sizes i) where
    stop-Walked :
        (perm d : A) (b : ℕ) (strings : List A) (cache index : List ℕ)
        → IsCycle sizes n i b (map cls strings) cache index
        → cls perm ≡ b
        → ¬ (i < dec64 (index ! b))
        → Walked i (get_or strings i d) perm strings (record {
          strings = set strings i perm;
          bktcache = cache;
          bktindex = set index b (dec64 (index ! b));
          permbkt = b;
        })
    stop-Walked perm d b strings cache index v e stop = (
      rw (map-set cls strings i perm, e)
          (end_cycle sizes n i total small inside border b (map cls strings) cache index v stop),
      size_pos sizes n i total small inside border b (map cls strings) cache index v stop,
      set-perm strings i perm d (rw (← length-map strings cls, v.length_ks) inside),
    )

    pub walk-Walked :
        (fuel : ℕ) (perm d : A) (b : ℕ) (strings : List A) (cache index : List ℕ)
        → IsCycle sizes n i b (map cls strings) cache index
        → cls perm ≡ b
        → sum index < fuel
        → Walked i (get_or strings i d) perm strings (walk fuel i perm b strings cache index)
    unfolding walk
    walk-Walked zero perm d b strings cache index v e enough = absurd (omega arith)
    walk-Walked (suc fuel) perm d b strings cache index v e enough =
        let ks = map cls strings in
        let j = dec64 (index ! b) in
        let found = get_or strings j perm in
        let rest = set strings j perm in
        if_intro (Walked i (get_or strings i d) perm strings) (ltb i j)
          (walk fuel i found (cache ! j) rest (set cache j b) (set index b j)) _
          (λ go.
            let lt = ltb→lt i j go in
            let j-lt = Cycle.j-lt sizes n i total small inside border b ks cache index v in
            let j-in : j < length strings = rw (← length-map strings cls, v.length_ks) j-lt.1 in
            let next =
              Cycle.next-IsCycle sizes n i total small inside border b ks cache index v lt in
            let e1 : map cls rest ≡ set ks j b = map-set cls strings j perm ∙ ap (set ks j) e in
            let e2 : cache ! j ≡ ks ! j = v.cached j lt j-lt.1 in
            let smaller : sum (set index b j) < fuel =
              omega
                (arith, Cycle.smaller sizes n i total small inside border b ks cache index v lt) in
            let ih =
              walk-Walked fuel found d (cache ! j) rest (set cache j b) (set index b j)
                (rw (e1, e2) next) (sym (e2 ∙ get-map cls strings j perm j-in)) smaller in
            let same = get_or-set_ne strings j i perm d (λ q. omega arith) in
            (ih.0, ih.1, Perm.trans (rw same at ih.2) (set-perm strings j perm perm j-in)))
          (λ stop.
            stop-Walked perm d b strings cache index v e (λ lt. omega (arith, ltb→ge i j stop)))

  -- The outer loop: every place ends up with a string of its bucket, and none is lost.
  module _ (stop : ℕ) (bound : stop ≤ n)
      (full : (i : ℕ) (ks cache index : List ℕ)
        → stop ≤ i
        → IsPartial sizes n i ks cache index
        → (c p : ℕ) → start sizes c ≤ p
        → p < start sizes (suc c)
        → ks ! p ≡ c) where
    abbrev Permuted : List A → List A → Type ℓ
    Permuted strings done =
        Perm done strings
        × ((c p : ℕ) → start sizes c ≤ p → p < start sizes (suc c) → map cls done ! p ≡ c)

    pub permute_loop-Permuted :
        (fuel i : ℕ) (strings : List A) (cache index : List ℕ)
        → IsPartial sizes n i (map cls strings) cache index
        → n < fuel + i
        → Permuted strings (permute_loop fuel stop sizes i strings cache index)
    unfolding permute_loop
    permute_loop-Permuted zero i strings cache index v enough =
        (Perm.rfl, full i (map cls strings) cache index (omega arith) v)
    permute_loop-Permuted (suc fuel) i [] cache index v enough =
        (Perm.rfl, λ c p lo hi. absurd (omega (arith, start-le-sum sizes (suc c), v.length_ks)))
    permute_loop-Permuted (suc fuel) i (s ∷ ss) cache index v enough =
        let w = walk (suc (sum index)) i (get_or (s ∷ ss) i s) (cache ! i) (s ∷ ss) cache index in
        if_intro (Permuted (s ∷ ss)) (ltb i stop)
          (permute_loop fuel stop sizes (i + sizes ! w.permbkt) w.strings w.bktcache w.bktindex) _
          (λ go.
            let inside : i < n = omega (arith, ltb→lt i stop go) in
            let first = get_or (s ∷ ss) i s in
            let ks = map cls (s ∷ ss) in
            let same = v.cached i (omega arith) inside in
            let in-list : i < length (s ∷ ss) =
              rw (← length-map (s ∷ ss) cls, v.length_ks) inside in
            let walked =
              walk-Walked i inside v.border (suc (sum index)) first s (cache ! i) (s ∷ ss) cache
                index (rw same (begin-IsCycle sizes n i total small inside ks cache index v))
                (sym (same ∙ get-map cls (s ∷ ss) i s in-list)) (omega arith) in
            let rest =
              permute_loop-Permuted fuel (i + sizes ! w.permbkt) w.strings w.bktcache w.bktindex
                walked.0 (omega (arith, walked.1)) in
            (Perm.trans rest.0 (Perm.cons_inv walked.2), rest.1))
          (λ done. (Perm.rfl, full i (map cls (s ∷ ss)) cache index (ltb→ge i stop done) v))
