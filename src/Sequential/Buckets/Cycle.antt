-- ===== src/Sequential/Buckets/Cycle.antt =====
-- One cycle of the in-place permutation: the invariant of the inner loop, and what holds behind it.
use bingmann_sample_sort.Prelude.{
  ℕ, suc, ◌^◌, ◌≤◌, ◌<◌, ◌≡◌, ◌≢◌, ◌⊎◌, inl, inr, sym, ap, ◌∙◌, List, arith, length, set,
  length-set, ◌!◌, sum, dec64, count, hit, set-get_self, set-get_ne, count-set, count_outside,
  sum-set, dec_lt, ℕ_discrete,
}
use bingmann_sample_sort.Sequential.Buckets.Sizes.{
  start, start-suc, start-le-sum, same_bucket, get_pos-lt,
}

-- The facts about the bucket ids that hold between two rounds. `ks` are the true bucket ids of the
-- strings, and `b` is that of the string held, for which position `i` stands open.
pub record IsCycle (sizes : List ℕ) (n i b : ℕ) (ks cache index : List ℕ) : Type 0 where
  pub length_ks : length ks ≡ n
  pub length_cache : length cache ≡ n
  pub counts : (c : ℕ) → count c (set ks i b) ≡ sizes ! c
  pub cached : (p : ℕ) → i < p → p < n → cache ! p ≡ ks ! p
  pub placed :
      (c p : ℕ) → c < length sizes → i < p → index ! c ≤ p → p < start sizes (suc c) → ks ! p ≡ c
  pub finished : (c p : ℕ) → p < i → start sizes c ≤ p → p < start sizes (suc c) → ks ! p ≡ c
  pub index_bounds :
      (c : ℕ)
      → c < length sizes
      → i < start sizes (suc c)
      → (start sizes c ≤ index ! c) × (0 < index ! c) × (index ! c ≤ start sizes (suc c))
  pub length_index : length index ≡ length sizes

-- Position `i` cuts no bucket in two.
abbrev pub IsBorder : List ℕ → ℕ → Type 0
IsBorder sizes i = (c : ℕ) → (start sizes (suc c) ≤ i) ⊎ (i ≤ start sizes c)

module _ (sizes : List ℕ) (n i : ℕ) (total : sum sizes ≡ n) (small : n < 2 ^ 64) (inside : i < n)
    (border : IsBorder sizes i) where
  pub end-le : (c : ℕ) → start sizes c ≤ n
  end-le c = omega (arith, start-le-sum sizes c)

  module _ (b : ℕ) (ks cache index : List ℕ) (v : IsCycle sizes n i b ks cache index) where
    pub length-set_ks : length (set ks i b) ≡ n
    length-set_ks = length-set ks i b ∙ v.length_ks

    pub held : (set ks i b) ! i ≡ b
    held = set-get_self ks i b (rw v.length_ks inside)

    -- A bucket whose places all hold its own strings cannot be that of the string held.
    not_full :
        (i < start sizes b) ⊎ (start sizes (suc b) ≤ i)
        → ¬ ((p : ℕ) → start sizes b ≤ p → p < start sizes (suc b) → ks ! p ≡ b)
    not_full out all =
        let more =
          count_outside b (set ks i b) (start sizes b) (start sizes (suc b)) i
            (rw length-set_ks (end-le (suc b))) (rw length-set_ks inside) out held
            (λ p lo hi. set-get_ne ks i p b (λ e. omega arith) ∙ all p lo hi) in
        omega (arith, start-suc sizes b, v.counts b)

    pub size_pos : 0 < sizes ! b
    size_pos =
        let more =
          count_outside b (set ks i b) 0 0 i (omega arith) (rw length-set_ks inside)
            (inr (omega arith)) held (λ p lo hi. absurd (omega arith)) in
        omega (arith, v.counts b)

    pub b-in : b < length sizes
    b-in = get_pos-lt sizes b size_pos

    pub start-ge : i ≤ start sizes b
    start-ge = elim (border b) [
      | inl done ↦ absurd (not_full (inr done) (λ p lo hi. v.finished b p (omega arith) lo hi))
      | inr h ↦ h
    ]

    pub end-gt : i < start sizes (suc b)
    end-gt = omega (arith, start-suc sizes b, start-ge, size_pos)

    abbrev pub j : ℕ
    j = dec64 (index ! b)

    pub index-suc : index ! b ≡ suc j
    index-suc = let bounds = v.index_bounds b b-in end-gt in omega (arith, end-le (suc b))

    pub j-lt : (j < start sizes (suc b)) × (j < n)
    j-lt = let bounds = v.index_bounds b b-in end-gt in omega (arith, end-le (suc b), index-suc)

    -- In a bucket that starts behind `i` a place is still free.
    j-ge : i < start sizes b → start sizes b ≤ j
    j-ge ahead = elim (dec_lt (start sizes b) (index ! b)) [
      | yes h ↦ omega (arith, index-suc)
      | no full ↦
          absurd
            (not_full (inl ahead) (λ p lo hi. v.placed b p b-in (omega arith) (omega arith) hi))
    ]

    j-start : i < j → start sizes b ≤ j
    j-start h = elim (dec_lt i (start sizes b)) [
      | yes ahead ↦ j-ge ahead
      | no here ↦ omega (arith, start-ge)
    ]

    pub stops_at_start : ¬ (i < j) → start sizes b ≡ i
    stops_at_start h = elim (dec_lt i (start sizes b)) [
      | yes ahead ↦ absurd (omega (arith, j-ge ahead))
      | no here ↦ omega (arith, start-ge)
    ]

    -- One more round: the string held goes to place `j`, and the one found there is held.
    module _ (go : i < j) where
      abbrev pub ks' : List ℕ
      ks' = set ks j b

      abbrev pub index' : List ℕ
      index' = set index b j

      j-in : (j < length ks) × (j < length cache) × (b < length index)
      j-in = (
        rw v.length_ks j-lt.1,
        rw v.length_cache j-lt.1,
        rw v.length_index (get_pos-lt sizes b size_pos),
      )

      pub smaller : sum index' < sum index
      smaller = omega (arith, sum-set index b j j-in.2, index-suc)

      counts' : (c : ℕ) → count c (set ks' i (ks ! j)) ≡ sizes ! c
      counts' c = omega (
        arith,
        v.counts c,
        count-set c ks i b (rw v.length_ks inside),
        count-set c ks j b j-in.0,
        count-set c ks' i (ks ! j) (rw (length-set ks j b, v.length_ks) inside),
        ap (λ (t : ℕ). hit t c) (set-get_ne ks j i b (λ e. omega arith)),
      )

      cached' : (p : ℕ) → i < p → p < n → set cache j b ! p ≡ ks' ! p
      cached' p lo hi = elim (ℕ_discrete j p) [
        | yes e ↦ rw (← e) (set-get_self cache j b j-in.1 ∙ sym (set-get_self ks j b j-in.0))
        | no ne ↦ set-get_ne cache j p b ne ∙ v.cached p lo hi ∙ sym (set-get_ne ks j p b ne)
      ]

      placed_own : (p : ℕ) → i < p → j ≤ p → p < start sizes (suc b) → ks' ! p ≡ b
      placed_own p lo at hi = elim (ℕ_discrete j p) [
        | yes e ↦ rw (← e) (set-get_self ks j b j-in.0)
        | no ne ↦ set-get_ne ks j p b ne ∙ v.placed b p b-in lo (omega (arith, index-suc)) hi
      ]

      placed_other :
          (c p : ℕ)
          → b ≢ c
          → c < length sizes
          → i < p
          → index ! c ≤ p
          → p < start sizes (suc c)
          → ks' ! p ≡ c
      placed_other c p other c-in lo at hi =
          let bounds = v.index_bounds c c-in (omega arith) in
          let ne : j ≢ p =
            λ e. other (same_bucket sizes b c j (j-start go) j-lt.0 (omega arith) (omega arith)) in
          set-get_ne ks j p b ne ∙ v.placed c p c-in lo at hi

      placed' :
          (c p : ℕ)
          → c < length sizes
          → i < p
          → index' ! c ≤ p
          → p < start sizes (suc c)
          → ks' ! p ≡ c
      placed' c p c-in lo at hi = elim (ℕ_discrete b c) [
        | yes e ↦
            let low = rw (← e) at at in
            rw (← e) (placed_own p lo (omega (arith, set-get_self index b j j-in.2)) (rw e hi))
        | no ne ↦ placed_other c p ne c-in lo (rw (set-get_ne index b c j ne) at at) hi
      ]

      finished' : (c p : ℕ) → p < i → start sizes c ≤ p → p < start sizes (suc c) → ks' ! p ≡ c
      finished' c p before lo hi =
          set-get_ne ks j p b (λ e. omega arith) ∙ v.finished c p before lo hi

      index_bounds' :
          (c : ℕ)
          → c < length sizes
          → i < start sizes (suc c)
          → (start sizes c ≤ index' ! c) × (0 < index' ! c) × (index' ! c ≤ start sizes (suc c))
      index_bounds' c c-in h = elim (ℕ_discrete b c) [
        | yes e ↦ rw (← e, set-get_self index b j j-in.2) (omega (arith, j-start go, j-lt))
        | no ne ↦ rw (set-get_ne index b c j ne) (v.index_bounds c c-in h)
      ]

      pub next-IsCycle : IsCycle sizes n i (ks ! j) ks' (set cache j b) index'
      next-IsCycle = record {
        length_ks = length-set ks j b ∙ v.length_ks;
        length_cache = length-set cache j b ∙ v.length_cache;
        counts = counts';
        cached = cached';
        placed = placed';
        finished = finished';
        index_bounds = index_bounds';
        length_index = length-set index b j ∙ v.length_index;
      }
