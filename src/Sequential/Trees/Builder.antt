-- ===== src/Sequential/Trees/Builder.antt =====
-- The recursive builder grows a perfect tree over ascending samples.
use mathlib.Core.List.{append_assoc}
use bingmann_sample_sort.Prelude.{
  ℕ, zero, suc, ◌+◌, ◌-◌, ◌*◌, ◌/◌, ◌^◌, ◌≤◌, ◌<◌, ◌≡◌, refl, sym, ◌∙◌, true, false, List, [], ◌∷◌,
  ◌++◌, ltb, length, length-set, set, ◌!◌, All, arith, subst, set-get_self, set-get_ne, dec_lt,
}
use bingmann_sample_sort.Sequential.Sorted.{All-map, All-append}
use bingmann_sample_sort.Sequential.Classify.Rank.{IsAscending, IsAscending-get}
use bingmann_sample_sort.Sequential.Trees.{run_start, run_end, Built, emit, recurse}
use bingmann_sample_sort.Sequential.Trees.InOrder.{InOrder, two_pow, pow_pos2}
use bingmann_sample_sort.Sequential.Trees.Emitted.{
  entry, entries, last_key, entries-append, last_key-append, IsUnder, IsUnder-root, IsUnder-left,
  IsUnder-right, IsUnder-apart, IsUnder-below, InOrder-agree, run_start_bounds, run_end_bounds,
}
use bingmann_sample_sort.Sequential.Trees.Grown.{top_of, Among, IsGrown, emit_size, middle_asc}

module _ (samples : List ℕ) (asc : IsAscending samples) (n : ℕ) where
  -- The range of a call, and the place of its node in the tree.
  abbrev IsRange : ℕ → ℕ → Type 0
  IsRange lo hi = (lo ≤ hi) × (lo < length samples) × (hi ≤ length samples)

  abbrev IsPlace : ℕ → ℕ → Type 0
  IsPlace levels i = (0 < i) × (n + 1 ≤ i * 2 ^ levels) × ((i + 1) * 2 ^ levels ≤ 2 * (n + 1))

  get_le : (i j : ℕ) → i ≤ j → j < length samples → samples ! i ≤ samples ! j
  get_le i j le lt = IsAscending-get samples i j asc le lt

  -- A leaf writes its own key.
  leaf-IsGrown :
      (i lo hi prev : ℕ) (b : Built)
      → IsRange lo hi
      → i < length b.m_tree
      → let key = samples ! (lo + (hi - lo) / 2) in
        IsGrown samples 1 i lo hi prev b
          (emit prev key
            (record { m_tree = set b.m_tree i key; m_splitter = b.m_splitter; m_lcp = b.m_lcp }))
          key
  unfolding emit
  leaf-IsGrown i lo hi prev b (le, lt, small) inside =
      let mid = lo + (hi - lo) / 2 in
      record {
        keys = samples ! mid ∷ [];
        splitter_is = refl;
        lcp_is = refl;
        last_is = refl;
        in_order =
            subst (λ v. InOrder (set b.m_tree i (samples ! mid)) 1 i (v ∷ []))
              (set-get_self b.m_tree i (samples ! mid) inside)
              (InOrder.node 0 i [] [] (InOrder.leaf (2 * i)) (InOrder.leaf (2 * i + 1)));
        outside = λ j no.
            set-get_ne b.m_tree i j (samples ! mid)
              (λ e. no (subst (λ k. IsUnder 1 i k) e (IsUnder-root 0 i)));
        size = length-set b.m_tree i (samples ! mid);
        ascending = (tt, tt);
        low = (get_le lo mid (omega arith) (omega arith), tt);
        high = (get_le mid (top_of lo hi) (ground arith) (ground arith), tt);
        among = ((mid, omega arith, refl), tt);
      }

  -- An inner node stands between what its children write.
  node-IsGrown :
      (k i lo hi midlo midhi prev pk last : ℕ) (b bl br : Built)
      → IsRange lo hi
      → 0 < i
      → i < length b.m_tree
      → midlo ≤ lo + (hi - lo) / 2
      → lo ≤ midlo
      → lo + (hi - lo) / 2 ≤ midhi
      → (lo + (hi - lo) / 2 < hi → midhi < hi)
      → (hi ≤ lo + (hi - lo) / 2 → midhi ≡ lo + (hi - lo) / 2)
      → let key = samples ! (lo + (hi - lo) / 2) in
        IsGrown samples k
          (2 * i)
          lo
          midlo
          prev
          (record { m_tree = set b.m_tree i key; m_splitter = b.m_splitter; m_lcp = b.m_lcp })
          bl
          pk
        → IsGrown samples k (2 * i + 1) midhi hi key (emit pk key bl) br last
        → IsGrown samples (suc k) i lo hi prev b br last
  unfolding emit
  node-IsGrown k i lo hi midlo midhi prev pk last b bl br (le, lt, fits) pos inside l1 l0 r1 r2 r3
        left right =
      let mid = lo + (hi - lo) / 2 in
      let key = samples ! mid in
      let lk = left.keys in
      let rk = right.keys in
      let midhi-lt : midhi < length samples = elim (dec_lt mid hi) [
        | yes h ↦ omega (arith, r2 h)
        | no h ↦ omega (arith, r3 (omega arith))
      ] in
      let key-le : key ≤ samples ! midhi = get_le mid midhi r1 midhi-lt in
      let lo-le : samples ! lo ≤ key = get_le lo mid (omega arith) (omega arith) in
      let left-high : All (λ x. x ≤ key) lk =
        All-map (λ x. x ≤ samples ! top_of lo midlo) (λ x. x ≤ key)
          (λ x h. omega (arith, h, get_le (top_of lo midlo) mid (ground arith) (omega arith))) lk
          left.high in
      let right-low : All (λ x. key ≤ x) rk =
        All-map (λ x. samples ! midhi ≤ x) (λ x. key ≤ x) (λ x h. omega (arith, h, key-le)) rk
          right.low in
      let top = samples ! top_of lo hi in
      let key-top : key ≤ top = get_le mid (top_of lo hi) (ground arith) (ground arith) in
      let right-top : samples ! top_of midhi hi ≤ top =
        get_le (top_of midhi hi) (top_of lo hi)
          (top_le lo hi mid midhi (omega arith) r1 (λ h. omega arith) (λ h. omega arith) r2 r3)
          (ground arith) in
      let at_root : br.m_tree ! i ≡ key =
        right.outside i (IsUnder-below k i 1 pos)
        ∙ left.outside i (λ u. IsUnder-below k i 0 pos (subst (λ c. IsUnder k c i) (plus_zero i) u))
        ∙ set-get_self b.m_tree i key inside in
      record {
        keys = lk ++ (key ∷ rk);
        splitter_is = right.splitter_is ∙ rw left.splitter_is (three_parts b.m_splitter lk key rk);
        lcp_is =
            right.lcp_is
            ∙ rw (left.lcp_is, left.last_is, entries-append prev key lk rk)
                (three_parts b.m_lcp (entries prev lk) (entry (last_key prev lk) key)
                  (entries key rk));
        last_is = right.last_is ∙ sym (last_key-append prev key lk rk);
        in_order =
            subst (λ v. InOrder br.m_tree (suc k) i (lk ++ (v ∷ rk))) at_root
              (InOrder.node k i lk rk
                (InOrder-agree bl.m_tree br.m_tree k (2 * i) lk
                  (λ j u. right.outside j (IsUnder-apart k i j pos u)) left.in_order)
                right.in_order);
        outside = λ j no.
            right.outside j (λ u. no (IsUnder-right k i j u))
            ∙ left.outside j (λ u. no (IsUnder-left k i j u))
            ∙ set-get_ne b.m_tree i j key
                (λ e. no (subst (λ c. IsUnder (suc k) i c) e (IsUnder-root k i)));
        size = right.size ∙ left.size ∙ length-set b.m_tree i key;
        ascending = middle_asc key lk rk left.ascending right.ascending left-high right-low;
        low =
            All-append (λ x. samples ! lo ≤ x) lk (key ∷ rk) left.low
              (
                lo-le,
                All-map (λ x. key ≤ x) (λ x. samples ! lo ≤ x) (λ x h. omega (arith, h, lo-le)) rk
                    right-low,
              );
        high =
            All-append (λ x. x ≤ top) lk (key ∷ rk)
              (All-map (λ x. x ≤ key) (λ x. x ≤ top) (λ x h. omega (arith, h, key-top)) lk
                left-high)
              (
                key-top,
                All-map (λ x. x ≤ samples ! top_of midhi hi) (λ x. x ≤ top)
                    (λ x h. omega (arith, h, right-top)) rk right.high,
              );
        among =
            All-append (Among samples) lk (key ∷ rk) left.among
              ((mid, omega arith, refl), right.among);
      }
    where
      plus_zero : (i : ℕ) → 2 * i ≡ 2 * i + 0
      plus_zero i = omega arith

      three_parts :
          (a l : List ℕ) (m : ℕ) (r : List ℕ) → ((a ++ l) ++ (m ∷ [])) ++ r ≡ a ++ (l ++ (m ∷ r))
      three_parts a l m r = append_assoc (a ++ l) (m ∷ []) r ∙ append_assoc a l (m ∷ r)

      top_le :
          (lo hi mid midhi : ℕ)
          → lo ≤ mid
          → mid ≤ midhi
          → (lo < hi → mid < hi)
          → (hi ≤ lo → mid ≡ lo)
          → (mid < hi → midhi < hi)
          → (hi ≤ mid → midhi ≡ mid)
          → top_of midhi hi ≤ top_of lo hi
      top_le lo hi mid midhi a b c d e f = elim (dec_lt lo hi) [
        | yes h ↦ let x = c h in let y = e x in ground arith
        | no h ↦ let x = d (omega arith) in let y = f (omega arith) in ground arith
      ]

  abbrev rooted : ℕ → ℕ → Built → Built
  rooted i key b = record {
    m_tree = set b.m_tree i key;
    m_splitter = b.m_splitter;
    m_lcp = b.m_lcp;
  }

  abbrev mid_of : ℕ → ℕ → ℕ
  mid_of lo hi = lo + (hi - lo) / 2

  abbrev left_call : ℕ → ℕ → ℕ → ℕ → ℕ → Built → ℕ × Built
  left_call k lo hi i prev b =
      let key = samples ! mid_of lo hi in
      recurse k n samples lo (run_start lo (mid_of lo hi) key samples) (2 * i) prev (rooted i key b)

  abbrev right_call : ℕ → ℕ → ℕ → ℕ → ℕ × Built → ℕ × Built
  right_call k lo hi i done =
      let key = samples ! mid_of lo hi in
      recurse k n samples (run_end (hi - mid_of lo hi) (mid_of lo hi) hi key samples) hi (2 * i + 1)
        key (emit done.0 key done.1)

  abbrev leaf_call : ℕ → ℕ → ℕ → ℕ → Built → ℕ × Built
  leaf_call lo hi i prev b =
      let key = samples ! mid_of lo hi in (key, emit prev key (rooted i key b))

  recurse_node :
      (k i lo hi prev : ℕ) (b : Built)
      → ltb (2 * i) n ≡ true
      → recurse (suc k) n samples lo hi i prev b ≡ right_call k lo hi i (left_call k lo hi i prev b)
  unfolding recurse
  recurse_node k i lo hi prev b e =
      let inner = right_call k lo hi i (left_call k lo hi i prev b) in
      subst (λ t. elim t [ true ↦ inner | false ↦ leaf_call lo hi i prev b ] ≡ inner) (sym e) refl

  recurse_leaf :
      (k i lo hi prev : ℕ) (b : Built)
      → ltb (2 * i) n ≡ false
      → recurse (suc k) n samples lo hi i prev b ≡ leaf_call lo hi i prev b
  unfolding recurse
  recurse_leaf k i lo hi prev b e =
      let inner = right_call k lo hi i (left_call k lo hi i prev b) in
      let own = leaf_call lo hi i prev b in
      subst (λ t. elim t [ true ↦ inner | false ↦ own ] ≡ own) (sym e) refl

  IsPlace-inside : (k i : ℕ) → IsPlace (suc k) i → i ≤ n
  IsPlace-inside k i (pos, lo, hi) = inside (2 ^ k) (pow_pos2 k) (rw two_pow at hi)
    where
      inside : (p : ℕ) → 0 < p → (i + 1) * (2 * p) ≤ 2 * (n + 1) → i ≤ n
      inside p pp h = grind arith

  IsPlace-child : (k i c : ℕ) → c ≤ 1 → IsPlace (suc k) i → IsPlace k (2 * i + c)
  IsPlace-child k i c small (pos, lo, hi) =
      let b = bounds (2 ^ k) (rw two_pow at lo) (rw two_pow at hi) in (omega arith, b.0, b.1)
    where
      bounds :
          (p : ℕ)
          → n + 1 ≤ i * (2 * p)
          → (i + 1) * (2 * p) ≤ 2 * (n + 1)
          → (n + 1 ≤ (2 * i + c) * p) × ((2 * i + c + 1) * p ≤ 2 * (n + 1))
      bounds p a b = (grind arith, grind arith)

  abbrev IsCall : ℕ → ℕ → ℕ → ℕ → ℕ → Built → ℕ × Built → Type 0
  IsCall levels i lo hi prev b r = IsGrown samples levels i lo hi prev b r.1 r.0

  -- `recurse` grows a perfect tree over its range of the samples.
  pub recurse-IsGrown :
      (levels i lo hi prev : ℕ) (b : Built)
      → IsRange lo hi
      → IsPlace (suc levels) i
      → length b.m_tree ≡ n + 1
      → IsCall (suc levels) i lo hi prev b (recurse (suc levels) n samples lo hi i prev b)
  recurse-IsGrown zero i lo hi prev b range place size =
      let e : ltb (2 * i) n ≡ false = ground (arith, place.1) in
      subst (IsCall 1 i lo hi prev b) (sym (recurse_leaf zero i lo hi prev b e))
        (leaf-IsGrown i lo hi prev b range (omega (arith, IsPlace-inside zero i place)))
  recurse-IsGrown (suc k) i lo hi prev b range place size =
      let mid = mid_of lo hi in
      let key = samples ! mid in
      let child0 = IsPlace-child (suc k) i 0 (omega arith) place in
      let child1 = IsPlace-child (suc k) i 1 (omega arith) place in
      let even : 2 * i + 0 ≡ 2 * i = omega arith in
      let below = IsPlace-inside k (2 * i + 1) child1 in
      let e : ltb (2 * i) n ≡ true = ground arith in
      let s = run_start_bounds lo mid key samples (omega arith) in
      let t = run_end_bounds (hi - mid) mid hi key samples in
      let midlo = run_start lo mid key samples in
      let midhi = run_end (hi - mid) mid hi key samples in
      let right_range : IsRange midhi hi = elim (dec_lt mid hi) [
        | yes h ↦ let x = t.1 h in (omega arith, omega (arith, range.2), range.2)
        | no h ↦
            let x = t.2 (omega arith) in
            (omega (arith, range.0), omega (arith, range.0, range.1), range.2)
      ] in
      let left =
        recurse-IsGrown k (2 * i) lo midlo prev (rooted i key b)
          (omega (arith, s.0), range.1, omega (arith, s.1, range.1))
          (subst (IsPlace (suc k)) even child0) (length-set b.m_tree i key ∙ size) in
      let done = left_call (suc k) lo hi i prev b in
      let right =
        recurse-IsGrown k (2 * i + 1) midhi hi key (emit done.0 key done.1) right_range child1
          (emit_size done.0 key done.1 ∙ left.size ∙ length-set b.m_tree i key ∙ size) in
      subst (IsCall (suc (suc k)) i lo hi prev b) (sym (recurse_node (suc k) i lo hi prev b e)) (
        node-IsGrown (suc k) i lo hi midlo midhi prev done.0 _ b done.1 _ range place.0
          (omega (arith, IsPlace-inside (suc k) i place)) s.1 s.0 t.0 t.1 t.2 left right)
