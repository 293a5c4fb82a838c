-- ===== src/Sequential/LcpInssort/Insertion.antt =====
-- The insertion into the sorted part, as a list of strings with their prefixes, the last one first.
use Prim.Native.Nat.{compare, Ordering}
use mathlib.Core.List.Perm
use bingmann_sample_sort.Prelude.{
  ℕ, suc, ◌+◌, ◌≤◌, ◌<◌, ◌≡◌, refl, ap, Bool, true, false, not, List, [], ◌∷◌, length, All, Perm,
  arith, Bool-cases, inl, inr, subst, dec_lt,
}
use bingmann_sample_sort.Tools.Strings.{CString, leq_from, get_chars}
use bingmann_sample_sort.Tools.Compare.{common_prefix}
use bingmann_sample_sort.Sequential.Sorted.{Below, IsSortedBy, IsTotalOrder, All-map}
use bingmann_sample_sort.Sequential.Inssort.Laws.{leq_from-IsTotalOrder}
use bingmann_sample_sort.Sequential.LcpInssort.Prefixes.{
  parts_below, parts_same, common_prefix_comm,
}

-- A string, and the prefix that it shares with the next one behind it.
abbrev pub Entry : Type 0
Entry = CString × ℕ

abbrev pub strings_of : List Entry → List CString
strings_of [] = []
strings_of (e ∷ rp) = e.0 ∷ strings_of rp

abbrev pub lcps_of : List Entry → List ℕ
lcps_of [] = []
lcps_of (e ∷ rp) = e.1 ∷ lcps_of rp

-- The common prefix of two strings from depth `d` on, with the depth.
abbrev pub lcp_from : ℕ → CString → CString → ℕ
lcp_from d s t = d + common_prefix (get_chars s d) (get_chars t d)

module _ (d : ℕ) where
  abbrev pub order : CString → CString → Bool
  order = leq_from d

  abbrev pub reversed : CString → CString → Bool
  reversed x y = leq_from d y x

  -- The insertion of `t`, which shares `nl` characters with the string behind it.
  unfoldable pub insert_entry : CString → ℕ → List Entry → List Entry
  insert_entry t nl [] = (t, nl) ∷ []
  insert_entry t nl ((s, l) ∷ rp) = elim (compare l nl) [
    | Ordering.lt ↦ (t, nl) ∷ (s, l) ∷ rp
    | Ordering.eq ↦ elim (not (order s t)) [
      | false ↦ (t, nl) ∷ (s, lcp_from d t s) ∷ rp
      | true ↦ (s, l) ∷ insert_entry t (lcp_from d t s) rp
    ]
    | Ordering.gt ↦ (s, l) ∷ insert_entry t nl rp
  ]

  -- Every string's number is what `f` says for the first and the prefix with the one before.
  abbrev pub Links : (CString → ℕ) → List Entry → Type 0
  Links f [] = Unit
  Links f ((s, l) ∷ rp) = (l ≡ f s) × Links (λ x. lcp_from d x s) rp

  -- What the numbers `f` tell of `t` and a string `s` that stands before it.
  pub record Fits (f : CString → ℕ) (t s : CString) : Type 0 where
    pub lower : f s < f t → (order s t ≡ true) × (lcp_from d s t ≡ f s)
    pub higher : f t < f s → (order s t ≡ false) × (lcp_from d t s ≡ f t)
    pub equal : f s ≡ f t → f t ≤ lcp_from d t s

  lcp_from_comm : (s t : CString) → lcp_from d s t ≡ lcp_from d t s
  lcp_from_comm s t = ap (λ (n : ℕ). d + n) (common_prefix_comm (get_chars s d) (get_chars t d))

  -- With nothing behind, all numbers are the depth.
  pub top-Fits : (t s : CString) → Fits (λ x. d) t s
  top-Fits t s = record {
    lower = λ h. absurd (omega arith);
    higher = λ h. absurd (omega arith);
    equal = λ e. omega arith;
  }

  -- With a string behind that is not below `s`, and above `t`.
  pub behind-Fits :
      (t s u : CString) → order s u ≡ true → order t u ≡ true → Fits (λ x. lcp_from d x u) t s
  unfolding leq_from
  behind-Fits t s u su tu = record {
    lower = λ h.
        let p = parts_below (get_chars s d) (get_chars t d) (get_chars u d) su (omega arith) in
        (p.0, omega (arith, p.2));
    higher = λ h.
        let p = parts_below (get_chars t d) (get_chars s d) (get_chars u d) tu (omega arith) in
        (p.1, omega (arith, p.2));
    equal = λ e.
        let p = parts_same (get_chars t d) (get_chars s d) (get_chars u d) (omega arith) in
        omega (arith, p);
  }

  -- The state of the insertion of `t` in front of what is behind the entries left.
  pub record Ready (f : CString → ℕ) (t : CString) (nl : ℕ) (rp : List Entry) : Type 0 where
    pub same : nl ≡ f t
    pub deep : d ≤ nl
    pub fits : All (Fits f t) (strings_of rp)
    pub links : Links f rp
    pub sorted : IsSortedBy reversed (strings_of rp)

  o : IsTotalOrder order
  o = leq_from-IsTotalOrder d

  All-behind :
      (t u : CString) (xs : List CString)
      → Below reversed u xs
      → order t u ≡ true
      → All (Fits (λ x. lcp_from d x u) t) xs
  All-behind t u [] b tu = tt
  All-behind t u (x ∷ xs) b tu = (behind-Fits t x u b.0 tu, All-behind t u xs b.1 tu)

  -- Past a string that is above `t`.
  pub shift-Ready :
      {f : CString → ℕ} {t s : CString} {nl l : ℕ} {rp : List Entry}
      → Ready f t nl ((s, l) ∷ rp)
      → order s t ≡ false
      → Ready (λ x. lcp_from d x s) t (lcp_from d t s) rp
  shift-Ready {t} {s} {rp} r above = record {
    same = refl;
    deep = omega arith;
    fits = All-behind t s (strings_of rp) r.sorted.0 (o.total_law s t above);
    links = r.links.1;
    sorted = r.sorted.1;
  }

  -- The four ways that one step can go.
  step_cases {κ} :
      (P : List Entry → Type κ) (t : CString) (nl : ℕ) (s : CString) (l : ℕ) (rp : List Entry)
      → (l < nl → P ((t, nl) ∷ (s, l) ∷ rp))
      → (l ≡ nl → order s t ≡ true → P ((t, nl) ∷ (s, lcp_from d t s) ∷ rp))
      → (l ≡ nl → order s t ≡ false → P ((s, l) ∷ insert_entry t (lcp_from d t s) rp))
      → (nl < l → P ((s, l) ∷ insert_entry t nl rp))
      → P (insert_entry t nl ((s, l) ∷ rp))
  unfolding insert_entry
  step_cases P t nl s l rp lower found above higher = elim (dec_lt l nl) [
    | yes lt ↦ let e : compare l nl ≡ Ordering.lt = ground arith in rw (insert_entry, e) (lower lt)
    | no ge ↦ elim (dec_lt nl l) [
      | yes gt ↦
          let e : compare l nl ≡ Ordering.gt = ground arith in rw (insert_entry, e) (higher gt)
      | no not_gt ↦
          let same : l ≡ nl = omega arith in
          let e : compare l nl ≡ Ordering.eq = ground arith in
          elim (Bool-cases (order s t)) [
            | inl le ↦ rw (insert_entry, e, le) (found same le)
            | inr gt ↦ rw (insert_entry, e, gt) (above same gt)
          ]
    ]
  ]

  insert-All :
      (P : CString → Type 0) (t : CString) (nl : ℕ) (rp : List Entry)
      → P t
      → All P (strings_of rp)
      → All P (strings_of (insert_entry t nl rp))
  insert-All P t nl [] p h = unfold insert_entry in (p, tt)
  insert-All P t nl ((s, l) ∷ rp) p (hs, h) =
      step_cases (λ r. All P (strings_of r)) t nl s l rp (λ lt. (p, (hs, h))) (λ e le. (p, (hs, h)))
        (λ e gt. (hs, insert-All P t (lcp_from d t s) rp p h))
        (λ gt. (hs, insert-All P t nl rp p h))

  pub insert-perm :
      (t : CString) (nl : ℕ) (rp : List Entry)
      → Perm (strings_of (insert_entry t nl rp)) (t ∷ strings_of rp)
  insert-perm t nl [] = unfold insert_entry in Perm.rfl
  insert-perm t nl ((s, l) ∷ rp) =
      step_cases (λ r. Perm (strings_of r) (t ∷ s ∷ strings_of rp)) t nl s l rp (λ lt. Perm.rfl)
        (λ e le. Perm.rfl)
        (λ e gt. Perm.trans (Perm.cons s (insert-perm t (lcp_from d t s) rp)) (Perm.swap _ _ _))
        (λ gt. Perm.trans (Perm.cons s (insert-perm t nl rp)) (Perm.swap _ _ _))

  pub insert-length :
      (t : CString) (nl : ℕ) (rp : List Entry) → length (insert_entry t nl rp) ≡ suc (length rp)
  insert-length t nl [] = unfold insert_entry in refl
  insert-length t nl ((s, l) ∷ rp) =
      step_cases (λ r. length r ≡ suc (suc (length rp))) t nl s l rp (λ lt. refl) (λ e le. refl)
        (λ e gt. ap suc (insert-length t (lcp_from d t s) rp))
        (λ gt. ap suc (insert-length t nl rp))

  abbrev pub Inserted : (CString → ℕ) → List Entry → Type 0
  Inserted f rp = Links f rp × IsSortedBy reversed (strings_of rp)

  -- `t` in front of the entry of `s`.
  in_front :
      {f : CString → ℕ} {t s : CString} {nl l m : ℕ} {rp : List Entry}
      → Ready f t nl ((s, l) ∷ rp)
      → order s t ≡ true
      → m ≡ lcp_from d s t
      → Inserted f ((t, nl) ∷ (s, m) ∷ rp)
  in_front {t} {s} {rp} r le e = (
    (r.same, (e, r.links.1)),
    (
      (
        le,
        All-map (λ x. order x s ≡ true) (λ x. order x t ≡ true) (λ x h. o.trans_law x s t h le)
            (strings_of rp) r.sorted.0,
      ),
      r.sorted,
    ),
  )

  -- The entry of `s` in front of what becomes of the rest.
  stays_front :
      {f : CString → ℕ} {t s : CString} {nl l : ℕ} (m : ℕ) {rp : List Entry}
      → Ready f t nl ((s, l) ∷ rp)
      → order s t ≡ false
      → Inserted (λ x. lcp_from d x s) (insert_entry t m rp)
      → Inserted f ((s, l) ∷ insert_entry t m rp)
  stays_front {t} {s} m {rp} r gt (links, sorted) = (
    (r.links.0, links),
    (insert-All (λ x. order x s ≡ true) t m rp (o.total_law s t gt) r.sorted.0, sorted),
  )

  pub insert-Inserted :
      (f : CString → ℕ) (t : CString) (nl : ℕ) (rp : List Entry)
      → Ready f t nl rp
      → Inserted f (insert_entry t nl rp)
  insert-Inserted f t nl [] r = unfold insert_entry in ((r.same, tt), (tt, tt))
  insert-Inserted f t nl ((s, l) ∷ rp) r =
      step_cases (Inserted f) t nl s l rp
        (λ lt.
          let low = r.fits.0.lower (omega (arith, r.same, r.links.0)) in
          in_front r low.0 (omega (arith, low.1, r.links.0)))
        (λ e le. in_front r le (lcp_from_comm t s))
        (λ e gt.
          stays_front _ r gt
            (insert-Inserted (λ x. lcp_from d x s) t (lcp_from d t s) rp (shift-Ready r gt)))
        (λ gt.
          let high = r.fits.0.higher (omega (arith, r.same, r.links.0)) in
          let same : lcp_from d t s ≡ nl = omega (arith, high.1, r.same) in
          stays_front _ r high.0 (
            subst (λ m. Inserted (λ x. lcp_from d x s) (insert_entry t m rp)) same
              (insert-Inserted (λ x. lcp_from d x s) t (lcp_from d t s) rp (shift-Ready r high.0))))
