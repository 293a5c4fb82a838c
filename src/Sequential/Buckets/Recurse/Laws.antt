-- ===== src/Sequential/Buckets/Recurse/Laws.antt =====
-- When every bucket is sorted and no bucket holds a string that belongs before an earlier one, the
-- concatenation is sorted.
use mathlib.Core.List.Perm
use native.Mathlib.Bridge.{le_prop}
use native.Mathlib.Nat.{zero-add, suc-add, ℕ_set}
use bingmann_sample_sort.Prelude.{
  ℕ, zero, suc, ◌+◌, ◌≤◌, ◌<◌, ◌≡◌, refl, sym, ap, ◌∙◌, Bool, true, Option, List, [], ◌∷◌, ◌++◌,
  take, drop, get_or, length, length-take, length-drop, take-append-drop, ◌!◌, sum, All, subst,
  arith,
}
use bingmann_sample_sort.Sequential.Sorted.{
  Below, IsSortedBy, All-append, All-map, All-perm, IsSortedBy-append, Sorts,
}
use bingmann_sample_sort.Sequential.Buckets.Sizes.{start}
use bingmann_sample_sort.Sequential.Buckets.Recurse.{join, recurse_loop}

plus_zero : (i : ℕ) → i ≡ i + 0
plus_zero i = omega arith

shift : (i k : ℕ) → suc i + k ≡ i + suc k
shift i k = omega arith

pub get-le-sum : (sizes : List ℕ) (i : ℕ) → sizes ! i ≤ sum sizes
get-le-sum [] i = omega arith
get-le-sum (s ∷ sizes) zero = omega arith
get-le-sum (s ∷ sizes) (suc i) = omega (arith, get-le-sum sizes i)

module _ {ℓ} {A : Type ℓ} where
  All-both {κ κ'} :
      (P : A → Type κ) (Q : A → Type κ') (xs : List A)
      → All P xs
      → All Q xs
      → All (λ x. P x × Q x) xs
  All-both P Q [] h k = tt
  All-both P Q (x ∷ xs) h k = ((h.0, k.0), All-both P Q xs h.1 k.1)

  pub All-take {κ} : (P : A → Type κ) (n : ℕ) (xs : List A) → All P xs → All P (take n xs)
  All-take P zero xs h = tt
  All-take P (suc n) [] h = tt
  All-take P (suc n) (x ∷ xs) h = (h.0, All-take P n xs h.1)

  pub All-drop {κ} : (P : A → Type κ) (n : ℕ) (xs : List A) → All P xs → All P (drop n xs)
  All-drop P zero xs h = h
  All-drop P (suc n) [] h = tt
  All-drop P (suc n) (x ∷ xs) h = All-drop P n xs h.1

  -- One order may stand for another where the two agree.
  pub IsSortedBy-agree {κ} :
      (leq leq' : A → A → Bool) (P : A → Type κ)
      → ((x y : A) → P x → P y → leq x y ≡ true → leq' x y ≡ true)
      → (xs : List A) → All P xs
      → IsSortedBy leq xs
      → IsSortedBy leq' xs
  IsSortedBy-agree leq leq' P f [] h s = tt
  IsSortedBy-agree leq leq' P f (x ∷ xs) h s =
      (below xs h.1 s.0, IsSortedBy-agree leq leq' P f xs h.1 s.1)
    where
      below : (ys : List A) → All P ys → Below leq x ys → Below leq' x ys
      below [] k b = tt
      below (y ∷ ys) k b = (f x y h.0 k.0 b.0, below ys k.1 b.1)

  pub Sorts-agree {κ} :
      (leq leq' : A → A → Bool) (P : A → Type κ)
      → ((x : A) → IsProp (P x))
      → ((x y : A) → P x → P y → leq x y ≡ true → leq' x y ≡ true)
      → (xs : List A) (r : Option (List A)) → All P xs
      → Sorts leq xs r
      → Sorts leq' xs r
  Sorts-agree leq leq' P c f xs r h (done, e, sorted, p) =
      (done, e, IsSortedBy-agree leq leq' P f done (All-perm P c (Perm.symm p) h) sorted, p)

  -- The strings of the buckets from `i` on lie one after the other.
  abbrev pub Sliced : (A → ℕ) → ℕ → List ℕ → List A → Type 0
  Sliced cls i [] xs = length xs ≡ 0
  Sliced cls i (size ∷ sizes) xs =
      All (λ x. cls x ≡ i) (take size xs) × Sliced cls (suc i) sizes (drop size xs)

  All-from {κ} :
      (P : A → Type κ) (n : ℕ) (xs : List A)
      → ((p : ℕ) (d : A) → p < n → p < length xs → P (get_or xs p d))
      → All P (take n xs)
  All-from P zero xs h = tt
  All-from P (suc n) [] h = tt
  All-from P (suc n) (x ∷ xs) h = (
    h 0 x (omega arith) (omega arith),
    All-from P n xs (λ p d lt l. h (suc p) d (omega arith) (omega arith)),
  )

  get-drop : (n p : ℕ) (xs : List A) (d : A) → get_or (drop n xs) p d ≡ get_or xs (n + p) d
  get-drop zero p xs d = rw zero-add refl
  get-drop (suc n) p [] d = refl
  get-drop (suc n) p (x ∷ xs) d = rw suc-add (get-drop n p xs d)

  -- The places of the buckets, as `start` gives them, are such slices.
  pub places-Sliced :
      (cls : A → ℕ) (i : ℕ) (sizes : List ℕ) (xs : List A)
      → length xs ≡ sum sizes
      → ((c p : ℕ) (d : A)
          → start sizes c ≤ p
          → p < start sizes (suc c)
          → cls (get_or xs p d) ≡ i + c)
      → Sliced cls i sizes xs
  places-Sliced cls i [] xs len h = len
  places-Sliced cls i (size ∷ sizes) xs len h = (
    All-from (λ x. cls x ≡ i) size xs
        (λ p d lt l. h 0 p d (omega arith) (omega arith) ∙ omega arith),
    places-Sliced cls (suc i) sizes (drop size xs) (omega (arith, length-drop size xs))
        (λ c p d lo hi.
          ap cls (get-drop size p xs d)
          ∙ h (suc c) (size + p) d (omega arith) (omega arith)
          ∙ omega arith),
  )

  -- Every string of the later slices is of a later bucket.
  pub Sliced-later :
      (cls : A → ℕ) (i : ℕ) (sizes : List ℕ) (xs : List A)
      → Sliced cls i sizes xs
      → All (λ x. i ≤ cls x) xs
  Sliced-later cls i [] [] h = tt
  Sliced-later cls i [] (x ∷ xs) h = absurd (omega arith)
  Sliced-later cls i (size ∷ sizes) xs (here, there) =
      subst (All (λ x. i ≤ cls x)) (take-append-drop size xs) (
        All-append (λ x. i ≤ cls x) (take size xs) (drop size xs)
          (All-map (λ x. cls x ≡ i) (λ x. i ≤ cls x) (λ x e. omega arith) (take size xs) here)
          (All-map (λ x. suc i ≤ cls x) (λ x. i ≤ cls x) (λ x e. omega arith) (drop size xs)
            (Sliced-later cls (suc i) sizes (drop size xs) there)))

  module _ {κ} (leq : A → A → Bool) (cls : A → ℕ) (P : A → Type κ)
      (cross : (x y : A) → P x → P y → cls x < cls y → leq x y ≡ true) where
    All-Below :
        (i : ℕ) (xs ys : List A)
        → All (λ x. P x × (cls x ≡ i)) xs
        → All (λ y. P y × (suc i ≤ cls y)) ys
        → All (λ x. Below leq x ys) xs
    All-Below i [] ys h k = tt
    All-Below i (x ∷ xs) ys (h, hs) k = (
      All-map (λ y. P y × (suc i ≤ cls y)) (λ y. leq x y ≡ true)
          (λ y q. cross x y h.0 q.0 (omega (arith, h.1, q.1))) ys k,
      All-Below i xs ys hs k,
    )

    module _ (propP : (x : A) → IsProp (P x)) where
      pub join-Sorts :
          (i : ℕ) (xs ys : List A) (r r' : Option (List A))
          → All P xs
          → All P ys
          → All (λ x. cls x ≡ i) xs
          → All (λ y. suc i ≤ cls y) ys
          → Sorts leq xs r
          → Sorts leq ys r'
          → Sorts leq (xs ++ ys) (join r r')
      unfolding join
      join-Sorts i xs ys r r' px py cx cy (done, e, s, p) (done', e', s', p') = (
        done ++ done',
        rw (e, e') refl,
        IsSortedBy-append leq done done' s s' (
            All-Below i done done'
              (All-both P _ done (All-perm P propP (Perm.symm p) px)
                (All-perm (λ x. cls x ≡ i) (λ x. ℕ_set _ _) (Perm.symm p) cx))
              (All-both P _ done' (All-perm P propP (Perm.symm p') py)
                (All-perm (λ y. suc i ≤ cls y) (λ y. le_prop) (Perm.symm p') cy))),
        Perm.append p p',
      )

      -- If the body sorts each bucket, the loop sorts them all.
      pub recurse_loop-Sorts :
          (low : ℕ) (whole : List ℕ) (sort_bucket : ℕ → ℕ → List A → Option (List A))
          → ((i : ℕ) (xs : List A)
              → low ≤ i
              → whole ! i ≡ length xs
              → All P xs
              → All (λ x. cls x ≡ i) xs
              → Sorts leq xs (sort_bucket i (length xs) xs))
          → (i : ℕ) (sizes : List ℕ) (xs : List A) → low ≤ i
          → ((k : ℕ) → whole ! (i + k) ≡ sizes ! k)
          → length xs ≡ sum sizes
          → All P xs
          → Sliced cls i sizes xs
          → Sorts leq xs (recurse_loop sort_bucket i sizes xs)
      unfolding recurse_loop
      recurse_loop-Sorts low whole body h i [] [] from al len px sl = ([], refl, tt, Perm.rfl)
      recurse_loop-Sorts low whole body h i [] (x ∷ xs) from al len px sl = absurd (omega arith)
      recurse_loop-Sorts low whole body h i (size ∷ sizes) xs from al len px (here, there) =
          let same : length (take size xs) ≡ size = omega (arith, length-take size xs) in
          let rest =
            recurse_loop-Sorts low whole body h (suc i) sizes (drop size xs) (omega arith)
              (λ k. ap (◌!◌ whole) (shift i k) ∙ al (suc k)) (omega (arith, length-drop size xs))
              (All-drop P size xs px) there in
          let first =
            subst (λ n. Sorts leq (take size xs) (body i n (take size xs))) same
              (h i (take size xs) from (ap (◌!◌ whole) (plus_zero i) ∙ al 0 ∙ sym same)
                (All-take P size xs px) here) in
          subst
            (λ l.
              Sorts leq l (
                join (body i size (take size xs)) (recurse_loop body (suc i) sizes (drop size xs))))
            (take-append-drop size xs)
            (join-Sorts i (take size xs) (drop size xs) _ _ (All-take P size xs px)
              (All-drop P size xs px) here (Sliced-later cls (suc i) sizes (drop size xs) there)
              first rest)
