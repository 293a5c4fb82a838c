-- ===== src/Prelude/Flat.antt =====
-- Lists put one behind the other, and numbers added up, over the indices below a bound.
use Prim.Native.Nat.{ℕ, zero, suc, ◌+◌, ◌≤◌, ◌<◌}
use mathlib.Core.Path.{◌≡◌, refl, sym, ap, ◌∙◌}
use mathlib.Core.List.{List, [], ◌∷◌, ◌++◌}
use native.Mathlib.Decide.{dec_lt, ℕ_discrete}
use native.Mathlib.Nat.{zero-add, add-zero}
use native.Mathlib.Omega.{arith}
use bingmann_sample_sort.Prelude.Lists.{length, set, take, drop, length-append}
use bingmann_sample_sort.Prelude.Family.{update, update_at, update_other}

unfoldable pub tally : ℕ → (ℕ → ℕ) → ℕ
tally zero sizes = 0
tally (suc n) sizes = tally n sizes + sizes n

pub tally-agree : (n : ℕ) (f g : ℕ → ℕ) → ((i : ℕ) → i < n → f i ≡ g i) → tally n f ≡ tally n g
unfolding tally
tally-agree zero f g same = refl
tally-agree (suc n) f g same =
    let top = same n (omega arith) in
    omega (arith, top, tally-agree n f g (λ i lt. same i (omega arith)))

pub tally-add : (n : ℕ) (f g : ℕ → ℕ) → tally n (λ i. f i + g i) ≡ tally n f + tally n g
unfolding tally
tally-add zero f g = refl
tally-add (suc n) f g = omega (arith, tally-add n f g)

pub tally-zeros : (n : ℕ) → tally n (λ i. 0) ≡ 0
unfolding tally
tally-zeros zero = refl
tally-zeros (suc n) = omega (arith, tally-zeros n)

-- Rows and columns add up to the same.
pub tally_exchange :
    (n m : ℕ) (f : ℕ → ℕ → ℕ) → tally n (λ i. tally m (f i)) ≡ tally m (λ j. tally n (λ i. f i j))
unfolding tally
tally_exchange zero m f = sym (tally-zeros m)
tally_exchange (suc n) m f =
    omega (arith, tally_exchange n m f, tally-add m (λ j. tally n (λ i. f i j)) (f n))

pub tally_mono : (n m : ℕ) (f : ℕ → ℕ) → n ≤ m → tally n f ≤ tally m f
unfolding tally
tally_mono n zero f le = ground arith
tally_mono n (suc m) f le = elim (dec_lt n (suc m)) [
  | yes lt ↦ omega (arith, tally_mono n m f (omega arith))
  | no ge ↦ ground arith
]

module _ {ℓ} {A : Type ℓ} where
  unfoldable pub flat : ℕ → (ℕ → List A) → List A
  flat zero rows = []
  flat (suc n) rows = flat n rows ++ rows n

  pub flat-agree : (n : ℕ) (f g : ℕ → List A) → ((i : ℕ) → i < n → f i ≡ g i) → flat n f ≡ flat n g
  unfolding flat
  flat-agree zero f g same = refl
  flat-agree (suc n) f g same =
      rw (flat-agree n f g (λ i lt. same i (omega arith)), same n (omega arith)) refl

  pub length-flat : (n : ℕ) (f : ℕ → List A) → length (flat n f) ≡ tally n (λ i. length (f i))
  unfolding flat tally
  length-flat zero f = refl
  length-flat (suc n) f = omega (arith, length-append (flat n f) (f n), length-flat n f)

  set-append_left :
      (xs ys : List A) (k : ℕ) (v : A) → k < length xs → set (xs ++ ys) k v ≡ set xs k v ++ ys
  set-append_left [] ys k v h = absurd (omega arith)
  set-append_left (x ∷ xs) ys zero v h = refl
  set-append_left (x ∷ xs) ys (suc k) v h = ap (◌∷◌ x) (set-append_left xs ys k v (omega arith))

  set-append_right :
      (xs ys : List A) (k : ℕ) (v : A) → set (xs ++ ys) (length xs + k) v ≡ xs ++ set ys k v
  set-append_right [] ys k v = rw zero-add refl
  set-append_right (x ∷ xs) ys k v =
      let e : suc (length xs) + k ≡ suc (length xs + k) = omega arith in
      rw e (ap (◌∷◌ x) (set-append_right xs ys k v))

  flat-update_above :
      (n : ℕ) (f : ℕ → List A) (i : ℕ) (v : List A) → n ≤ i → flat n (update f i v) ≡ flat n f
  flat-update_above n f i v le =
      flat-agree n (update f i v) f (λ j lt. update_other f i v j (λ e. omega (arith, e)))

  -- A write into row `i` is a write into the whole.
  pub set-flat :
      (n : ℕ) (f : ℕ → List A) (i k : ℕ) (v : A)
      → i < n
      → k < length (f i)
      → set (flat n f) (tally i (λ j. length (f j)) + k) v ≡ flat n (update f i (set (f i) k v))
  unfolding flat tally
  set-flat zero f i k v lt fits = absurd (omega arith)
  set-flat (suc n) f i k v lt fits = elim (ℕ_discrete i n) [
    | yes e ↦ at_top e
    | no other ↦ in_front other (set-flat n f i k v (omega arith) fits)
  ]
    where
      row : List A
      row = set (f i) k v

      at_top :
          i ≡ n
          → set (flat n f ++ f n) (tally i (λ j. length (f j)) + k) v
            ≡ flat n (update f i row) ++ update f i row n
      at_top e =
          let old = flat-update_above n f i row (omega arith) in
          let new : update f i row n ≡ set (f n) k v =
            update_at f i row n e ∙ ap (λ z. set (f z) k v) e in
          rw (old, new, e, sym (length-flat n f)) (set-append_right (flat n f) (f n) k v)

      in_front :
          ¬ i ≡ n
          → set (flat n f) (tally i (λ j. length (f j)) + k) v ≡ flat n (update f i row)
          → set (flat n f ++ f n) (tally i (λ j. length (f j)) + k) v
            ≡ flat n (update f i row) ++ update f i row n
      in_front other rest =
          let inside : tally i (λ j. length (f j)) + length (f i) ≤ tally n (λ j. length (f j)) =
            tally_mono (suc i) n (λ j. length (f j)) (ground arith) in
          let whole = length-flat n f in
          let early : tally i (λ j. length (f j)) + k < length (flat n f) =
            rw whole (omega (arith, inside)) in
          rw (update_other f i row n other, sym rest)
            (set-append_left (flat n f) (f n) (tally i (λ j. length (f j)) + k) v early)

  take-append : (a b : ℕ) (xs : List A) → take a xs ++ take b (drop a xs) ≡ take (a + b) xs
  take-append zero b xs = rw zero-add refl
  take-append (suc a) zero [] = rw (add-zero (suc a)) refl
  take-append (suc a) (suc b) [] =
      let e : suc a + suc b ≡ suc (a + suc b) = omega arith in rw e refl
  take-append (suc a) b (x ∷ xs) =
      let e : suc a + b ≡ suc (a + b) = omega arith in rw e (ap (◌∷◌ x) (take-append a b xs))

  -- Pieces of these sizes, one behind the other, are the front of the list.
  pub flat-slices :
      (n : ℕ) (sizes : ℕ → ℕ) (xs : List A)
      → flat n (λ i. take (sizes i) (drop (tally i sizes) xs)) ≡ take (tally n sizes) xs
  unfolding flat tally
  flat-slices zero sizes xs = refl
  flat-slices (suc n) sizes xs =
      rw (flat-slices n sizes xs) (take-append (tally n sizes) (sizes n) xs)

  take_all : (xs : List A) → take (length xs) xs ≡ xs
  take_all [] = refl
  take_all (x ∷ xs) = ap (◌∷◌ x) (take_all xs)

  pub take-length : (n : ℕ) (xs : List A) → length xs ≡ n → take n xs ≡ xs
  take-length n xs e = rw (sym e) (take_all xs)
