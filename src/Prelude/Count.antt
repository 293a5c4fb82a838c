-- ===== src/Prelude/Count.antt =====
-- Reading, writing and counting in lists of numbers, and permutations by a write.
use Prim.Native.Nat.{ℕ, zero, suc, ◌+◌, ◌-◌, ◌%◌, ◌^◌, ◌≤◌, ◌<◌}
use mathlib.Core.Path.{◌≡◌, refl, ap, ◌∙◌}
use mathlib.Core.Logic.{◌≢◌, ◌⊎◌}
use mathlib.Core.List.{List, [], ◌∷◌, map, Perm}
use mathlib.Core.List.Perm
use native.Mathlib.Omega.{arith}
use bingmann_sample_sort.Prelude.Tests.{◌==◌, if◌then◌else◌}
use bingmann_sample_sort.Prelude.Lists.{length, get_or, set, length-set}

-- A total read for lists of numbers; out of range it gives 0.
infixl 90 ◌!◌
abbrev pub ◌!◌ : List ℕ → ℕ → ℕ
xs ! i = get_or xs i 0

abbrev pub sum : List ℕ → ℕ
sum [] = 0
sum (x ∷ xs) = x + sum xs

-- 1 where two numbers are equal
abbrev pub hit : ℕ → ℕ → ℕ
hit x c = if x == c then 1 else 0

abbrev pub count : ℕ → List ℕ → ℕ
count c [] = 0
count c (x ∷ xs) = hit x c + count c xs

abbrev pub All {ℓ κ} : {A : Type ℓ} → (A → Type κ) → List A → Type κ
All P [] = Unit
All P (x ∷ xs) = P x × All P xs

pub set-get_self : (xs : List ℕ) (i v : ℕ) → i < length xs → set xs i v ! i ≡ v
set-get_self [] i v h = absurd (omega arith)
set-get_self (x ∷ xs) zero v h = refl
set-get_self (x ∷ xs) (suc i) v h = set-get_self xs i v (omega arith)

pub set-get_ne : (xs : List ℕ) (i j v : ℕ) → i ≢ j → set xs i v ! j ≡ xs ! j
set-get_ne [] i j v h = refl
set-get_ne (x ∷ xs) zero zero v h = absurd (h refl)
set-get_ne (x ∷ xs) zero (suc j) v h = refl
set-get_ne (x ∷ xs) (suc i) zero v h = refl
set-get_ne (x ∷ xs) (suc i) (suc j) v h = set-get_ne xs i j v (λ e. h (ap suc e))

pub get-map {ℓ} :
    {A : Type ℓ} (f : A → ℕ) (xs : List A) (i : ℕ) (d : A)
    → i < length xs
    → map f xs ! i ≡ f (get_or xs i d)
get-map f [] i d h = absurd (omega arith)
get-map f (x ∷ xs) zero d h = refl
get-map f (x ∷ xs) (suc i) d h = get-map f xs i d (omega arith)

pub map-set {ℓ} :
    {A : Type ℓ} (f : A → ℕ) (xs : List A) (i : ℕ) (v : A)
    → map f (set xs i v) ≡ set (map f xs) i (f v)
map-set f [] i v = refl
map-set f (x ∷ xs) zero v = refl
map-set f (x ∷ xs) (suc i) v = ap (◌∷◌ (f x)) (map-set f xs i v)

pub count-set :
    (c : ℕ) (xs : List ℕ) (i v : ℕ)
    → i < length xs
    → count c (set xs i v) + hit (xs ! i) c ≡ count c xs + hit v c
count-set c [] i v h = absurd (omega arith)
count-set c (x ∷ xs) zero v h = omega arith
count-set c (x ∷ xs) (suc i) v h = omega (arith, count-set c xs i v (omega arith))

-- An interval that holds one number everywhere bounds its count.
count_interval :
    (c : ℕ) (xs : List ℕ) (l r : ℕ)
    → r ≤ length xs
    → ((p : ℕ) → l ≤ p → p < r → xs ! p ≡ c)
    → r - l ≤ count c xs
count_interval c [] l r h all = omega arith
count_interval c (x ∷ xs) l zero h all = omega arith
count_interval c (x ∷ xs) zero (suc r) h all =
    let ih =
      count_interval c xs zero r (omega arith)
        (λ p lo hi. all (suc p) (omega arith) (omega arith)) in
    let here = all 0 (omega arith) (omega arith) in ground arith
count_interval c (x ∷ xs) (suc l) (suc r) h all =
    let ih =
      count_interval c xs l r (omega arith) (λ p lo hi. all (suc p) (omega arith) (omega arith)) in
    ground arith

-- One more occurrence outside the interval makes the bound strict.
pub count_outside :
    (c : ℕ) (xs : List ℕ) (l r q : ℕ)
    → r ≤ length xs
    → q < length xs
    → (q < l) ⊎ (r ≤ q)
    → xs ! q ≡ c
    → ((p : ℕ) → l ≤ p → p < r → xs ! p ≡ c)
    → r - l < count c xs
count_outside c xs l r q hr hq out at all =
    let s = count-set c xs q (suc c) hq in
    let i =
      count_interval c (set xs q (suc c)) l r (rw (length-set xs q (suc c)) hr)
        (λ p lo hi. set-get_ne xs q p (suc c) (λ e. ground arith) ∙ all p lo hi) in
    ground arith

pub set-perm {ℓ} :
    {A : Type ℓ} (xs : List A) (i : ℕ) (v d : A)
    → i < length xs
    → Perm (get_or xs i d ∷ set xs i v) (v ∷ xs)
set-perm [] i v d h = absurd (omega arith)
set-perm (x ∷ xs) zero v d h = Perm.swap _ _ _
set-perm (x ∷ xs) (suc i) v d h =
    Perm.trans (Perm.swap _ _ _)
      (Perm.trans (Perm.cons x (set-perm xs i v d (omega arith))) (Perm.swap _ _ _))

pub sum-set : (xs : List ℕ) (i v : ℕ) → i < length xs → sum (set xs i v) + xs ! i ≡ sum xs + v
sum-set [] i v h = absurd (omega arith)
sum-set (x ∷ xs) zero v h = omega arith
sum-set (x ∷ xs) (suc i) v h = omega (arith, sum-set xs i v (omega arith))

pub get_or-set_ne {ℓ} :
    {A : Type ℓ} (xs : List A) (i j : ℕ) (v d : A) → i ≢ j → get_or (set xs i v) j d ≡ get_or xs j d
get_or-set_ne [] i j v d h = refl
get_or-set_ne (x ∷ xs) zero zero v d h = absurd (h refl)
get_or-set_ne (x ∷ xs) zero (suc j) v d h = refl
get_or-set_ne (x ∷ xs) (suc i) zero v d h = refl
get_or-set_ne (x ∷ xs) (suc i) (suc j) v d h = get_or-set_ne xs i j v d (λ e. h (ap suc e))

-- `--x` on `size_t`
abbrev pub dec64 : ℕ → ℕ
dec64 x = (x + (2 ^ 64 - 1)) % 2 ^ 64
