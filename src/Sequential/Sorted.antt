-- ===== src/Sequential/Sorted.antt =====
-- Lists in ascending order by a Boolean comparison, the contract of all sorters.
use mathlib.Core.Logic.{∥∥₁_elim}
use mathlib.Core.HLevel.{×_prop}
use mathlib.Core.List.{Permᴰ}
use mathlib.Core.List.Perm
use native.Mathlib.Nat.{ℕ_set}
use bingmann_sample_sort.Prelude.{
  suc, ◌≡◌, refl, Bool, true, false, List, [], ◌∷◌, ◌++◌, All, Perm, subst, Option, some, ap, ◌∙◌,
  length,
}

-- The laws of a comparison that a sorter relies on.
pub record IsTotalOrder {ℓ} {A : Type ℓ} (leq : A → A → Bool) : Type ℓ where
  pub trans_law : (x y z : A) → leq x y ≡ true → leq y z ≡ true → leq x z ≡ true
  pub total_law : (x y : A) → leq x y ≡ false → leq y x ≡ true

module _ {ℓ} {A : Type ℓ} where
  abbrev pub Below : (A → A → Bool) → A → List A → Type 0
  Below leq x xs = All (λ y. leq x y ≡ true) xs

  abbrev pub IsSortedBy : (A → A → Bool) → List A → Type 0
  IsSortedBy leq [] = Unit
  IsSortedBy leq (x ∷ xs) = Below leq x xs × IsSortedBy leq xs

  pub All-append {κ} : (P : A → Type κ) (xs ys : List A) → All P xs → All P ys → All P (xs ++ ys)
  All-append P [] ys h k = k
  All-append P (x ∷ xs) ys h k = (h.0, All-append P xs ys h.1 k)

  pub All-map {κ κ'} :
      (P : A → Type κ) (Q : A → Type κ') (f : (x : A) → P x → Q x) (xs : List A)
      → All P xs
      → All Q xs
  All-map P Q f [] h = tt
  All-map P Q f (x ∷ xs) h = (f x h.0, All-map P Q f xs h.1)

  pub All-prop {κ} : {P : A → Type κ} → ((x : A) → IsProp (P x)) → (xs : List A) → IsProp (All P xs)
  All-prop c [] = λ a b. refl
  All-prop c (x ∷ xs) = ×_prop (c x) (All-prop c xs)

  All-permᴰ {κ} : (P : A → Type κ) {xs ys : List A} → Permᴰ xs ys → All P xs → All P ys
  All-permᴰ P Permᴰ.nil h = h
  All-permᴰ P (Permᴰ.cons e d) h = (subst P e h.0, All-permᴰ P d h.1)
  All-permᴰ P (Permᴰ.swap e f) h = (subst P f h.1.0, (subst P e h.0, h.1.1))
  All-permᴰ P (Permᴰ.trans d e) h = All-permᴰ P e (All-permᴰ P d h)

  -- What holds of all elements holds of them in any order.
  pub All-perm {κ} :
      (P : A → Type κ)
      → ((x : A) → IsProp (P x))
      → {xs ys : List A} → Perm xs ys
      → All P xs
      → All P ys
  All-perm P c {ys = ys} p h = ∥∥₁_elim p (All-prop c ys) (λ d. All-permᴰ P d h)

  length-permᴰ : {xs ys : List A} → Permᴰ xs ys → length xs ≡ length ys
  length-permᴰ Permᴰ.nil = refl
  length-permᴰ (Permᴰ.cons e d) = ap suc (length-permᴰ d)
  length-permᴰ (Permᴰ.swap e f) = refl
  length-permᴰ (Permᴰ.trans d e) = length-permᴰ d ∙ length-permᴰ e

  pub length-perm : {xs ys : List A} → Perm xs ys → length xs ≡ length ys
  length-perm p = ∥∥₁_elim p (ℕ_set _ _) length-permᴰ

  pub IsSortedBy-append :
      (leq : A → A → Bool) (xs ys : List A)
      → IsSortedBy leq xs
      → IsSortedBy leq ys
      → All (λ x. Below leq x ys) xs
      → IsSortedBy leq (xs ++ ys)
  IsSortedBy-append leq [] ys h k c = k
  IsSortedBy-append leq (x ∷ xs) ys h k c =
      (All-append (λ y. leq x y ≡ true) xs ys h.0 c.0, IsSortedBy-append leq xs ys h.1 k c.1)

  -- A run that ends, and returns its input in ascending order.
  abbrev pub Sorts : (A → A → Bool) → List A → Option (List A) → Type ℓ
  Sorts leq input r = (done : List A) × (r ≡ some done) × IsSortedBy leq done × Perm done input

module _ {ℓ} {A : Type ℓ} {leq : A → A → Bool} where
  -- A sorter may rearrange its input first.
  pub Sorts-perm :
      {xs ys : List A} {r : Option (List A)} → Perm xs ys → Sorts leq xs r → Sorts leq ys r
  Sorts-perm p (done, e, sorted, q) = (done, e, sorted, Perm.trans q p)
