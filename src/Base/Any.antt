-- ===== src/Base/Any.antt =====
-- "Some element passes the test" under selection, mapping and sorting.
use mathlib.Core.Path.{◌≡◌, refl}
use mathlib.Core.Bool.{Bool, true, false, ◌&&◌}
use mathlib.Core.List.{List, [], ◌∷◌, map}
use native.Mathlib.Omega.{arith}
use pycrate.Base.Lists.{All, any, select}
use pycrate.Base.Sorting.{insert, sort}

module _ {ℓ} {A : Type ℓ} where
  pub any-select : (q p : A → Bool) (xs : List A) → any q (select p xs) ≡ any (λ x. p x && q x) xs
  any-select q p [] = refl
  any-select q p (x ∷ xs) = ground (arith, any-select q p xs)

  pub any-cong : (p q : A → Bool) (xs : List A) → ((x : A) → p x ≡ q x) → any p xs ≡ any q xs
  any-cong p q [] h = refl
  any-cong p q (x ∷ xs) h = ground (arith, h x, any-cong p q xs h)

  pub any-weaken :
      (p q : A → Bool) (xs : List A)
      → ((x : A) → p x ≡ true → q x ≡ true)
      → any p xs ≡ true
      → any q xs ≡ true
  any-weaken p q [] h e = e
  any-weaken p q (x ∷ xs) h e = ground (arith, h x, any-weaken p q xs h)

  pub any_of-All : (p : A → Bool) (xs : List A) → All (λ x. p x ≡ false) xs → any p xs ≡ false
  any_of-All p [] h = refl
  any_of-All p (x ∷ xs) h = ground (arith, h.0, any_of-All p xs h.1)

  pub All-of-any : (p : A → Bool) (xs : List A) → any p xs ≡ false → All (λ x. p x ≡ false) xs
  All-of-any p [] h = tt
  All-of-any p (x ∷ xs) h = (ground arith, All-of-any p xs (ground arith))

  pub any_of-select_nil : (p : A → Bool) (xs : List A) → select p xs ≡ [] → any p xs ≡ false
  any_of-select_nil p [] e = refl
  any_of-select_nil p (x ∷ xs) e = ground (arith, any_of-select_nil p xs)

  pub any_of-select_cons :
      (p : A → Bool) (xs : List A) (y : A) (ys : List A) → select p xs ≡ y ∷ ys → any p xs ≡ true
  any_of-select_cons p [] y ys e = cc
  any_of-select_cons p (x ∷ xs) y ys e = ground (arith, any_of-select_cons p xs y ys)

  pub any-select_all : (p : A → Bool) (xs : List A) → any (λ _. true) (select p xs) ≡ any p xs
  any-select_all p [] = refl
  any-select_all p (x ∷ xs) = ground (arith, any-select_all p xs)

  any-insert :
      (before : A → A → Bool) (p : A → Bool) (x : A) (xs : List A)
      → any p (insert before x xs) ≡ any p (x ∷ xs)
  any-insert before p x [] = refl
  any-insert before p x (y ∷ ys) = ground (arith, any-insert before p x ys)

  pub any-sort :
      (before : A → A → Bool) (p : A → Bool) (xs : List A) → any p (sort before xs) ≡ any p xs
  any-sort before p [] = refl
  any-sort before p (x ∷ xs) =
      ground (arith, any-insert before p x (sort before xs), any-sort before p xs)

  pub any-map {κ} :
      {B : Type κ} (p : B → Bool) (f : A → B) (xs : List A)
      → any p (map f xs) ≡ any (λ x. p (f x)) xs
  any-map p f [] = refl
  any-map p f (x ∷ xs) = ground (arith, any-map p f xs)

module _ {ℓ κ μ} {A : Type ℓ} (P : A → Type κ) (Q : A → Type μ) where
  pub All-both : (xs : List A) → All P xs → All Q xs → All (λ x. P x × Q x) xs
  All-both [] p q = tt
  All-both (x ∷ xs) p q = ((p.0, q.0), All-both xs p.1 q.1)
