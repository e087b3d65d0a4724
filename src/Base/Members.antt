-- ===== src/Base/Members.antt =====
-- Membership by recursion, which the tactics read.
use mathlib.Core.Path.{◌≡◌, refl, sym, ap, subst}
use mathlib.Core.Logic.{◌⊎◌, inl, inr}
use mathlib.Core.Bool.{Bool, true}
use mathlib.Core.List.{List, [], ◌∷◌, map}
use native.Mathlib.Omega.{arith}
use pycrate.Base.Lists.{All, any}

module _ {A : Type 0} where
  abbrev pub In : A → List A → Type 0
  In a [] = ⊥
  In a (x ∷ xs) = (a ≡ x) ⊎ In a xs

  In-weaken : (x : A) (xs ys : List A) → All (λ y. In y xs) ys → All (λ y. In y (x ∷ xs)) ys
  In-weaken x xs [] h = tt
  In-weaken x xs (y ∷ ys) h = (inr h.0, In-weaken x xs ys h.1)

  pub All-In : (xs : List A) → All (λ x. In x xs) xs
  All-In [] = tt
  All-In (x ∷ xs) = (inl refl, In-weaken x xs xs (All-In xs))

  pub All_at {κ} : (P : A → Type κ) (a : A) (xs : List A) → All P xs → In a xs → P a
  All_at P a (x ∷ xs) h (inl e) = subst P (sym e) h.0
  All_at P a (x ∷ xs) h (inr m) = All_at P a xs h.1 m
  All_at P a [] h m = absurd m

  pub any_of-In : (p : A → Bool) (a : A) (xs : List A) → In a xs → p a ≡ true → any p xs ≡ true
  any_of-In p a [] m h = absurd m
  any_of-In p a (x ∷ xs) (inl e) h = rw (← e) (rw h)
  any_of-In p a (x ∷ xs) (inr m) h = ground (arith, any_of-In p a xs m h)

  pub All-of-map {κ} :
      {B : Type 0} (P : B → Type κ) (f : A → B) (xs : List A)
      → All P (map f xs)
      → All (λ x. P (f x)) xs
  All-of-map P f [] h = tt
  All-of-map P f (x ∷ xs) h = (h.0, All-of-map P f xs h.1)

  pub All-map {κ} :
      {B : Type 0} (P : B → Type κ) (f : A → B) (xs : List A)
      → All (λ x. P (f x)) xs
      → All P (map f xs)
  All-map P f [] h = tt
  All-map P f (x ∷ xs) h = (h.0, All-map P f xs h.1)

pub In-map : {A B : Type 0} (f : A → B) (a : A) (xs : List A) → In a xs → In (f a) (map f xs)
In-map f a [] m = absurd m
In-map f a (x ∷ xs) (inl e) = inl (ap f e)
In-map f a (x ∷ xs) (inr m) = inr (In-map f a xs m)
