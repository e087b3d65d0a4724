-- ===== src/Base/Reversed.antt =====
-- Counting, and what holds of all elements, in a reversed list.
use Prim.Native.Nat.{◌+◌}
use mathlib.Core.Path.{◌≡◌}
use mathlib.Core.Bool.{Bool}
use mathlib.Core.List.{List, [], ◌∷◌, reverse, reverse_aux}
use native.Mathlib.Omega.{arith}
use pycrate.Base.Lists.{count, All}

module _ {ℓ} {A : Type ℓ} where
  count-reverse_aux :
      (p : A → Bool) (xs ys : List A) → count p (reverse_aux xs ys) ≡ count p xs + count p ys
  count-reverse_aux p [] ys = omega arith
  count-reverse_aux p (x ∷ xs) ys = ground (arith, count-reverse_aux p xs (x ∷ ys))

  pub count-reverse : (p : A → Bool) (xs : List A) → count p (reverse xs) ≡ count p xs
  count-reverse p xs = omega (arith, count-reverse_aux p xs [])

module _ {ℓ κ} {A : Type ℓ} (P : A → Type κ) where
  All-reverse_aux : (xs ys : List A) → All P xs → All P ys → All P (reverse_aux xs ys)
  All-reverse_aux [] ys h k = k
  All-reverse_aux (x ∷ xs) ys h k = All-reverse_aux xs (x ∷ ys) h.1 (h.0, k)

  pub All-reverse : (xs : List A) → All P xs → All P (reverse xs)
  All-reverse xs h = All-reverse_aux xs [] h tt
