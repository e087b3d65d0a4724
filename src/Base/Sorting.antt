-- ===== src/Base/Sorting.antt =====
-- Python's stable `sorted` and `list.sort`: insertion by a test "comes strictly before".
use mathlib.Core.Path.{◌≡◌, refl, subst}
use mathlib.Core.Bool.{Bool, true, false}
use mathlib.Core.Logic.{inl, inr}
use mathlib.Core.List.{List, [], ◌∷◌}
use native.Mathlib.Omega.{arith}
use Prim.Native.Nat.{ℕ, zero, suc}
use pycrate.Base.Logic.{if◌then◌else◌, Bool-cases}
use pycrate.Base.Lists.{length, All, All-weaken, All-drop, take, drop}

module _ {ℓ} {A : Type ℓ} (before : A → A → Bool) where
  abbrev pub insert : A → List A → List A
  insert x [] = x ∷ []
  insert x (y ∷ ys) = if before y x then y ∷ insert x ys else x ∷ y ∷ ys

  abbrev pub sort : List A → List A
  sort [] = []
  sort (x ∷ xs) = insert x (sort xs)

  pub length-insert : (x : A) (xs : List A) → length (insert x xs) ≡ suc (length xs)
  length-insert x [] = refl
  length-insert x (y ∷ ys) = ground (arith, length-insert x ys)

  pub length-sort : (xs : List A) → length (sort xs) ≡ length xs
  length-sort [] = refl
  length-sort (x ∷ xs) = ground (arith, length-insert x (sort xs), length-sort xs)

module _ {ℓ κ} {A : Type ℓ} (before : A → A → Bool) (P : A → Type κ) where
  All-insert : (x : A) (xs : List A) → P x → All P xs → All P (insert before x xs)
  All-insert x [] hx h = (hx, tt)
  All-insert x (y ∷ ys) hx h = elim (Bool-cases (before y x)) [
    | inl e ↦ rw (e, if◌then◌else◌) (h.0, All-insert x ys hx h.1)
    | inr e ↦ rw (e, if◌then◌else◌) (hx, (h.0, h.1))
  ]

  pub All-sort : (xs : List A) → All P xs → All P (sort before xs)
  All-sort [] h = tt
  All-sort (x ∷ xs) h = All-insert x (sort before xs) h.0 (All-sort xs h.1)

  All-of-insert : (x : A) (xs : List A) → All P (insert before x xs) → All P (x ∷ xs)
  All-of-insert x [] h = h
  All-of-insert x (y ∷ ys) h = elim (Bool-cases (before y x)) [
    | inl e ↦
        (let k : P y × All P (insert before x ys) = rw (e, if◌then◌else◌) at h in
          let r : P x × All P ys = All-of-insert x ys k.1 in (r.0, (k.0, r.1)))
    | inr e ↦ rw (e, if◌then◌else◌) at h
  ]

  pub All-of-sort : (xs : List A) → All P (sort before xs) → All P xs
  All-of-sort [] h = tt
  All-of-sort (x ∷ xs) h = let r = All-of-insert x (sort before xs) h in (r.0, All-of-sort xs r.1)

-- Sorting by a key, the greatest first: `sort(key=…, reverse=True)`. The order of the keys is a
-- parameter with the two laws of a total preorder.
module _ {ℓ κ} {A : Type ℓ} {K : Type κ} (lt : K → K → Bool)
    (asym : (a b : K) → lt a b ≡ true → lt b a ≡ false)
    (trans : (a b c : K) → lt a b ≡ false → lt b c ≡ false → lt a c ≡ false) (key : A → K) where
  abbrev pub comes_first : A → A → Bool
  comes_first y x = lt (key x) (key y)

  abbrev pub Tops : List A → Type 0
  Tops [] = Unit
  Tops (d ∷ ds) = All (λ x. lt (key d) (key x) ≡ false) (d ∷ ds)

  irrefl : (a : K) → lt a a ≡ false
  irrefl a = elim (Bool-cases (lt a a)) [ inl e ↦ asym a a e | inr e ↦ e ]

  insert-Tops : (x : A) (xs : List A) → Tops xs → Tops (insert comes_first x xs)
  insert-Tops x [] h = (irrefl (key x), tt)
  insert-Tops x (y ∷ ys) h = elim (Bool-cases (comes_first y x)) [
    | inl e ↦
        rw (e, if◌then◌else◌) (h.0, All-insert comes_first _ x ys (asym (key x) (key y) e) h.1)
    | inr e ↦
        rw (e, if◌then◌else◌)
          (irrefl (key x), All-weaken _ _ (y ∷ ys) (λ z hz. trans (key x) (key y) (key z) e hz) h)
  ]

  sort-Tops : (xs : List A) → Tops (sort comes_first xs)
  sort-Tops [] = tt
  sort-Tops (x ∷ xs) = insert-Tops x (sort comes_first xs) (sort-Tops xs)

  -- The head of the sorted list has the greatest key.
  pub head-sort :
      (xs : List A) {d : A} {ds : List A}
      → sort comes_first xs ≡ d ∷ ds
      → All (λ x. lt (key d) (key x) ≡ false) xs
  head-sort xs {d} {ds} e =
      All-of-sort comes_first _ xs (rw e (let t : Tops (d ∷ ds) = subst Tops e (sort-Tops xs) in t))

  -- Each element has a key at least as great as those behind it.
  abbrev pub Sorted : List A → Type 0
  Sorted [] = Unit
  Sorted (x ∷ xs) = All (λ y. lt (key x) (key y) ≡ false) xs × Sorted xs

  insert-Sorted : (x : A) (xs : List A) → Sorted xs → Sorted (insert comes_first x xs)
  insert-Sorted x [] h = (tt, tt)
  insert-Sorted x (y ∷ ys) h = elim (Bool-cases (comes_first y x)) [
    | inl e ↦
        rw (e, if◌then◌else◌)
          (All-insert comes_first _ x ys (asym (key x) (key y) e) h.0, insert-Sorted x ys h.1)
    | inr e ↦
        rw (e, if◌then◌else◌)
          ((e, All-weaken _ _ ys (λ z hz. trans (key x) (key y) (key z) e hz) h.0), h)
  ]

  pub sort-Sorted : (xs : List A) → Sorted (sort comes_first xs)
  sort-Sorted [] = tt
  sort-Sorted (x ∷ xs) = insert-Sorted x (sort comes_first xs) (sort-Sorted xs)

  -- What is taken from the front has keys at least as great as what is left.
  pub take_drop-Sorted :
      (n : ℕ) (xs : List A)
      → Sorted xs
      → All (λ x. All (λ y. lt (key x) (key y) ≡ false) (drop n xs)) (take n xs)
  take_drop-Sorted zero xs h = tt
  take_drop-Sorted (suc n) [] h = tt
  take_drop-Sorted (suc n) (x ∷ xs) h = (All-drop _ n xs h.0, take_drop-Sorted n xs h.1)
