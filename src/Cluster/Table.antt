-- ===== src/Cluster/Table.antt =====
-- Rows of an SQL table, as a list in rowid order, and what UPDATE, DELETE and a key do to them.
use pycrate.Base.{
  ◌≤◌, ◌≡◌, refl, inl, inr, Bool, true, false, List, [], ◌∷◌, ◌++◌, String, arith, str_eq, eq_iff,
  if◌then◌else◌, any, count, All, Bool-cases, length,
}

module _ {ℓ} {A : Type ℓ} where
  -- UPDATE … SET f WHERE p
  unfoldable pub update : (A → Bool) → (A → A) → List A → List A
  update p f [] = []
  update p f (x ∷ xs) = (if p x then f x else x) ∷ update p f xs

  -- DELETE … WHERE p
  unfoldable pub delete : (A → Bool) → List A → List A
  delete p [] = []
  delete p (x ∷ xs) = if p x then delete p xs else x ∷ delete p xs

  pub any-update :
      (q p : A → Bool) (f : A → A) (xs : List A)
      → ((x : A) → q (f x) ≡ q x)
      → any q (update p f xs) ≡ any q xs
  unfolding update
  any-update q p f [] h = refl
  any-update q p f (x ∷ xs) h = ground (arith, h x, any-update q p f xs h)

  pub count-update :
      (q p : A → Bool) (f : A → A) (xs : List A)
      → ((x : A) → q (f x) ≡ q x)
      → count q (update p f xs) ≡ count q xs
  unfolding update
  count-update q p f [] h = refl
  count-update q p f (x ∷ xs) h = ground (arith, h x, count-update q p f xs h)

  pub length-update : (p : A → Bool) (f : A → A) (xs : List A) → length (update p f xs) ≡ length xs
  unfolding update
  length-update p f [] = refl
  length-update p f (x ∷ xs) = omega (arith, length-update p f xs)

  -- A row that a deletion leaves was there.
  pub any_of-delete :
      (q p : A → Bool) (xs : List A) → any q xs ≡ false → any q (delete p xs) ≡ false
  unfolding delete
  any_of-delete q p [] h = refl
  any_of-delete q p (x ∷ xs) h = ground (arith, any_of-delete q p xs)

  -- A row that the condition does not meet stays.
  pub any-delete_stays :
      (q p : A → Bool) (xs : List A)
      → ((x : A) → q x ≡ true → p x ≡ false)
      → any q (delete p xs) ≡ any q xs
  unfolding delete
  any-delete_stays q p [] h = refl
  any-delete_stays q p (x ∷ xs) h = ground (arith, h x, any-delete_stays q p xs h)

  pub any-delete_self :
      (q p : A → Bool) (xs : List A)
      → ((x : A) → q x ≡ true → p x ≡ true)
      → any q (delete p xs) ≡ false
  unfolding delete
  any-delete_self q p [] h = refl
  any-delete_self q p (x ∷ xs) h = ground (arith, h x, any-delete_self q p xs h)

  pub count-delete-le : (q p : A → Bool) (xs : List A) → count q (delete p xs) ≤ count q xs
  unfolding delete
  count-delete-le q p [] = omega arith
  count-delete-le q p (x ∷ xs) = ground (arith, count-delete-le q p xs)

module _ {ℓ κ} {A : Type ℓ} (P : A → Type κ) where
  pub All-update :
      (p : A → Bool) (f : A → A) (xs : List A)
      → ((x : A) → P x → P (f x))
      → All P xs
      → All P (update p f xs)
  unfolding update
  All-update p f [] h a = tt
  All-update p f (x ∷ xs) h a = elim (Bool-cases (p x)) [
    | inl e ↦ rw (e, if◌then◌else◌) (h x a.0, All-update p f xs h a.1)
    | inr e ↦ rw (e, if◌then◌else◌) (a.0, All-update p f xs h a.1)
  ]

  pub All-delete : (p : A → Bool) (xs : List A) → All P xs → All P (delete p xs)
  unfolding delete
  All-delete p [] a = tt
  All-delete p (x ∷ xs) a = elim (Bool-cases (p x)) [
    | inl e ↦ rw (e, if◌then◌else◌) (All-delete p xs a.1)
    | inr e ↦ rw (e, if◌then◌else◌) (a.0, All-delete p xs a.1)
  ]

module _ {ℓ} {A : Type ℓ} (key : A → String) where
  -- There is a row with the key.
  abbrev pub has : String → List A → Bool
  has k xs = any (λ x. str_eq (key x) k) xs

  -- A PRIMARY KEY or UNIQUE constraint.
  abbrev pub Unique : List A → Type 0
  Unique [] = Unit
  Unique (x ∷ xs) = (has (key x) xs ≡ false) × Unique xs

  pub Unique-update :
      (p : A → Bool) (f : A → A) (xs : List A)
      → ((x : A) → key (f x) ≡ key x)
      → Unique xs
      → Unique (update p f xs)
  unfolding update
  Unique-update p f [] h u = tt
  Unique-update p f (x ∷ xs) h u = (
    ground (
      arith,
      h x,
      any-update (λ y. str_eq (key y) (key x)) p f xs (λ y. rw (h y)),
      any-update (λ y. str_eq (key y) (key (f x))) p f xs (λ y. rw (h y)),
    ),
    Unique-update p f xs h u.1,
  )

  pub Unique-delete : (p : A → Bool) (xs : List A) → Unique xs → Unique (delete p xs)
  unfolding delete
  Unique-delete p [] u = tt
  Unique-delete p (x ∷ xs) u = elim (Bool-cases (p x)) [
    | inl e ↦ rw (e, if◌then◌else◌) (Unique-delete p xs u.1)
    | inr e ↦
        rw (e, if◌then◌else◌)
          (any_of-delete (λ y. str_eq (key y) (key x)) p xs u.0, Unique-delete p xs u.1)
  ]

  has-append_new :
      (x y : A) (xs : List A)
      → has (key x) xs ≡ false
      → str_eq (key y) (key x) ≡ false
      → has (key x) (xs ++ y ∷ []) ≡ false
  has-append_new x y [] h e = rw (e, if◌then◌else◌)
  has-append_new x y (z ∷ xs) h e = ground (arith, has-append_new x y xs)

  pub Unique-append :
      (x : A) (xs : List A) → has (key x) xs ≡ false → Unique xs → Unique (xs ++ x ∷ [])
  Unique-append x [] h u = (refl, tt)
  Unique-append x (y ∷ xs) h u = (
    has-append_new y x xs u.0 (ground (arith, eq_iff (key x) (key y), eq_iff (key y) (key x))),
    Unique-append x xs (ground arith) u.1,
  )
