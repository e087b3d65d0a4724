-- ===== src/Cluster/Updates.antt =====
-- Many single-row updates as one update, where the keys are unique.
use pycrate.Base.{
  ◌≡◌, refl, ◌∙◌, sym, Bool, true, false, ◌&&◌, ◌||◌, String, List, [], ◌∷◌, arith, str_eq, eq_iff,
  eq_refl, if◌then◌else◌, any, All, All-weaken, All-of-any, All-both, In, any_of-In, Bool-cases,
  inl, inr, subst,
}
use pycrate.Cluster.Table.{update, has, Unique}

module _ {ℓ} {A : Type ℓ} where
  -- The second of two updates that write the same adds only its condition.
  pub update-update :
      (q p : A → Bool) (f : A → A) (xs : List A)
      → ((x : A) → f (f x) ≡ f x)
      → update q f (update p f xs) ≡ update (λ x. p x || q x) f xs
  unfolding update
  update-update q p f [] h = refl
  update-update q p f (x ∷ xs) h = ground (arith, h x, update-update q p f xs h)

  pub update-cong :
      (q p : A → Bool) (f : A → A) (xs : List A)
      → All (λ x. q x ≡ p x) xs
      → update q f xs ≡ update p f xs
  unfolding update
  update-cong q p f [] h = refl
  update-cong q p f (x ∷ xs) h = ground (arith, h.0, update-cong q p f xs h.1)

  pub update-none : (f : A → A) (xs : List A) → update (λ _. false) f xs ≡ xs
  unfolding update
  update-none f [] = refl
  update-none f (x ∷ xs) = ground (arith, update-none f xs)

module _ {ℓ} {A : Type ℓ} (key : A → String) (p : A → Bool) where
  absent :
      (k : String) (xs : List A)
      → has key k xs ≡ false
      → any (λ y. p y && str_eq k (key y)) xs ≡ false
  absent k [] h = refl
  absent k (y ∷ ys) h = ground (arith, eq_iff k (key y), eq_iff (key y) k, absent k ys)

  -- A row meets a condition exactly if a row that meets it has its key.
  pub any_key-Unique :
      (xs : List A)
      → Unique key xs
      → All (λ x. any (λ y. p y && str_eq (key x) (key y)) xs ≡ p x) xs
  any_key-Unique [] u = tt
  any_key-Unique (x ∷ xs) u = (
    ground (arith, eq_refl (key x), absent (key x) xs u.0),
    All-weaken _ _ xs (λ y h. ground (arith, h.0, h.1))
        (All-both _ _ xs (any_key-Unique xs u.1) (All-of-any _ xs u.0)),
  )

str_eq_sym : (a b : String) → str_eq a b ≡ true → str_eq b a ≡ true
str_eq_sym a b e = (eq_iff b a).1 (sym ((eq_iff a b).0 e))

module _ {A : Type 0} (key : A → String) where
  -- A unique key names one row.
  pub eq_of-key :
      (xs : List A) (x y : A)
      → Unique key xs
      → In x xs
      → In y xs
      → str_eq (key y) (key x) ≡ true
      → y ≡ x
  eq_of-key [] x y u m n e = absurd m
  eq_of-key (z ∷ zs) x y u (inl p) (inl q) e = q ∙ sym p
  eq_of-key (z ∷ zs) x y u (inr m) (inr n) e = eq_of-key zs x y u.1 m n e
  eq_of-key (z ∷ zs) x y u (inl p) (inr n) e = cc (
    u.0,
    any_of-In (λ w. str_eq (key w) (key z)) y zs n (subst (λ w. str_eq (key y) (key w) ≡ true) p e),
  )
  eq_of-key (z ∷ zs) x y u (inr m) (inl q) e = cc (
    u.0,
    any_of-In (λ w. str_eq (key w) (key z)) x zs m
        (subst (λ w. str_eq (key x) (key w) ≡ true) q (str_eq_sym (key y) (key x) e)),
  )

module _ {A : Type 0} (P : A → Type 0) (p : A → Bool) (f : A → A) where
  update-In :
      (xs ys : List A)
      → ((x : A) → In x xs → In x ys)
      → ((x : A) → In x ys → p x ≡ true → P x → P (f x))
      → All P xs
      → All P (update p f xs)
  unfolding update
  update-In [] ys sub h a = tt
  update-In (x ∷ xs) ys sub h a = elim (Bool-cases (p x)) [
    | inl e ↦
        rw (e, if◌then◌else◌)
          (h x (sub x (inl refl)) e a.0, update-In xs ys (λ z m. sub z (inr m)) h a.1)
    | inr e ↦ rw (e, if◌then◌else◌) (a.0, update-In xs ys (λ z m. sub z (inr m)) h a.1)
  ]

  pub All-update-In :
      (xs : List A)
      → ((x : A) → In x xs → p x ≡ true → P x → P (f x))
      → All P xs
      → All P (update p f xs)
  All-update-In xs h a = update-In xs xs (λ x m. m) h a
