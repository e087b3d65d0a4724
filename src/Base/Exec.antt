-- ===== src/Base/Exec.antt =====
-- Methods that change an object and may raise: the state comes back beside the error too.
use mathlib.Core.Path.{◌≡◌, refl}

pub data Result {ℓ} (E A : Type ℓ) : Type ℓ where
  ok : A → Result E A
  err : E → Result E A

abbrev pub Exec {ℓ} : Type ℓ → Type ℓ → Type ℓ → Type ℓ
Exec E S A = S → Result E A × S

module _ {ℓ} {E S A : Type ℓ} where
  abbrev pub pure : A → Exec E S A
  pure a s = (Result.ok a, s)

  abbrev pub raise : E → Exec E S A
  raise e s = (Result.err e, s)

  -- The result of a method that was run in some state.
  abbrev pub lift : Result E A → Exec E S A
  lift r s = (r, s)

module _ {ℓ} {E S A B : Type ℓ} where
  abbrev pub continue : Result E A → (A → Exec E S B) → Exec E S B
  continue (ok a) f s = f a s
  continue (err e) f s = (err e, s)

  infixl 10 ◌>>=◌ ◌>>◌
  unfoldable pub ◌>>=◌ : Exec E S A → (A → Exec E S B) → Exec E S B
  ◌>>=◌ m f s = continue (m s).0 f (m s).1

  abbrev pub ◌>>◌ : Exec E S A → Exec E S B → Exec E S B
  m >> n = m >>= λ _. n

  continue-returns :
      (r : Result E A) (f : A → Exec E S B) (b : B) (s : S)
      → (continue r f s).0 ≡ ok b
      → (a : A) × ((r ≡ ok a) × (continue r f s ≡ f a s))
  continue-returns (ok a) f b s h = (a, (refl, refl))
  continue-returns (err e) f b s h = absurd (cc h)

  -- A chain that returns went through its first link.
  pub bind-returns :
      (m : Exec E S A) (f : A → Exec E S B) (b : B) (s : S)
      → ((m >>= f) s).0 ≡ ok b
      → (a : A) × (((m s).0 ≡ ok a) × ((m >>= f) s ≡ f a (m s).1))
  unfolding ◌>>=◌
  bind-returns m f b s h = continue-returns (m s).0 f b (m s).1 h
