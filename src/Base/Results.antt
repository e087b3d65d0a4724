-- ===== src/Base/Results.antt =====
-- Results chained: the first error ends the chain.
use mathlib.Core.Path.{◌≡◌, refl}
use pycrate.Base.Exec.{Result, ok, err}

module _ {ℓ} {E A B : Type ℓ} where
  infixl 10 ◌>>=◌
  unfoldable pub ◌>>=◌ : Result E A → (A → Result E B) → Result E B
  ok a >>= f = f a
  err e >>= f = err e

  -- A chain that succeeds passed its first link.
  pub bind-ok :
      (r : Result E A) (f : A → Result E B) (b : B)
      → (r >>= f) ≡ ok b
      → (a : A) × ((r ≡ ok a) × (f a ≡ ok b))
  unfolding ◌>>=◌
  bind-ok (ok a) f b h = (a, (refl, h))
  bind-ok (err e) f b h = absurd (cc h)
