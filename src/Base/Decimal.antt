-- ===== src/Base/Decimal.antt =====
-- `str` of a natural number.
use Prim.Native.Nat.{ℕ, zero, suc, ◌/◌, ◌%◌, ◌<◌}
use Prim.Native.String.{String, ◌++◌}
use mathlib.Core.Path.{◌≡◌, refl, ap}
use mathlib.Core.Logic.{inl, inr}
use mathlib.Core.List.{List, [], ◌∷◌}
use native.Mathlib.Omega.{arith}
use pycrate.Base.Logic.{ltb, if◌then◌else◌, Bool-cases}

abbrev nth : ℕ → List String → String
nth n [] = ""
nth zero (d ∷ ds) = d
nth (suc n) (d ∷ ds) = nth n ds

abbrev pub digit : ℕ → String
digit n = nth n ("0" ∷ "1" ∷ "2" ∷ "3" ∷ "4" ∷ "5" ∷ "6" ∷ "7" ∷ "8" ∷ "9" ∷ [])

-- The fuel bounds the number of digits.
unfoldable pub digits : ℕ → ℕ → String
digits zero n = ""
digits (suc fuel) n =
    let front = digits fuel (n / 10) in if ltb n 10 then digit n else front ++ digit (n % 10)

unfoldable pub decimal : ℕ → String
unfolding digits
decimal n = digits (suc n) n

-- More fuel than the number changes nothing.
digits-enough : (f g n : ℕ) → n < f → n < g → digits f n ≡ digits g n
unfolding digits
digits-enough zero g n h k = absurd (omega arith)
digits-enough (suc f) zero n h k = absurd (omega arith)
digits-enough (suc f) (suc g) n h k = elim (Bool-cases (ltb n 10)) [
  | inl e ↦ rw (e, if◌then◌else◌)
  | inr e ↦
      rw (e, if◌then◌else◌)
        (ap (λ s. s ++ digit (n % 10))
          (digits-enough f g (n / 10) (ground (arith, e)) (ground (arith, e))))
]

decimal_of_2026 : decimal 2026 ≡ "2026"
unfolding decimal digits
decimal_of_2026 = refl
