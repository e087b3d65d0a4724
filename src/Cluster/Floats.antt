-- ===== src/Cluster/Floats.antt =====
-- Python floats, as the scheduler uses them. The type and its operations are a parameter; the laws
-- are those of `<` between doubles none of which is a NaN (every division has a divisor above 0).
use pycrate.Base.{ℕ, ◌≡◌, Bool, true, false, String}

pub record Floats (F : Type 0) : Type 0 where
  -- The literal n / d, or the integer n at d = 1.
  pub lit : ℕ → ℕ → F
  pub add : F → F → F
  pub sub : F → F → F
  pub mul : F → F → F
  pub div : F → F → F
  pub lt : F → F → Bool
  -- `f"{x:.1f}"`
  pub show : F → String
  pub lt_asym : (a b : F) → lt a b ≡ true → lt b a ≡ false
  pub lt_trans : (a b c : F) → lt a b ≡ false → lt b c ≡ false → lt a c ≡ false
