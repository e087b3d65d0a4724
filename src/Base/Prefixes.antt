-- ===== src/Base/Prefixes.antt =====
-- Python's `startswith`, `lstrip` with one character, `replace` by nothing, and `[:n]`.
use Prim.Native.Nat.{ℕ, zero, suc}
use Prim.Native.Char.{Char}
use Prim.Native.String.{String, [], ◌∷◌}
use mathlib.Core.Bool.{Bool, true, false, ◌&&◌}
use text.Mathlib.Text.{◌==◌ as str_eq}
use pycrate.Base.Logic.{if◌then◌else◌}

abbrev pub is_char : String → Char → Bool
is_char x c = str_eq (c ∷ []) x

abbrev pub starts_with : String → String → Bool
starts_with x [] = false
starts_with x (c ∷ _) = is_char x c

unfoldable pub skip : String → String → String
skip x [] = []
skip x (c ∷ s) = if is_char x c then skip x s else c ∷ s

-- `s.startswith(x)`
unfoldable pub is_prefix : String → String → Bool
is_prefix [] s = true
is_prefix (x ∷ xs) [] = false
is_prefix (x ∷ xs) (c ∷ s) = is_char (x ∷ []) c && is_prefix xs s

-- The number of characters after the first one.
unfoldable pub later : String → ℕ
later [] = 0
later (c ∷ []) = 0
later (c ∷ d ∷ s) = suc (later (d ∷ s))

-- `s.replace(x, "")`, where so many characters of a match are still to be left out.
unfoldable pub remove : String → ℕ → String → String
unfolding is_prefix later
remove x n [] = []
remove x (suc n) (c ∷ s) = remove x n s
remove x zero (c ∷ s) = if is_prefix x (c ∷ s) then remove x (later x) s else c ∷ remove x zero s

-- `s[:n]`
unfoldable pub first : ℕ → String → String
first zero s = []
first (suc n) [] = []
first (suc n) (c ∷ s) = c ∷ first n s
