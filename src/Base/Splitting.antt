-- ===== src/Base/Splitting.antt =====
-- Python's `str.split`, without an argument and at one character. The first part of what is left is
-- carried beside the later ones.
use Prim.Native.Char.{Char}
use Prim.Native.String.append
use Prim.Native.String.{String, [], ◌∷◌, ◌++◌}
use mathlib.Core.Bool.{Bool, true, not, ◌&&◌}
use mathlib.Core.Logic.{inl, inr, ◌⊎◌}
use mathlib.Core.Path.{◌≡◌, refl, sym, ap, ◌∙◌}
use mathlib.Core.List.{List}
use pycrate.Base.Logic.{if◌then◌else◌, Bool-cases}
use pycrate.Base.Strings.{is_space, is_empty}

abbrev add : String → List String → List String
add w ws = if is_empty w then ws else List.◌∷◌ w ws

unfoldable pub words_from : String → String × List String
words_from [] = ([], List.[])
words_from (c ∷ s) =
    let (w, ws) = words_from s in if is_space c then ([], add w ws) else (c ∷ w, ws)

-- `s.split()`
unfoldable pub words : String → List String
unfolding words_from
words s = let (w, ws) = words_from s in add w ws

unfoldable pub parts_from : (Char → Bool) → String → String × List String
parts_from p [] = ([], List.[])
parts_from p (c ∷ s) =
    let (w, ws) = parts_from p s in if p c then ([], List.◌∷◌ w ws) else (c ∷ w, ws)

-- `s.split(x)`, where the test is that of the character x.
unfoldable pub parts : (Char → Bool) → String → List String
unfolding parts_from
parts p s = let (w, ws) = parts_from p s in List.◌∷◌ w ws

words_of_line : words "  oom_kill   1 " ≡ List.◌∷◌ "oom_kill" (List.◌∷◌ "1" List.[])
unfolding words words_from is_space
words_of_line = refl

-- No character passes the test.
unfoldable pub free : (Char → Bool) → String → Bool
free p [] = true
free p (c ∷ s) = not (p c) && free p s

module _ (p : Char → Bool) where
  -- The first part, and what follows it.
  pub record Cut (s : String) : Type 0 where
    pub first : String
    pub separator : Char
    pub later : String
    pub first_free : free p first ≡ true
    pub passes : p separator ≡ true
    pub whole : s ≡ first ++ (separator ∷ later)
    pub split : parts_from p s ≡ (first, parts p later)

  pub parts_from-free : (s : String) → free p s ≡ true → parts_from p s ≡ (s, List.[])
  unfolding parts_from free
  parts_from-free [] h = refl
  parts_from-free (c ∷ s) h = elim (Bool-cases (p c)) [
    | inl e ↦ absurd (cc (rw (e) at h))
    | inr e ↦ rw (e, if◌then◌else◌, parts_from-free s (rw (e) at h))
  ]

  pub parts_from-first :
      (s : String) (c : Char) (t : String)
      → free p s ≡ true
      → p c ≡ true
      → parts_from p (s ++ (c ∷ t)) ≡ (s, parts p t)
  unfolding parts parts_from free
  parts_from-first [] c t h e =
      let step : parts_from p (c ∷ t) ≡ ([], parts p t) = rw (e, if◌then◌else◌) in
      ap (parts_from p) (append.nil (c ∷ t)) ∙ step
  parts_from-first (d ∷ s) c t h e = elim (Bool-cases (p d)) [
    | inl f ↦ absurd (cc (rw (f) at h))
    | inr f ↦
        (let step : parts_from p (d ∷ (s ++ (c ∷ t))) ≡ (d ∷ s, parts p t) =
            rw (f, if◌then◌else◌, parts_from-first s c t (rw (f) at h) e) in
          ap (parts_from p) (append.cons d s (c ∷ t)) ∙ step)
  ]

  pub cut : (s : String) → ((parts_from p s ≡ (s, List.[])) × (free p s ≡ true)) ⊎ Cut s
  unfolding parts parts_from free
  cut [] = inl (refl, refl)
  cut (c ∷ s) = elim (Bool-cases (p c)) [
    | inl e ↦ inr (record {
      first = [];
      separator = c;
      later = s;
      first_free = refl;
      passes = e;
      whole = sym (append.nil (c ∷ s));
      split = rw (e, if◌then◌else◌);
    })
    | inr e ↦ elim (cut s) [
      | inl (u, f) ↦ inl (rw (e, if◌then◌else◌, u), rw (e, f))
      | inr k ↦ inr (record {
        first = c ∷ k.first;
        separator = k.separator;
        later = k.later;
        first_free = rw (e, k.first_free);
        passes = k.passes;
        whole = ap (λ t. c ∷ t) k.whole ∙ sym (append.cons c k.first (k.separator ∷ k.later));
        split = rw (e, if◌then◌else◌, k.split);
      })
    ]
  ]
