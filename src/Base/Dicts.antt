-- ===== src/Base/Dicts.antt =====
-- A dictionary with text keys, in the order of insertion.
use mathlib.Core.Path.{◌≡◌, refl, ap, ◌∙◌}
use mathlib.Core.Logic.{inl, inr}
use mathlib.Core.Bool.{false}
use mathlib.Core.Option.{Option, none, some}
use mathlib.Core.List.{List, [], ◌∷◌, ◌++◌, map}
use Prim.Native.String.{String}
use text.Mathlib.Text.{◌==◌ as str_eq}
use text.Mathlib.TextEquality.{eq_iff}
use text.Mathlib.TextPositions.{eq_refl}
use pycrate.Base.Logic.{if◌then◌else◌, Bool-cases}

module _ {ℓ} {V : Type ℓ} where
  -- `d.get(k)`
  unfoldable pub get : String → List (String × V) → Option V
  get k [] = none
  get k ((j, v) ∷ rest) = if str_eq j k then some v else get k rest

  -- `d[k] = v`
  unfoldable pub set : String → V → List (String × V) → List (String × V)
  set k v [] = (k, v) ∷ []
  set k v ((j, w) ∷ rest) = if str_eq j k then (j, v) ∷ rest else (j, w) ∷ set k v rest

  -- `d.pop(k, None)`, without the value.
  unfoldable pub pop : String → List (String × V) → List (String × V)
  pop k [] = []
  pop k ((j, w) ∷ rest) = if str_eq j k then rest else (j, w) ∷ pop k rest

  -- `d.update(other)`
  unfoldable pub merge : List (String × V) → List (String × V) → List (String × V)
  unfolding set
  merge d [] = d
  merge d ((k, v) ∷ rest) = merge (set k v d) rest

  pub get-set_self : (k : String) (v : V) (d : List (String × V)) → get k (set k v d) ≡ some v
  unfolding get set
  get-set_self k v [] = rw (eq_refl k, if◌then◌else◌)
  get-set_self k v ((j, w) ∷ rest) = elim (Bool-cases (str_eq j k)) [
    | inl e ↦ rw (e, if◌then◌else◌, e)
    | inr e ↦ rw (e, if◌then◌else◌, e) (get-set_self k v rest)
  ]

  pub get-set_other :
      (j k : String) (v : V) (d : List (String × V))
      → str_eq k j ≡ false
      → get j (set k v d) ≡ get j d
  unfolding get set
  get-set_other j k v [] h = rw (h, if◌then◌else◌)
  get-set_other j k v ((i, w) ∷ rest) h = elim (Bool-cases (str_eq i k)) [
    | inl e ↦
        (let same : str_eq i j ≡ false = ap (λ x. str_eq x j) ((eq_iff i k).0 e) ∙ h in
          rw (e, if◌then◌else◌, same))
    | inr e ↦ elim (Bool-cases (str_eq i j)) [
      | inl f ↦ rw (e, if◌then◌else◌, f)
      | inr f ↦ rw (e, if◌then◌else◌, f, get-set_other j k v rest h)
    ]
  ]

  pub keys-set_new :
      (k : String) (v : V) (d : List (String × V))
      → get k d ≡ none
      → map (λ e. e.0) (set k v d) ≡ map (λ e. e.0) d ++ k ∷ []
  unfolding get set
  keys-set_new k v [] h = refl
  keys-set_new k v ((j, w) ∷ rest) h = elim (Bool-cases (str_eq j k)) [
    | inl e ↦ absurd (cc (rw (e, if◌then◌else◌) at h))
    | inr e ↦
        rw (e, if◌then◌else◌)
          (ap (λ ks. j ∷ ks) (keys-set_new k v rest (rw (e, if◌then◌else◌) at h)))
  ]
