-- ===== src/Engine/Volumes/Accepted.antt =====
-- Which specifications `VolumeMount.parse` accepts, and as what.
use Prim.Native.Char.{Char}
use Prim.Native.String.{◌++◌ as ◌++ₛ◌}
use Prim.Native.String.append
use Prim.Native.String as Text
use text.Mathlib.TextLemmas.{append-nil}
use pycrate.Base.{
  ◌≡◌, refl, sym, ap, ◌∙◌, inl, inr, ◌⊎◌, ◌↔◌, Bool, true, false, String, [], ◌∷◌, none, some,
  str_eq, eq_iff, if◌then◌else◌, Bool-cases,
}
use pycrate.Base.Exec.{ok}
use pycrate.Base.Splitting.{parts, parts_from, free, Cut, cut, parts_from-free, parts_from-first}
use pycrate.Engine.Volumes.{
  Host, VolumeMount, is_colon, is_absolute, checked, parse_parts, parse, read_only_of,
}

pub data Mode : Type 0 where
  plain ro rw_mode : Mode

abbrev pub suffix : Mode → String
suffix plain = ""
suffix ro = ":ro"
suffix rw_mode = ":rw"

abbrev pub is_ro : Mode → Bool
is_ro ro = true
is_ro _ = false

-- `spec` is `host:container`, alone or with `:ro` or `:rw`, and v is what it says.
pub record Accepted (h : Host) (spec : String) (v : VolumeMount) : Type 0 where
  pub host : String
  pub container : String
  pub mode : Mode
  pub host_free : free is_colon host ≡ true
  pub container_free : free is_colon container ≡ true
  pub spec_is : spec ≡ host ++ₛ (":" ++ₛ (container ++ₛ suffix mode))
  pub is_there : h.exists (h.resolve host) ≡ true
  pub absolute : is_absolute container ≡ true
  pub value :
      v ≡ record { host_path = h.resolve host; container_path = container; read_only = is_ro mode }

-- A colon, and what follows it.
colon-append : (c : Char) (t : String) → is_colon c ≡ true → ":" ++ₛ t ≡ Text.◌∷◌ c t
colon-append c t h =
    ap (λ s. s ++ₛ t) (sym ((eq_iff (Text.◌∷◌ c "") ":").0 h))
    ∙ append.cons c "" t
    ∙ ap (λ s. Text.◌∷◌ c s) (append.nil t)

parts-colon :
    (a t : String)
    → free is_colon a ≡ true
    → parts_from is_colon (a ++ₛ (":" ++ₛ t)) ≡ (a, parts is_colon t)
parts-colon a t h =
    ap (λ s. parts_from is_colon (a ++ₛ s)) (colon-append ":" t refl)
    ∙ parts_from-first is_colon a ":" t h refl

parts-two :
    (a b : String)
    → free is_colon a ≡ true
    → free is_colon b ≡ true
    → parts is_colon (a ++ₛ (":" ++ₛ b)) ≡ a ∷ b ∷ []
unfolding parts
parts-two a b h k = rw (parts-colon a b h, parts_from-free is_colon b k)

parts-three :
    (a b c : String)
    → free is_colon a ≡ true
    → free is_colon b ≡ true
    → free is_colon c ≡ true
    → parts is_colon (a ++ₛ (":" ++ₛ (b ++ₛ (":" ++ₛ c)))) ≡ a ∷ b ∷ c ∷ []
unfolding parts
parts-three a b c h k l =
    rw (parts-colon a (b ++ₛ (":" ++ₛ c)) h, parts-colon b c k, parts_from-free is_colon c l)

checked-ok :
    (h : Host) (host container : String) (b : Bool) (v : VolumeMount)
    → checked h host container b ≡ ok v
    → (h.exists (h.resolve host) ≡ true)
      × ((is_absolute container ≡ true)
          × (v ≡ record { host_path = h.resolve host; container_path = container; read_only = b }))
checked-ok h host container b v e = elim (Bool-cases (h.exists (h.resolve host))) [
  | inr f ↦ absurd (cc (rw (f, if◌then◌else◌) at e))
  | inl f ↦ elim (Bool-cases (is_absolute container)) [
    | inr g ↦ absurd (cc (rw (f, g, if◌then◌else◌) at e))
    | inl g ↦ (f, (g, cc (rw (f, g, if◌then◌else◌) at e)))
  ]
]

read_only_of-cases :
    (mode : String)
    → (read_only_of mode ≡ none)
      ⊎ ((m : Mode) × ((":" ++ₛ mode ≡ suffix m) × (read_only_of mode ≡ some (is_ro m))))
read_only_of-cases mode = elim (Bool-cases (str_eq mode "ro")) [
  | inl e ↦ inr (ro, (ap (λ t. ":" ++ₛ t) ((eq_iff mode "ro").0 e), rw (e, if◌then◌else◌)))
  | inr e ↦ elim (Bool-cases (str_eq mode "rw")) [
    | inl f ↦
        inr (rw_mode, (ap (λ t. ":" ++ₛ t) ((eq_iff mode "rw").0 f), rw (e, f, if◌then◌else◌)))
    | inr f ↦ inl (rw (e, f, if◌then◌else◌))
  ]
]

Cut-colon : (s : String) (k : Cut is_colon s) → s ≡ k.first ++ₛ (":" ++ₛ k.later)
Cut-colon s k = k.whole ∙ ap (λ t. k.first ++ₛ t) (sym (colon-append k.separator k.later k.passes))

Accepted-plain :
    (h : Host) (spec : String) (v : VolumeMount) (k : Cut is_colon spec)
    → free is_colon k.later ≡ true
    → checked h k.first k.later false ≡ ok v
    → Accepted h spec v
Accepted-plain h spec v k f e =
    let (there, (absolute, value)) = checked-ok h k.first k.later false v e in
    record {
      host = k.first;
      container = k.later;
      mode = plain;
      host_free = k.first_free;
      container_free = f;
      spec_is = Cut-colon spec k ∙ ap (λ t. k.first ++ₛ (":" ++ₛ t)) (sym (append-nil k.later));
      is_there = there;
      absolute = absolute;
      value = value;
    }

Accepted-mode :
    (h : Host) (spec : String) (v : VolumeMount) (k : Cut is_colon spec) (l : Cut is_colon k.later)
    (m : Mode)
    → ":" ++ₛ l.later ≡ suffix m
    → checked h k.first l.first (is_ro m) ≡ ok v
    → Accepted h spec v
Accepted-mode h spec v k l m f e =
    let (there, (absolute, value)) = checked-ok h k.first l.first (is_ro m) v e in
    let later = Cut-colon k.later l ∙ ap (λ t. l.first ++ₛ t) f in
    record {
      host = k.first;
      container = l.first;
      mode = m;
      host_free = k.first_free;
      container_free = l.first_free;
      spec_is = Cut-colon spec k ∙ ap (λ t. k.first ++ₛ (":" ++ₛ t)) later;
      is_there = there;
      absolute = absolute;
      value = value;
    }

Accepted-of-parse :
    (h : Host) (spec : String) (v : VolumeMount) → parse h spec ≡ ok v → Accepted h spec v
unfolding parse parts
Accepted-of-parse h spec v e = elim (cut is_colon spec) [
  | inl (u, _) ↦ absurd (cc (rw (parse, u) at e))
  | inr k ↦ elim (cut is_colon k.later) [
    | inl (u, f) ↦ Accepted-plain h spec v k f (rw (parse, k.split, u) at e)
    | inr l ↦ elim (cut is_colon l.later) [
      | inl (w, _) ↦
          (let three : parse_parts h spec (k.first ∷ l.first ∷ l.later ∷ []) ≡ ok v =
              rw (parse, k.split, l.split, w) at e in
            elim (read_only_of-cases l.later) [
              | inl f ↦ absurd (cc (rw (parse_parts, f) at three))
              | inr (m, (f, g)) ↦ Accepted-mode h spec v k l m f (rw (parse_parts, g) at three)
            ])
      | inr n ↦ absurd (cc (rw (parse, k.split, l.split, n.split) at e))
    ]
  ]
]

parse_parts-modes :
    (h : Host) (spec host container : String) (m : Mode)
    → free is_colon host ≡ true
    → free is_colon container ≡ true
    → parse_parts h spec (parts is_colon (host ++ₛ (":" ++ₛ (container ++ₛ suffix m))))
      ≡ checked h host container (is_ro m)
unfolding free
parse_parts-modes h spec host container plain f g = ap (parse_parts h spec) (
    ap (λ t. parts is_colon (host ++ₛ (":" ++ₛ t))) (append-nil container)
    ∙ parts-two host container f g)
parse_parts-modes h spec host container ro f g =
    ap (parse_parts h spec) (parts-three host container "ro" f g refl)
parse_parts-modes h spec host container rw_mode f g =
    ap (parse_parts h spec) (parts-three host container "rw" f g refl)

parse-of-Accepted :
    (h : Host) (spec : String) (v : VolumeMount) → Accepted h spec v → parse h spec ≡ ok v
unfolding parse
parse-of-Accepted h spec v a =
    ap (λ t. parse_parts h spec (parts is_colon t)) a.spec_is
    ∙ (parse_parts-modes h spec a.host a.container a.mode a.host_free a.container_free
        ∙ (rw (a.is_there, a.absolute, if◌then◌else◌) (ap ok (sym a.value))))

-- `VolumeMount.parse` accepts exactly the specifications `host:container`, alone or with `:ro` or
-- `:rw`, whose paths have no colon, whose resolved host path is there and whose container path is
-- absolute; it returns these paths, read-only exactly with `:ro`.
pub parse-Accepted :
    (h : Host) (spec : String) (v : VolumeMount) → (parse h spec ≡ ok v) ↔ Accepted h spec v
parse-Accepted h spec v = (Accepted-of-parse h spec v, parse-of-Accepted h spec v)
