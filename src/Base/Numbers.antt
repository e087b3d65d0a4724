-- ===== src/Base/Numbers.antt =====
-- `int` of a text of decimal digits, and that it reads what `str` writes. A sign and underscores,
-- which `int` accepts too, are left out.
use Prim.Native.Nat.{ℕ, zero, suc, ◌+◌, ◌-◌, ◌*◌, ◌/◌, ◌%◌, ◌<◌}
use Prim.Native.Char.{Char, code}
use Prim.Native.String.append
use Prim.Native.String.{String, [], ◌∷◌, ◌++◌}
use mathlib.Core.Path.{◌≡◌, refl, sym, ap, ◌∙◌}
use mathlib.Core.Logic.{inl, inr}
use mathlib.Core.Bool.{Bool, true, false, ◌&&◌}
use mathlib.Core.Option.{Option, none, some}
use native.Mathlib.Omega.{arith}
use pycrate.Base.Logic.{leb, ltb, ltb→lt, if◌then◌else◌, Bool-cases}
use pycrate.Base.Strings.{is_empty, lstrip_keeps, is_space, lstrip, rstrip, strip}
use pycrate.Base.Decimal.{decimal, digits, digit}

abbrev pub is_digit : Char → Bool
is_digit c = leb 48 (code c) && leb (code c) 57

unfoldable pub scan : String → ℕ → Option ℕ
scan [] n = some n
scan (c ∷ s) n = if is_digit c then scan s (n * 10 + (code c - 48)) else none

-- `int`, where the text is not stripped.
unfoldable pub number : String → Option ℕ
unfolding scan
number [] = none
number (c ∷ s) = scan (c ∷ s) 0

and_then : Option ℕ → (ℕ → Option ℕ) → Option ℕ
and_then none f = none
and_then (some n) f = f n

scan-append : (s t : String) (n : ℕ) → scan (s ++ t) n ≡ and_then (scan s n) (scan t)
unfolding scan and_then
scan-append [] t n = ap (λ v. scan v n) (append.nil t)
scan-append (c ∷ s) t n =
    let step : scan (c ∷ (s ++ t)) n ≡ and_then (scan (c ∷ s) n) (scan t) =
      elim (Bool-cases (is_digit c)) [
        | inl e ↦ rw (e, if◌then◌else◌) (scan-append s t (n * 10 + (code c - 48)))
        | inr e ↦ rw (e, if◌then◌else◌)
      ] in
    ap (λ v. scan v n) (append.cons c s t) ∙ step

scan-digit : (d n : ℕ) → d < 10 → scan (digit d) n ≡ some (n * 10 + d)
unfolding scan
scan-digit zero n h = refl
scan-digit (suc zero) n h = refl
scan-digit (suc (suc zero)) n h = refl
scan-digit (suc (suc (suc zero))) n h = refl
scan-digit (suc (suc (suc (suc zero)))) n h = refl
scan-digit (suc (suc (suc (suc (suc zero))))) n h = refl
scan-digit (suc (suc (suc (suc (suc (suc zero)))))) n h = refl
scan-digit (suc (suc (suc (suc (suc (suc (suc zero))))))) n h = refl
scan-digit (suc (suc (suc (suc (suc (suc (suc (suc zero)))))))) n h = refl
scan-digit (suc (suc (suc (suc (suc (suc (suc (suc (suc zero))))))))) n h = refl
scan-digit (suc (suc (suc (suc (suc (suc (suc (suc (suc (suc d)))))))))) n h =
    absurd (omega (arith, h))

scan-digits : (f n : ℕ) → n < f → scan (digits f n) 0 ≡ some n
unfolding digits scan and_then
scan-digits zero n h = absurd (omega (arith, h))
scan-digits (suc f) n h = elim (Bool-cases (ltb n 10)) [
  | inl e ↦ rw (e, if◌then◌else◌) (scan-digit n 0 (ltb→lt n 10 e) ∙ ap some (omega arith))
  | inr e ↦
      rw (e, if◌then◌else◌)
        (scan-append (digits f (n / 10)) (digit (n % 10)) 0
          ∙ ap (λ o. and_then o (scan (digit (n % 10))))
              (scan-digits f (n / 10) (ground (arith, e, h)))
          ∙ scan-digit (n % 10) (n / 10) (omega arith)
          ∙ ap some (omega arith))
]

-- Digits are no spaces: a text of digits is as it is when it is stripped, also of a line's end.
unfoldable pub all_digits : String → Bool
all_digits [] = true
all_digits (c ∷ s) = is_digit c && all_digits s

all_digits-append : (s t : String) → all_digits (s ++ t) ≡ (all_digits s && all_digits t)
unfolding all_digits
all_digits-append [] t = ap all_digits (append.nil t)
all_digits-append (c ∷ s) t =
    let step : (is_digit c && all_digits (s ++ t))
        ≡ ((is_digit c && all_digits s) && all_digits t) =
      ground (arith, all_digits-append s t) in
    ap all_digits (append.cons c s t) ∙ step

all_digits_of-scan : (s : String) (n m : ℕ) → scan s n ≡ some m → all_digits s ≡ true
unfolding scan all_digits
all_digits_of-scan [] n m h = refl
all_digits_of-scan (c ∷ s) n m h = elim (Bool-cases (is_digit c)) [
  | inl e ↦
      rw (e, ◌&&◌) (all_digits_of-scan s (n * 10 + (code c - 48)) m (rw (e, if◌then◌else◌) at h))
  | inr e ↦ absurd (cc (rw (e, if◌then◌else◌) at h))
]

digit_not-space : (c : Char) → is_digit c ≡ true → is_space c ≡ false
unfolding is_space
digit_not-space c h = ground (arith, h)

rstrip-line : (s : String) → all_digits s ≡ true → rstrip (s ++ "\n") ≡ s
unfolding rstrip all_digits is_space
rstrip-line [] h = ap rstrip (append.nil "\n")
rstrip-line (c ∷ s) h =
    let digit_first : is_digit c ≡ true = ground (arith, h) in
    let step : rstrip (c ∷ (s ++ "\n")) ≡ c ∷ s =
      rw (digit_not-space c digit_first, rstrip-line s (ground (arith, h))) in
    ap rstrip (append.cons c s "\n") ∙ step

strip-line : (s : String) → all_digits s ≡ true → is_empty s ≡ false → strip (s ++ "\n") ≡ s
unfolding strip all_digits
strip-line [] h e = absurd (cc e)
strip-line (c ∷ s) h e =
    let digit_first : is_digit c ≡ true = ground (arith, h) in
    ap (λ t. rstrip (lstrip t)) (append.cons c s "\n")
    ∙ ap rstrip (lstrip_keeps c (s ++ "\n") (digit_not-space c digit_first))
    ∙ ap rstrip (sym (append.cons c s "\n"))
    ∙ rstrip-line (c ∷ s) h

digit-nonempty : (d : ℕ) → d < 10 → is_empty (digit d) ≡ false
digit-nonempty zero h = refl
digit-nonempty (suc zero) h = refl
digit-nonempty (suc (suc zero)) h = refl
digit-nonempty (suc (suc (suc zero))) h = refl
digit-nonempty (suc (suc (suc (suc zero)))) h = refl
digit-nonempty (suc (suc (suc (suc (suc zero))))) h = refl
digit-nonempty (suc (suc (suc (suc (suc (suc zero)))))) h = refl
digit-nonempty (suc (suc (suc (suc (suc (suc (suc zero))))))) h = refl
digit-nonempty (suc (suc (suc (suc (suc (suc (suc (suc zero)))))))) h = refl
digit-nonempty (suc (suc (suc (suc (suc (suc (suc (suc (suc zero))))))))) h = refl
digit-nonempty (suc (suc (suc (suc (suc (suc (suc (suc (suc (suc d)))))))))) h =
    absurd (omega (arith, h))

is_empty-append : (s t : String) → is_empty t ≡ false → is_empty (s ++ t) ≡ false
is_empty-append [] t h = ap is_empty (append.nil t) ∙ h
is_empty-append (c ∷ s) t h = ap is_empty (append.cons c s t)

digits-nonempty : (f n : ℕ) → is_empty (digits (suc f) n) ≡ false
unfolding digits
digits-nonempty f n = elim (Bool-cases (ltb n 10)) [
  | inl e ↦ rw (e, if◌then◌else◌) (digit-nonempty n (ltb→lt n 10 e))
  | inr e ↦
      rw (e, if◌then◌else◌)
        (is_empty-append (digits f (n / 10)) (digit (n % 10))
          (digit-nonempty (n % 10) (omega arith)))
]

number_of-nonempty :
    (s : String) (n : ℕ) → scan s 0 ≡ some n → is_empty s ≡ false → number s ≡ some n
unfolding number
number_of-nonempty [] n h e = absurd (cc e)
number_of-nonempty (c ∷ s) n h e = h

-- `int((str(n) + "\n").strip())` is n.
pub number-strip-decimal : (n : ℕ) → number (strip (decimal n ++ "\n")) ≡ some n
unfolding decimal
number-strip-decimal n =
    let text = digits (suc n) n in
    let read = scan-digits (suc n) n (omega arith) in
    ap number (strip-line text (all_digits_of-scan text 0 n read) (digits-nonempty n n))
    ∙ number_of-nonempty text n read (digits-nonempty n n)
