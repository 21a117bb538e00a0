-- ===== src/Common/Number/Laws.antt =====
-- Lemmas on printed and parsed numbers.
use Prim.Native.Nat.{ℕ, zero, suc, ◌+◌, ◌*◌, ◌-◌, ◌/◌, ◌%◌, ◌<◌}
use Prim.Native.Char.{Char, code}
use Prim.Native.String.{String, [], ◌∷◌}
use mathlib.Core.Path.{◌≡◌, refl, ◌∙◌, ap, subst}
use mathlib.Core.Logic.{◌≢◌, inl, inr}
use mathlib.Core.Bool.{true, false}
use mathlib.Core.List.{List}
use native.Mathlib.Omega.{arith}
use identity_vault.Common.Tests.{Bool-cases, ltb}
use identity_vault.Common.Text.{codes}
use identity_vault.Common.Text.Laws.{Lacks}
use identity_vault.Common.Number.{pos, digit, print_digits, show, is_digit, scan_digits, parse_int}

code-digit : (d : ℕ) → d < 10 → code (digit d) ≡ b'0' + d
code-digit zero h = refl
code-digit (suc zero) h = refl
code-digit (suc (suc zero)) h = refl
code-digit (suc (suc (suc zero))) h = refl
code-digit (suc (suc (suc (suc zero)))) h = refl
code-digit (suc (suc (suc (suc (suc zero))))) h = refl
code-digit (suc (suc (suc (suc (suc (suc zero)))))) h = refl
code-digit (suc (suc (suc (suc (suc (suc (suc zero))))))) h = refl
code-digit (suc (suc (suc (suc (suc (suc (suc (suc zero)))))))) h = refl
code-digit (suc (suc (suc (suc (suc (suc (suc (suc (suc zero))))))))) h = refl
code-digit (suc (suc (suc (suc (suc (suc (suc (suc (suc (suc d)))))))))) h = absurd (omega arith)

-- One digit is read behind the value of those before it.
scan_digits-digit :
    (d n : ℕ) (s : List ℕ)
    → d < 10
    → scan_digits n (List.◌∷◌ (code (digit d)) s) ≡ scan_digits (n * 10 + d) s
unfolding scan_digits
scan_digits-digit d n s h =
    let e : b'0' + d - b'0' ≡ d = omega arith in rw (code-digit d h, e) (ground arith)

scan_digits-print :
    (f n : ℕ) (out : String)
    → n < f
    → scan_digits 0 (codes (print_digits f n out)) ≡ scan_digits n (codes out)
unfolding print_digits
scan_digits-print zero n out h = elim h [ ]
scan_digits-print (suc f) n out h = elim (Bool-cases (ltb n 10)) [
  | inl low ↦
      let e : 0 * 10 + n ≡ n = omega arith in
      rw low (scan_digits-digit n 0 (codes out) (ground arith) ∙ rw e)
  | inr high ↦
      let e : n / 10 * 10 + n % 10 ≡ n = omega arith in
      rw high (
        scan_digits-print f (n / 10) (digit (n % 10) ∷ out) (ground arith)
        ∙ scan_digits-digit (n % 10) (n / 10) (codes out) (omega arith)
        ∙ rw e)
]

-- What is printed begins with a digit.
abbrev Begins : String → Type 0
Begins [] = ⊥
Begins (c ∷ s) = is_digit (code c) ≡ true

is_digit-digit : (d : ℕ) → d < 10 → is_digit (code (digit d)) ≡ true
is_digit-digit d h = rw (code-digit d h) (ground arith)

print-Begins : (f n : ℕ) (out : String) → n < f → Begins (print_digits f n out)
unfolding print_digits
print-Begins zero n out h = elim h [ ]
print-Begins (suc f) n out h = elim (Bool-cases (ltb n 10)) [
  | inl low ↦ rw low (is_digit-digit n (ground arith))
  | inr high ↦ rw high (print-Begins f (n / 10) (digit (n % 10) ∷ out) (ground arith))
]

parse_int_of_Begins : (s : String) → Begins s → parse_int s ≡ pos (scan_digits 0 (codes s))
unfolding parse_int
parse_int_of_Begins [] h = elim h [ ]
parse_int_of_Begins (c ∷ s) h = ground arith

-- `parseInt('' + n, 10)` is `n`.
pub parse_int-show : (n : ℕ) → parse_int (show n) ≡ pos n
unfolding show scan_digits
parse_int-show n =
    parse_int_of_Begins _ (print-Begins (suc n) n [] (omega arith))
    ∙ ap pos (scan_digits-print (suc n) n [] (omega arith))

print-Lacks :
    (sep f n : ℕ) (out : String)
    → sep < b'0'
    → n < f
    → Lacks sep out
    → Lacks sep (print_digits f n out)
unfolding print_digits
print-Lacks sep zero n out k h l = l
print-Lacks sep (suc f) n out k h l = elim (Bool-cases (ltb n 10)) [
  | inl low ↦ rw low (rw (code-digit n (ground arith)) (omega arith), l)
  | inr high ↦ rw high (
      print-Lacks sep f (n / 10) (digit (n % 10) ∷ out) k (ground arith)
        (rw (code-digit (n % 10) (omega arith)) (omega arith), l))
]

-- A printed number holds no character below the digits, such as a slash or a comma.
pub show-Lacks : (sep n : ℕ) → sep < b'0' → Lacks sep (show n)
unfolding show
show-Lacks sep n h = print-Lacks sep (suc n) n [] h (omega arith) tt

-- It does not begin with a letter, so it is no word.
pub show-ne-word : (n : ℕ) (c : Char) (s : String) → is_digit (code c) ≡ false → show n ≢ c ∷ s
unfolding show
show-ne-word n c s h e = let b = subst Begins e (print-Begins (suc n) n [] (omega arith)) in cc

pub show-ne-nil : (n : ℕ) → show n ≢ []
unfolding show
show-ne-nil n e = subst Begins e (print-Begins (suc n) n [] (omega arith))

-- All of the codes are digits.
abbrev pub AreDigits : List ℕ → Type 0
AreDigits List.[] = Unit
AreDigits (List.◌∷◌ c cs) = (is_digit c ≡ true) × AreDigits cs

print-AreDigits :
    (f n : ℕ) (out : String)
    → n < f
    → AreDigits (codes out)
    → AreDigits (codes (print_digits f n out))
unfolding print_digits
print-AreDigits zero n out h l = l
print-AreDigits (suc f) n out h l = elim (Bool-cases (ltb n 10)) [
  | inl low ↦ rw low (is_digit-digit n (ground arith), l)
  | inr high ↦ rw high (
      print-AreDigits f (n / 10) (digit (n % 10) ∷ out) (ground arith)
        (is_digit-digit (n % 10) (omega arith), l))
]

-- A printed number is digits.
pub show-AreDigits : (n : ℕ) → AreDigits (codes (show n))
unfolding show
show-AreDigits n = print-AreDigits (suc n) n [] (omega arith) tt
