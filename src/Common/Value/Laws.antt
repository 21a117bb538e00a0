-- ===== src/Common/Value/Laws.antt =====
-- Lemmas on the fields of objects and on `===`.
use Prim.Native.String.{String}
use mathlib.Core.Path.{◌≡◌, refl, ap}
use mathlib.Core.Bool.{true, false}
use mathlib.Core.List.{List, [], ◌∷◌}
use native.Mathlib.Omega.{arith}
use text.Mathlib.Text.{◌==◌ as str_eq}
use text.Mathlib.TextEquality.{eq_iff}
use identity_vault.Common.Tests.{if◌then◌else◌}
use identity_vault.Common.Value.{
  Value, undefined, null, flag, number, str, Fields, end, field, same_value, get, put, elements,
  items,
}

pub get-put :
    (j k : String) (v : Value) (o : Fields)
    → get j (put k v o) ≡ (if str_eq k j then v else get j o)
unfolding get put
get-put j k v end = refl
get-put j k v (field i w fs) = ground (arith, eq_iff k j, eq_iff i k, eq_iff i j, get-put j k v fs)

pub elements-items : (xs : List Value) → elements (items xs) ≡ xs
elements-items [] = refl
elements-items (x ∷ xs) = ap (λ ys. x ∷ ys) (elements-items xs)

-- Two values that are `===` are equal.
pub eq_of_same_value : (a b : Value) → same_value a b ≡ true → a ≡ b
unfolding same_value
eq_of_same_value (str s) (str t) h = ap str ((eq_iff s t).0 h)
eq_of_same_value (number a) (number b) h = ground arith
eq_of_same_value (flag true) (flag b) h = ground arith
eq_of_same_value (flag false) (flag b) h = ground arith
eq_of_same_value undefined undefined h = refl
eq_of_same_value null null h = refl
eq_of_same_value a b h = cc
