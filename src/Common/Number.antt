-- ===== src/Common/Number.antt =====
-- The numbers of the pages: integers and `NaN`, with `===`, `parseInt(s, 10)` and the conversion of
-- a number to text. Integers are exact; a double is exact below 2^53.
pub mod Laws
use Prim.Native.Nat.{ℕ, zero, suc, ◌+◌, ◌-◌, ◌*◌, ◌/◌, ◌%◌}
use Prim.Native.Char.{Char}
use Prim.Native.String.{String, [], ◌∷◌}
use mathlib.Core.Bool.{Bool, true, false, ◌&&◌, ◌||◌, not}
use mathlib.Core.List
use mathlib.Core.List.{List}
use identity_vault.Common.Tests.{ltb, leb, ◌==◌, if◌then◌else◌}
use identity_vault.Common.Text.{codes, ◌<>◌}

-- `negsuc n` is -(n + 1).
pub data Number : Type 0 where
  nan : Number
  pos : ℕ → Number
  negsuc : ℕ → Number

-- `a === b`: `NaN` equals nothing, itself included.
abbrev pub same : Number → Number → Bool
same (pos a) (pos b) = a == b
same (negsuc a) (negsuc b) = a == b
same _ _ = false

-- `!!a`
abbrev pub is_truthy : Number → Bool
is_truthy nan = false
is_truthy (pos n) = not (n == 0)
is_truthy (negsuc n) = true

abbrev pub negate : ℕ → Number
negate zero = pos 0
negate (suc n) = negsuc n

abbrev pub digit : ℕ → Char
digit zero = "0"
digit (suc zero) = "1"
digit (suc (suc zero)) = "2"
digit (suc (suc (suc zero))) = "3"
digit (suc (suc (suc (suc zero)))) = "4"
digit (suc (suc (suc (suc (suc zero))))) = "5"
digit (suc (suc (suc (suc (suc (suc zero)))))) = "6"
digit (suc (suc (suc (suc (suc (suc (suc zero))))))) = "7"
digit (suc (suc (suc (suc (suc (suc (suc (suc zero)))))))) = "8"
digit _ = "9"

-- The digits of `n` in front of `out`; a number has fewer digits than its successor counts.
print_digits : ℕ → ℕ → String → String
print_digits zero n out = out
print_digits (suc f) n out =
    let more = print_digits f (n / 10) (digit (n % 10) ∷ out) in
    if ltb n 10 then digit n ∷ out else more

-- `'' + n` for a natural number.
unfoldable pub show : ℕ → String
unfolding print_digits
show n = print_digits (suc n) n []

unfoldable pub show_number : Number → String
unfolding show
show_number nan = "NaN"
show_number (pos n) = show n
show_number (negsuc n) = "-" <> show (suc n)

abbrev pub is_digit : ℕ → Bool
is_digit c = leb b'0' c && leb c b'9'

is_space : ℕ → Bool
is_space c =
    (leb 9 c && leb c 13)
    || c == 32
    || c == 160
    || c == 5760
    || (leb 8192 c && leb c 8202)
    || c == 8232
    || c == 8233
    || c == 8239
    || c == 8287
    || c == 12288
    || c == 65279

-- The digits at the front, behind the value of those before them.
scan_digits : ℕ → List ℕ → ℕ
scan_digits n List.[] = n
scan_digits n (List.◌∷◌ c s) =
    let rest = scan_digits (n * 10 + (c - b'0')) s in if is_digit c then rest else n

unsigned : (ℕ → Number) → List ℕ → Number
unsigned sign List.[] = nan
unsigned sign (List.◌∷◌ c s) = if is_digit c then sign (scan_digits 0 (List.◌∷◌ c s)) else nan

signed : List ℕ → Number
signed List.[] = nan
signed (List.◌∷◌ c s) =
    if c == b'-'
    then unsigned negate s
    else if c == b'+'
    then unsigned pos s
    else unsigned pos (List.◌∷◌ c s)

skip_space : List ℕ → List ℕ
skip_space List.[] = List.[]
skip_space (List.◌∷◌ c s) = let rest = skip_space s in if is_space c then rest else List.◌∷◌ c s

-- `parseInt(s, 10)`
unfoldable pub parse_int : String → Number
unfolding signed unsigned scan_digits skip_space is_space
parse_int s = signed (skip_space (codes s))
