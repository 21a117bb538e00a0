-- ===== src/Common/Text.antt =====
-- Text: `split`, `join`, `startsWith`, concatenation and `slice` of the strings that the pages use.
-- A `String` is a sequence of code points; the pages' texts are compared and cut where the two
-- readings (code points, UTF-16 units) agree.
pub mod Laws
use Prim.Native.Nat.{ℕ, zero, suc, ◌+◌}
use Prim.Native.Char.{Char, code}
use Prim.Native.String
use Prim.Native.String.{String, [], ◌∷◌}
use mathlib.Core.Bool.{Bool, true, false, ◌&&◌}
use mathlib.Core.List
use mathlib.Core.List.{List}
use identity_vault.Common.Tests.{◌==◌, leb, if◌then◌else◌}

infixr 65 ◌<>◌
abbrev pub ◌<>◌ : String → String → String
s <> t = String.◌++◌ s t

-- The code points of a text.
abbrev pub codes : String → List ℕ
codes [] = List.[]
codes (c ∷ s) = List.◌∷◌ (code c) (codes s)

-- `c` in front of the first part.
abbrev pub push_head : Char → List String → List String
push_head c List.[] = List.◌∷◌ (c ∷ []) List.[]
push_head c (List.◌∷◌ w ws) = List.◌∷◌ (c ∷ w) ws

-- `s.split(sep)`, with `sep` the code of one character.
unfoldable pub split : ℕ → String → List String
split sep [] = List.◌∷◌ [] List.[]
split sep (c ∷ s) =
    let rest = split sep s in if code c == sep then List.◌∷◌ [] rest else push_head c rest

-- `parts.join(sep)`
unfoldable pub join : String → List String → String
join sep List.[] = []
join sep (List.◌∷◌ w List.[]) = w
join sep (List.◌∷◌ w (List.◌∷◌ v ws)) = w <> sep <> join sep (List.◌∷◌ v ws)

-- `s.startsWith(p)`
unfoldable pub starts_with : String → String → Bool
starts_with s [] = true
starts_with [] (d ∷ p) = false
starts_with (c ∷ s) (d ∷ p) = (code c == code d) && starts_with s p

-- `s.slice(0, n)`
unfoldable pub slice_to : ℕ → String → String
slice_to zero s = []
slice_to (suc n) [] = []
slice_to (suc n) (c ∷ s) = c ∷ slice_to n s

-- `s.length`
unfoldable pub length : String → ℕ
length [] = 0
length (c ∷ s) = suc (length s)

-- `s.includes(p)`
unfoldable pub includes : String → String → Bool
unfolding starts_with
includes [] p = starts_with [] p
includes (c ∷ s) p = let rest = includes s p in if starts_with (c ∷ s) p then true else rest

-- One character in lower case. Outside ASCII no character has a letter of the pages' words as its
-- lower case.
abbrev pub lower : ℕ → ℕ
lower c = if (if leb b'A' c then leb c b'Z' else false) then c + 32 else c

abbrev pub same_codes : List ℕ → List ℕ → Bool
same_codes List.[] List.[] = true
same_codes (List.◌∷◌ a as') (List.◌∷◌ b bs) =
    let rest = same_codes as' bs in if a == b then rest else false
same_codes _ _ = false

-- `s.toLowerCase() === word`, for a word of ASCII letters in lower case.
unfoldable pub is_word : String → String → Bool
is_word s word = same_codes (List.map lower (codes s)) (codes word)
