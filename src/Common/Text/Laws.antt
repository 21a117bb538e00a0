-- ===== src/Common/Text/Laws.antt =====
-- Lemmas on texts: separators, parts and prefixes.
use Prim.Native.Nat.{ℕ}
use Prim.Native.Char.{Char, code}
use Prim.Native.String.{String, [], ◌∷◌}
use mathlib.Core.Path.{◌≡◌, refl, ap, ◌∙◌}
use mathlib.Core.Logic.{◌≢◌}
use mathlib.Core.List.{List}
use native.Mathlib.Omega.{arith}
use text.Mathlib.TextLemmas.{nil-append, cons-append}
use identity_vault.Common.Lists.{All}
use identity_vault.Common.Text.{◌<>◌, split, join}

-- No character of the text has the code `sep`.
abbrev pub Lacks : ℕ → String → Type 0
Lacks sep [] = Unit
Lacks sep (c ∷ s) = (code c ≢ sep) × Lacks sep s

pub Lacks-append : (sep : ℕ) (s t : String) → Lacks sep s → Lacks sep t → Lacks sep (s <> t)
Lacks-append sep [] t h k = rw nil-append k
Lacks-append sep (c ∷ s) t h k = rw cons-append (h.0, Lacks-append sep s t h.1 k)

-- A text without the separator is its own only part.
pub split_of_Lacks : (sep : ℕ) (s : String) → Lacks sep s → split sep s ≡ List.◌∷◌ s List.[]
unfolding split
split_of_Lacks sep [] h = refl
split_of_Lacks sep (c ∷ s) h = ground (arith, split_of_Lacks sep s h.1)

-- The part before the first separator.
pub split-append_sep :
    (sep : ℕ) (s : String) (c : Char) (t : String)
    → Lacks sep s
    → code c ≡ sep
    → split sep (s <> c ∷ t) ≡ List.◌∷◌ s (split sep t)
unfolding split
split-append_sep sep [] c t h e = rw nil-append (ground arith)
split-append_sep sep (d ∷ s) c t h e =
    rw cons-append (ground (arith, split-append_sep sep s c t h.1 e))

abbrev pub char : Char → String
char c = String.◌∷◌ c ""

pub char-append : (c : Char) (s : String) → char c <> s ≡ String.◌∷◌ c s
char-append c s = cons-append c "" s ∙ ap (String.◌∷◌ c) (nil-append s)

-- `split` undoes `join`, if no part holds the separator.
pub split-join :
    (c : Char) (p : String) (ps : List String)
    → All (Lacks (code c)) (List.◌∷◌ p ps)
    → split (code c) (join (char c) (List.◌∷◌ p ps)) ≡ List.◌∷◌ p ps
unfolding join
split-join c p List.[] h = split_of_Lacks (code c) p h.0
split-join c p (List.◌∷◌ q qs) h = rw (char-append c (join (char c) (List.◌∷◌ q qs))) (
    split-append_sep (code c) p c (join (char c) (List.◌∷◌ q qs)) h.0 refl
    ∙ ap (λ r. List.◌∷◌ p r) (split-join c q qs h.1))

pub Lacks-join :
    (sep : ℕ) (c : Char) (ps : List String)
    → code c ≢ sep
    → All (Lacks sep) ps
    → Lacks sep (join (char c) ps)
unfolding join
Lacks-join sep c List.[] h k = tt
Lacks-join sep c (List.◌∷◌ p List.[]) h k = k.0
Lacks-join sep c (List.◌∷◌ p (List.◌∷◌ q qs)) h k =
    Lacks-append sep p _ k.0 (
      rw (char-append c (join (char c) (List.◌∷◌ q qs)))
        (h, Lacks-join sep c (List.◌∷◌ q qs) h k.1))
