-- ===== src/Server/Matching.antt =====
-- The library gorilla/mux, as far as service/router.go relies on it: a request goes to the first of the
-- routes, in the order they were added, whose method and template fit its path.
use identity_vault.Common.{
  ℕ, String, Bool, true, false, ◌&&◌, ◌≡◌, Option, none, some, List, [], ◌∷◌, str_eq, all, not,
  ◌||◌, leb, ◌==◌, if◌then◌else◌,
}
use identity_vault.Common.Text.{starts_with, codes, split, ◌<>◌}
use identity_vault.Common.Number.{is_digit}
use identity_vault.Http.{Method, get, post, put, delete}
use identity_vault.Utils.{parts_of}
use identity_vault.Server.{Segment, lit, digits, any, Pattern, path, prefix, Route}

abbrev pub all_digits : List ℕ → Bool
all_digits [] = true
all_digits (c ∷ cs) = is_digit c && all_digits cs

-- `[0-9]+`
unfoldable pub is_number : String → Bool
is_number s = if str_eq s "" then false else all_digits (codes s)

abbrev pub fits_segment : Segment → String → Bool
fits_segment (lit word) s = str_eq word s
fits_segment digits s = is_number s
fits_segment any s = if str_eq s "" then false else true

abbrev pub fits : List Segment → List String → Bool
fits [] [] = true
fits (t ∷ ts) (s ∷ ss) = let rest = fits ts ss in if fits_segment t s then rest else false
fits _ _ = false

abbrev pub same_method : Method → Method → Bool
same_method get get = true
same_method post post = true
same_method put put = true
same_method delete delete = true
same_method _ _ = false

abbrev pub has_method : Option Method → Method → Bool
has_method none m = true
has_method (some n) m = same_method n m

abbrev pub fits_pattern : Pattern → String → List String → Bool
fits_pattern (path template) url parts = fits template parts
fits_pattern (prefix text) url parts = starts_with url text

-- The handler of the first route that fits a request, for its path and the parts of it.
abbrev pub first_of : List Route → Method → String → List String → Option String
first_of [] m url parts = none
first_of (r ∷ rs) m url parts =
    let rest = first_of rs m url parts in
    if has_method r.method m
    then (if fits_pattern r.pattern url parts then some r.handler else rest)
    else rest

abbrev pub first_fit : List Route → Method → String → Option String
first_fit routes m url = first_of routes m url (parts_of url)

-- A part of a path that stands for itself in an address, and that the router does not clean away: of
-- letters, digits and the signs that an address never escapes, and neither empty nor one or two full
-- stops.
abbrev pub is_unreserved : ℕ → Bool
is_unreserved c =
    (leb b'a' c && leb c b'z')
    || (leb b'A' c && leb c b'Z')
    || is_digit c
    || c == b'-'
    || c == b'.'
    || c == b'_'
    || c == b'~'

unfoldable pub is_part : String → Bool
is_part s = not (str_eq s "" || str_eq s "." || str_eq s "..") && all is_unreserved (codes s)

-- The router: the handler that it gives a request to, with what its documentation says of the choice
-- for an address all of whose parts are such. It reads any other decoded and cleaned, and of that
-- nothing is said here.
pub record Mux : Type 0 where
  pub serve : List Route → Method → String → Option String
  pub documented :
      (routes : List Route) (m : Method) (rest : String)
      → all is_part (split b'/' rest) ≡ true
      → serve routes m ("/" <> rest) ≡ first_fit routes m ("/" <> rest)
