-- ===== src/Startup.antt =====
-- webapp-admin/src/index.js and components/Header.js: the language of the pages, kept in the local
-- storage, and the renderings of the application. A rendering first asks for the token; the language
-- is read before that, and the application is put in place when the answer comes.
use identity_vault.Common.{
  ℕ, zero, suc, String, Option, none, some, List, [], ◌∷◌, ◌++◌, if◌then◌else◌,
}
use identity_vault.Utils.{Token, is_set, or_empty, get_auth_token}
use identity_vault.Http.{JsonParse, Response}

-- The application in the page: the language it was rendered with, and its token.
pub record Mounted : Type 0 where
  pub locale : String
  pub token : Token

-- `locale` is the item of the local storage; `waiting` holds the languages of the renderings that wait
-- for their token, the oldest first.
pub record Window : Type 0 where
  pub locale : Option String
  pub mounted : Option Mounted
  pub waiting : List String

unfoldable pub get_locale : Window → String
get_locale w = if is_set w.locale then or_empty w.locale else "en"

unfoldable pub set_locale : String → Window → Window
set_locale lang w = record w { locale = some lang }

-- `render()`, up to the request for the token.
unfoldable pub render : Window → Window
unfolding get_locale
render w = record w { waiting = w.waiting ++ get_locale w ∷ [] }

unfoldable pub unmount : Window → Window
unmount w = record w { mounted = none }

unfoldable pub rerender : Window → Window
unfolding render unmount
rerender w = render (unmount w)

-- The window before the script, and after it.
abbrev pub loaded : Option String → Window
loaded locale = record { locale = locale; mounted = none; waiting = [] }

unfoldable pub started : Option String → Window
unfolding render
started locale = render (loaded locale)

-- The waiting rendering at a place of the list, and those that stay.
abbrev pub take_at : ℕ → List String → Option (String × List String)
take_at i [] = none
take_at zero (x ∷ xs) = some (x, xs)
take_at (suc i) (x ∷ xs) = elim (take_at i xs) [ none ↦ none | some (y, ys) ↦ some (y, x ∷ ys) ]

abbrev pub put_in_place : Option Token → String → List String → Window → Window
put_in_place none locale rest w = record w { waiting = rest }
put_in_place (some token) locale rest w = record w {
  mounted = some (record { locale = locale; token = token });
  waiting = rest;
}

-- The answer with the token for one of the waiting renderings; where the reading of it throws, nothing
-- is put in place.
unfoldable pub on_token :
    (String → Option (Option Token)) → JsonParse → ℕ → Response → Window → Window
unfolding get_auth_token
on_token jwt_decode parse i response w = elim (take_at i w.waiting) [
  | none ↦ w
  | some (locale, rest) ↦ put_in_place (get_auth_token jwt_decode parse response) locale rest w
]
