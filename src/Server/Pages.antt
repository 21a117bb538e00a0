-- ===== src/Server/Pages.antt =====
-- The paths of the pages in webapp-admin/src at the routes of service/router.go: what a browser asks
-- for when it follows a link, is sent to another page, or loads a page anew.
use identity_vault.Common.{
  ℕ, String, Bool, true, false, not, ◌&&◌, ◌≡◌, Option, none, some, List, [], ◌∷◌, code, str_eq,
  if◌then◌else◌, ◌==◌,
}
use text.Mathlib.TextLemmas.{append-nil as append_nil}
use identity_vault.Common.Text.{◌<>◌}
use identity_vault.Http.{Method, get}
use identity_vault.Utils.Paths.{clashes}
use identity_vault.Server.{lit, Pattern, path, prefix, Route, admin_routes}
use identity_vault.Server.Matching.{Mux}

-- No path of the section fits the pattern.
abbrev passes : String → Pattern → Bool
passes s (path (lit w ∷ ts)) = not (str_eq w s)
passes s (path ts) = false
passes s (prefix p) = clashes ("/" <> s) p

-- Every path of the section is given to the pages.
abbrev takes_all : String → Option Method → Pattern → String → Bool
takes_all s none (prefix p) handler = str_eq p ("/" <> s) && str_eq handler "app.Index"
takes_all s m p handler = false

abbrev leads : String → List Route → Bool
leads s [] = false
leads s (r ∷ rs) =
    let rest = leads s rs in
    if passes s r.pattern then rest else takes_all s r.method r.pattern r.handler

abbrev lacks : ℕ → String → Bool
lacks sep String.[] = true
lacks sep (String.◌∷◌ c s) = not (code c == sep) && lacks sep s

abbrev pub ServesPage : Mux → String → Type 0
ServesPage mux l = mux.serve admin_routes get ("/" <> l) ≡ some "app.Index"
